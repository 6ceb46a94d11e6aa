-- ===== src/VerificationResult/Recorded.antt =====
-- Where the recorded checks come from.
use praxis_bound.Declarations.{
  Declaration, declaration, entry, split_declaration, read_section_bullets,
}
use praxis_bound.Verification.Vocabulary.{Layer}
use praxis_bound.VerificationResult.Vocabulary.{
  CheckStatus, RecordedCheck, layer_of, check_status_of, failed_check,
}
use praxis_bound.VerificationResult.Record.{
  split_observation, Checks, no_checks, check_observed, check_layer, check_entry, check_bullet,
  read_checks,
}
use praxis_bound.Common.{
  ◌≡◌, refl, inl, inr, false, Option, none, some, List, [], ◌∷◌, ◌++◌, Bool-cases, or_false, All,
  All-append, Text, lit, contains, In, each_all, All-In,
}

-- A bullet of the section records the layer with the status.
pub IsRecorded : List Text → RecordedCheck → Type 0
IsRecorded bullets check =
    (bullet label value : Text) × In bullet bullets
    × (split_declaration bullet ≡ declaration label value)
    × (layer_of label ≡ some check.layer)
    × (check_status_of (split_observation value).status ≡ some check.status)

-- The recorded checks come from bullets, and none failed unless the walk says so.
pub record AreRecorded (bullets : List Text) (s : Checks) : Type 0 where
  pub recorded : All (IsRecorded bullets) s.checks
  pub unfailed : s.failed ≡ false → All (λ check. failed_check check.status ≡ false) s.checks

module _ (bullets : List Text) where
  observed-AreRecorded :
      (s : Checks) (bullet label value detail : Text) (layer : Layer) (o : Option CheckStatus)
      → check_status_of (split_observation value).status ≡ o
      → In bullet bullets
      → split_declaration bullet ≡ declaration label value
      → layer_of label ≡ some layer
      → AreRecorded bullets s
      → AreRecorded bullets (check_observed s label layer detail o).0
  unfolding check_observed IsRecorded
  observed-AreRecorded s bullet label value detail layer none e i d l t = t
  observed-AreRecorded s bullet label value detail layer (some status) e i d l t = record {
    recorded =
        All-append (IsRecorded bullets) s.checks (record { layer = layer; status = status } ∷ [])
          t.recorded ((bullet, label, value, i, d, l, e), tt);
    unfailed = λ f.
        All-append (λ (check : RecordedCheck). failed_check check.status ≡ false) s.checks
          (record { layer = layer; status = status } ∷ []) (t.unfailed (or_false _ _ f).0)
          ((or_false s.failed (failed_check status) f).1, tt);
  }

  layer-AreRecorded :
      (s : Checks) (bullet label value : Text) (o : Option Layer)
      → layer_of label ≡ o
      → In bullet bullets
      → split_declaration bullet ≡ declaration label value
      → AreRecorded bullets s
      → AreRecorded bullets (check_layer s label value o).0
  unfolding check_layer
  layer-AreRecorded s bullet label value none l i d t = t
  layer-AreRecorded s bullet label value (some layer) l i d t =
      elim (Bool-cases (contains s.seen label)) [
        | inl e ↦ rw e t
        | inr e ↦ rw e (
            observed-AreRecorded (record s { seen = s.seen ++ label ∷ [] }) bullet label value
              (split_observation value).detail layer
              (check_status_of (split_observation value).status) refl i d l
              (record { recorded = t.recorded; unfailed = t.unfailed }))
      ]

  entry-AreRecorded :
      (s : Checks) (bullet : Text) (d : Declaration)
      → split_declaration bullet ≡ d
      → In bullet bullets
      → AreRecorded bullets s
      → AreRecorded bullets (check_entry s bullet d).0
  unfolding check_entry
  entry-AreRecorded s bullet (entry text) d i t = t
  entry-AreRecorded s bullet (declaration label value) d i t =
      layer-AreRecorded s bullet label value (layer_of label) refl i d t

no_checks-AreRecorded : (bullets : List Text) → AreRecorded bullets no_checks
no_checks-AreRecorded bullets = record { recorded = tt; unfailed = λ f. tt }

pub read_checks-AreRecorded :
    (source : Text)
    → AreRecorded (read_section_bullets source (lit "## Checks")).bullets (read_checks source).0
unfolding read_checks check_bullet
read_checks-AreRecorded source =
    let bullets = (read_section_bullets source (lit "## Checks")).bullets in
    each_all check_bullet (AreRecorded bullets) (λ bullet. In bullet bullets)
      (λ s bullet i t. entry-AreRecorded bullets s bullet (split_declaration bullet) refl i t)
      no_checks bullets (All-In bullets) (no_checks-AreRecorded bullets)
