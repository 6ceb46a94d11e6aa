-- ===== src/VerificationResult/Traced.antt =====
-- Where the passing evidence comes from.
use praxis_bound.Declarations.{
  Declaration, declaration, entry, split_declaration, read_section_bullets, read_exact_literal,
}
use praxis_bound.VerificationResult.Vocabulary.{EvidenceStatus, evidence_status_of, passed_evidence}
use praxis_bound.VerificationResult.Record.{
  split_observation, Evidence, no_evidence, evidence_observed, evidence_id, evidence_entry,
  evidence_bullet, read_evidence,
}
use praxis_bound.Common.{
  ◌+◌, ◌≡◌, refl, ap, ◌∙◌, inl, inr, true, Option, none, some, List, [], ◌∷◌, ◌++◌, arith,
  Bool-cases, length, length-append, All, All-append, Text, lit, contains, In, Distinct,
  Distinct-snoc, each_all, All-In, known_snoc,
}

-- A bullet of the section records passing evidence for the criterion.
pub IsProven : List Text → Text → Type 0
IsProven bullets id =
    (bullet label value : Text) × In bullet bullets
    × (split_declaration bullet ≡ declaration label value)
    × (read_exact_literal label ≡ some id)
    × (evidence_status_of (split_observation value).status ≡ some EvidenceStatus.pass)

-- What passed comes from bullets; the entries seen are distinct criteria, and counted.
pub record AreTraced (ids bullets : List Text) (s : Evidence) : Type 0 where
  pub proven : All (IsProven bullets) s.passed
  pub distinct : Distinct s.seen
  pub known : (id : Text) → contains s.seen id ≡ true → contains ids id ≡ true
  pub counted : s.traced ≡ length s.seen

passed_lem :
    (status : EvidenceStatus) → passed_evidence status ≡ true → status ≡ EvidenceStatus.pass
passed_lem EvidenceStatus.pass h = refl
passed_lem EvidenceStatus.fail h = cc
passed_lem EvidenceStatus.blocked h = cc
passed_lem EvidenceStatus.skipped h = cc

module _ (ids bullets : List Text) where
  observed-AreTraced :
      (s : Evidence) (bullet label value detail id : Text) (o : Option EvidenceStatus)
      → evidence_status_of (split_observation value).status ≡ o
      → In bullet bullets
      → split_declaration bullet ≡ declaration label value
      → read_exact_literal label ≡ some id
      → AreTraced ids bullets s
      → AreTraced ids bullets (evidence_observed s id detail o).0
  unfolding evidence_observed IsProven
  observed-AreTraced s bullet label value detail id none e i d l t = t
  observed-AreTraced s bullet label value detail id (some status) e i d l t = record {
    proven = elim (Bool-cases (passed_evidence status)) [
      | inr n ↦ rw n t.proven
      | inl p ↦ rw p (
          All-append (IsProven bullets) s.passed (id ∷ []) t.proven
            ((bullet, label, value, i, d, l, e ∙ ap some (passed_lem status p)), tt))
    ];
    distinct = t.distinct;
    known = t.known;
    counted = t.counted;
  }

  id-AreTraced :
      (s : Evidence) (bullet label value : Text) (o : Option Text)
      → read_exact_literal label ≡ o
      → In bullet bullets
      → split_declaration bullet ≡ declaration label value
      → AreTraced ids bullets s
      → AreTraced ids bullets (evidence_id ids s label value o).0
  unfolding evidence_id
  id-AreTraced s bullet label value none l i d t = t
  id-AreTraced s bullet label value (some id) l i d t = elim (Bool-cases (contains ids id)) [
    | inr e ↦ rw e t
    | inl c ↦ elim (Bool-cases (contains s.seen id)) [
      | inl e ↦ rw (c, e) t
      | inr e ↦
          rw (c, e)
            (observed-AreTraced (record s { seen = s.seen ++ id ∷ []; traced = s.traced + 1 })
              bullet label value (split_observation value).detail id
              (evidence_status_of (split_observation value).status) refl i d l
              (record {
                proven = t.proven;
                distinct = Distinct-snoc s.seen id t.distinct e;
                known = known_snoc ids s.seen id t.known c;
                counted = omega (arith, t.counted, length-append s.seen (id ∷ []));
              }))
    ]
  ]

  entry-AreTraced :
      (s : Evidence) (bullet : Text) (d : Declaration)
      → split_declaration bullet ≡ d
      → In bullet bullets
      → AreTraced ids bullets s
      → AreTraced ids bullets (evidence_entry ids s bullet d).0
  unfolding evidence_entry
  entry-AreTraced s bullet (entry text) d i t = t
  entry-AreTraced s bullet (declaration label value) d i t =
      id-AreTraced s bullet label value (read_exact_literal label) refl i d t

nothing_seen : (ids : List Text) (id : Text) → contains [] id ≡ true → contains ids id ≡ true
unfolding contains
nothing_seen ids id h = cc

no_evidence-AreTraced : (ids bullets : List Text) → AreTraced ids bullets no_evidence
no_evidence-AreTraced ids bullets = record {
  proven = tt;
  distinct = tt;
  known = nothing_seen ids;
  counted = refl;
}

pub read_evidence-AreTraced :
    (source : Text) (ids : List Text)
    → AreTraced ids
        (read_section_bullets source (lit "## Evidence")).bullets
        (read_evidence source ids).0
unfolding read_evidence evidence_bullet
read_evidence-AreTraced source ids =
    let bullets = (read_section_bullets source (lit "## Evidence")).bullets in
    each_all (evidence_bullet ids) (AreTraced ids bullets) (λ bullet. In bullet bullets)
      (λ s bullet i t. entry-AreTraced ids bullets s bullet (split_declaration bullet) refl i t)
      no_evidence bullets (All-In bullets) (no_evidence-AreTraced ids bullets)
