-- ===== src/Repository/Complete.antt =====
-- What a healthy repository has is enough for each test of the doctor.
use praxis_bound.Repository.Observation.{
  directory, PathObservation, Composed, not_checked, no_stories, not_present, composed_ok,
  composed_incomplete, composed_error, is_true, path_error, required_file, required_directory,
  file_text,
}
use praxis_bound.Repository.Marker.{
  is_missing, is_file_kind, is_read, Adoption, marker_version, read_marker, read_legacy, composed,
  read_entry, read_guidance, is_incomplete,
}
use praxis_bound.Repository.Doctor.{stories_issue, is_composed_incomplete}
use praxis_bound.Repository.Sound.{
  IsPresent, IsListed, IsAdopted, HasNoLegacy, IsComposed, IsGuided,
}
use praxis_bound.Common.{
  ◌≡◌, refl, inl, inr, true, false, Option, none, some, [], arith, Bool-cases, Text, text_eq_refl,
}

pub present_accepted :
    (path label : Text) (o : PathObservation) → IsPresent o → required_file path o label ≡ none
unfolding required_file path_error file_text
present_accepted path label o p =
    let (text, read, content) = p.content in rw (p.kind, p.readable, read, content) refl

pub stories_accepted :
    (specs stories : PathObservation)
    → specs.kind ≡ directory
    → is_true specs.searchable ≡ true
    → IsListed stories
    → stories_issue specs stories ≡ none
unfolding stories_issue required_directory path_error
stories_accepted specs stories kind searchable p =
    rw (kind, searchable, p.kind, p.searchable, p.readable) refl

pub marker_accepted :
    (checkout : Text) (marker : PathObservation)
    → IsAdopted checkout marker
    → ((read_marker checkout marker).1 ≡ []) × ((read_marker checkout marker).0.drift ≡ false)
unfolding read_marker marker_version IsAdopted
marker_accepted checkout marker p = elim (Bool-cases (is_missing marker.kind)) [
  | inl e ↦ (rw e refl, rw e refl)
  | inr e ↦ elim p [
    | inl f ↦ absurd (cc)
    | inr (read, version, present) ↦ (
      rw (e, read, version, present) refl,
      rw (e, read, version, present, text_eq_refl checkout) refl,
    )
  ]
]

pub legacy_accepted :
    (s : Adoption) (marker : PathObservation) (legacy : Option PathObservation)
    → HasNoLegacy legacy
    → read_legacy s marker legacy ≡ (s, [])
unfolding read_legacy HasNoLegacy
legacy_accepted s marker none p = refl
legacy_accepted s marker (some legacy) p = rw p refl

pub composed_accepted :
    (contract : Composed) (ok incomplete : Text)
    → IsComposed contract
    → ((composed contract ok incomplete).1 ≡ []) × (is_composed_incomplete contract ≡ false)
unfolding composed
composed_accepted composed_error ok incomplete p = absurd (p.0 refl)
composed_accepted composed_incomplete ok incomplete p = absurd (p.1 refl)
composed_accepted not_checked ok incomplete p = (refl, refl)
composed_accepted no_stories ok incomplete p = (refl, refl)
composed_accepted not_present ok incomplete p = (refl, refl)
composed_accepted composed_ok ok incomplete p = (refl, refl)

read_is_file : (o : PathObservation) → is_read o ≡ true → is_file_kind o.kind ≡ true
read_is_file o h = ground arith

pub guidance_accepted :
    (guidance entry : PathObservation)
    → IsGuided guidance entry
    → ((read_guidance guidance entry).1 ≡ [])
      × (is_incomplete (read_guidance guidance entry).0 ≡ false)
unfolding read_guidance read_entry IsGuided
guidance_accepted guidance entry p = elim (Bool-cases (is_missing guidance.kind)) [
  | inl e ↦ (rw e refl, rw e refl)
  | inr e ↦ elim p [
    | inl f ↦ absurd (cc)
    | inr (listed, readable, searchable, read, content) ↦
        let kind = read_is_file entry read in (ground arith, ground arith)
  ]
]
