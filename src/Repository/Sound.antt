-- ===== src/Repository/Sound.antt =====
-- What a repository whose structure is reported as OK has.
use praxis_bound.Repository.Observation.{
  PathKind, missing, file, directory, symlink, other, unconfirmable, PathObservation, Composed,
  not_checked, no_stories, not_present, composed_ok, composed_incomplete, composed_error, is_true,
  has_content, path_error, required_file, required_directory, file_text,
}
use praxis_bound.Repository.Marker.{
  is_missing, is_directory, is_read, version_of, Adoption, marker_version, read_marker, read_legacy,
  composed, read_entry, read_guidance, is_incomplete, is_legacy_marker,
}
use praxis_bound.Repository.Doctor.{stories_issue, is_composed_incomplete}
use praxis_bound.Common.{
  ◌≡◌, refl, sym, ap, ◌≢◌, ◌⊎◌, inl, inr, Bool, true, false, not, ◌||◌, Option, none, some, [],
  arith, Bool-cases, or_else, Text, lit, text_eq, text_eq_sound, split,
}

-- A readable file whose text is not blank.
pub record IsPresent (o : PathObservation) : Type 0 where
  pub kind : o.kind ≡ file
  pub readable : is_true o.readable ≡ true
  pub content : (text : Text) × (o.text ≡ some text) × (has_content text ≡ true)

-- A directory that can be listed and searched.
pub record IsListed (o : PathObservation) : Type 0 where
  pub kind : o.kind ≡ directory
  pub searchable : is_true o.searchable ≡ true
  pub readable : is_true o.readable ≡ true

text_lem :
    (path label : Text) (o : Option Text)
    → file_text path label o ≡ none
    → (text : Text) × (o ≡ some text) × (has_content text ≡ true)
unfolding file_text
text_lem path label none h = absurd (cc)
text_lem path label (some text) h = elim (Bool-cases (has_content text)) [
  | inl e ↦ (text, refl, e)
  | inr e ↦ absurd (cc (rw e at h))
]

pub present_lem :
    (path : Text) (kind : PathKind) (readable searchable : Option Bool) (text : Option Text)
    (label : Text)
    → (let o : PathObservation = record {
      kind = kind;
      readable = readable;
      searchable = searchable;
      text = text;
    } in
        required_file path o label ≡ none → IsPresent o)
unfolding required_file path_error
present_lem path file readable searchable text label h = elim (Bool-cases (is_true readable)) [
  | inl e ↦ record { kind = refl; readable = e; content = text_lem path label text (rw e at h) }
  | inr e ↦ absurd (cc (rw e at h))
]
present_lem path missing readable searchable text label h = absurd (cc)
present_lem path directory readable searchable text label h = absurd (cc)
present_lem path symlink readable searchable text label h = absurd (cc)
present_lem path other readable searchable text label h = absurd (cc)
present_lem path unconfirmable readable searchable text label h = absurd (cc)

listed_lem :
    (path : Text) (kind : PathKind) (readable searchable : Option Bool) (text : Option Text)
    (label : Text)
    → (let o : PathObservation = record {
      kind = kind;
      readable = readable;
      searchable = searchable;
      text = text;
    } in
        required_directory path o label true ≡ none → IsListed o)
unfolding required_directory path_error
listed_lem path directory readable searchable text label h =
    elim (Bool-cases (is_true searchable)) [
      | inr e ↦ absurd (cc (rw e at h))
      | inl e ↦ elim (Bool-cases (is_true readable)) [
        | inl f ↦ record { kind = refl; searchable = e; readable = f }
        | inr f ↦ absurd (cc (rw (e, f) at h))
      ]
    ]
listed_lem path missing readable searchable text label h = absurd (cc)
listed_lem path file readable searchable text label h = absurd (cc)
listed_lem path symlink readable searchable text label h = absurd (cc)
listed_lem path other readable searchable text label h = absurd (cc)
listed_lem path unconfirmable readable searchable text label h = absurd (cc)

pub stories_lem :
    (kind : PathKind) (readable searchable : Option Bool) (text : Option Text)
    (stories : PathObservation)
    → stories_issue
        (record { kind = kind; readable = readable; searchable = searchable; text = text })
        stories
      ≡ none
    → (kind ≡ directory) × (is_true searchable ≡ true) × IsListed stories
unfolding stories_issue path_error
stories_lem directory readable searchable text stories h = elim (Bool-cases (is_true searchable)) [
  | inl e ↦ (
    refl,
    e,
    listed_lem (lit "specs/stories/") stories.kind stories.readable stories.searchable stories.text
        (lit "story directory") (rw e at h),
  )
  | inr e ↦ absurd (cc (rw e at h))
]
stories_lem missing readable searchable text stories h = absurd (cc)
stories_lem file readable searchable text stories h = absurd (cc)
stories_lem symlink readable searchable text stories h = absurd (cc)
stories_lem other readable searchable text stories h = absurd (cc)
stories_lem unconfirmable readable searchable text stories h = absurd (cc)

-- No marker, or one of the version that is checked out.
unfoldable pub IsAdopted : Text → PathObservation → Type 0
IsAdopted checkout marker =
    (is_missing marker.kind ≡ true)
    ⊎ ((is_read marker ≡ true)
        × (version_of (split 10 (or_else marker.text [])) ≡ some checkout)
        × (text_eq checkout [] ≡ false))

version_lem :
    (checkout : Text) (o : Option Text)
    → (marker_version checkout o).1 ≡ []
    → (marker_version checkout o).0.drift ≡ false
    → (o ≡ some checkout) × (text_eq checkout [] ≡ false)
unfolding marker_version
version_lem checkout none h d = absurd (cc)
version_lem checkout (some version) h d = elim (Bool-cases (text_eq version [])) [
  | inl e ↦ absurd (cc (rw e at h))
  | inr e ↦ elim (Bool-cases (text_eq version checkout)) [
    | inl f ↦ let same = text_eq_sound version checkout f in (ap some same, rw (sym same) e)
    | inr f ↦ absurd (cc (rw (e, f) at d))
  ]
]

pub marker_lem :
    (checkout : Text) (marker : PathObservation)
    → (read_marker checkout marker).1 ≡ []
    → (read_marker checkout marker).0.drift ≡ false
    → IsAdopted checkout marker
unfolding read_marker IsAdopted
marker_lem checkout marker h d = elim (Bool-cases (is_missing marker.kind)) [
  | inl e ↦ inl e
  | inr e ↦ elim (Bool-cases (is_read marker)) [
    | inr f ↦ absurd (cc (rw (e, f) at h))
    | inl f ↦
        let (same, present) = version_lem checkout _ (rw (e, f) at h) (rw (e, f) at d) in
        inr (f, same, present)
  ]
]

-- No legacy marker is left.
unfoldable pub HasNoLegacy : Option PathObservation → Type 0
HasNoLegacy none = Unit
HasNoLegacy (some legacy) = is_missing legacy.kind ≡ true

pub legacy_lem :
    (s : Adoption) (marker : PathObservation) (legacy : Option PathObservation)
    → (read_legacy s marker legacy).1 ≡ []
    → (read_legacy s marker legacy).0.drift ≡ false
    → (s.drift ≡ false) × HasNoLegacy legacy
unfolding read_legacy HasNoLegacy
legacy_lem s marker none h d = (d, tt)
legacy_lem s marker (some legacy) h d = elim (Bool-cases (is_missing legacy.kind)) [
  | inl e ↦ (rw e at d, e)
  | inr e ↦ elim (Bool-cases (is_missing marker.kind)) [
    | inr f ↦ absurd (cc (rw (e, f) at h))
    | inl f ↦ elim (Bool-cases (is_read legacy)) [
      | inr g ↦ absurd (cc (rw (e, f, g) at h))
      | inl g ↦ elim (Bool-cases (is_legacy_marker (or_else legacy.text []))) [
        | inr k ↦ absurd (cc (rw (e, f, g, k) at h))
        | inl k ↦ absurd (cc (rw (e, f, g, k) at d))
      ]
    ]
  ]
]

-- The composed contract is confirmed and not incomplete.
abbrev pub IsComposed : Composed → Type 0
IsComposed contract = (contract ≢ composed_error) × (contract ≢ composed_incomplete)

pub composed_lem :
    (contract : Composed) (ok incomplete : Text)
    → (composed contract ok incomplete).1 ≡ []
    → is_composed_incomplete contract ≡ false
    → IsComposed contract
unfolding composed
composed_lem composed_error ok incomplete h d = absurd (cc)
composed_lem composed_incomplete ok incomplete h d = absurd (cc)
composed_lem not_checked ok incomplete h d = ((λ e. absurd (cc)), (λ e. absurd (cc)))
composed_lem no_stories ok incomplete h d = ((λ e. absurd (cc)), (λ e. absurd (cc)))
composed_lem not_present ok incomplete h d = ((λ e. absurd (cc)), (λ e. absurd (cc)))
composed_lem composed_ok ok incomplete h d = ((λ e. absurd (cc)), (λ e. absurd (cc)))

-- There is no guidance, or its entry was read and is not blank.
unfoldable pub IsGuided : PathObservation → PathObservation → Type 0
IsGuided guidance entry =
    (is_missing guidance.kind ≡ true)
    ⊎ ((is_directory guidance.kind ≡ true)
        × (is_true guidance.readable ≡ true)
        × (is_true guidance.searchable ≡ true)
        × (is_read entry ≡ true)
        × (has_content (or_else entry.text []) ≡ true))

entry_lem :
    (entry : PathObservation)
    → (read_entry entry).1 ≡ []
    → is_incomplete (read_entry entry).0 ≡ false
    → (is_read entry ≡ true) × (has_content (or_else entry.text []) ≡ true)
unfolding read_entry
entry_lem entry h d = elim (Bool-cases (has_content (or_else entry.text []))) [
  | inr e ↦ absurd (ground (arith, e))
  | inl e ↦ (ground arith, e)
]

pub guidance_lem :
    (guidance entry : PathObservation)
    → (read_guidance guidance entry).1 ≡ []
    → is_incomplete (read_guidance guidance entry).0 ≡ false
    → IsGuided guidance entry
unfolding read_guidance IsGuided
guidance_lem guidance entry h d = elim (Bool-cases (is_missing guidance.kind)) [
  | inl e ↦ inl e
  | inr e ↦
      elim (Bool-cases (
        not (is_directory guidance.kind)
        || (not (is_true guidance.readable) || not (is_true guidance.searchable)))) [
          | inl f ↦ absurd (cc (rw (e, f) at h))
          | inr f ↦
              let (read, content) = entry_lem entry (rw (e, f) at h) (rw (e, f) at d) in
              inr (ground arith, ground arith, ground arith, read, content)
        ]
]
