-- ===== src/Repository/Marker.antt =====
-- The adoption markers, the composed contracts and the guidance of repository.ts.
use praxis_bound.Verification.Section.{issue}
use praxis_bound.Repository.Observation.{
  PathKind, missing, file, directory, PathObservation, Composed, not_checked, no_stories,
  not_present, composed_ok, composed_incomplete, composed_error, is_true, has_content,
}
use praxis_bound.Common.{
  ℕ, Bool, true, false, not, ◌&&◌, ◌||◌, Option, none, some, List, [], ◌∷◌, ◌++◌, ◌==◌,
  if◌then◌else◌, is_none, or_else, length, drop, Text, lit, text_eq, starts_with, split, Issue,
}

abbrev pub is_missing : PathKind → Bool
is_missing missing = true
is_missing _ = false

abbrev pub is_file_kind : PathKind → Bool
is_file_kind file = true
is_file_kind _ = false

abbrev pub is_directory : PathKind → Bool
is_directory directory = true
is_directory _ = false

-- a file that was read
abbrev pub is_read : PathObservation → Bool
is_read o = is_file_kind o.kind && (is_true o.readable && not (is_none o.text))

-- replace(/[ \t\r]+$/, "")
unfoldable pub drop_end : Text → Text
drop_end [] = []
drop_end (c ∷ s) =
    let rest = drop_end s in
    if (c == 32 || (c == 9 || c == 13)) && length rest == 0 then [] else c ∷ rest

unfoldable pub version_of : List Text → Option Text
unfolding drop_end
version_of [] = none
version_of (line ∷ lines) =
    let rest = version_of lines in
    if starts_with (lit "version=") line then some (drop_end (drop 8 line)) else rest

-- What the markers say: the adopted version, if one is known, and whether it is another one.
pub record Adoption : Type 0 where
  pub adopted : Option Text
  pub drift : Bool
  pub migration : Bool

abbrev pub unknown_adoption : Adoption
unknown_adoption = record { adopted = none; drift = false; migration = false }

unfoldable pub marker_version : Text → Option Text → Adoption × List Issue
marker_version checkout none = (
  unknown_adoption,
  issue (lit "REPOSITORY_MARKER_VERSION")
        (lit "adoption marker records no version: specs/.praxisbound-adoption")
      ∷ [],
)
marker_version checkout (some version) =
    if text_eq version []
    then (
      unknown_adoption,
      issue (lit "REPOSITORY_MARKER_VERSION")
            (lit "adoption marker records no version: specs/.praxisbound-adoption")
          ∷ [],
    )
    else (
      record { adopted = some version; drift = not (text_eq version checkout); migration = false },
      [],
    )

unfoldable pub read_marker : Text → PathObservation → Adoption × List Issue
unfolding version_of
read_marker checkout marker =
    if is_missing marker.kind
    then (unknown_adoption, [])
    else if not (is_read marker)
    then (
      unknown_adoption,
      issue (lit "REPOSITORY_MARKER_UNCONFIRMABLE")
            (lit "adoption marker cannot be safely read: specs/.praxisbound-adoption")
          ∷ [],
    )
    else marker_version checkout (version_of (split 10 (or_else marker.text [])))

abbrev pub not_line_end : ℕ → Bool
not_line_end c = not (c == 13) && not (c == 10)

-- [^\r\n]+\r?\n?$
unfoldable pub revision_tail : Text → Bool
revision_tail [] = true
revision_tail (c ∷ s) =
    let rest = revision_tail s in
    if not_line_end c
    then rest
    else text_eq (c ∷ s) (13 ∷ [])
      || (text_eq (c ∷ s) (10 ∷ []) || text_eq (c ∷ s) (13 ∷ (10 ∷ [])))

abbrev pub starts_revision : Text → Bool
starts_revision [] = false
starts_revision (c ∷ s) = not_line_end c

unfoldable pub revision_line : Text → Bool
unfolding revision_tail
revision_line s =
    starts_with (10 ∷ lit "revision=") s
    && (starts_revision (drop 10 s) && revision_tail (drop 10 s))

unfoldable pub is_legacy_marker : Text → Bool
unfolding revision_line
is_legacy_marker text =
    let behind = drop (length (lit "version=0.9.0")) text in
    starts_with (lit "version=0.9.0") text
    && (revision_line behind || (starts_with (13 ∷ []) behind && revision_line (drop 1 behind)))

unfoldable pub read_legacy :
    Adoption → PathObservation → Option PathObservation → Adoption × List Issue
unfolding is_legacy_marker
read_legacy s marker none = (s, [])
read_legacy s marker (some legacy) =
    if is_missing legacy.kind
    then (s, [])
    else if not (is_missing marker.kind)
    then (
      s,
      issue (lit "REPOSITORY_MARKER_AMBIGUOUS")
            (lit "current and legacy adoption markers are both present.")
          ∷ [],
    )
    else if not (is_read legacy)
    then (
      s,
      issue (lit "REPOSITORY_LEGACY_MARKER_UNCONFIRMABLE")
            (lit "legacy adoption marker cannot be safely read: specs/.forgeflow-adoption")
          ∷ [],
    )
    else if not (is_legacy_marker (or_else legacy.text []))
    then (
      s,
      issue (lit "REPOSITORY_LEGACY_MARKER_INVALID")
            (lit "legacy adoption marker requires migration but is malformed or unsupported.")
          ∷ [],
    )
    else (record s { drift = true; migration = true }, [])

-- composed, with the names of the contract
unfoldable pub composed : Composed → Text → Text → Text × List Issue
composed composed_error ok incomplete = (
  lit "ERROR",
  issue (lit "REPOSITORY_COMPOSED_UNCONFIRMABLE")
        (ok ++ lit " observation cannot be safely confirmed")
      ∷ [],
)
composed composed_incomplete ok incomplete = (incomplete, [])
composed not_present ok incomplete = (lit "NOT_PRESENT", [])
composed no_stories ok incomplete = (lit "NO_STORIES", [])
composed composed_ok ok incomplete = (ok, [])
composed not_checked ok incomplete = (lit "NOT_CHECKED", [])

pub data Guidance : Type 0 where
  guidance_absent guidance_error guidance_incomplete guidance_ok : Guidance

unfoldable pub read_entry : PathObservation → Guidance × List Issue
read_entry entry =
    if not (is_missing entry.kind) && not (is_read entry)
    then (
      guidance_error,
      issue (lit "REPOSITORY_GUIDANCE_UNCONFIRMABLE")
            (lit "guidance entrypoint cannot be safely read: guidance/ENTRY.md")
          ∷ [],
    )
    else if not (is_file_kind entry.kind) || not (has_content (or_else entry.text []))
    then (guidance_incomplete, [])
    else (guidance_ok, [])

unfoldable pub read_guidance : PathObservation → PathObservation → Guidance × List Issue
read_guidance guidance entry =
    if is_missing guidance.kind
    then (guidance_absent, [])
    else if not (is_directory guidance.kind)
        || (not (is_true guidance.readable) || not (is_true guidance.searchable))
    then (
      guidance_error,
      issue (lit "REPOSITORY_GUIDANCE_UNCONFIRMABLE")
            (lit "guidance capability cannot be safely read: guidance/")
          ∷ [],
    )
    else read_entry entry

abbrev pub is_incomplete : Guidance → Bool
is_incomplete guidance_incomplete = true
is_incomplete _ = false

unfoldable pub guidance_name : Guidance → Text
guidance_name guidance_absent = lit "NOT_PRESENT"
guidance_name guidance_error = lit "ERROR"
guidance_name guidance_incomplete = lit "GUIDANCE_CONTRACT_INCOMPLETE"
guidance_name guidance_ok = lit "GUIDANCE_CONTRACT_OK"
