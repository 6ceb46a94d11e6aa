-- ===== src/Handoff/Lines.antt =====
-- The loop of `evaluateHandoff` over the lines of the source.
use praxis_bound.Verification.Section.{issue}
use praxis_bound.Handoff.Scalars.{embedded_line_break, starts_with_space}
use praxis_bound.Handoff.Fields.{Field, field_of, same_field}
use praxis_bound.Common.{
  ℕ, ◌+◌, ◌-◌, Bool, true, false, not, ◌||◌, Option, none, some, List, [], ◌∷◌, ◌++◌, map, ◌==◌,
  if◌then◌else◌, length, drop, Text, lit, text_eq, starts_with, ends_with, slice, index_of, split,
  Issue, each,
}

-- The variables that the loop and `record` close over; the two maps are functions.
pub record Block : Type 0 where
  pub values : Field → Option Text
  pub counts : Field → ℕ
  pub handoff_sections : ℕ
  pub verification_sections : ℕ
  pub block_count : ℕ
  pub in_block : Bool
  pub section : Text

abbrev pub empty_block : Block
empty_block = record {
  values = λ f. none;
  counts = λ f. 0;
  handoff_sections = 0;
  verification_sections = 0;
  block_count = 0;
  in_block = false;
  section = [];
}

-- map.set(field, value)
abbrev pub set_at {ℓ} : {A : Type ℓ} → (Field → A) → Field → A → Field → A
set_at map field value f = if same_field field f then value else map f

-- the last test of `record`, on the field that the name spells
unfoldable pub record_field : Block → Text → Text → Option Field → Block × List Issue
record_field s name value (some field) = (
  record s {
    counts = set_at s.counts field (s.counts field + 1);
    values = set_at s.values field (some value);
  },
  [],
)
record_field s name value none = (
  s,
  (if starts_with (lit "workflow.") name || starts_with (lit "baseline.") name
      then issue (lit "HANDOFF_MUTABLE_KEY")
          (lit "mutable lifecycle evidence is forbidden: " ++ name)
        ∷ []
      else issue (lit "HANDOFF_UNKNOWN_KEY") (lit "unknown handoff evidence key: " ++ name) ∷ []),
)

-- the closure `record`
unfoldable pub record_value : Block → Text → Text → Block × List Issue
unfolding record_field
record_value s name value =
    let r = record_field s name value (field_of name) in
    (
      r.0,
      (if embedded_line_break value
            then issue (lit "HANDOFF_EMBEDDED_LINE_BREAK")
                (lit "handoff evidence value contains an embedded YAML line break: " ++ name)
              ∷ []
            else [])
          ++ ((if starts_with_space value
                then issue (lit "HANDOFF_VALUE_SEPARATOR")
                    (lit "handoff evidence value must follow exactly one separator space: " ++ name)
                  ∷ []
                else [])
              ++ r.1),
    )

-- the key and the value of a pair, if it has a separator
pair_parts : Text → Option ℕ → Option (Text × Text)
pair_parts pair (some separator) = some (slice 0 separator pair, drop (separator + 2) pair)
pair_parts pair none =
    if ends_with (lit ":") pair then some (slice 0 (length pair - 1) pair, []) else none

unfoldable pub pair_entry : Block → Text → Option (Text × Text) → Block × List Issue
unfolding record_value
pair_entry s line none = (
  s,
  issue (lit "HANDOFF_UNSUPPORTED_LINE") (lit "unsupported handoff evidence line: " ++ line) ∷ [],
)
pair_entry s line (some (key, value)) =
    if text_eq s.section []
    then (
      s,
      issue (lit "HANDOFF_KEY_OUTSIDE_SECTION")
            (lit "handoff evidence key declared outside a section: " ++ key)
          ∷ [],
    )
    else record_value s (s.section ++ (b'.' ∷ key)) value

-- a line that two spaces indent
unfoldable pub pair_line : Block → Text → Block × List Issue
unfolding pair_entry pair_parts
pair_line s line =
    let pair = drop 2 line in
    if starts_with (lit " ") pair || starts_with (lit "-") pair
    then (
      s,
      issue (lit "HANDOFF_INDENTATION") (lit "unsupported handoff evidence indentation: " ++ line)
          ∷ [],
    )
    else pair_entry s line (pair_parts pair (index_of (lit ": ") pair))

unfoldable pub section_line : Block → Text → Block × List Issue
section_line s section =
    if text_eq section (lit "handoff")
    then (record s { section = section; handoff_sections = s.handoff_sections + 1 }, [])
    else if text_eq section (lit "verification")
    then (record s { section = section; verification_sections = s.verification_sections + 1 }, [])
    else if text_eq section (lit "workflow") || text_eq section (lit "baseline")
    then (
      record s { section = section },
      issue (lit "HANDOFF_MUTABLE_SECTION")
            (lit "mutable lifecycle section is forbidden: " ++ section)
          ∷ [],
    )
    else (
      record s { section = section },
      issue (lit "HANDOFF_UNKNOWN_SECTION") (lit "unknown handoff evidence section: " ++ section)
          ∷ [],
    )

-- /^ *#/
starts_with_comment : Text → Bool
starts_with_comment [] = false
starts_with_comment (c ∷ s) =
    let rest = starts_with_comment s in if c == b' ' then rest else c == b'#'

-- a line inside the block that does not close it
unfoldable pub evidence_line : Block → Text → Block × List Issue
unfolding pair_line section_line starts_with_comment
evidence_line s line =
    if text_eq line [] || starts_with_comment line
    then (s, [])
    else if starts_with (lit "    - ") line
    then (
      s,
      issue (lit "HANDOFF_LIST") (lit "lists are not part of handoff evidence: " ++ line) ∷ [],
    )
    else if starts_with (lit "  ") line
    then pair_line s line
    else if ends_with (lit ":") line
    then section_line s (slice 0 (length line - 1) line)
    else (
      s,
      issue (lit "HANDOFF_UNSUPPORTED_LINE") (lit "unsupported handoff evidence line: " ++ line)
          ∷ [],
    )

line_end : ℕ → Text → Text
line_end c [] = if c == 13 || (c == 9 || c == b' ') then [] else c ∷ []
line_end c (d ∷ s) = c ∷ (d ∷ s)

-- rawLine.replace(/[\r\t ]+$/g, "")
unfoldable pub trim_end : Text → Text
unfolding line_end
trim_end [] = []
trim_end (c ∷ s) = line_end c (trim_end s)

unfoldable pub block_line : Block → Text → Block × List Issue
block_line s raw =
    let line = trim_end raw in
    if embedded_line_break line
    then (
      s,
      issue (lit "HANDOFF_EMBEDDED_LINE_BREAK")
            (lit "handoff source line contains an embedded YAML line break")
          ∷ [],
    )
    else if not s.in_block
    then (
      (if text_eq line (lit "```yaml")
          then record s { block_count = s.block_count + 1; in_block = true }
          else s),
      [],
    )
    else if text_eq line (lit "```")
    then (record s { in_block = false }, [])
    else evidence_line s line

unfoldable pub read_block : Text → Block × List Issue
unfolding block_line
read_block source = each block_line empty_block (split 10 source)
