-- ===== src/Handoff/RoundTrip.antt =====
-- Evidence that is written down as one block is read back.
use praxis_bound.Handoff.Fields.{
  Field, story, recorded_at, repository, revision, command, result, value_issues, field_issues,
  field_names,
}
use praxis_bound.Handoff.Scalars.{embedded_line_break}
use praxis_bound.Handoff.Lines.{Block, empty_block, evidence_line, trim_end, block_line, read_block}
use praxis_bound.Handoff.Evaluate.{
  HandoffEvidence, block_issues, fields_issues, evidence_of, settle, complete, evaluate_block,
  evaluate_handoff,
}
use praxis_bound.Handoff.Laws.{IsValid}
use praxis_bound.Handoff.Steps.{OneLine, key_text, recorded, block_line-key_text, each_step}
use praxis_bound.Common.{
  ◌≡◌, refl, ◌∙◌, ◌≢◌, true, false, some, List, [], ◌∷◌, ◌++◌, arith, ◌==◌, any, All, All-append,
  Text, lit, join, each, Lacks, split-join, texts,
}

-- the value of a field
abbrev pub value_of : HandoffEvidence → Field → Text
value_of e story = e.story
value_of e recorded_at = e.recorded_at
value_of e repository = e.repository
value_of e revision = e.revision
value_of e command = e.verification_command
value_of e result = e.verification_result

abbrev pub field_line : HandoffEvidence → Field → Text
field_line e f = key_text f ++ value_of e f

-- the documented block
abbrev pub block_lines : HandoffEvidence → List Text
block_lines e =
    lit "```yaml"
    ∷ lit "handoff:"
    ∷ field_line e story
    ∷ field_line e recorded_at
    ∷ field_line e repository
    ∷ field_line e revision
    ∷ lit "verification:"
    ∷ field_line e command
    ∷ field_line e result
    ∷ lit "```"
    ∷ []

abbrev pub opened : Block
opened = record empty_block { block_count = 1; in_block = true }

abbrev pub in_handoff : Block
in_handoff = record opened { section = lit "handoff"; handoff_sections = 1 }

module _ (e : HandoffEvidence) where
  abbrev pub with_handoff : Block
  with_handoff =
      recorded
        (recorded (recorded (recorded in_handoff story e.story) recorded_at e.recorded_at)
          repository e.repository)
        revision e.revision

  abbrev pub in_verification : Block
  in_verification = record with_handoff { section = lit "verification"; verification_sections = 1 }

  abbrev pub filled_block : Block
  filled_block =
      recorded (recorded in_verification command e.verification_command) result
        e.verification_result

  abbrev pub closed : Block
  closed = record filled_block { in_block = false }

opens : block_line empty_block (lit "```yaml") ≡ (opened, [])
unfolding block_line trim_end embedded_line_break texts
opens = refl

enters_handoff : block_line opened (lit "handoff:") ≡ (in_handoff, [])
unfolding block_line evidence_line trim_end embedded_line_break texts
enters_handoff = refl

enters_verification :
    (e : HandoffEvidence)
    → block_line (with_handoff e) (lit "verification:") ≡ (in_verification e, [])
unfolding block_line evidence_line trim_end embedded_line_break texts
enters_verification e = refl

closes : (e : HandoffEvidence) → block_line (filled_block e) (lit "```") ≡ (closed e, [])
unfolding block_line trim_end embedded_line_break texts
closes e = refl

-- every field is one line
abbrev pub IsWritten : HandoffEvidence → Type 0
IsWritten e = (f : Field) → OneLine (value_of e f)

read_lines :
    (e : HandoffEvidence)
    → IsWritten e
    → each block_line empty_block (block_lines e) ≡ (closed e, [])
read_lines e w =
    each_step block_line _ _ _ _ opens
    ∙ each_step block_line _ _ _ _ enters_handoff
    ∙ each_step block_line _ _ _ _ (block_line-key_text _ story e.story refl refl (w story))
    ∙ each_step block_line _ _ _ _
        (block_line-key_text _ recorded_at e.recorded_at refl refl (w recorded_at))
    ∙ each_step block_line _ _ _ _
        (block_line-key_text _ repository e.repository refl refl (w repository))
    ∙ each_step block_line _ _ _ _
        (block_line-key_text _ revision e.revision refl refl (w revision))
    ∙ each_step block_line _ _ _ _ (enters_verification e)
    ∙ each_step block_line _ _ _ _
        (block_line-key_text _ command e.verification_command refl refl (w command))
    ∙ each_step block_line _ _ _ _
        (block_line-key_text _ result e.verification_result refl refl (w result))
    ∙ each_step block_line _ _ _ _ (closes e)
    ∙ unfold each in refl

closed-complete :
    (e : HandoffEvidence) → IsValid e → evaluate_block (closed e) [] ≡ complete (closed e)
unfolding evaluate_block block_issues fields_issues field_names field_issues value_issues settle
closed-complete e v = rw (v.id, v.time, v.place, v.commit, v.check, v.verdict) refl

pub any-Lacks : (s : Text) → any (λ d. d == 10) s ≡ false → Lacks 10 s
any-Lacks [] h = tt
any-Lacks (c ∷ s) h = (ground arith, any-Lacks s (ground arith))

key_text-Lacks : (f : Field) → Lacks 10 (key_text f)
unfolding key_text
key_text-Lacks story = any-Lacks (key_text story) refl
key_text-Lacks recorded_at = any-Lacks (key_text recorded_at) refl
key_text-Lacks repository = any-Lacks (key_text repository) refl
key_text-Lacks revision = any-Lacks (key_text revision) refl
key_text-Lacks command = any-Lacks (key_text command) refl
key_text-Lacks result = any-Lacks (key_text result) refl

field_line-Lacks : (e : HandoffEvidence) → IsWritten e → (f : Field) → Lacks 10 (field_line e f)
field_line-Lacks e w f =
    All-append (λ d. d ≢ 10) (key_text f) (value_of e f) (key_text-Lacks f) (w f).lacks_newline

lines_lack : (e : HandoffEvidence) → IsWritten e → All (Lacks 10) (block_lines e)
lines_lack e w = (
  any-Lacks (lit "```yaml") (unfold lit in refl),
  (
    any-Lacks (lit "handoff:") (unfold lit in refl),
    (
      field_line-Lacks e w story,
      (
        field_line-Lacks e w recorded_at,
        (
          field_line-Lacks e w repository,
          (
            field_line-Lacks e w revision,
            (
              any-Lacks (lit "verification:") (unfold lit in refl),
              (
                field_line-Lacks e w command,
                (field_line-Lacks e w result, (any-Lacks (lit "```") (unfold lit in refl), tt)),
              ),
            ),
          ),
        ),
      ),
    ),
  ),
)

-- Evidence that is valid and of which each field is one line, written as the documented block, is
-- read back as it was.
pub evaluate_handoff-block_lines :
    (e : HandoffEvidence)
    → IsValid e
    → IsWritten e
    → (evaluate_handoff (some (join 10 (block_lines e)))).evidence ≡ some e
unfolding evaluate_handoff read_block
evaluate_handoff-block_lines e v w =
    let l = lines_lack e w in
    rw (split-join 10 (lit "```yaml") _ l.0 l.1, read_lines e w, closed-complete e v)
      (unfold complete evidence_of in refl)
