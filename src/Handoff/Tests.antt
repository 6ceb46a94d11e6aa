-- ===== src/Handoff/Tests.antt =====
-- Witnesses of the handoff theorems.
use praxis_bound.StoryId.{is_story_id}
use praxis_bound.Handoff.Scalars.{
  is_timestamp, is_plain_scalar, hexadecimal, has_only, embedded_line_break, starts_with_space,
}
use praxis_bound.Handoff.Fields.{
  story, recorded_at, repository, revision, command, result, is_revision, is_result, field_name,
  field_names, field_of, field_issues, value_issues,
}
use praxis_bound.Handoff.Lines.{evidence_line, block_line, trim_end, read_block}
use praxis_bound.Handoff.Evaluate.{
  HandoffEvidence, block_issues, settle, evaluate_block, evaluate_handoff,
}
use praxis_bound.Handoff.Laws.{IsValid, evidence-IsValid}
use praxis_bound.Handoff.Reports.{Reports, evaluate_handoff-Reports}
use praxis_bound.Handoff.Steps.{OneLine, key_text}
use praxis_bound.Handoff.RoundTrip.{any-Lacks, block_lines, IsWritten, evaluate_handoff-block_lines}
use praxis_bound.Common.{
  ◌≡◌, refl, ap, true, false, some, [], ◌==◌, any, Text, lit, text_eq, text_eq_sound, text_eq_refl,
  join, each, texts,
}

abbrev evidence : HandoffEvidence
evidence = record {
  story = lit "TST-021";
  recorded_at = lit "2026-02-28T23:59:00Z";
  repository = lit "git@host:team/core";
  revision = lit "0123456789abcdef0123456789abcdef01234567";
  verification_command = lit "npm run verify # all";
  verification_result = lit "not_run";
}

reading : Unit {0}
unfolding is_story_id is_timestamp is_plain_scalar hexadecimal has_only embedded_line_break
    starts_with_space is_revision is_result field_name field_names field_of field_issues
    value_issues evidence_line block_line trim_end read_block block_issues settle evaluate_block
    evaluate_handoff key_text texts each
reading = tt

comment_refused : is_plain_scalar evidence.verification_command ≡ false
unfolding reading
comment_refused = refl

abbrev valid_evidence : HandoffEvidence
valid_evidence = record evidence { verification_command = lit "npm run verify" }

valid_evidence-IsValid : IsValid valid_evidence
unfolding reading
valid_evidence-IsValid = record {
  id = refl;
  time = refl;
  place = refl;
  commit = refl;
  check = refl;
  verdict = refl;
}

one_line :
    (v : Text)
    → any (λ d. d == 10) v ≡ false
    → embedded_line_break v ≡ false
    → text_eq (trim_end v) v ≡ true
    → starts_with_space v ≡ false
    → text_eq v [] ≡ false
    → OneLine v
one_line v a b c d e = record {
  lacks_newline = any-Lacks v a;
  unbroken = b;
  no_space_behind = text_eq_sound (trim_end v) v c;
  no_space_before = d;
  filled = λ q. cc (e, ap (λ t. text_eq t []) q, text_eq_refl []);
}

valid_evidence-IsWritten : IsWritten valid_evidence
unfolding reading
valid_evidence-IsWritten story = one_line valid_evidence.story refl refl refl refl refl
valid_evidence-IsWritten recorded_at = one_line valid_evidence.recorded_at refl refl refl refl refl
valid_evidence-IsWritten repository = one_line valid_evidence.repository refl refl refl refl refl
valid_evidence-IsWritten revision = one_line valid_evidence.revision refl refl refl refl refl
valid_evidence-IsWritten command =
    one_line valid_evidence.verification_command refl refl refl refl refl
valid_evidence-IsWritten result =
    one_line valid_evidence.verification_result refl refl refl refl refl

abbrev document : Text
document = join 10 (block_lines valid_evidence)

evaluate_handoff-block_lines_example :
    (evaluate_handoff (some document)).evidence ≡ some valid_evidence
evaluate_handoff-block_lines_example =
    evaluate_handoff-block_lines valid_evidence valid_evidence-IsValid valid_evidence-IsWritten

evidence-IsValid_example :
    IsValid valid_evidence
    × ((read_block document).1 ≡ [])
    × ((read_block document).0.block_count ≡ 1)
    × ((read_block document).0.in_block ≡ false)
evidence-IsValid_example =
    evidence-IsValid document valid_evidence evaluate_handoff-block_lines_example

evaluate_handoff-Reports_example : Reports (evaluate_handoff (some document))
evaluate_handoff-Reports_example = evaluate_handoff-Reports (some document)
