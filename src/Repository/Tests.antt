-- ===== src/Repository/Tests.antt =====
-- A healthy repository, one with a blank guide, a Makefile, and the witness of the doctor's theorem.
use praxis_bound.Repository.Observation.{
  PathKind, missing, file, directory, PathObservation, not_present, composed_ok, Snapshot,
  has_content, path_error, file_text, required_file, required_directory,
}
use praxis_bound.Repository.Makefile.{
  drop_while, starts_word, is_define, is_include, is_verify_rule, define_line, rule_line,
  plain_line, makefile_line, makefile_lines, scan_makefile,
}
use praxis_bound.Repository.Marker.{
  drop_end, version_of, marker_version, read_marker, is_legacy_marker, read_legacy, composed,
  read_entry, read_guidance, guidance_name,
}
use praxis_bound.Repository.Doctor.{
  structure_ok, structure_incomplete, exit_of, status_name, outcome_name, completed, stories_issue,
  makefile_clues, clue_facts, is_unsafe, evaluate_contracts, evaluate_repository_doctor,
}
use praxis_bound.Repository.Healthy.{IsHealthy, evaluate_repository_doctor-IsHealthy}
use praxis_bound.Common.{
  ◌≡◌, refl, ◌↔◌, true, false, Option, none, some, ◌∷◌, ◌++◌, Text, lit, texts,
}

abbrev observed : PathKind → Option Text → PathObservation
observed kind text = record {
  kind = kind;
  readable = some true;
  searchable = some true;
  text = text;
}

abbrev repository : Text → Snapshot
repository agents = record {
  checkout_version = lit "0.10.0";
  agents = observed file (some agents);
  specs = observed directory none;
  stories = observed directory none;
  makefile = observed file (some (lit "verify: test"));
  adoption_marker = observed file (some (lit "version=0.10.0 " ++ 10 ∷ lit "revision=1"));
  legacy_adoption_marker = none;
  guidance = observed missing none;
  guidance_entry = observed missing none;
  skills = observed missing none;
  agent_skills = observed missing none;
  github = observed directory none;
  story_contract = composed_ok;
  handoff_contract = not_present;
}

reading : Unit {0}
unfolding has_content path_error file_text required_file required_directory drop_while starts_word
    is_define is_include is_verify_rule define_line rule_line plain_line makefile_line
    makefile_lines scan_makefile drop_end version_of marker_version read_marker is_legacy_marker
    read_legacy composed read_entry read_guidance guidance_name exit_of status_name outcome_name
    completed stories_issue makefile_clues clue_facts is_unsafe evaluate_contracts
    evaluate_repository_doctor texts
reading = tt

healthy : (evaluate_repository_doctor (repository (lit "guide"))).outcome ≡ structure_ok
unfolding reading
healthy = refl

unhealthy :
    ((evaluate_repository_doctor (repository (lit " "))).outcome ≡ structure_incomplete)
    × ((evaluate_repository_doctor (repository (lit " "))).exit ≡ 1)
unfolding reading
unhealthy = (refl, refl)

-- a rule inside a definition is no rule, and a definition limits what the scan says
scanned :
    ((scan_makefile (lit "verify::=x" ++ 10 ∷ lit "  verify :: test")).found ≡ true)
    × ((scan_makefile (lit "verify::=x")).found ≡ false)
    × ((scan_makefile (lit "export define x" ++ 10 ∷ (lit "verify: y" ++ 10 ∷ lit "endef"))).found
        ≡ false)
    × ((scan_makefile (lit "export define x" ++ 10 ∷ (lit "verify: y" ++ 10 ∷ lit "endef"))).complex
        ≡ true)
unfolding reading
scanned = (refl, refl, refl, refl)

evaluate_repository_doctor-IsHealthy_example :
    ((evaluate_repository_doctor (repository (lit "guide"))).outcome ≡ structure_ok)
    ↔ IsHealthy (repository (lit "guide"))
evaluate_repository_doctor-IsHealthy_example =
    evaluate_repository_doctor-IsHealthy (repository (lit "guide"))
