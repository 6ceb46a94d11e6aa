-- ===== src/Repository/Healthy.antt =====
-- When the doctor reports a structure as OK.
use praxis_bound.Repository.Observation.{directory, is_true, Snapshot, Fact, required_file}
use praxis_bound.Result.{some_more}
use praxis_bound.Repository.Marker.{read_marker, read_legacy, read_guidance}
use praxis_bound.Repository.Doctor.{
  structure_ok, contract_drift, structure_incomplete, error, completed, stories_issue,
  is_composed_incomplete, evaluate_contracts, evaluate_repository_doctor,
}
use praxis_bound.Repository.Sound.{
  IsPresent, IsListed, IsAdopted, HasNoLegacy, IsComposed, IsGuided, present_lem, stories_lem,
  marker_lem, legacy_lem, composed_lem, guidance_lem,
}
use praxis_bound.Repository.Complete.{
  present_accepted, stories_accepted, marker_accepted, legacy_accepted, composed_accepted,
  guidance_accepted,
}
use praxis_bound.Common.{
  ◌≡◌, refl, ◌↔◌, inl, inr, Bool, true, false, ◌&&◌, ◌||◌, Option, none, some, List, [], ◌∷◌, ltb,
  if◌then◌else◌, Bool-cases, and_true, or_false, is_none, length, append-eq-nil, lit, Issue,
}

-- The required files and directories are there, the adopted version is the one checked out, and no
-- contract of the repository is incomplete or unconfirmed.
pub record IsHealthy (snapshot : Snapshot) : Type 0 where
  pub agents : IsPresent snapshot.agents
  pub specs : (snapshot.specs.kind ≡ directory) × (is_true snapshot.specs.searchable ≡ true)
  pub stories : IsListed snapshot.stories
  pub makefile : IsPresent snapshot.makefile
  pub adopted : IsAdopted snapshot.checkout_version snapshot.adoption_marker
  pub migrated : HasNoLegacy snapshot.legacy_adoption_marker
  pub story_contract : IsComposed snapshot.story_contract
  pub handoff_contract : IsComposed snapshot.handoff_contract
  pub guided : IsGuided snapshot.guidance snapshot.guidance_entry

outcome_lem :
    (issues : List Issue) (drift : Bool)
    → (if ltb 0 (length issues) then error else if drift then contract_drift else structure_ok)
      ≡ structure_ok
    → (issues ≡ []) × (drift ≡ false)
outcome_lem [] false h = (refl, refl)
outcome_lem [] true h = absurd (cc)
outcome_lem (i ∷ issues) drift h = absurd (cc (rw (some_more (length issues)) at h))

unsafe_lem : (b : Bool) → (if b then error else structure_incomplete) ≡ structure_ok → ⊥
unsafe_lem true h = absurd (cc)
unsafe_lem false h = absurd (cc)

none_lem : {A : Type 0} (o : Option A) → is_none o ≡ true → o ≡ none
none_lem none h = refl
none_lem (some a) h = cc

contracts_lem :
    (snapshot : Snapshot) (facts : List Fact)
    → (evaluate_contracts snapshot facts).outcome ≡ structure_ok
    → IsAdopted snapshot.checkout_version snapshot.adoption_marker
      × HasNoLegacy snapshot.legacy_adoption_marker
      × IsComposed snapshot.story_contract
      × IsComposed snapshot.handoff_contract
      × IsGuided snapshot.guidance snapshot.guidance_entry
unfolding evaluate_contracts completed
contracts_lem snapshot facts h =
    let marker = read_marker snapshot.checkout_version snapshot.adoption_marker in
    let adoption = read_legacy marker.0 snapshot.adoption_marker snapshot.legacy_adoption_marker in
    let guidance = read_guidance snapshot.guidance snapshot.guidance_entry in
    let (clean, steady) = outcome_lem _ _ h in
    let (marked, h1) = append-eq-nil marker.1 _ clean in
    let (legacy, h2) = append-eq-nil adoption.1 _ h1 in
    let (story, h3) = append-eq-nil _ _ h2 in
    let (handoff, guided) = append-eq-nil _ _ h3 in
    let (kept, others) = or_false adoption.0.drift _ steady in
    let (contracts, entry) =
      or_false
        (is_composed_incomplete snapshot.story_contract
          || is_composed_incomplete snapshot.handoff_contract)
        _ others in
    let (first, second) = or_false (is_composed_incomplete snapshot.story_contract) _ contracts in
    let (same, gone) =
      legacy_lem marker.0 snapshot.adoption_marker snapshot.legacy_adoption_marker legacy kept in
    (
      marker_lem snapshot.checkout_version snapshot.adoption_marker marked same,
      gone,
      composed_lem snapshot.story_contract _ _ story first,
      composed_lem snapshot.handoff_contract _ _ handoff second,
      guidance_lem snapshot.guidance snapshot.guidance_entry guided entry,
    )

contracts_accepted :
    (snapshot : Snapshot) (facts : List Fact)
    → IsHealthy snapshot
    → (evaluate_contracts snapshot facts).outcome ≡ structure_ok
unfolding evaluate_contracts completed
contracts_accepted snapshot facts p =
    let marker = read_marker snapshot.checkout_version snapshot.adoption_marker in
    let (marked, same) =
      marker_accepted snapshot.checkout_version snapshot.adoption_marker p.adopted in
    let (story, first) =
      composed_accepted snapshot.story_contract (lit "STORY_CONTRACT_OK")
        (lit "STORY_CONTRACT_INCOMPLETE") p.story_contract in
    let (handoff, second) =
      composed_accepted snapshot.handoff_contract (lit "HANDOFF_CONTRACT_OK")
        (lit "HANDOFF_CONTRACT_INCOMPLETE") p.handoff_contract in
    let (guided, entry) = guidance_accepted snapshot.guidance snapshot.guidance_entry p.guided in
    rw
      (
        legacy_accepted marker.0 snapshot.adoption_marker snapshot.legacy_adoption_marker
            p.migrated,
        marked,
        same,
        story,
        first,
        handoff,
        second,
        guided,
        entry,
      )
      refl

outcome-IsHealthy :
    (snapshot : Snapshot)
    → (evaluate_repository_doctor snapshot).outcome ≡ structure_ok
    → IsHealthy snapshot
unfolding evaluate_repository_doctor completed
outcome-IsHealthy snapshot h =
    let agents = required_file (lit "AGENTS.md") snapshot.agents (lit "agent guide") in
    let stories = stories_issue snapshot.specs snapshot.stories in
    let makefile = required_file (lit "Makefile") snapshot.makefile (lit "Makefile") in
    elim (Bool-cases (is_none agents && (is_none stories && is_none makefile))) [
      | inr e ↦ absurd (unsafe_lem _ (rw e at h))
      | inl e ↦
          let (found, rest) = and_true (is_none agents) _ e in
          let (listed, made) = and_true (is_none stories) (is_none makefile) rest in
          let (kind, searchable, directories) =
            stories_lem snapshot.specs.kind snapshot.specs.readable snapshot.specs.searchable
              snapshot.specs.text snapshot.stories (none_lem stories listed) in
          let (adopted, migrated, story, handoff, guided) = contracts_lem snapshot _ (rw e at h) in
          record {
            agents =
                present_lem _ snapshot.agents.kind snapshot.agents.readable
                  snapshot.agents.searchable snapshot.agents.text _ (none_lem agents found);
            specs = (kind, searchable);
            stories = directories;
            makefile =
                present_lem _ snapshot.makefile.kind snapshot.makefile.readable
                  snapshot.makefile.searchable snapshot.makefile.text _ (none_lem makefile made);
            adopted = adopted;
            migrated = migrated;
            story_contract = story;
            handoff_contract = handoff;
            guided = guided;
          }
    ]

IsHealthy-outcome :
    (snapshot : Snapshot)
    → IsHealthy snapshot
    → (evaluate_repository_doctor snapshot).outcome ≡ structure_ok
unfolding evaluate_repository_doctor
IsHealthy-outcome snapshot p =
    let (kind, searchable) = p.specs in
    rw
      (
        present_accepted (lit "AGENTS.md") (lit "agent guide") snapshot.agents p.agents,
        stories_accepted snapshot.specs snapshot.stories kind searchable p.stories,
        present_accepted (lit "Makefile") (lit "Makefile") snapshot.makefile p.makefile,
      )
      (contracts_accepted snapshot _ p)

-- The doctor reports the structure of a repository as OK exactly when AGENTS.md and the Makefile are
-- readable files that are not blank, the Story directory can be listed, the adopted version, if it
-- is recorded, is the one checked out and no legacy marker is left, neither contract is incomplete
-- or unconfirmed, and guidance, if there is any, can be listed and has an entry that is not blank.
pub evaluate_repository_doctor-IsHealthy :
    (snapshot : Snapshot)
    → ((evaluate_repository_doctor snapshot).outcome ≡ structure_ok) ↔ IsHealthy snapshot
evaluate_repository_doctor-IsHealthy snapshot =
    (outcome-IsHealthy snapshot, IsHealthy-outcome snapshot)
