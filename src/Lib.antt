-- ===== src/Lib.antt =====
-- PraxisBound: the readers and checks of packages/core that decide whether a Story may be worked on,
-- a release made, or a repository called sound.
--
-- A Story is a directory named by its ID with a `story.md` and an `acceptance.md`. The program
-- reads declarations out of their Markdown, resolves what the Story authorizes and which checks it
-- needs, enforces the governance sections, decides whether the whole Story keeps its contract and,
-- on request, whether it is ready, and evaluates a recorded verification result and the evidence
-- of a handoff. All of this is pure: a function of source text that returns facts and a list of
-- issues.
--
-- Files, and the code of packages/core/src that they model:
-- - Common: text, lists, the writer loop and the lemmas that the components share
-- - Declarations: declarations.ts: fences, sections, bullets and declarations; Declarations/Trim
--   the trimming, Declarations/Fences the fenced blocks
-- - StoryId: story-id.ts: the grammar of Story IDs, and the ID that a directory name carries
-- - StoryTable: story-table.ts: table rows with escaped pipes
-- - StoryLiterals: story-literals.ts: placeholders and backticked literals; StoryLiterals/Exact
--   which values are literals
-- - Verification: verification.ts: `resolveVerificationPlan` is `resolve_verification_plan` of
--   Verification/Resolve, over the readers of Section, Authority, Architecture and Risk;
--   Verification/Resolve/Laws is about every source, Defaults about one without a section of the
--   execution contract
-- - Governance: story-governance.ts: `readTaskMode`, `readAuthority`, `readArchitecture` and
--   `checkOwners`; Governance/Architecture/Decisions compares the facts with what the section
--   declares
-- - StoryReadiness: story-readiness.ts: `checkStoryReadiness` is `check_story_readiness` of
--   StoryReadiness/Check, over Content, Criteria and Evidence; RiskEvidence the checks of a risk
--   contract
-- - Result: result.ts: the result envelope and the table of status, outcome and exit; Result/Value
--   the values of the language, Result/Grammar the patterns, Result/Validate
--   `validateResultEnvelope`, Result/Forms, Known, Json, Issues and Typed what an accepted value is
-- - Handoff: handoff.ts: `evaluateHandoff` is `evaluate_handoff` of Handoff/Evaluate, over Scalars,
--   Fields and the line machine of Lines; Steps and RoundTrip read a written block
-- - StoryMatrix: story-matrix.ts: `checkMatrix`; Accepted says what an accepted table is, Walk
--   follows the loop
-- - StoryDecision: story-decision.ts: `checkDecision`
-- - Review: review/path.ts: Review/Paths the safe paths and the escapes, Review/Paths/Safety what
--   they promise
-- - Review/Graph: review/dependency-graph.ts: `findDependencyCycles` is `find_dependency_cycles`;
--   Halts bounds its rounds, Layers and Partition follow its stack, Groups says what it returns;
--   Review/Paths/Utf8 `compareUtf8` of review/path.ts
-- - Protocol: protocol.ts and version.ts: `resolveProtocolSelector`; Protocol/Selected what it
--   selects
-- - Story: story.ts: `evaluateStory` is `evaluate_story` of Story/Evaluate, over Risk,
--   RiskContracts and Classification; Structure compares the two results, Accepted, Classified,
--   Signals and Contracts say what a passing Story states, Concrete and Evidenced what a ready one
--   does
-- - VerificationResult: verification-result.ts: `evaluateVerificationResult` is
--   `evaluate_verification_result` of VerificationResult/Evaluate, over the readers of Acceptance
--   and Record; Recorded, Traced and Granted say where its facts come from, Verified what a pass
--   proves, Outcome and Reported what each outcome says, Criteria that two readers of the criteria
--   agree
-- - Release: release.ts: `evaluateReleaseReadiness`; Release/Unchanged what its comparisons say,
--   Release/Ready which checkouts are ready
-- - Repository: repository.ts: `evaluateRepositoryDoctor` is `evaluate_repository_doctor` of
--   Repository/Doctor, over Observation, Makefile (`scanMakefile`) and Marker; Sound, Complete and
--   Healthy compare a structure reported as OK with a description of it
--
-- Conventions. A string is the list of its UTF-16 code units, `Text`. A routine that pushes onto an
-- `issues` array returns the pair of its result and the issues that it pushes, in order; a loop over
-- entries is `each` of a step on the variables that its body assigns (Common/Writer). A callback
-- that closes over variables is such a step. `undefined` is `none`. Every loop is structural
-- recursion on the text or on the list that it reads, an index loop on the rounds that are left.
-- The printing of a number counts rounds of its own: `n` + 1 of them, and a number has no more
-- digits than that. The search for cycles counts rounds too, 1 + twice the declared dependencies: a
-- round takes one dependency or leaves one frame, and Review/Graph/Halts shows that they are enough.
--
-- The `## Verification Scope` section of a Story is read by the shell checkers of scripts/ only:
-- verification.ts has no layer for it, so neither has the model.
--
-- Not modelled: the command line adapters (packages/cli), which only move text and files; the rest
-- of the review modules; the initialization, activation and goal plan modules
-- of packages/core.
pub mod Common
pub mod Declarations
pub mod Governance
pub mod Handoff
pub mod Protocol
pub mod Release
pub mod Repository
pub mod Result
pub mod Review
pub mod Story
pub mod StoryDecision
pub mod StoryId
pub mod StoryLiterals
pub mod StoryMatrix
pub mod StoryReadiness
pub mod StoryTable
pub mod Verification
pub mod VerificationResult
