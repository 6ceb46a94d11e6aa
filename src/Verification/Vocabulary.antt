-- ===== src/Verification/Vocabulary.antt =====
-- The types of verification.ts, and the labels that spell their values.
use praxis_bound.Common.{Bool, Option, none, some, List, [], ◌∷◌, if◌then◌else◌, Text, lit, text_eq}

pub data TaskMode : Type 0 where
  architecture execution evidence mixed : TaskMode

pub data Level : Type 0 where
  low medium high : Level

pub data Layer : Type 0 where
  lint static unit integration contract e2e architecture : Layer

pub data Operation : Type 0 where
  plan modify add_dependency migration commit push deploy : Operation

pub record Authority : Type 0 where
  pub plan : Bool
  pub modify : Bool
  pub add_dependency : Bool
  pub migration : Bool
  pub commit : Bool
  pub push : Bool
  pub deploy : Bool

-- authority[operation]
abbrev pub grants : Authority → Operation → Bool
grants a plan = a.plan
grants a modify = a.modify
grants a add_dependency = a.add_dependency
grants a migration = a.migration
grants a commit = a.commit
grants a push = a.push
grants a deploy = a.deploy

-- authority[operation] = value
abbrev pub set_grant : Authority → Operation → Bool → Authority
set_grant a plan b = record a { plan = b }
set_grant a modify b = record a { modify = b }
set_grant a add_dependency b = record a { add_dependency = b }
set_grant a migration b = record a { migration = b }
set_grant a commit b = record a { commit = b }
set_grant a push b = record a { push = b }
set_grant a deploy b = record a { deploy = b }

pub record Plan : Type 0 where
  pub task_mode : TaskMode
  pub authority : Authority
  pub risk_level : Level
  pub architecture_impact : Level
  pub required_checks : List Layer

-- the operation that a label spells, if it spells one
unfoldable pub operation_of : Text → Option Operation
operation_of value =
    if text_eq value (lit "plan")
    then some plan
    else if text_eq value (lit "modify")
    then some modify
    else if text_eq value (lit "add_dependency")
    then some add_dependency
    else if text_eq value (lit "migration")
    then some migration
    else if text_eq value (lit "commit")
    then some commit
    else if text_eq value (lit "push")
    then some push
    else if text_eq value (lit "deploy")
    then some deploy
    else none

unfoldable pub task_mode_of : Text → Option TaskMode
task_mode_of value =
    if text_eq value (lit "architecture")
    then some TaskMode.architecture
    else if text_eq value (lit "execution")
    then some execution
    else if text_eq value (lit "evidence")
    then some evidence
    else if text_eq value (lit "mixed")
    then some mixed
    else none

unfoldable pub level_of : Text → Option Level
level_of value =
    if text_eq value (lit "low")
    then some low
    else if text_eq value (lit "medium")
    then some medium
    else if text_eq value (lit "high")
    then some high
    else none

unfoldable pub profiles : Level → List Layer
profiles low = lint ∷ static ∷ unit ∷ []
profiles medium = lint ∷ static ∷ unit ∷ integration ∷ []
profiles high = lint ∷ static ∷ unit ∷ integration ∷ contract ∷ e2e ∷ []
