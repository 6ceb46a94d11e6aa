-- ===== src/Governance/Authority/Chain.antt =====
-- A clean Authority section is closed under the grant chain.
use mathlib.Core.Path.{subst}
use praxis_bound.Verification.Vocabulary.{TaskMode, evidence, Authority}
use praxis_bound.Governance.Authority.{
  link, grant_chain, ungranted, mutating_operations, evidence_mode, read_authority,
}
use praxis_bound.Common.{◌≡◌, Bool, true, false, [], arith, append-eq-nil, Text}

-- each grant of the chain comes with the one it needs
pub record IsClosed (a : Authority) : Type 0 where
  pub push_of_deploy : a.deploy ≡ true → a.push ≡ true
  pub commit_of_push : a.push ≡ true → a.commit ≡ true
  pub modify_of_commit : a.commit ≡ true → a.modify ≡ true

abbrev pub GrantsNothing : Authority → Type 0
GrantsNothing a =
    (a.modify ≡ false)
    × (a.add_dependency ≡ false)
    × (a.migration ≡ false)
    × (a.commit ≡ false)
    × (a.push ≡ false)
    × (a.deploy ≡ false)

link_clean :
    (granted needed : Bool) (message : Text)
    → link granted needed message ≡ []
    → granted ≡ true
    → needed ≡ true
unfolding link
link_clean granted needed message h g = ground arith

chain_clean : (a : Authority) → grant_chain a ≡ [] → IsClosed a
unfolding grant_chain
chain_clean a h =
    let (first, rest) = append-eq-nil _ _ h in
    let (second, third) = append-eq-nil _ _ rest in
    record {
      push_of_deploy = link_clean a.deploy a.push _ first;
      commit_of_push = link_clean a.push a.commit _ second;
      modify_of_commit = link_clean a.commit a.modify _ third;
    }

evidence_clean : (a : Authority) → evidence_mode evidence a ≡ [] → GrantsNothing a
unfolding evidence_mode ungranted mutating_operations
evidence_clean a h = ground arith

-- If the Story contract accepts the Authority section, deploying comes with pushing, pushing with
-- committing and committing with modifying, and in the evidence mode no operation but planning is
-- granted.
pub clean-IsClosed :
    (source : Text) (mode : TaskMode)
    → (read_authority source mode).1 ≡ []
    → IsClosed (read_authority source mode).0
      × (mode ≡ evidence → GrantsNothing (read_authority source mode).0)
unfolding read_authority
clean-IsClosed source mode h =
    let a = (read_authority source mode).0 in
    let (chain, rest) =
      append-eq-nil (grant_chain a) (evidence_mode mode a) (append-eq-nil _ _ h).1 in
    (chain_clean a chain, λ e. evidence_clean a (subst (λ m. evidence_mode m a ≡ []) e rest))
