-- ===== src/Governance/Architecture/Owners.antt =====
-- Architecture owners that the contract accepts.
use mathlib.Core.Path.{subst}
use praxis_bound.Governance.Architecture.{ArchitectureFacts, owner_entry, owners_from, check_owners}
use praxis_bound.Common.{
  ℕ, ◌+◌, ◌-◌, ◌≡◌, refl, sym, ap, ◌≢◌, Option, none, some, List, [], ◌∷◌, ◌++◌, arith, length,
  take, drop, append-eq-nil, All, Text, lit, text_eq_iff, slice, index_of, In, contains_sound,
  index_of_sound,
}

-- `<boundary> = <owner>` with a declared boundary and a named owner.
abbrev pub IsOwned : List Text → Text → Type 0
IsOwned boundaries owner =
    (boundary domain : Text) × (owner ≡ boundary ++ (lit " = " ++ domain))
    × (domain ≢ [])
    × In boundary boundaries

length-separator : length (lit " = ") ≡ 3
unfolding lit
length-separator = refl

named :
    (boundaries : List Text) (owner : Text) (i : ℕ)
    → owner_entry boundaries owner (some i) ≡ []
    → drop (i + 3) owner ≡ []
    → ⊥
unfolding owner_entry
named boundaries owner i h f = ground (arith, (text_eq_iff (drop (i + 3) owner) []).1 f)

declared :
    (boundaries : List Text) (owner : Text) (i : ℕ)
    → owner_entry boundaries owner (some i) ≡ []
    → In (slice 0 i owner) boundaries
unfolding owner_entry
declared boundaries owner i h = contains_sound boundaries (slice 0 i owner) (ground arith)

owner_clean :
    (boundaries : List Text) (owner : Text) (o : Option ℕ)
    → index_of (lit " = ") owner ≡ o
    → owner_entry boundaries owner o ≡ []
    → IsOwned boundaries owner
unfolding owner_entry
owner_clean boundaries owner none e h = absurd (ground arith)
owner_clean boundaries owner (some i) e h =
    let n : i + length (lit " = ") ≡ i + 3 = ap (λ k. i + k) length-separator in
    let start : i - 0 ≡ i = omega arith in
    (
      slice 0 i owner,
      drop (i + 3) owner,
      subst (λ k. owner ≡ take (i - 0) owner ++ (lit " = " ++ drop k owner)) n
          (subst (λ k. owner ≡ take k owner ++ (lit " = " ++ drop (i + length (lit " = ")) owner))
            (sym start) (index_of_sound (lit " = ") owner i e)),
      (λ f. named boundaries owner i h f),
      declared boundaries owner i h,
    )

owners_clean :
    (boundaries owners : List Text)
    → owners_from boundaries owners ≡ []
    → All (IsOwned boundaries) owners
unfolding owners_from
owners_clean boundaries [] h = tt
owners_clean boundaries (owner ∷ owners) h =
    let (now, later) = append-eq-nil _ _ h in
    (
      owner_clean boundaries owner (index_of (lit " = ") owner) refl now,
      owners_clean boundaries owners later,
    )

-- If `checkOwners` reports nothing, every owner is written `<boundary> = <owner>` with a boundary
-- that the section declares and an owner that is not empty.
pub owners_accepted :
    (facts : ArchitectureFacts)
    → check_owners facts ≡ []
    → All (IsOwned facts.boundaries) facts.owners
unfolding check_owners
owners_accepted facts h = owners_clean facts.boundaries facts.owners h
