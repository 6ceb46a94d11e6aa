-- ===== src/Governance/Architecture/Laws.antt =====
-- What a Story's Architecture section states once the contract accepts it.
use mathlib.Core.Path.{subst}
use praxis_bound.Governance.Section.{read_section}
use praxis_bound.Declarations.{Declaration, declaration, entry, read_declaration_section}
use praxis_bound.StoryLiterals.{read_exact_value}
use praxis_bound.Verification.Vocabulary.{Level}
use praxis_bound.Governance.Architecture.{
  architecture_labels, Entries, start, spaced, decision_entry, exact_entry, architecture_entry,
  is_low, supported, read_architecture,
}
use praxis_bound.Common.{
  ◌+◌, ◌<◌, ◌≡◌, refl, sym, ap, ◌∙◌, inl, inr, Bool, true, false, Option, none, some, List, [], ◌∷◌,
  ◌++◌, append-nil, append_assoc, arith, if◌then◌else◌, Bool-cases, length, length-append,
  append-eq-nil, Text, lit, text_eq, text_eq_sound, contains, includes, Issue, each_clean,
  contains-append, Distinct, Distinct-snoc, includes-append,
}

-- The string that the reader searches has every decision as a token.
record IsTracked (s : Entries) : Type 0 where
  distinct : Distinct s.decisions
  counted : s.decision_count ≡ length s.decisions
  ends : (z : Text) × (s.declared_decisions ≡ z ++ b' ' ∷ [])
  token :
      (v : Text)
      → contains s.decisions v ≡ true
      → (x y : Text) × (s.declared_decisions ≡ x ++ (spaced v ++ y))

token_included :
    (declared v x y : Text)
    → declared ≡ x ++ (spaced v ++ y)
    → includes (spaced v) (spaced declared) ≡ true
token_included declared v x y h = rw h (
    subst (λ t. includes (spaced v) (b' ' ∷ t) ≡ true)
      (sym (
        append_assoc x (spaced v ++ y) (b' ' ∷ [])
        ∙ ap (λ t. x ++ t) (append_assoc (spaced v) y (b' ' ∷ []))))
      (includes-append (b' ' ∷ x) (spaced v) (y ++ b' ' ∷ [])))

-- a value that is not found is a new decision
contains_one : (x v : Text) → contains (x ∷ []) v ≡ true → x ≡ v
unfolding contains
contains_one x v h = ground (arith, text_eq_sound x v)

not_found :
    (s : Entries) (value : Text)
    → IsTracked s
    → includes (spaced value) (spaced s.declared_decisions) ≡ false
    → contains s.decisions value ≡ false
not_found s value t h = elim (Bool-cases (contains s.decisions value)) [
  | inr new ↦ new
  | inl old ↦
      let (x, y, e) = t.token value old in
      absurd (ground (arith, token_included s.declared_decisions value x y e))
]

kept_token :
    (s : Entries) (value v z : Text)
    → s.declared_decisions ≡ z ++ b' ' ∷ []
    → (contains s.decisions v ≡ true → (x y : Text) × (s.declared_decisions ≡ x ++ (spaced v ++ y)))
    → contains (s.decisions ++ value ∷ []) v ≡ true
    → (x y : Text) × (s.declared_decisions ++ (value ++ b' ' ∷ []) ≡ x ++ (spaced v ++ y))
kept_token s value v z e old h = elim (Bool-cases (contains s.decisions v)) [
  | inl c ↦
      let (x, y, at) = old c in
      (
        x,
        y ++ (value ++ b' ' ∷ []),
        rw at (
            append_assoc x (spaced v ++ y) (value ++ b' ' ∷ [])
            ∙ ap (λ t. x ++ t) (append_assoc (spaced v) y (value ++ b' ' ∷ []))),
      )
  | inr c ↦
      let same : value ≡ v =
        ground (arith, contains-append s.decisions (value ∷ []) v, contains_one value v) in
      (
        z,
        [],
        rw (e, ← same)
            (append_assoc z (b' ' ∷ []) (value ++ b' ' ∷ [])
              ∙ ap (λ t. z ++ t) (sym (append-nil (spaced value)))),
      )
]

decision-IsTracked :
    (s : Entries) (value : Text)
    → IsTracked s
    → (decision_entry s value).1 ≡ []
    → IsTracked (decision_entry s value).0
unfolding decision_entry
decision-IsTracked s value t h =
    elim (Bool-cases (includes (spaced value) (spaced s.declared_decisions))) [
      | inl found ↦ absurd (ground arith)
      | inr fresh ↦
          let (z, e) = t.ends in
          rw fresh (record {
            distinct = Distinct-snoc s.decisions value t.distinct (not_found s value t fresh);
            counted = omega (arith, t.counted, length-append s.decisions (value ∷ []));
            ends = (
              s.declared_decisions ++ value,
              sym (append_assoc s.declared_decisions value (b' ' ∷ [])),
            );
            token = λ v. kept_token s value v z e (t.token v);
          })
    ]

fields_kept :
    (s r : Entries)
    → r.decisions ≡ s.decisions
    → r.declared_decisions ≡ s.declared_decisions
    → r.decision_count ≡ s.decision_count
    → IsTracked s
    → IsTracked r
fields_kept s r d e c t = record {
  distinct = subst Distinct (sym d) t.distinct;
  counted = c ∙ t.counted ∙ ap length (sym d);
  ends = let (z, at) = t.ends in (z, e ∙ at);
  token =
      λ v h. let (x, y, at) = t.token v (subst (λ xs. contains xs v ≡ true) d h) in (x, y, e ∙ at);
}

-- the branches of the `switch` that leave the decisions alone
other_branch : Entries → Text → Bool → Bool → Entries × List Issue
other_branch s value boundary contract =
    if boundary
    then (record s { boundaries = s.boundaries ++ value ∷ [] }, [])
    else if contract
    then (record s { contract_count = s.contract_count + 1 }, [])
    else (record s { owners = s.owners ++ value ∷ [] }, [])

other-IsTracked :
    (s : Entries) (value : Text) (boundary contract : Bool)
    → IsTracked s
    → IsTracked (other_branch s value boundary contract).0
unfolding other_branch
other-IsTracked s value true contract t = fields_kept s _ refl refl refl t
other-IsTracked s value false true t = fields_kept s _ refl refl refl t
other-IsTracked s value false false t = fields_kept s _ refl refl refl t

exact-IsTracked :
    (s : Entries) (label : Text) (o : Option Text)
    → IsTracked s
    → (exact_entry s label o).1 ≡ []
    → IsTracked (exact_entry s label o).0
unfolding exact_entry other_branch
exact-IsTracked s label none t h = t
exact-IsTracked s label (some value) t h = elim (Bool-cases (text_eq label (lit "Decision"))) [
  | inl e ↦ rw e (decision-IsTracked s value t (rw e at h))
  | inr e ↦ rw e (other-IsTracked s value _ _ t)
]

architecture-IsTracked :
    (s : Entries) (d : Declaration)
    → IsTracked s
    → (architecture_entry s d).1 ≡ []
    → IsTracked (architecture_entry s d).0
unfolding architecture_entry
architecture-IsTracked s (entry text) t h = t
architecture-IsTracked s (declaration label value) t h =
    elim (Bool-cases (text_eq label (lit "Impact"))) [
      | inl e ↦ rw e (fields_kept s _ refl refl refl t)
      | inr e ↦ elim (Bool-cases (contains architecture_labels label)) [
        | inl c ↦ rw (e, c) (exact-IsTracked s label (read_exact_value value) t (rw (e, c) at h))
        | inr c ↦ rw (e, c) t
      ]
    ]

nothing_in_nil : (v : Text) → contains [] v ≡ true → ⊥
unfolding contains
nothing_in_nil v h = ground arith

supported_counts :
    (impact : Level) (s : Entries)
    → is_low impact ≡ false
    → IsTracked s
    → supported impact s ≡ []
    → 0 < length s.decisions + s.contract_count
unfolding supported
supported_counts impact s i t h = ground (arith, t.counted)

start-IsTracked : IsTracked start
start-IsTracked = record {
  distinct = tt;
  counted = refl;
  ends = ([], refl);
  token = λ v h. absurd (nothing_in_nil v h);
}

-- The facts of an accepted section: their decisions are distinct, and support the impact.
pub accepted_facts :
    (source : Text)
    → (read_architecture source).1 ≡ []
    → Distinct (read_architecture source).0.decisions
      × (is_low (read_architecture source).0.impact ≡ false
          → 0
            < length (read_architecture source).0.decisions
              + (read_architecture source).0.contract_count)
unfolding read_architecture read_section
accepted_facts source h =
    let entries = (read_declaration_section source (lit "## Architecture")).1 in
    let (section, rest) = append-eq-nil _ _ h in
    let t =
      each_clean architecture_entry IsTracked architecture-IsTracked start entries start-IsTracked
        (append-eq-nil _ _ section).0 in
    (t.distinct, λ i. supported_counts _ _ i t (append-eq-nil _ _ rest).1)
