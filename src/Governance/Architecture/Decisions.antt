-- ===== src/Governance/Architecture/Decisions.antt =====
-- Which decisions and contracts an accepted Architecture section declares.
use praxis_bound.Governance.Section.{read_section}
use praxis_bound.Declarations.{Declaration, declaration, entry, read_declaration_section}
use praxis_bound.StoryLiterals.{read_exact_value}
use praxis_bound.Governance.Architecture.{
  architecture_labels, Entries, start, decision_entry, exact_entry, architecture_entry, is_low,
  spaced, read_architecture,
}
use praxis_bound.Governance.Architecture.Laws.{accepted_facts}
use mathlib.Core.Path.{subst}
use praxis_bound.Common.{
  ◌+◌, ◌<◌, ◌≡◌, refl, sym, ap, ◌∙◌, inl, inr, false, Option, none, some, List, [], ◌∷◌, ◌++◌,
  append-nil, append_assoc, arith, if◌then◌else◌, Bool-cases, length, flat_map, length-append,
  append-eq-nil, Text, lit, text_eq, text_eq_sound, contains, includes, each, texts, Distinct,
}

abbrev pub one_literal : Option Text → List Text
one_literal none = []
one_literal (some value) = value ∷ []

-- the exact value of a declaration with the label
unfoldable pub literal_of : Text → Declaration → List Text
literal_of name (entry text) = []
literal_of name (declaration label value) =
    if text_eq label name then one_literal (read_exact_value value) else []

-- The exact values that the section of a source declares under a label, in order.
unfoldable pub section_literals : Text → Text → List Text
section_literals source name =
    flat_map (literal_of name) (read_declaration_section source (lit "## Architecture")).1

-- what an entry adds to the decisions and to the number of contracts
record Adds (s r : Entries) (decisions contracts : List Text) : Type 0 where
  decided : r.decisions ≡ s.decisions ++ decisions
  contracted : r.contract_count ≡ s.contract_count + length contracts

nothing :
    (s r : Entries)
    → r.decisions ≡ s.decisions
    → r.contract_count ≡ s.contract_count
    → Adds s r [] []
nothing s r d c = record {
  decided = d ∙ sym (append-nil s.decisions);
  contracted = omega (arith, c);
}

decision-Adds :
    (s : Entries) (value : Text)
    → (decision_entry s value).1 ≡ []
    → Adds s (decision_entry s value).0 (value ∷ []) []
unfolding decision_entry
decision-Adds s value h =
    elim (Bool-cases (includes (spaced value) (spaced s.declared_decisions))) [
      | inl found ↦ absurd (cc (rw found at h))
      | inr fresh ↦ rw fresh (record { decided = refl; contracted = omega arith })
    ]

exact-Adds :
    (s : Entries) (label : Text) (o : Option Text)
    → (exact_entry s label o).1 ≡ []
    → Adds s
        (exact_entry s label o).0
        (if text_eq label (lit "Decision") then one_literal o else [])
        (if text_eq label (lit "Contract") then one_literal o else [])
unfolding exact_entry texts
exact-Adds s label none h = absurd (cc)
exact-Adds s label (some value) h = elim (Bool-cases (text_eq label (lit "Decision"))) [
  | inl e ↦
      let same = text_eq_sound label (lit "Decision") e in
      rw same (decision-Adds s value (rw same at h))
  | inr e ↦ elim (Bool-cases (text_eq label (lit "Boundary"))) [
    | inl f ↦ rw (text_eq_sound label (lit "Boundary") f) (nothing s _ refl refl)
    | inr f ↦ elim (Bool-cases (text_eq label (lit "Contract"))) [
      | inl g ↦
          rw (text_eq_sound label (lit "Contract") g)
            (record { decided = sym (append-nil s.decisions); contracted = refl })
      | inr g ↦ rw (e, f, g) (nothing s _ refl refl)
    ]
  ]
]

entry-Adds :
    (s : Entries) (d : Declaration)
    → (architecture_entry s d).1 ≡ []
    → Adds s
        (architecture_entry s d).0
        (literal_of (lit "Decision") d)
        (literal_of (lit "Contract") d)
unfolding architecture_entry literal_of texts
entry-Adds s (entry text) h = absurd (cc)
entry-Adds s (declaration label value) h = elim (Bool-cases (text_eq label (lit "Impact"))) [
  | inl e ↦ rw (text_eq_sound label (lit "Impact") e) (nothing s _ refl refl)
  | inr e ↦ elim (Bool-cases (contains architecture_labels label)) [
    | inr c ↦ absurd (cc (rw (e, c) at h))
    | inl c ↦ rw (e, c) (exact-Adds s label (read_exact_value value) (rw (e, c) at h))
  ]
]

entries-Adds :
    (s : Entries) (ds : List Declaration)
    → (each architecture_entry s ds).1 ≡ []
    → Adds s
        (each architecture_entry s ds).0
        (flat_map (literal_of (lit "Decision")) ds)
        (flat_map (literal_of (lit "Contract")) ds)
unfolding each flat_map
entries-Adds s [] h = nothing s s refl refl
entries-Adds s (d ∷ ds) h =
    let (now, later) = append-eq-nil (architecture_entry s d).1 _ h in
    let first = entry-Adds s d now in
    let rest = entries-Adds (architecture_entry s d).0 ds later in
    record {
      decided =
          rest.decided
          ∙ (ap (λ (t : List Text). t ++ flat_map (literal_of (lit "Decision")) ds) first.decided
              ∙ append_assoc s.decisions (literal_of (lit "Decision") d) _);
      contracted = omega (
        arith,
        rest.contracted,
        first.contracted,
        length-append (literal_of (lit "Contract") d) (flat_map (literal_of (lit "Contract")) ds),
      );
    }

-- If the contract accepts the Architecture section of a source, the decisions that it reads are those
-- that the section declares, the section declares no decision twice, and if its impact is above low,
-- it declares at least one decision or contract.
pub accepted_decisions :
    (source : Text)
    → (read_architecture source).1 ≡ []
    → ((read_architecture source).0.decisions ≡ section_literals source (lit "Decision"))
      × Distinct (section_literals source (lit "Decision"))
      × (is_low (read_architecture source).0.impact ≡ false
          → 0
            < length (section_literals source (lit "Decision"))
              + length (section_literals source (lit "Contract")))
unfolding read_architecture read_section section_literals
accepted_decisions source h =
    let entries = (read_declaration_section source (lit "## Architecture")).1 in
    let added = entries-Adds start entries (append-eq-nil _ _ (append-eq-nil _ _ h).0).0 in
    let (distinct, named) = accepted_facts source h in
    (
      added.decided,
      subst Distinct added.decided distinct,
      (λ i. omega (arith, named i, ap length added.decided, added.contracted)),
    )
