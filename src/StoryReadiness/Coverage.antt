-- ===== src/StoryReadiness/Coverage.antt =====
-- A ready Story: the acceptance criteria and the rows of evidence are the same IDs, each once.
use mathlib.Core.List.{Perm, Nodup}
use mathlib.Core.Path.{subst}
use praxis_bound.Declarations.{read_content_lines}
use praxis_bound.StoryTable.{count_table_pipes, split_table_cells}
use praxis_bound.StoryReadiness.Content.{check_parts}
use praxis_bound.StoryReadiness.Criteria.{
  is_ac_id, id_before, acceptance_id, criterion, checkbox_line, criterion_text, criterion_line,
  read_criteria,
}
use praxis_bound.StoryReadiness.Evidence.{evidence_id, evidence_acceptance_id, check_evidence_row}
use praxis_bound.StoryReadiness.Check.{
  Table, empty_table, heading_line, table_line, uncovered, check_story_readiness,
}
use praxis_bound.Common.{
  ℕ, ◌+◌, ◌<◌, ◌≡◌, refl, inl, inr, Bool, true, false, not, ◌||◌, Option, none, some, List, [], ◌∷◌,
  arith, ◌==◌, Bool-cases, length, get_or, drop, append-eq-nil, All, All-append, Text, lit, text_eq,
  text_eq_sound, contains, starts_with, slice, index_of, each_clean, Distinct, Distinct-snoc,
  decimal, if_clean, Distinct-Nodup, perm_of_contains, known_snoc,
}

id_before-IsId :
    (value : Text) (o : Option ℕ) (id : Text) → id_before value o ≡ some id → is_ac_id id ≡ true
unfolding id_before
id_before-IsId value none id h = cc
id_before-IsId value (some i) id h = elim (Bool-cases (is_ac_id (slice 0 i value))) [
  | inl e ↦ let same : slice 0 i value ≡ id = ground arith in subst (λ t. is_ac_id t ≡ true) same e
  | inr e ↦ absurd (ground arith)
]

acceptance_id-IsId : (value id : Text) → acceptance_id value ≡ some id → is_ac_id id ≡ true
unfolding acceptance_id
acceptance_id-IsId value id h = id_before-IsId value (index_of (b':' ∷ []) value) id (ground arith)

-- what the loop over the criteria keeps while it is clean
abbrev AreIds : List Text → Type 0
AreIds ids = Distinct ids × All (λ id. is_ac_id id ≡ true) ids

criterion-AreIds :
    (ids : List Text) (checkbox : Text) (o : Option Text)
    → acceptance_id checkbox ≡ o
    → AreIds ids
    → (criterion ids checkbox o).1 ≡ []
    → AreIds (criterion ids checkbox o).0
unfolding criterion
criterion-AreIds ids checkbox none e k h = k
criterion-AreIds ids checkbox (some id) e k h =
    let new : contains ids id ≡ false = if_clean (contains ids id) _ (append-eq-nil _ _ h).0 in
    (
      Distinct-snoc ids id k.0 new,
      All-append (λ t. is_ac_id t ≡ true) ids (id ∷ []) k.1 (acceptance_id-IsId checkbox id e, tt),
    )

checkbox-AreIds :
    (ids : List Text) (o : Option Text)
    → AreIds ids
    → (checkbox_line ids o).1 ≡ []
    → AreIds (checkbox_line ids o).0
unfolding checkbox_line
checkbox-AreIds ids none k h = k
checkbox-AreIds ids (some checkbox) k h =
    criterion-AreIds ids checkbox (acceptance_id checkbox) refl k h

criterion_line-AreIds :
    (ids : List Text) (line : Text)
    → AreIds ids
    → (criterion_line ids line).1 ≡ []
    → AreIds (criterion_line ids line).0
unfolding criterion_line
criterion_line-AreIds ids line k h = checkbox-AreIds ids (criterion_text line) k h

criteria_clean :
    (acceptance : Text)
    → (read_criteria acceptance).1 ≡ []
    → AreIds (read_criteria acceptance).0 × (0 < length (read_criteria acceptance).0)
unfolding read_criteria
criteria_clean acceptance h =
    let (loop, some_ids) = append-eq-nil _ _ h in
    (
      each_clean criterion_line AreIds criterion_line-AreIds [] (read_content_lines acceptance)
          (tt, tt) loop,
      ground arith,
    )

known_of_not : (b : Bool) → not b ≡ false → b ≡ true
known_of_not b h = ground arith

-- what the loop over the evidence keeps while it is clean
module _ (acceptance_ids : List Text) where
  abbrev AreKnown : List Text → Type 0
  AreKnown ids =
      Distinct ids × ((t : Text) → contains ids t ≡ true → contains acceptance_ids t ≡ true)

  id-AreKnown :
      (ids : List Text) (number : Text) (o : Option Text)
      → AreKnown ids
      → (evidence_id acceptance_ids ids number o).1 ≡ []
      → AreKnown (evidence_id acceptance_ids ids number o).0
  unfolding evidence_id
  id-AreKnown ids number none k h = k
  id-AreKnown ids number (some id) k h =
      let (known, fresh) = append-eq-nil _ _ h in
      (
        Distinct-snoc ids id k.0 (if_clean (contains ids id) _ fresh),
        known_snoc acceptance_ids ids id k.1 (
            known_of_not (contains acceptance_ids id)
              (if_clean (not (contains acceptance_ids id)) _ known)),
      )

  row-AreKnown :
      (ids : List Text) (number row : Text)
      → AreKnown ids
      → (check_evidence_row acceptance_ids ids number row).1 ≡ []
      → AreKnown (check_evidence_row acceptance_ids ids number row).0
  unfolding check_evidence_row
  row-AreKnown ids number row k h = elim (Bool-cases (count_table_pipes row == 6)) [
    | inr e ↦ rw e k
    | inl e ↦ elim (Bool-cases (text_eq (get_or (split_table_cells (drop 1 row)) 5 []) [])) [
      | inr f ↦ rw (e, f) k
      | inl f ↦
          rw (e, f)
            (id-AreKnown ids number
              (evidence_acceptance_id (get_or (split_table_cells (drop 1 row)) 0 [])) k
              (append-eq-nil _ _ (rw (e, f) at h)).0)
    ]
  ]

  line-AreKnown :
      (s : Table) (line : Text)
      → AreKnown s.evidence_ids
      → (table_line acceptance_ids s line).1 ≡ []
      → AreKnown (table_line acceptance_ids s line).0.evidence_ids
  unfolding table_line
  line-AreKnown s line k h = elim (Bool-cases (starts_with (b'#' ∷ []) line)) [
    | inl e ↦ elim (Bool-cases (text_eq line (lit "## Acceptance Evidence"))) [
      | inl f ↦ rw (e, heading_line, f) k
      | inr f ↦ rw (e, heading_line, f) k
    ]
    | inr e ↦ elim (Bool-cases (not s.in_evidence || not (starts_with (b'|' ∷ []) line))) [
      | inl f ↦ rw (e, f) k
      | inr f ↦ elim (Bool-cases s.header) [
        | inr g ↦ rw (e, f, g) k
        | inl g ↦ elim (Bool-cases s.separator) [
          | inr i ↦ rw (e, f, g, i) k
          | inl i ↦
              rw (e, f, g, i)
                (row-AreKnown s.evidence_ids (decimal (s.rows + 1)) line k (rw (e, f, g, i) at h))
        ]
      ]
    ]
  ]

not-false : (b : Bool) → not b ≡ false → b ≡ true
not-false b h = ground arith

uncovered_clean :
    (evidence_ids ids : List Text)
    → uncovered evidence_ids ids ≡ []
    → (t : Text) → contains ids t ≡ true
    → contains evidence_ids t ≡ true
unfolding uncovered contains
uncovered_clean evidence_ids [] h t c = cc
uncovered_clean evidence_ids (id ∷ ids) h t c =
    let (here, rest) = append-eq-nil _ (uncovered evidence_ids ids) h in
    elim (Bool-cases (text_eq id t)) [
      | inl e ↦
          subst (λ u. contains evidence_ids u ≡ true) (text_eq_sound id t e)
            (not-false (contains evidence_ids id)
              (if_clean (not (contains evidence_ids id)) _ here))
      | inr e ↦ uncovered_clean evidence_ids ids rest t (ground arith)
    ]

clash_nil : {A : Type 0} (t : Text) → contains [] t ≡ true → A
unfolding contains
clash_nil t c = cc

-- If the readiness check of a Story reports nothing, its acceptance criteria have distinct IDs, at
-- least one, each of the form `AC-<digits>`, and the rows of the Acceptance Evidence table name
-- exactly these IDs, each once: the two lists are permutations of each other.
pub coverage :
    (story acceptance : Text)
    → (check_story_readiness story acceptance).1 ≡ []
    → let facts = (check_story_readiness story acceptance).0 in
      Perm facts.acceptance_ids facts.evidence_ids
      × Nodup facts.acceptance_ids
      × All (λ id. is_ac_id id ≡ true) facts.acceptance_ids
      × (0 < length facts.acceptance_ids)
unfolding check_story_readiness
coverage story acceptance h =
    let (_, h1) = append-eq-nil (check_parts story) _ h in
    let (criteria, h2) = append-eq-nil (read_criteria acceptance).1 _ h1 in
    let (table, h3) = append-eq-nil _ _ h2 in
    let (_, covered) = append-eq-nil _ _ h3 in
    let ids = criteria_clean acceptance criteria in
    let acceptance_ids = (read_criteria acceptance).0 in
    let known =
      each_clean (table_line acceptance_ids) (λ s. AreKnown acceptance_ids s.evidence_ids)
        (line-AreKnown acceptance_ids) empty_table (read_content_lines acceptance)
        (tt, λ t c. clash_nil t c) table in
    (
      perm_of_contains acceptance_ids _ ids.0.0 known.0 (uncovered_clean _ acceptance_ids covered)
          known.1,
      Distinct-Nodup acceptance_ids ids.0.0,
      ids.0.1,
      ids.1,
    )
