-- ===== src/Story/Classified.antt =====
-- What the classification of a passing Story obliges it to.
use praxis_bound.Declarations.{read_section_bullets, read_content_lines}
use praxis_bound.StoryLiterals.{is_placeholder, has_literal, read_strict_declarations}
use praxis_bound.StoryMatrix.{MatrixFacts, check_matrix}
use praxis_bound.StoryMatrix.Accepted.{matrix_table, IsMatrix}
use praxis_bound.StoryMatrix.Walk.{check_matrix-IsMatrix}
use praxis_bound.Story.Classification.{
  yes_or_no, classified, read_classification_value, count_bullets, count_literal_bullets,
  matrix_required, trust_required, security_issues, superseded_required, baseline_issues,
}
use praxis_bound.Story.Accepted.{passes-IsClean}
use praxis_bound.Story.Evaluate.{
  StoryFacts, StoryContractSources, conditional_issues, classification_issues, story_facts,
  evaluate_story, evaluate_story_contract,
}
use praxis_bound.Common.{
  ℕ, ◌≤◌, ◌<◌, ◌≡◌, refl, sym, ap, ◌∙◌, ◌≢◌, inl, inr, Bool, true, false, not, some, List, [], ◌∷◌,
  arith, ltb, if◌then◌else◌, Bool-cases, any, append-eq-nil, All, Text, lit, text_eq, text_eq_sound,
  if_clean,
}

-- A bullet under the heading is no placeholder, and every such bullet has a literal.
pub record IsEnumerated (bullets : List Text) : Type 0 where
  pub some_entry : any (λ bullet. not (is_placeholder bullet)) bullets ≡ true
  pub literals : All (λ bullet. is_placeholder bullet ≡ false → has_literal bullet ≡ true) bullets

some_counted :
    (found : Bool) (bullets : List Text)
    → 0 < (count_bullets found bullets).total
    → any (λ bullet. not (is_placeholder bullet)) bullets ≡ true
unfolding count_bullets
some_counted found [] h = absurd (ground arith)
some_counted found (bullet ∷ bullets) h = ground (arith, some_counted found bullets)

at_most :
    (found : Bool) (bullets : List Text)
    → (count_bullets found bullets).literal ≤ (count_bullets found bullets).total
unfolding count_bullets
at_most found [] = omega arith
at_most found (bullet ∷ bullets) = ground (arith, at_most found bullets)

module _ (found : Bool) (bullet : Text) (bullets : List Text)
    (h : (count_bullets found (bullet ∷ bullets)).literal
      ≡ (count_bullets found (bullet ∷ bullets)).total) where
  first_literal : is_placeholder bullet ≡ false → has_literal bullet ≡ true
  unfolding count_bullets
  first_literal e = ground (arith, at_most found bullets)

  rest_literal : (count_bullets found bullets).literal ≡ (count_bullets found bullets).total
  unfolding count_bullets
  rest_literal = ground (arith, at_most found bullets)

literals_of_total :
    (found : Bool) (bullets : List Text)
    → (count_bullets found bullets).literal ≡ (count_bullets found bullets).total
    → All (λ bullet. is_placeholder bullet ≡ false → has_literal bullet ≡ true) bullets
literals_of_total found [] h = tt
literals_of_total found (bullet ∷ bullets) h = (
  first_literal found bullet bullets h,
  literals_of_total found bullets (rest_literal found bullet bullets h),
)

found_kept : (found : Bool) (bullets : List Text) → (count_bullets found bullets).found ≡ found
unfolding count_bullets
found_kept found [] = refl
found_kept found (bullet ∷ bullets) = ground (arith, found_kept found bullets)

counted-IsEnumerated :
    (found : Bool) (bullets : List Text)
    → (count_bullets found bullets).total ≢ 0
    → (count_bullets found bullets).literal ≡ (count_bullets found bullets).total
    → IsEnumerated bullets
counted-IsEnumerated found bullets n h = record {
  some_entry = some_counted found bullets (omega (arith, n));
  literals = literals_of_total found bullets h;
}

trust_clean :
    (found : Bool) (bullets : List Text)
    → trust_required (count_bullets found bullets) ≡ []
    → IsEnumerated bullets
unfolding trust_required
trust_clean found bullets h =
    counted-IsEnumerated found bullets (λ e. absurd (ground arith)) (ground arith)

superseded_clean :
    (found : Bool) (bullets : List Text)
    → superseded_required (count_bullets found bullets) ≡ []
    → IsEnumerated bullets
unfolding superseded_required
superseded_clean found bullets h =
    counted-IsEnumerated found bullets (λ e. absurd (ground arith)) (ground arith)

matrix_clean :
    (matrix : MatrixFacts) → matrix_required matrix ≡ [] → (matrix.found ≡ true) × (matrix.rows ≢ 0)
unfolding matrix_required
matrix_clean matrix h = (ground arith, λ e. absurd (ground arith))

-- A security-sensitive Story shows a matrix with rows and enumerates its trust boundary; another one
-- has no matrix.
pub IsSecured : Text → Text → Bool → Type 0
IsSecured story acceptance true =
    IsMatrix (matrix_table false (read_content_lines acceptance)) (check_matrix acceptance).0.rows
    × ((check_matrix acceptance).0.rows ≢ 0)
    × IsEnumerated (read_section_bullets story (lit "## Trust Boundary Fields")).bullets
IsSecured story acceptance false = (check_matrix acceptance).0.found ≡ false

-- A baseline-conformance Story enumerates what it supersedes; another one has no such section.
pub IsBaseline : Text → Bool → Type 0
IsBaseline story true =
    IsEnumerated (read_section_bullets story (lit "## Superseded Behavior")).bullets
IsBaseline story false = (read_section_bullets story (lit "## Superseded Behavior")).count ≡ 0

security_clean :
    (story acceptance : Text) (security : Bool)
    → (check_matrix acceptance).1 ≡ []
    → security_issues security
        (check_matrix acceptance).0
        (count_literal_bullets story (lit "## Trust Boundary Fields"))
      ≡ []
    → IsSecured story acceptance security
unfolding security_issues count_literal_bullets IsSecured
security_clean story acceptance true m h =
    let (required, trusted) = append-eq-nil _ _ h in
    (
      check_matrix-IsMatrix acceptance m,
      (matrix_clean _ required).1,
      trust_clean _ (read_section_bullets story (lit "## Trust Boundary Fields")).bullets trusted,
    )
security_clean story acceptance false m h = if_clean _ _ h

not_positive : (n : ℕ) → ltb 0 n ≡ false → n ≡ 0
not_positive n h = ground arith

clean-IsBaseline :
    (story : Text) (baseline : Bool)
    → baseline_issues baseline (count_literal_bullets story (lit "## Superseded Behavior")) ≡ []
    → IsBaseline story baseline
unfolding baseline_issues count_literal_bullets IsBaseline
clean-IsBaseline story true h =
    superseded_clean _ (read_section_bullets story (lit "## Superseded Behavior")).bullets h
clean-IsBaseline story false h =
    let section = read_section_bullets story (lit "## Superseded Behavior") in
    not_positive section.count (sym (found_kept _ section.bullets) ∙ if_clean _ _ h)

one_value :
    (label : Text) (values : List Text)
    → (classified label values).1 ≡ []
    → (b : Bool) × ((classified label values).0 ≡ some b)
      × (values ≡ (if b then lit "yes" else lit "no") ∷ [])
unfolding classified yes_or_no
one_value label [] h = cc
one_value label (value ∷ []) h = elim (Bool-cases (text_eq value (lit "yes"))) [
  | inl e ↦ (true, rw e refl, ap (λ t. t ∷ []) (text_eq_sound value _ e))
  | inr e ↦ elim (Bool-cases (text_eq value (lit "no"))) [
    | inl f ↦ (false, rw (e, f) refl, ap (λ t. t ∷ []) (text_eq_sound value _ f))
    | inr f ↦ absurd (cc (rw (e, f) at h))
  ]
]
one_value label (a ∷ (b ∷ values)) h = cc

-- Each classification value is declared once, as the yes or no of the facts, and obliges.
pub record IsClassified (story acceptance : Text) (facts : StoryFacts) : Type 0 where
  pub security :
      (b : Bool) × (facts.security_sensitive ≡ some b)
      × IsSecured story acceptance b
      × (read_strict_declarations story (some (lit "## Classification")) (lit "Security sensitive")
          ≡ (if b then lit "yes" else lit "no") ∷ [])
  pub baseline :
      (b : Bool) × (facts.baseline_conformance ≡ some b)
      × IsBaseline story b
      × (read_strict_declarations story
            (some (lit "## Classification"))
            (lit "Baseline conformance")
          ≡ (if b then lit "yes" else lit "no") ∷ [])

conditional_clean :
    (story acceptance : Text) (s b : Bool)
    → conditional_issues story acceptance (some s) (some b) ≡ []
    → IsSecured story acceptance s × IsBaseline story b
unfolding conditional_issues
conditional_clean story acceptance s b h =
    let (m, rest) = append-eq-nil (check_matrix acceptance).1 _ h in
    let (secured, conforming) = append-eq-nil _ _ rest in
    (security_clean story acceptance s m secured, clean-IsBaseline story b conforming)

clean-IsClassified :
    (sources : StoryContractSources)
    → classification_issues sources ≡ []
    → IsClassified sources.story sources.acceptance (story_facts sources)
unfolding classification_issues story_facts read_classification_value
clean-IsClassified sources h =
    let section = some (lit "## Classification") in
    let (first, rest) = append-eq-nil _ _ h in
    let (second, third) = append-eq-nil _ _ rest in
    let (s, es, vs) =
      one_value (lit "Security sensitive")
        (read_strict_declarations sources.story section (lit "Security sensitive")) first in
    let (b, eb, vb) =
      one_value (lit "Baseline conformance")
        (read_strict_declarations sources.story section (lit "Baseline conformance")) second in
    let (secured, conforming) =
      conditional_clean sources.story sources.acceptance s b (rw (es, eb) at third) in
    record { security = (s, es, secured, vs); baseline = (b, eb, conforming, vb) }

-- A Story whose contract passes declares each classification once, as yes or no. When it is security
-- sensitive its fixture matrix has the documented form and a row, and it enumerates its trust
-- boundary by exact fields; when it is not, it has no matrix. When it conforms to a baseline it
-- enumerates what it supersedes, and else it has no such section.
pub evaluate_story_contract-IsClassified :
    (sources : StoryContractSources)
    → (evaluate_story_contract sources).result.exit ≡ 0
    → IsClassified sources.story sources.acceptance (evaluate_story_contract sources).facts
unfolding evaluate_story_contract evaluate_story
evaluate_story_contract-IsClassified sources h =
    clean-IsClassified sources (passes-IsClean sources h).classified
