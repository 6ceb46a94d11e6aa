-- ===== src/Story/Classification.antt =====
-- `readClassificationValue` and `countLiteralBullets` of story.ts, and the checks that the two
-- classification values turn on.
use praxis_bound.Declarations.{read_section_bullets}
use praxis_bound.StoryLiterals.{is_placeholder, has_literal, read_strict_declarations}
use praxis_bound.StoryMatrix.{MatrixFacts}
use praxis_bound.Verification.Section.{issue}
use praxis_bound.Common.{
  ℕ, ◌+◌, Bool, true, false, not, ◌||◌, Option, none, some, List, [], ◌∷◌, ◌++◌, ltb, ◌==◌,
  if◌then◌else◌, Text, lit, text_eq, Issue,
}

unfoldable pub yes_or_no : Text → Text → Option Bool × List Issue
yes_or_no label value =
    if text_eq value (lit "yes") || text_eq value (lit "no")
    then (some (text_eq value (lit "yes")), [])
    else (
      none,
      issue (lit "STORY_CLASSIFICATION_VALUE") (label ++ lit " must be declared as yes or no") ∷ [],
    )

unfoldable pub classified : Text → List Text → Option Bool × List Issue
classified label (value ∷ []) = yes_or_no label value
classified label _ = (
  none,
  issue (lit "STORY_CLASSIFICATION_COUNT")
        (lit "Classification must declare \"" ++ (label ++ lit "\" exactly once"))
      ∷ [],
)

unfoldable pub read_classification_value : Text → Text → Option Bool × List Issue
read_classification_value source label =
    classified label (read_strict_declarations source (some (lit "## Classification")) label)

pub record LiteralBullets : Type 0 where
  pub found : Bool
  pub total : ℕ
  pub literal : ℕ

-- the loop over the bullets
unfoldable pub count_bullets : Bool → List Text → LiteralBullets
count_bullets found [] = record { found = found; total = 0; literal = 0 }
count_bullets found (bullet ∷ bullets) =
    let rest = count_bullets found bullets in
    if is_placeholder bullet then rest else record rest {
      total = rest.total + 1;
      literal = if has_literal bullet then rest.literal + 1 else rest.literal;
    }

unfoldable pub count_literal_bullets : Text → Text → LiteralBullets
count_literal_bullets source heading =
    let section = read_section_bullets source heading in
    count_bullets (ltb 0 section.count) section.bullets

-- the tests on the matrix of a security-sensitive Story
unfoldable pub matrix_required : MatrixFacts → List Issue
matrix_required matrix =
    if not matrix.found
    then issue (lit "STORY_MATRIX_MISSING")
        (lit "security-sensitive Story is missing acceptance section: ## Security Fixture Matrix")
      ∷ []
    else if matrix.rows == 0
    then issue (lit "STORY_MATRIX_EMPTY") (lit "security fixture matrix declares no fixture rows")
      ∷ []
    else []

unfoldable pub trust_required : LiteralBullets → List Issue
trust_required trust =
    if not trust.found || trust.total == 0
    then issue (lit "STORY_TRUST_BOUNDARY_MISSING") (
        lit
          "security-sensitive Story must enumerate its trust-boundary fields under ## Trust Boundary Fields")
      ∷ []
    else if not (trust.literal == trust.total)
    then issue (lit "STORY_TRUST_BOUNDARY_PROSE")
        (lit "every trust-boundary field must name an exact field, not prose")
      ∷ []
    else []

unfoldable pub security_issues : Bool → MatrixFacts → LiteralBullets → List Issue
security_issues true matrix trust = matrix_required matrix ++ trust_required trust
security_issues false matrix trust =
    if matrix.found
    then issue (lit "STORY_MATRIX_UNEXPECTED")
        (lit "Story declares Security sensitive: no but provides a security fixture matrix")
      ∷ []
    else []

unfoldable pub superseded_required : LiteralBullets → List Issue
superseded_required superseded =
    if not superseded.found || superseded.total == 0
    then issue (lit "STORY_SUPERSEDED_MISSING") (
        lit
          "baseline-conformance Story must list superseded tests or behavior under ## Superseded Behavior")
      ∷ []
    else if not (superseded.literal == superseded.total)
    then issue (lit "STORY_SUPERSEDED_PROSE")
        (lit "every superseded entry must name an exact test path or behavior")
      ∷ []
    else []

unfoldable pub baseline_issues : Bool → LiteralBullets → List Issue
baseline_issues true superseded = superseded_required superseded
baseline_issues false superseded =
    if superseded.found
    then issue (lit "STORY_SUPERSEDED_UNEXPECTED")
        (lit "Story declares Baseline conformance: no but declares superseded behavior")
      ∷ []
    else []
