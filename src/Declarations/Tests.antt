-- ===== src/Declarations/Tests.antt =====
-- The readers of declarations.ts on small inputs.
use praxis_bound.Declarations.Trim.{Spaces, IsTrimmed, trim_correct}
use praxis_bound.Declarations.{
  trim, read_section_bullets, split_declaration, declaration, read_exact_literal,
}
use praxis_bound.Declarations.{fence_run, no_fence, content_lines}
use praxis_bound.Declarations.Fences.{fence, BeginsOther, IsInside, content_lines-fence}
use praxis_bound.Common.{
  ◌≡◌, refl, inl, some, [], ◌∷◌, ◌++◌, arith, All, Text, lit, starts_with, texts,
}

abbrev line : Text → Text → Text
line s rest = s ++ 10 ∷ rest

abbrev sample : Text
sample = line (lit "## A") (
    line (lit "* x: y") (
      line (lit "```") (
        line (lit "- no") (
          line (lit "```")
            (line (lit "## B") (line (lit "* z") (line (lit "## A") (lit " - w  "))))))))

trim_test : trim (lit "  a b  ") ≡ lit "a b"
unfolding trim texts
trim_test = refl

bullets_test : (read_section_bullets sample (lit "## A")).bullets ≡ lit "x: y" ∷ lit "w" ∷ []
unfolding read_section_bullets texts trim
bullets_test = refl

split_test :
    split_declaration (lit "Task mode : mixed") ≡ declaration (lit "Task mode") (lit "mixed")
unfolding split_declaration texts trim
split_test = refl

literal_test : read_exact_literal (lit " `ab c` ") ≡ some (lit "ab c")
unfolding read_exact_literal texts trim
literal_test = refl

trim_correct_example :
    (l r : Text) × Spaces l
    × Spaces r
    × (lit " a " ≡ l ++ (trim (lit " a ") ++ r))
    × IsTrimmed (trim (lit " a "))
trim_correct_example = trim_correct (lit " a ")

opening : Unit {0}
unfolding trim fence_run starts_with lit
opening = tt

opener_lem : trim (lit " ```ts") ≡ fence b'`' 3 ++ lit "ts"
unfolding opening
opener_lem = refl

closer_lem : trim (lit "````  ") ≡ fence b'`' 4
unfolding opening
closer_lem = refl

info_lem : BeginsOther b'`' (lit "ts")
unfolding opening
info_lem = refl

body_lem : All (IsInside b'`' 3) (lit "## Authority" ∷ lit "``` not closed" ∷ [])
unfolding opening
body_lem = (refl, (refl, tt))

content_lines-fence_example :
    content_lines no_fence (
      lit " ```ts"
      ∷ ((lit "## Authority" ∷ lit "``` not closed" ∷ []) ++ lit "````  " ∷ lit "after" ∷ []))
    ≡ content_lines no_fence (lit "after" ∷ [])
content_lines-fence_example =
    content_lines-fence no_fence b'`' 3 4 (lit "ts") (lit " ```ts") (lit "````  ")
      (lit "## Authority" ∷ lit "``` not closed" ∷ []) (lit "after" ∷ []) refl (inl refl)
      (omega arith) (omega arith) info_lem opener_lem body_lem closer_lem
