-- ===== src/Declarations/Fences.antt =====
-- A fenced code block is opaque to every reader.
use praxis_bound.Declarations.{
  trim, fence_run, Fence, no_fence, fence_opener, open_fence, close_fence, content_line,
  content_lines,
}
use mathlib.Core.Path.{subst}
use praxis_bound.Common.{
  ℕ, zero, suc, ◌≤◌, ◌≡◌, refl, sym, ap, ◌∙◌, ◌⊎◌, inl, inr, true, false, ◌&&◌, none, some, List,
  [], ◌∷◌, ◌++◌, append-nil, arith, leb, ◌==◌, Bool-cases, Option-cases, length, All, Text,
  starts_with,
}

-- `n` fence characters
abbrev pub fence : ℕ → ℕ → Text
fence c zero = []
fence c (suc n) = c ∷ fence c n

abbrev pub BeginsOther : ℕ → Text → Type 0
BeginsOther c [] = Unit
BeginsOther c (d ∷ s) = (d == c) ≡ false

-- a character that may open a fence
abbrev pub IsFenceCharacter : ℕ → Type 0
IsFenceCharacter c = (c ≡ b'`') ⊎ (c ≡ b'~')

pub fence_run-fence :
    (c n : ℕ) (info : Text) → BeginsOther c info → fence_run (fence c n ++ info) c ≡ n
unfolding fence_run
fence_run-fence c zero [] h = refl
fence_run-fence c zero (d ∷ info) h = rw h refl
fence_run-fence c (suc n) info h = ground (arith, fence_run-fence c n info h)

length-fence : (c n : ℕ) → length (fence c n) ≡ n
length-fence c zero = refl
length-fence c (suc n) = omega (arith, length-fence c n)

module _ (f : Fence) (n : ℕ) (info raw : Text) where
  -- what a round over the opening line of a fence of `c` does
  abbrev Opens : ℕ → Type 0
  Opens c =
      BeginsOther c info
      → trim raw ≡ fence c (suc n) ++ info
      → content_line f raw ≡ (record { fence_character = c; fence_length = suc n }, none)

  opens : (c : ℕ) → f.fence_length ≡ 0 → IsFenceCharacter c → 3 ≤ suc n → Opens c
  unfolding content_line open_fence fence_opener fence_run starts_with
  opens c o k h =
      let long : leb 3 (suc n) ≡ true = ground arith in
      elim k [
        | inl q ↦ subst Opens (sym q) (λ b e. rw (o, e, fence_run-fence b'`' n info b, long) refl)
        | inr q ↦ subst Opens (sym q) (λ b e. rw (o, e, fence_run-fence b'~' n info b, long) refl)
      ]

-- A line that does not close a fence of `n` characters `c`.
abbrev pub IsInside : ℕ → ℕ → Text → Type 0
IsInside c n raw =
    (starts_with (c ∷ []) (trim raw)
      && (leb n (fence_run (trim raw) c) && (length (trim raw) == fence_run (trim raw) c)))
    ≡ false

module _ (c n : ℕ) where
  abbrev inside : Fence
  inside = record { fence_character = c; fence_length = suc n }

  not_closed : (suc n == 0) ≡ false
  not_closed = ground arith

  stays : (raw : Text) → IsInside c (suc n) raw → content_line inside raw ≡ (inside, none)
  unfolding content_line close_fence
  stays raw h = rw (not_closed, h) refl

  leaves :
      (m : ℕ) (raw : Text)
      → suc n ≤ m
      → trim raw ≡ fence c m
      → content_line inside raw ≡ (record { fence_character = c; fence_length = 0 }, none)
  unfolding content_line close_fence fence_run starts_with
  leaves zero raw l e = absurd (omega (arith, l))
  leaves (suc m) raw l e =
      let long : leb (suc n) (suc m) ≡ true = ground arith in
      let same : (suc m == suc m) ≡ true = ground arith in
      let self : (c == c) ≡ true = ground arith in
      let run : fence_run (fence c m) c ≡ m =
        subst (λ t. fence_run t c ≡ m) (append-nil (fence c m)) (fence_run-fence c m [] tt) in
      rw (not_closed, e, self, run, length-fence c m, long, same) refl

-- outside a fence the character that the last one had is not looked at
abbrev SameOutside : Text → Type 0
SameOutside raw =
    ((f : Fence) → f.fence_length ≡ 0 → content_line f raw ≡ (f, some (trim raw)))
    ⊎ ((next : Fence) × ((f : Fence) → f.fence_length ≡ 0 → content_line f raw ≡ (next, none)))

outside : (raw : Text) → SameOutside raw
unfolding content_line open_fence
outside raw = elim (Option-cases (fence_opener (trim raw))) [
  | inl e ↦ inl (λ f o. rw (o, e) refl)
  | inr (c, e) ↦ elim (Bool-cases (leb 3 (fence_run (trim raw) c))) [
    | inl l ↦ inr (
      record { fence_character = c; fence_length = fence_run (trim raw) c },
      λ f o. rw (o, e, l) refl,
    )
    | inr l ↦ inl (λ f o. rw (o, e, l) refl)
  ]
]

pub open_fences :
    (f g : Fence)
    → f.fence_length ≡ 0
    → g.fence_length ≡ 0
    → (lines : List Text) → content_lines f lines ≡ content_lines g lines
unfolding content_lines
open_fences f g o p [] = refl
open_fences f g o p (raw ∷ lines) = elim (outside raw) [
  | inl h ↦ rw (h f o, h g p) (ap (λ t. trim raw ∷ t) (open_fences f g o p lines))
  | inr (next, h) ↦ rw (h f o, h g p) refl
]

-- everything up to the closing line is dropped
drops :
    (c n m : ℕ) (body after : List Text) (closer : Text)
    → All (IsInside c (suc n)) body
    → suc n ≤ m
    → trim closer ≡ fence c m
    → content_lines (inside c n) (body ++ closer ∷ after)
      ≡ content_lines (record { fence_character = c; fence_length = 0 }) after
unfolding content_lines
drops c n m [] after closer a l e = rw (leaves c n m closer l e) refl
drops c n m (line ∷ body) after closer a l e =
    rw (stays c n line a.0) (drops c n m body after closer a.1 l e)

-- A fenced block, outside any other fence, is opaque: whatever its lines say, the reader yields what
-- stands behind the closing line, as if that began the text. The fence is three or more backticks or
-- tildes, with an info string; it closes at the first line of as many of them and nothing else.
pub content_lines-fence :
    (f : Fence) (c n m : ℕ) (info opener closer : Text) (body after : List Text)
    → f.fence_length ≡ 0
    → IsFenceCharacter c
    → 3 ≤ n
    → n ≤ m
    → BeginsOther c info
    → trim opener ≡ fence c n ++ info
    → All (IsInside c n) body
    → trim closer ≡ fence c m
    → content_lines f (opener ∷ (body ++ closer ∷ after)) ≡ content_lines no_fence after
unfolding content_lines
content_lines-fence f c zero m info opener closer body after o k h l b e a x =
    absurd (omega (arith, h))
content_lines-fence f c (suc n) m info opener closer body after o k h l b e a x =
    rw (opens f n info opener c o k h b e) (
      drops c n m body after closer a l x
      ∙ open_fences (record { fence_character = c; fence_length = 0 }) no_fence refl refl after)
