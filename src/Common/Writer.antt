-- ===== src/Common/Writer.antt =====
-- A routine that pushes onto a caller's `issues` array is modelled by what it appends.
use mathlib.Core.Path.{◌≡◌}
use mathlib.Core.Bool.{Bool, false}
use native.Mathlib.Omega.{arith}
use praxis_bound.Common.Test.{if◌then◌else◌}
use mathlib.Core.List.{List, [], ◌∷◌, ◌++◌}
use praxis_bound.Common.Strings.{Text}
use praxis_bound.Common.Lists.{append-eq-nil, All, length, length-append}
use Prim.Native.Nat.{ℕ, ◌+◌}

-- ResultIssue; no routine of the modelled contracts sets `path` or `subject`
pub record Issue : Type 0 where
  pub code : Text
  pub message : Text

-- A `for` loop over `xs` whose body reads and writes `S` and pushes entries of `I`.
module _ {ℓ κ} {S : Type ℓ} {A : Type κ} {I : Type 0} (step : S → A → S × List I) where
  unfoldable pub each : S → List A → S × List I
  each s [] = (s, [])
  each s (x ∷ xs) = let r = step s x in let rest = each r.0 xs in (rest.0, r.1 ++ rest.1)

  -- What clean rounds keep holds after a clean loop.
  pub each_clean {μ} :
      (P : S → Type μ)
      → ((s : S) (x : A) → P s → (step s x).1 ≡ [] → P (step s x).0)
      → (s : S) (xs : List A) → P s
      → (each s xs).1 ≡ []
      → P (each s xs).0
  unfolding each
  each_clean P keep s [] p h = p
  each_clean P keep s (x ∷ xs) p h =
      let (now, later) = append-eq-nil (step s x).1 (each (step s x).0 xs).1 h in
      each_clean P keep (step s x).0 xs (keep s x p now) later

  -- What every round keeps holds after the loop.
  pub each_inv {μ} :
      (P : S → Type μ)
      → ((s : S) (x : A) → P s → P (step s x).0)
      → (s : S) (xs : List A) → P s
      → P (each s xs).0
  unfolding each
  each_inv P keep s [] p = p
  each_inv P keep s (x ∷ xs) p = each_inv P keep (step s x).0 xs (keep s x p)

  -- What every round keeps, of entries with `Q`.
  pub each_all {μ ν} :
      (P : S → Type μ) (Q : A → Type ν)
      → ((s : S) (x : A) → Q x → P s → P (step s x).0)
      → (s : S) (xs : List A) → All Q xs
      → P s
      → P (each s xs).0
  unfolding each
  each_all P Q keep s [] q p = p
  each_all P Q keep s (x ∷ xs) q p = each_all P Q keep (step s x).0 xs q.1 (keep s x q.0 p)

-- A loop that counts what it pushes.
pub each_counts {κ} :
    {A : Type κ} {I : Type 0} (step : ℕ → A → ℕ × List I)
    → ((n : ℕ) (x : A) → (step n x).0 ≡ n + length (step n x).1)
    → (n : ℕ) (xs : List A) → (each step n xs).0 ≡ n + length (each step n xs).1
unfolding each
each_counts step h n [] = omega arith
each_counts step h n (x ∷ xs) = omega (
  arith,
  h n x,
  each_counts step h (step n x).0 xs,
  length-append (step n x).1 (each step (step n x).0 xs).1,
)

-- A test that would push an issue and did not.
pub if_clean : (b : Bool) (i : Issue) → (if b then i ∷ [] else []) ≡ [] → b ≡ false
if_clean b i h = ground arith
