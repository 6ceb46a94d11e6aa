-- ===== src/Declarations/Trim.antt =====
-- `trimDeclarationText` against the two one-sided strips.
use mathlib.Core.Path.{◌≡⟨◌⟩◌, ◌∎}
use praxis_bound.Declarations.{is_declaration_space, skip_start, skip_end, trim}
use praxis_bound.Common.{
  ℕ, zero, suc, ◌+◌, ◌-◌, ◌≤◌, ◌<◌, ◌≡◌, refl, sym, ap, ◌∙◌, inl, inr, Bool, true, false, some, [],
  ◌∷◌, ◌++◌, arith, if◌then◌else◌, Bool-cases, length, get_elem?, take, drop, All, Text,
}

abbrev pub is_space : ℕ → Bool
is_space c = is_declaration_space (some c)

pub lstrip : Text → Text
lstrip [] = []
lstrip (c ∷ s) = if is_space c then lstrip s else c ∷ s

strip_cons : ℕ → Text → Text
strip_cons c [] = if is_space c then [] else c ∷ []
strip_cons c (d ∷ t) = c ∷ (d ∷ t)

pub rstrip : Text → Text
unfolding strip_cons
rstrip [] = []
rstrip (c ∷ s) = strip_cons c (rstrip s)

skip_start-cons :
    (c : ℕ) (s : Text) (k n : ℕ) → skip_start (c ∷ s) k (suc n) ≡ suc (skip_start s k n)
unfolding skip_start
skip_start-cons c s zero n = refl
skip_start-cons c s (suc k) n = ground (arith, skip_start-cons c s k (suc n))

drop-skip_start : (s : Text) → drop (skip_start s (length s) 0) s ≡ lstrip s
unfolding skip_start lstrip
drop-skip_start [] = refl
drop-skip_start (c ∷ s) = elim (Bool-cases (is_space c)) [
  | inl e ↦ rw (e, skip_start-cons c s (length s) 0) (drop-skip_start s)
  | inr e ↦ rw e refl
]

skip_start-le : (s : Text) (k n : ℕ) → skip_start s k n ≤ n + k
unfolding skip_start
skip_start-le s zero n = omega arith
skip_start-le s (suc k) n = ground (arith, skip_start-le s k (suc n))

length-drop : (n : ℕ) (s : Text) → length (drop n s) ≡ length s - n
length-drop zero s = omega arith
length-drop (suc n) [] = omega arith
length-drop (suc n) (c ∷ s) = omega (arith, length-drop n s)

get_elem?-drop : (n k : ℕ) (s : Text) → get_elem? s (n + k) ≡ get_elem? (drop n s) k
get_elem?-drop zero k s = ap (get_elem? s) (omega arith)
get_elem?-drop (suc n) k [] = refl
get_elem?-drop (suc n) k (c ∷ s) =
    ap (get_elem? (c ∷ s)) {x = suc n + k} {y = suc (n + k)} (omega arith) ∙ get_elem?-drop n k s

-- how much of `w` the second loop keeps
kept : Text → ℕ → ℕ
kept w zero = 0
kept w (suc k) = let rest = kept w k in if is_declaration_space (get_elem? w k) then rest else suc k

skip_end-kept : (s : Text) (n k : ℕ) → skip_end s n k ≡ n + kept (drop n s) k
unfolding skip_end kept
skip_end-kept s n zero = omega arith
skip_end-kept s n (suc k) = ground (arith, skip_end-kept s n k, get_elem?-drop n k s)

strip_cons-snoc : (d : ℕ) (w : Text) (c : ℕ) → strip_cons d (w ++ c ∷ []) ≡ d ∷ (w ++ c ∷ [])
unfolding strip_cons
strip_cons-snoc d [] c = refl
strip_cons-snoc d (e ∷ w) c = refl

rstrip-snoc_space : (w : Text) (c : ℕ) → is_space c ≡ true → rstrip (w ++ c ∷ []) ≡ rstrip w
unfolding rstrip
rstrip-snoc_space [] c h = rw h refl
rstrip-snoc_space (d ∷ w) c h = ap (strip_cons d) (rstrip-snoc_space w c h)

pub rstrip-snoc : (w : Text) (c : ℕ) → is_space c ≡ false → rstrip (w ++ c ∷ []) ≡ w ++ c ∷ []
unfolding rstrip
rstrip-snoc [] c h = rw h refl
rstrip-snoc (d ∷ w) c h = rw (rstrip-snoc w c h) (strip_cons-snoc d w c)

take-suc : (k : ℕ) (w : Text) (c : ℕ) → get_elem? w k ≡ some c → take (suc k) w ≡ take k w ++ c ∷ []
take-suc zero [] c h = cc
take-suc zero (d ∷ w) c h = cc
take-suc (suc k) [] c h = cc
take-suc (suc k) (d ∷ w) c h = ap (λ t. d ∷ t) (take-suc k w c h)

get_elem?-lt : (k : ℕ) (w : Text) → k < length w → (c : ℕ) × (get_elem? w k ≡ some c)
get_elem?-lt k [] h = elim h [ ]
get_elem?-lt zero (c ∷ w) h = (c, refl)
get_elem?-lt (suc k) (c ∷ w) h = get_elem?-lt k w (omega arith)

take-kept : (w : Text) (k : ℕ) → k ≤ length w → take (kept w k) w ≡ rstrip (take k w)
unfolding kept
take-kept w zero h = unfold rstrip in refl
take-kept w (suc k) h =
    let (c, at) = get_elem?-lt k w h in
    elim (Bool-cases (is_space c)) [
      | inl e ↦
          rw (at, e, take-suc k w c at, rstrip-snoc_space (take k w) c e)
            (take-kept w k (omega arith))
      | inr e ↦ rw (at, e, take-suc k w c at, rstrip-snoc (take k w) c e) refl
    ]

take-all : (w : Text) → take (length w) w ≡ w
take-all [] = refl
take-all (c ∷ w) = ap (λ t. c ∷ t) (take-all w)

-- The index scans are the two strips, one after the other.
pub trim_lem : (s : Text) → trim s ≡ rstrip (lstrip s)
unfolding trim
trim_lem s =
    let n = skip_start s (length s) 0 in
    let w = drop n s in
    take (skip_end s n (length s - n) - n) w
    ≡⟨ ap (λ k. take k w) (omega (arith, skip_end-kept s n (length s - n))) ⟩
      take (kept w (length s - n)) w
    ≡⟨ ap (λ k. take (kept w k) w) (sym (length-drop n s)) ⟩ take (kept w (length w)) w
    ≡⟨ take-kept w (length w) (omega arith) ⟩ rstrip (take (length w) w)
    ≡⟨ ap rstrip (take-all w ∙ drop-skip_start s) ⟩ rstrip (lstrip s) ∎

abbrev pub Spaces : Text → Type 0
Spaces = All (λ c. is_space c ≡ true)

lstrip_split : (s : Text) → (l : Text) × Spaces l × (s ≡ l ++ lstrip s)
unfolding lstrip
lstrip_split [] = ([], tt, refl)
lstrip_split (c ∷ s) = elim (Bool-cases (is_space c)) [
  | inl e ↦ let (l, spaces, eq) = lstrip_split s in (c ∷ l, (e, spaces), rw e (ap (λ t. c ∷ t) eq))
  | inr e ↦ ([], tt, rw e refl)
]

strip_cons_split :
    (c : ℕ) (w r : Text)
    → Spaces r
    → (r' : Text) × Spaces r' × (c ∷ (w ++ r) ≡ strip_cons c w ++ r')
unfolding strip_cons
strip_cons_split c [] r h = elim (Bool-cases (is_space c)) [
  | inl e ↦ (c ∷ r, (e, h), rw e refl)
  | inr e ↦ (r, h, rw e refl)
]
strip_cons_split c (d ∷ w) r h = (r, h, refl)

rstrip_split : (s : Text) → (r : Text) × Spaces r × (s ≡ rstrip s ++ r)
unfolding rstrip
rstrip_split [] = ([], tt, refl)
rstrip_split (c ∷ s) =
    let (r, spaces, eq) = rstrip_split s in
    let (r', spaces', eq') = strip_cons_split c (rstrip s) r spaces in
    (r', spaces', ap (λ t. c ∷ t) eq ∙ eq')

-- A text that is empty, or begins and ends with no space.
pub record IsTrimmed (s : Text) : Type 0 where
  pub start : lstrip s ≡ s
  pub end : rstrip s ≡ s

pub trim-of_IsTrimmed : (s : Text) → IsTrimmed s → trim s ≡ s
trim-of_IsTrimmed s h = trim_lem s ∙ ap rstrip h.start ∙ h.end

lstrip_idem : (s : Text) → lstrip (lstrip s) ≡ lstrip s
unfolding lstrip
lstrip_idem [] = refl
lstrip_idem (c ∷ s) = elim (Bool-cases (is_space c)) [
  | inl e ↦ rw e (lstrip_idem s)
  | inr e ↦ rw (e, e) refl
]

rstrip-strip_cons : (c : ℕ) (w : Text) → rstrip w ≡ w → rstrip (strip_cons c w) ≡ strip_cons c w
unfolding rstrip
rstrip-strip_cons c [] h = elim (Bool-cases (is_space c)) [
  | inl e ↦ rw e refl
  | inr e ↦ rw (e, e) refl
]
rstrip-strip_cons c (d ∷ w) h = rw h refl

rstrip_idem : (s : Text) → rstrip (rstrip s) ≡ rstrip s
unfolding rstrip
rstrip_idem [] = refl
rstrip_idem (c ∷ s) = rstrip-strip_cons c (rstrip s) (rstrip_idem s)

lstrip-strip_cons :
    (c : ℕ) (w : Text) → is_space c ≡ false → lstrip (strip_cons c w) ≡ strip_cons c w
unfolding lstrip strip_cons
lstrip-strip_cons c [] h = rw (h, h) refl
lstrip-strip_cons c (d ∷ w) h = rw h refl

lstrip-rstrip : (s : Text) → lstrip (rstrip (lstrip s)) ≡ rstrip (lstrip s)
unfolding lstrip rstrip
lstrip-rstrip [] = refl
lstrip-rstrip (c ∷ s) = elim (Bool-cases (is_space c)) [
  | inl e ↦ rw e (lstrip-rstrip s)
  | inr e ↦ rw (e, rstrip) (lstrip-strip_cons c (rstrip s) e)
]

pub trim-IsTrimmed : (s : Text) → IsTrimmed (trim s)
trim-IsTrimmed s = rw trim_lem (record { start = lstrip-rstrip s; end = rstrip_idem (lstrip s) })

-- For every text, `trim` removes a run of spaces, tabs and carriage returns at either end and
-- nothing else, and what it returns neither begins nor ends with one.
pub trim_correct :
    (s : Text) → (l r : Text) × Spaces l × Spaces r × (s ≡ l ++ (trim s ++ r)) × IsTrimmed (trim s)
trim_correct s =
    let (l, hl, el) = lstrip_split s in
    let (r, hr, er) = rstrip_split (lstrip s) in
    (l, r, hl, hr, rw trim_lem (el ∙ ap (λ t. l ++ t) er), trim-IsTrimmed s)

pub trim_idem : (s : Text) → trim (trim s) ≡ trim s
trim_idem s = trim-of_IsTrimmed (trim s) (trim-IsTrimmed s)

pub trim-nil : trim [] ≡ []
unfolding trim
trim-nil = refl
