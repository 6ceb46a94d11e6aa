-- ===== src/Review/Graph/Layers.antt =====
-- The stack of the search, and what a round does to it.
use mathlib.Core.Path.{subst}
use praxis_bound.Review.Graph.{Frame, min, pop_to, lower_parent}
use praxis_bound.Common.{
  ℕ, ◌≤◌, ◌≡◌, refl, sym, ap, ◌∙◌, inl, inr, true, false, List, [], ◌∷◌, ◌++◌, append_assoc, arith,
  Bool-cases, or_false, Text, text_eq, text_eq_sound, text_eq_refl, contains, contains-append,
  Distinct,
}

-- all members of the components
abbrev pub joined : List (List Text) → List Text
joined [] = []
joined (members ∷ components) = members ++ joined components

pub joined-append : (xs ys : List (List Text)) → joined (xs ++ ys) ≡ joined xs ++ joined ys
joined-append [] ys = refl
joined-append (x ∷ xs) ys =
    ap (λ t. x ++ t) (joined-append xs ys) ∙ sym (append_assoc x (joined xs) (joined ys))

-- The frames' nodes lie on the stack in the order of the frames, the last at its bottom.
abbrev pub Layered : List Frame → List Text → Type 0
Layered [] stack = stack ≡ []
Layered (frame ∷ frames) stack =
    (above below : List Text) × (stack ≡ above ++ frame.node ∷ below) × Layered frames below

-- No low link is below `base`, and the last frame keeps it.
abbrev pub LowFrom : ℕ → List Frame → Type 0
LowFrom base [] = Unit
LowFrom base (frame ∷ []) = (frame.index ≡ base) × (frame.low_link ≡ base)
LowFrom base (frame ∷ (next ∷ frames)) = (base ≤ frame.low_link) × LowFrom base (next ∷ frames)

pub low_bound :
    (base : ℕ) (frame : Frame) (frames : List Frame)
    → LowFrom base (frame ∷ frames)
    → base ≤ frame.low_link
low_bound base frame [] l = omega (arith, l.1)
low_bound base frame (next ∷ frames) l = l.0

min_bound : (base a b : ℕ) → base ≤ a → base ≤ b → base ≤ min a b
min_bound base a b h k = ground arith

min_base : (base a b : ℕ) → a ≡ base → base ≤ b → min a b ≡ base
min_base base a b h k = ground arith

-- a smaller low link that is not below `base`
pub LowFrom-min :
    (base low : ℕ) (frame : Frame) (frames : List Frame)
    → base ≤ low
    → LowFrom base (frame ∷ frames)
    → LowFrom base (record frame { low_link = min frame.low_link low } ∷ frames)
LowFrom-min base low frame [] h l = (l.0, min_base base frame.low_link low l.1 h)
LowFrom-min base low frame (next ∷ frames) h l = (min_bound base frame.low_link low l.0 h, l.1)

pub LowFrom-rest :
    (base : ℕ) (frame : Frame) (frames : List Frame)
    → LowFrom base (frame ∷ frames)
    → LowFrom base frames
LowFrom-rest base frame [] l = tt
LowFrom-rest base frame (next ∷ frames) l = l.1

pub LowFrom-lower_parent :
    (base low : ℕ) (frames : List Frame)
    → base ≤ low
    → LowFrom base frames
    → LowFrom base (lower_parent low frames)
unfolding lower_parent
LowFrom-lower_parent base low [] h l = tt
LowFrom-lower_parent base low (frame ∷ frames) h l = LowFrom-min base low frame frames h l

pub Layered-lower_parent :
    (low : ℕ) (frames : List Frame) (stack : List Text)
    → Layered frames stack
    → Layered (lower_parent low frames) stack
unfolding lower_parent
Layered-lower_parent low [] stack l = l
Layered-lower_parent low (frame ∷ frames) stack l = l

-- a frame that does not close leaves its part of the stack to its parent
pub Layered-merge :
    (frame next : Frame) (frames : List Frame) (stack : List Text)
    → Layered (frame ∷ (next ∷ frames)) stack
    → Layered (next ∷ frames) stack
Layered-merge frame next frames stack (above, below, e, (more, rest, f, l)) = (
  above ++ frame.node ∷ more,
  rest,
  e
      ∙ ap (λ t. above ++ frame.node ∷ t) f
      ∙ sym (append_assoc above (frame.node ∷ more) (next.node ∷ rest)),
  l,
)

-- what is popped, down to a node that stands once
pub pop_to-append :
    (node : Text) (above below : List Text)
    → contains above node ≡ false
    → pop_to node (above ++ node ∷ below) ≡ (above ++ node ∷ [], below)
unfolding pop_to contains
pop_to-append node [] below h = rw (text_eq_refl node) refl
pop_to-append node (x ∷ above) below h =
    let (apart, rest) = or_false (text_eq x node) (contains above node) h in
    rw (apart, pop_to-append node above below rest) refl

-- Lists with no entry in common.
pub Distinct-append :
    (xs ys : List Text)
    → Distinct xs
    → Distinct ys
    → ((v : Text) → contains xs v ≡ true → contains ys v ≡ false)
    → Distinct (xs ++ ys)
unfolding contains
Distinct-append [] ys d e h = e
Distinct-append (x ∷ xs) ys d e h = (
  contains-append xs ys x ∙ rw (d.0, h x (rw (text_eq_refl x) refl)) refl,
  Distinct-append xs ys d.1 e (λ v c. h v (ground (arith, c))),
)

pub Distinct-split :
    (xs ys : List Text)
    → Distinct (xs ++ ys)
    → Distinct xs × Distinct ys × ((v : Text) → contains xs v ≡ true → contains ys v ≡ false)
unfolding contains
Distinct-split [] ys d = (tt, d, λ v c. absurd (cc))
Distinct-split (x ∷ xs) ys d =
    let (dx, dy, apart) = Distinct-split xs ys d.1 in
    let (new, absent) =
      or_false (contains xs x) (contains ys x) (sym (contains-append xs ys x) ∙ d.0) in
    (
      (new, dx),
      dy,
      λ v c. elim (Bool-cases (text_eq x v)) [
        | inl e ↦ subst (λ t. contains ys t ≡ false) (text_eq_sound x v e) absent
        | inr e ↦ apart v (ground arith)
      ],
    )
