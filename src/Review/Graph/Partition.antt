-- ===== src/Review/Graph/Partition.antt =====
-- The components of the search are a partition of the nodes.
use mathlib.Core.Path.{subst}
use praxis_bound.Review.Graph.{Edges, Frame, Search, index_in, enter, pop_to, close_component}
use praxis_bound.Review.Graph.Layers.{
  joined, joined-append, Layered, LowFrom, pop_to-append, Distinct-append, Distinct-split,
}
use praxis_bound.Common.{
  ℕ, ◌≤◌, ◌≡◌, refl, sym, ap, ◌∙◌, inl, inr, Bool, true, false, not, ◌&&◌, ◌||◌, none, some, List,
  [], ◌∷◌, ◌++◌, append-nil, append_assoc, arith, Bool-cases, is_none, length, filter, Text,
  text_eq, text_eq_sound, contains, contains-append, contains_self, Distinct,
}

-- Every visited node stands once, on the stack or in a component.
pub record IsPartition (s : Search) : Type 0 where
  pub apart : Distinct (s.stack ++ joined s.components)
  pub visited :
      (v : Text) → contains (s.stack ++ joined s.components) v ≡ not (is_none (index_in s.visits v))
  pub marked : (v : Text) → contains s.on_stack v ≡ contains s.stack v

-- What the rounds of one root keep, where `base` is its index.
pub record IsSearching (base : ℕ) (s : Search) (frames : List Frame) : Type 0 where
  pub partition : IsPartition s
  pub layered : Layered frames s.stack
  pub low : LowFrom base frames
  pub above :
      (v : Text) (i : ℕ) → contains s.stack v ≡ true → index_in s.visits v ≡ some i → base ≤ i
  pub size : base ≤ length s.visits

-- a node that is entered is new
pub enter-IsPartition :
    (edges : Edges) (s : Search) (node : Text)
    → index_in s.visits node ≡ none
    → IsPartition s
    → IsPartition (enter edges s node).0
unfolding enter index_in contains
enter-IsPartition edges s node e p = record {
  apart = (p.visited node ∙ rw e refl, p.apart);
  visited =
      λ v. elim (Bool-cases (text_eq node v)) [ inl f ↦ rw f refl | inr f ↦ rw f (p.visited v) ];
  marked = λ v. ap (λ b. text_eq node v || b) (p.marked v);
}

pub entered_above :
    (edges : Edges) (s : Search) (node : Text) (base : ℕ)
    → ((v : Text) (i : ℕ) → contains s.stack v ≡ true → index_in s.visits v ≡ some i → base ≤ i)
    → base ≤ length s.visits
    → (v : Text) (i : ℕ) → contains (enter edges s node).0.stack v ≡ true
    → index_in (enter edges s node).0.visits v ≡ some i
    → base ≤ i
unfolding enter index_in contains
entered_above edges s node base above size v i c e = elim (Bool-cases (text_eq node v)) [
  | inl f ↦ (let same : some (length s.visits) ≡ some i = rw f at e in ground (arith, size))
  | inr f ↦ above v i (rw f at c) (rw f at e)
]

flip_apart :
    (xs ys : List Text) (v : Text)
    → contains xs v ≡ true
    → (contains ys v ≡ true → contains xs v ≡ false)
    → contains ys v ≡ false
flip_apart xs ys v c h = elim (Bool-cases (contains ys v)) [
  | inl e ↦ absurd (cc (c, h e))
  | inr e ↦ e
]

or_right : (a b : Bool) → b ≡ true → (a || b) ≡ true
or_right a b h = ground arith

-- the popped part of the stack becomes a component
moved_apart :
    (popped below : List Text) (components : List (List Text))
    → Distinct ((popped ++ below) ++ joined components)
    → Distinct (below ++ joined (components ++ popped ∷ []))
moved_apart popped below components d =
    let (stacked, closed, apart) = Distinct-split (popped ++ below) (joined components) d in
    let (dp, db, ab) = Distinct-split popped below stacked in
    let moved : joined (components ++ popped ∷ []) ≡ joined components ++ popped =
      joined-append components (popped ∷ [])
      ∙ ap (λ t. joined components ++ t) (append-nil popped) in
    rw moved (
      Distinct-append below (joined components ++ popped) db
        (Distinct-append (joined components) popped closed dp (λ v c.
          flip_apart (joined components) popped v c
            (λ w. apart v (contains-append popped below v ∙ rw w refl))))
        (λ v c.
          contains-append (joined components) popped v
          ∙ rw
              (
                apart v (
                    contains-append popped below v
                    ∙ or_right (contains popped v) (contains below v) c),
                flip_apart below popped v c (ab v),
              )
              refl))

moved_contains :
    (popped below : List Text) (components : List (List Text)) (v : Text)
    → contains (below ++ joined (components ++ popped ∷ [])) v
      ≡ contains ((popped ++ below) ++ joined components) v
moved_contains popped below components v =
    let moved : joined (components ++ popped ∷ []) ≡ joined components ++ popped =
      joined-append components (popped ∷ [])
      ∙ ap (λ t. joined components ++ t) (append-nil popped) in
    rw moved (
      ground (
        arith,
        contains-append below (joined components ++ popped) v,
        contains-append (joined components) popped v,
        contains-append (popped ++ below) (joined components) v,
        contains-append popped below v,
      ))

filter_here :
    (popped : List Text) (m : Text) (marks : List Text) (v : Text)
    → m ≡ v
    → contains (filter (λ n. not (contains popped n)) marks) v
      ≡ (contains marks v && not (contains popped v))
    → contains (filter (λ n. not (contains popped n)) (m ∷ marks)) v
      ≡ (contains (m ∷ marks) v && not (contains popped v))
filter_here popped m marks v e h =
    rw (e, contains_self v marks)
      (elim (Bool-cases (contains popped v)) [
        | inl c ↦ rw c (ground (arith, h, c))
        | inr c ↦ rw c (contains_self v (filter (λ n. not (contains popped n)) marks))
      ])

contains_other :
    (m v : Text) (xs : List Text) → text_eq m v ≡ false → contains (m ∷ xs) v ≡ contains xs v
unfolding contains
contains_other m v xs e = rw e refl

filter_later :
    (popped : List Text) (m : Text) (marks : List Text) (v : Text)
    → text_eq m v ≡ false
    → contains (filter (λ n. not (contains popped n)) marks) v
      ≡ (contains marks v && not (contains popped v))
    → contains (filter (λ n. not (contains popped n)) (m ∷ marks)) v
      ≡ (contains (m ∷ marks) v && not (contains popped v))
filter_later popped m marks v e h = elim (Bool-cases (contains popped m)) [
  | inl c ↦ rw (c, contains_other m v marks e) h
  | inr c ↦
      rw
        (
          c,
          contains_other m v marks e,
          contains_other m v (filter (λ n. not (contains popped n)) marks) e,
        )
        h
]

contains-filter :
    (popped marks : List Text) (v : Text)
    → contains (filter (λ n. not (contains popped n)) marks) v
      ≡ (contains marks v && not (contains popped v))
contains-filter popped [] v = unfold contains in refl
contains-filter popped (m ∷ marks) v = elim (Bool-cases (text_eq m v)) [
  | inl e ↦ filter_here popped m marks v (text_eq_sound m v e) (contains-filter popped marks v)
  | inr e ↦ filter_later popped m marks v e (contains-filter popped marks v)
]

-- what is left of the marks
marked_left :
    (popped below marks : List Text) (v : Text)
    → contains marks v ≡ contains (popped ++ below) v
    → (contains popped v ≡ true → contains below v ≡ false)
    → contains (filter (λ n. not (contains popped n)) marks) v ≡ contains below v
marked_left popped below marks v m apart =
    contains-filter popped marks v ∙ rw (m, contains-append popped below v) (ground (arith, apart))

stands_once :
    (above : List Text) (node : Text) (below : List Text)
    → Distinct (above ++ node ∷ below)
    → contains above node ≡ false
stands_once above node below d =
    let (da, db, apart) = Distinct-split above (node ∷ below) d in
    elim (Bool-cases (contains above node)) [
      | inl e ↦ absurd (cc (apart node e, contains_self node below))
      | inr e ↦ e
    ]

pub close-IsPartition :
    (s : Search) (node : Text) (above below : List Text)
    → s.stack ≡ above ++ node ∷ below
    → IsPartition s
    → (close_component s node).stack ≡ below × IsPartition (close_component s node)
unfolding close_component
close-IsPartition s node above below e p =
    let popped = above ++ node ∷ [] in
    let f : s.stack ≡ popped ++ below = e ∙ sym (append_assoc above (node ∷ []) below) in
    let d : Distinct ((popped ++ below) ++ joined s.components) =
      subst (λ (t : List Text). Distinct (t ++ joined s.components)) f p.apart in
    let (stacked, closed, apart) = Distinct-split (popped ++ below) (joined s.components) d in
    let (dp, db, ab) = Distinct-split popped below stacked in
    let once : contains above node ≡ false =
      stands_once above node below
        (subst Distinct (append_assoc above (node ∷ []) below) stacked) in
    let q : pop_to node s.stack ≡ (popped, below) =
      ap (pop_to node) e ∙ pop_to-append node above below once in
    rw q (
      refl,
      record {
        apart = moved_apart popped below s.components d;
        visited = λ v.
            moved_contains popped below s.components v
            ∙ (ap (λ (t : List Text). contains (t ++ joined s.components) v) (sym f) ∙ p.visited v);
        marked = λ v.
            marked_left popped below s.on_stack v
              (p.marked v ∙ ap (λ (t : List Text). contains t v) f) (ab v);
      },
    )
