-- ===== src/Review/Graph/Components.antt =====
-- The rounds of the search keep the partition, and the stack is empty behind each root.
use mathlib.Core.Path.{subst}
use praxis_bound.Review.Graph.{
  Edges, Frame, Search, index_in, enter, follow, close_component, lower_parent, finish, step, run,
  search_root,
}
use praxis_bound.Review.Graph.Layers.{
  Layered, low_bound, LowFrom-min, LowFrom-rest, LowFrom-lower_parent, Layered-lower_parent,
  Layered-merge,
}
use praxis_bound.Review.Graph.Partition.{
  IsPartition, IsSearching, enter-IsPartition, entered_above, close-IsPartition,
}
use praxis_bound.Common.{
  ℕ, zero, suc, ◌≡◌, refl, sym, ◌∙◌, inl, inr, true, false, Option, none, some, List, [], ◌∷◌, ◌++◌,
  arith, ◌==◌, Bool-cases, Option-cases, some_injective, is_none, length, Text, text_eq, contains,
  contains-append,
}

follow-IsSearching :
    (edges : Edges) (base : ℕ) (s : Search) (frame : Frame) (frames : List Frame) (next : Text)
    (o : Option ℕ)
    → index_in s.visits next ≡ o
    → IsSearching base s (frame ∷ frames)
    → (let r = follow edges s frame frames next o in IsSearching base r.0 r.1)
unfolding follow
follow-IsSearching edges base s frame frames next none e h = record {
  partition = enter-IsPartition edges s next e h.partition;
  layered = unfold enter in ([], s.stack, refl, h.layered);
  low = unfold enter in (h.size, h.low);
  above = entered_above edges s next base h.above h.size;
  size = unfold enter in omega (arith, h.size);
}
follow-IsSearching edges base s frame frames next (some index) e h =
    elim (Bool-cases (contains s.on_stack next)) [
      | inr c ↦ rw c h
      | inl c ↦ rw c (record {
        partition = h.partition;
        layered = h.layered;
        low =
            LowFrom-min base index frame frames
              (h.above next index (sym (h.partition.marked next) ∙ c) e) h.low;
        above = h.above;
        size = h.size;
      })
    ]

contains_below :
    (above : List Text) (node : Text) (below : List Text) (v : Text)
    → contains below v ≡ true
    → contains (above ++ node ∷ below) v ≡ true
unfolding contains
contains_below above node below v c = ground (arith, contains-append above (node ∷ below) v)

close_visits : (s : Search) (node : Text) → (close_component s node).visits ≡ s.visits
unfolding close_component
close_visits s node = refl

close-IsSearching :
    (base : ℕ) (s : Search) (frame : Frame) (frames : List Frame)
    → IsSearching base s (frame ∷ frames)
    → IsSearching base (close_component s frame.node) (lower_parent frame.low_link frames)
close-IsSearching base s frame frames h =
    let (above, below, e, l) = h.layered in
    let (left, p) = close-IsPartition s frame.node above below e h.partition in
    record {
      partition = p;
      layered = Layered-lower_parent frame.low_link frames _ (subst (Layered frames) (sym left) l);
      low =
          LowFrom-lower_parent base frame.low_link frames (low_bound base frame frames h.low)
            (LowFrom-rest base frame frames h.low);
      above = λ v i c f.
          h.above v i
            (subst (λ (t : List Text). contains t v ≡ true) (sym e)
              (contains_below above frame.node below v
                (subst (λ (t : List Text). contains t v ≡ true) left c)))
            (subst (λ (t : List (Text × ℕ)). index_in t v ≡ some i) (close_visits s frame.node) f);
      size = unfold close_component in h.size;
    }

-- a frame that does not close has a parent
open-IsSearching :
    (base : ℕ) (s : Search) (frame : Frame) (frames : List Frame)
    → (frame.low_link == frame.index) ≡ false
    → IsSearching base s (frame ∷ frames)
    → IsSearching base s (lower_parent frame.low_link frames)
open-IsSearching base s frame [] n h = absurd (ground (arith, n, h.low.0, h.low.1))
open-IsSearching base s frame (next ∷ frames) n h = record {
  partition = h.partition;
  layered =
      Layered-lower_parent frame.low_link (next ∷ frames) s.stack
        (Layered-merge frame next frames s.stack h.layered);
  low = LowFrom-lower_parent base frame.low_link (next ∷ frames) h.low.0 h.low.1;
  above = h.above;
  size = h.size;
}

finish-IsSearching :
    (base : ℕ) (s : Search) (frame : Frame) (frames : List Frame)
    → IsSearching base s (frame ∷ frames)
    → (let r = finish s frame frames in IsSearching base r.0 r.1)
unfolding finish
finish-IsSearching base s frame frames h = elim (Bool-cases (frame.low_link == frame.index)) [
  | inl e ↦ rw e (close-IsSearching base s frame frames h)
  | inr e ↦ rw e (open-IsSearching base s frame frames e h)
]

targets-IsSearching :
    (base : ℕ) (s : Search) (frame : Frame) (frames : List Frame) (targets : List Text)
    → IsSearching base s (frame ∷ frames)
    → IsSearching base s (record frame { targets = targets } ∷ frames)
targets-IsSearching base s frame [] targets h = record {
  partition = h.partition;
  layered = h.layered;
  low = h.low;
  above = h.above;
  size = h.size;
}
targets-IsSearching base s frame (next ∷ frames) targets h = record {
  partition = h.partition;
  layered = h.layered;
  low = h.low;
  above = h.above;
  size = h.size;
}

step-IsSearching :
    (edges : Edges) (base : ℕ) (s : Search) (frame : Frame) (targets : List Text)
    (frames : List Frame)
    → IsSearching base s (frame ∷ frames)
    → (let r = step edges s frame targets frames in IsSearching base r.0 r.1)
unfolding step
step-IsSearching edges base s frame [] frames h = finish-IsSearching base s frame frames h
step-IsSearching edges base s frame (next ∷ targets) frames h =
    follow-IsSearching edges base s (record frame { targets = targets }) frames next
      (index_in s.visits next) refl (targets-IsSearching base s frame frames targets h)

-- behind the loop the stack is empty
run_empties :
    (edges : Edges) (base rounds : ℕ) (s : Search) (frames : List Frame) (t : Search)
    → IsSearching base s frames
    → run edges rounds s frames ≡ some t
    → IsPartition t × (t.stack ≡ [])
unfolding run
run_empties edges base rounds s [] t h e =
    let same : s ≡ t = some_injective s t e in
    subst (λ (x : Search). IsPartition x × (x.stack ≡ [])) same (h.partition, h.layered)
run_empties edges base zero s (frame ∷ frames) t h e = absurd (cc)
run_empties edges base (suc rounds) s (frame ∷ frames) t h e =
    let r = step edges s frame frame.targets frames in
    run_empties edges base rounds r.0 r.1 t
      (step-IsSearching edges base s frame frame.targets frames h) e

-- a node stays visited
module _ (v : Text) where
  follow_keeps :
      (edges : Edges) (s : Search) (frame : Frame) (frames : List Frame) (next : Text)
      (o : Option ℕ)
      → is_none (index_in s.visits v) ≡ false
      → is_none (index_in (follow edges s frame frames next o).0.visits v) ≡ false
  unfolding follow enter index_in
  follow_keeps edges s frame frames next none h = elim (Bool-cases (text_eq next v)) [
    | inl e ↦ rw e refl
    | inr e ↦ rw e h
  ]
  follow_keeps edges s frame frames next (some index) h =
      elim (Bool-cases (contains s.on_stack next)) [ inl c ↦ rw c h | inr c ↦ rw c h ]

  step_keeps :
      (edges : Edges) (s : Search) (frame : Frame) (targets : List Text) (frames : List Frame)
      → is_none (index_in s.visits v) ≡ false
      → is_none (index_in (step edges s frame targets frames).0.visits v) ≡ false
  unfolding step
  step_keeps edges s frame [] frames h =
      unfold finish in
      elim (Bool-cases (frame.low_link == frame.index)) [
        | inl e ↦ rw e (
            subst (λ (t : List (Text × ℕ)). is_none (index_in t v) ≡ false)
              (sym (close_visits s frame.node)) h)
        | inr e ↦ rw e h
      ]
  step_keeps edges s frame (next ∷ targets) frames h =
      follow_keeps edges s (record frame { targets = targets }) frames next (index_in s.visits next)
        h

  pub run_keeps :
      (edges : Edges) (rounds : ℕ) (s : Search) (frames : List Frame) (t : Search)
      → is_none (index_in s.visits v) ≡ false
      → run edges rounds s frames ≡ some t
      → is_none (index_in t.visits v) ≡ false
  unfolding run
  run_keeps edges rounds s [] t h e =
      subst (λ (x : Search). is_none (index_in x.visits v) ≡ false) (some_injective s t e) h
  run_keeps edges zero s (frame ∷ frames) t h e = absurd (cc)
  run_keeps edges (suc rounds) s (frame ∷ frames) t h e =
      let r = step edges s frame frame.targets frames in
      run_keeps edges rounds r.0 r.1 t (step_keeps edges s frame frame.targets frames h) e

-- between the roots the stack is empty
unfoldable pub IsSettled : Search → Type 0
IsSettled s = IsPartition s × (s.stack ≡ [])

nothing_above :
    (base : ℕ) (stack : List Text) → stack ≡ [] → (v : Text) → contains stack v ≡ true → ⊥
unfolding contains
nothing_above base stack e v c = absurd (cc (rw e at c))

entered-IsSearching :
    (edges : Edges) (s : Search) (root : Text)
    → index_in s.visits root ≡ none
    → IsSettled s
    → IsSearching (length s.visits) (enter edges s root).0 ((enter edges s root).1 ∷ [])
unfolding IsSettled
entered-IsSearching edges s root e (p, empty) = record {
  partition = enter-IsPartition edges s root e p;
  layered = unfold enter in ([], s.stack, refl, empty);
  low = unfold enter in (refl, refl);
  above =
      entered_above edges s root (length s.visits)
        (λ v i c f. absurd (nothing_above 0 s.stack empty v c)) (omega arith);
  size = unfold enter in omega arith;
}

pub root-IsSettled :
    (edges : Edges) (rounds : ℕ) (s : Search) (root : Text) (t : Search)
    → IsSettled s
    → search_root edges rounds s root ≡ some t
    → IsSettled t
unfolding search_root
root-IsSettled edges rounds s root t h e = elim (Option-cases (index_in s.visits root)) [
  | inr (i, f) ↦ subst IsSettled (some_injective s t (rw f at e)) h
  | inl f ↦
      unfold IsSettled in
      run_empties edges (length s.visits) rounds (enter edges s root).0
        ((enter edges s root).1 ∷ []) t (entered-IsSearching edges s root f h) (rw f at e)
]
