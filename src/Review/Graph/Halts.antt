-- ===== src/Review/Graph/Halts.antt =====
-- The search ends: every round takes a target or leaves a frame, and a node is entered once.
use Prim.Native.Nat.{◌*◌}
use praxis_bound.Review.Graph.{
  Dependency, Edges, targets_of, edges_from, Frame, Search, no_search, index_in, enter, follow,
  close_component, lower_parent, finish, step, run, search_root, search_roots, degree_sum,
  enough_rounds, strongly_connected_components, reported_cycles, find_dependency_cycles,
}
use praxis_bound.Common.{
  ℕ, zero, suc, ◌+◌, ◌≤◌, ◌≡◌, refl, ap, inl, inr, Option, none, some, List, [], ◌∷◌, map, arith,
  ◌==◌, if◌then◌else◌, Bool-cases, Option-cases, is_none, or_else, length, Text, text_eq,
  text_eq_sound, text_eq_refl, contains, text_eq_comm,
}

-- the rounds that the frames still take
abbrev waiting : List Frame → ℕ
waiting [] = 0
waiting (frame ∷ frames) = 1 + 2 * length frame.targets + waiting frames

-- the rounds that the nodes to be entered still bring
abbrev unvisited : Edges → List (Text × ℕ) → ℕ
unvisited [] visits = 0
unvisited (edge ∷ edges) visits =
    (if is_none (index_in visits edge.0) then 2 * length edge.1 else 0) + unvisited edges visits

index_in-cons :
    (visits : List (Text × ℕ)) (node other : Text) (n : ℕ)
    → index_in ((node, n) ∷ visits) other
      ≡ (if text_eq node other then some n else index_in visits other)
unfolding index_in
index_in-cons visits node other n = refl

-- a visit brings no other node back
unvisited_less :
    (edges : Edges) (visits : List (Text × ℕ)) (node : Text) (n : ℕ)
    → unvisited edges ((node, n) ∷ visits) ≤ unvisited edges visits
unfolding index_in
unvisited_less [] visits node n = omega arith
unvisited_less (edge ∷ edges) visits node n = elim (Bool-cases (text_eq node edge.0)) [
  | inl e ↦ rw e (omega (arith, unvisited_less edges visits node n))
  | inr e ↦ rw e (omega (arith, unvisited_less edges visits node n))
]

-- a node that is entered brings its targets, once
unvisited-enter :
    (edges : Edges) (visits : List (Text × ℕ)) (node : Text) (n : ℕ)
    → index_in visits node ≡ none
    → unvisited edges ((node, n) ∷ visits) + 2 * length (or_else (targets_of edges node) [])
      ≤ unvisited edges visits
unfolding targets_of index_in
unvisited-enter [] visits node n h = omega arith
unvisited-enter (edge ∷ edges) visits node n h = elim (Bool-cases (text_eq edge.0 node)) [
  | inl e ↦
      let same = text_eq_sound edge.0 node e in
      rw (e, same, text_eq_refl node, h) (omega (arith, unvisited_less edges visits node n))
  | inr e ↦
      rw (e, text_eq_comm node edge.0, e) (omega (arith, unvisited-enter edges visits node n h))
]

-- the rounds that the search still takes
abbrev rounds_of : Edges → Search → List Frame → ℕ
rounds_of edges s frames = waiting frames + unvisited edges s.visits

waiting-lower_parent :
    (low : ℕ) (frames : List Frame) → waiting (lower_parent low frames) ≡ waiting frames
unfolding lower_parent
waiting-lower_parent low [] = refl
waiting-lower_parent low (frame ∷ frames) = refl

visits-finish :
    (s : Search) (frame : Frame) (frames : List Frame) → (finish s frame frames).0.visits ≡ s.visits
unfolding finish close_component
visits-finish s frame frames = elim (Bool-cases (frame.low_link == frame.index)) [
  | inl e ↦ rw e refl
  | inr e ↦ rw e refl
]

rounds-finish :
    (edges : Edges) (s : Search) (frame : Frame) (frames : List Frame)
    → (let r = finish s frame frames in
        rounds_of edges r.0 r.1 ≡ waiting frames + unvisited edges s.visits)
rounds-finish edges s frame frames = rw (visits-finish s frame frames) (
    ap (λ n. n + unvisited edges s.visits)
      (unfold finish in waiting-lower_parent frame.low_link frames))

rounds-follow :
    (edges : Edges) (s : Search) (frame : Frame) (frames : List Frame) (next : Text) (o : Option ℕ)
    → index_in s.visits next ≡ o
    → (let r = follow edges s frame frames next o in
        rounds_of edges r.0 r.1
        ≤ 2 + 2 * length frame.targets + waiting frames + unvisited edges s.visits)
unfolding follow enter
rounds-follow edges s frame frames next none e =
    omega (arith, unvisited-enter edges s.visits next (length s.visits) e)
rounds-follow edges s frame frames next (some index) e =
    elim (Bool-cases (contains s.on_stack next)) [
      | inl c ↦ rw c (omega arith)
      | inr c ↦ rw c (omega arith)
    ]

rounds-step :
    (edges : Edges) (s : Search) (frame : Frame) (targets : List Text) (frames : List Frame)
    → (let r = step edges s frame targets frames in
        rounds_of edges r.0 r.1 + 1
        ≤ 1 + 2 * length targets + waiting frames + unvisited edges s.visits)
unfolding step
rounds-step edges s frame [] frames = omega (arith, rounds-finish edges s frame frames)
rounds-step edges s frame (next ∷ targets) frames = omega (
  arith,
  rounds-follow edges s (record frame { targets = targets }) frames next (index_in s.visits next)
      refl,
)

-- enough rounds end the search
run_ends :
    (edges : Edges) (rounds : ℕ) (s : Search) (frames : List Frame)
    → rounds_of edges s frames ≤ rounds
    → (t : Search) × (run edges rounds s frames ≡ some t)
unfolding run
run_ends edges rounds s [] h = (s, refl)
run_ends edges zero s (frame ∷ frames) h = absurd (omega (arith, h))
run_ends edges (suc rounds) s (frame ∷ frames) h =
    let r = step edges s frame frame.targets frames in
    run_ends edges rounds r.0 r.1 (omega (arith, h, rounds-step edges s frame frame.targets frames))

unvisited_all :
    (edges : Edges) (visits : List (Text × ℕ)) → unvisited edges visits ≤ degree_sum edges
unvisited_all [] visits = omega arith
unvisited_all (edge ∷ edges) visits = elim (Bool-cases (is_none (index_in visits edge.0))) [
  | inl e ↦ rw e (omega (arith, unvisited_all edges visits))
  | inr e ↦ rw e (omega (arith, unvisited_all edges visits))
]

root_ends :
    (edges : Edges) (s : Search) (root : Text)
    → (t : Search) × (search_root edges (enough_rounds edges) s root ≡ some t)
unfolding search_root
root_ends edges s root = elim (Option-cases (index_in s.visits root)) [
  | inr (i, e) ↦ (s, rw e refl)
  | inl e ↦
      let entered = enter edges s root in
      let (t, ends) = run_ends edges (enough_rounds edges) entered.0 (entered.1 ∷ []) (
        unfold enter in
        omega (
          arith,
          unvisited-enter edges s.visits root (length s.visits) e,
          unvisited_all edges s.visits,
        )) in
      (t, rw e ends)
]

pub roots_end :
    (edges : Edges) (s : Search) (roots : List Text)
    → (t : Search) × (search_roots edges (enough_rounds edges) s roots ≡ some t)
unfolding search_roots
roots_end edges s [] = (s, refl)
roots_end edges s (root ∷ roots) =
    let (t, e) = root_ends edges s root in
    let (u, f) = roots_end edges t roots in (u, rw (search_roots, e) f)

-- Whatever the dependencies, the search for cycles ends within its rounds and returns groups.
pub find_dependency_cycles_ends :
    (dependencies : List Dependency)
    → (groups : List (List Text)) × (find_dependency_cycles dependencies ≡ some groups)
unfolding find_dependency_cycles strongly_connected_components
find_dependency_cycles_ends dependencies =
    let edges = edges_from [] dependencies in
    let (s, e) = roots_end edges no_search (map (λ (x : Text × List Text). x.0) edges) in
    (
      reported_cycles edges s.components,
      rw (find_dependency_cycles, strongly_connected_components, e) refl,
    )
