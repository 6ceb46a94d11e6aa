-- ===== src/Review/Graph.antt =====
-- packages/core/src/review/dependency-graph.ts: the cycles among the declared dependencies. The two
-- numbers of a visit are apart: `index` never changes and is read through the map of visits, and
-- `lowLink` is read and written through the frame alone.
mod Tests
pub mod Groups
pub mod Components
pub mod Partition
pub mod Layers
pub mod Halts
use praxis_bound.Review.Paths.Utf8.{sort_by}
use Prim.Native.Nat.{◌*◌}
use praxis_bound.Common.{
  ℕ, zero, suc, ◌+◌, Bool, true, false, not, Option, none, some, List, [], ◌∷◌, ◌++◌, map, leb,
  ◌==◌, if◌then◌else◌, is_none, or_else, length, filter, Text, text_eq, contains,
}

pub record Dependency : Type 0 where
  pub story : Text
  pub depends_on : List Text

-- A map in the order of its first entries.
abbrev pub Edges : Type 0
Edges = List (Text × List Text)

unfoldable pub targets_of : Edges → Text → Option (List Text)
targets_of [] node = none
targets_of (edge ∷ edges) node =
    let rest = targets_of edges node in if text_eq edge.0 node then some edge.1 else rest

-- edges.set(story, [...(edges.get(story) ?? []), ...dependsOn])
unfoldable pub add_edges : Edges → Text → List Text → Edges
add_edges [] story targets = (story, targets) ∷ []
add_edges (edge ∷ edges) story targets =
    let rest = add_edges edges story targets in
    if text_eq edge.0 story then (edge.0, edge.1 ++ targets) ∷ edges else edge ∷ rest

unfoldable pub edges_from : Edges → List Dependency → Edges
edges_from edges [] = edges
edges_from edges (d ∷ dependencies) = edges_from (add_edges edges d.story d.depends_on) dependencies

pub record Frame : Type 0 where
  pub node : Text
  pub index : ℕ
  pub low_link : ℕ
  pub targets : List Text

pub record Search : Type 0 where
  pub visits : List (Text × ℕ)
  pub on_stack : List Text
  pub stack : List Text
  pub components : List (List Text)

abbrev pub no_search : Search
no_search = record { visits = []; on_stack = []; stack = []; components = [] }

-- visits.get(node)?.index
unfoldable pub index_in : List (Text × ℕ) → Text → Option ℕ
index_in [] node = none
index_in (visit ∷ visits) node =
    let rest = index_in visits node in if text_eq visit.0 node then some visit.1 else rest

-- enter: the search behind it, and the new frame
unfoldable pub enter : Edges → Search → Text → Search × Frame
enter edges s node =
    let size = length s.visits in
    (
      record s {
        visits = (node, size) ∷ s.visits;
        stack = node ∷ s.stack;
        on_stack = node ∷ s.on_stack;
      },
      record {
        node = node;
        index = size;
        low_link = size;
        targets = or_else (targets_of edges node) [];
      },
    )

-- Math.min
abbrev pub min : ℕ → ℕ → ℕ
min a b = if leb a b then a else b

-- one target of the frame, of which the frame has taken note
unfoldable pub follow : Edges → Search → Frame → List Frame → Text → Option ℕ → Search × List Frame
follow edges s frame frames next none =
    let entered = enter edges s next in (entered.0, entered.1 ∷ (frame ∷ frames))
follow edges s frame frames next (some index) =
    if contains s.on_stack next
    then (s, record frame { low_link = min frame.low_link index } ∷ frames)
    else (s, frame ∷ frames)

-- the loop that pops the stack down to the node: what it pops, and what is left
unfoldable pub pop_to : Text → List Text → List Text × List Text
pop_to node [] = ([], [])
pop_to node (member ∷ stack) =
    let rest = pop_to node stack in
    if text_eq member node then (member ∷ [], stack) else (member ∷ rest.0, rest.1)

unfoldable pub close_component : Search → Text → Search
close_component s node =
    let popped = pop_to node s.stack in
    record s {
      stack = popped.1;
      on_stack = filter (λ n. not (contains popped.0 n)) s.on_stack;
      components = s.components ++ popped.0 ∷ [];
    }

unfoldable pub lower_parent : ℕ → List Frame → List Frame
lower_parent low [] = []
lower_parent low (parent ∷ frames) = record parent { low_link = min parent.low_link low } ∷ frames

unfoldable pub finish : Search → Frame → List Frame → Search × List Frame
finish s frame frames = (
  (if frame.low_link == frame.index then close_component s frame.node else s),
  lower_parent frame.low_link frames,
)

-- one round of the loop over the frames
unfoldable pub step : Edges → Search → Frame → List Text → List Frame → Search × List Frame
step edges s frame [] frames = finish s frame frames
step edges s frame (next ∷ targets) frames =
    follow edges s (record frame { targets = targets }) frames next (index_in s.visits next)

-- the loop over the frames, `none` when the rounds do not suffice
unfoldable pub run : Edges → ℕ → Search → List Frame → Option Search
run edges rounds s [] = some s
run edges zero s (frame ∷ frames) = none
run edges (suc rounds) s (frame ∷ frames) =
    let r = step edges s frame frame.targets frames in run edges rounds r.0 r.1

-- the loop over the roots
unfoldable pub search_root : Edges → ℕ → Search → Text → Option Search
search_root edges rounds s root =
    let entered = enter edges s root in
    let found = run edges rounds entered.0 (entered.1 ∷ []) in
    if is_none (index_in s.visits root) then found else some s

unfoldable pub search_roots : Edges → ℕ → Search → List Text → Option Search
search_roots edges rounds s [] = some s
search_roots edges rounds s (root ∷ roots) = elim (search_root edges rounds s root) [
  | none ↦ none
  | some t ↦ search_roots edges rounds t roots
]

abbrev pub degree_sum : Edges → ℕ
degree_sum [] = 0
degree_sum (edge ∷ edges) = 2 * length edge.1 + degree_sum edges

-- A round takes one target or leaves one frame, and every node is entered once.
abbrev pub enough_rounds : Edges → ℕ
enough_rounds edges = 1 + degree_sum edges

unfoldable pub strongly_connected_components : Edges → Option (List (List Text))
strongly_connected_components edges =
    elim (search_roots edges (enough_rounds edges) no_search
      (map (λ (e : Text × List Text). e.0) edges)) [ none ↦ none | some s ↦ some s.components ]

-- more than one member, or one that depends on itself
unfoldable pub is_cycle : Edges → List Text → Bool
is_cycle edges [] = false
is_cycle edges (first ∷ []) = contains (or_else (targets_of edges first) []) first
is_cycle edges (first ∷ (second ∷ rest)) = true

unfoldable pub reported_cycles : Edges → List (List Text) → List (List Text)
reported_cycles edges components =
    sort_by (λ (members : List Text). elim members [ [] ↦ [] | first ∷ _ ↦ first ])
      (map (λ (members : List Text). sort_by (λ member. member) members)
        (filter (is_cycle edges) components))

unfoldable pub find_dependency_cycles : List Dependency → Option (List (List Text))
find_dependency_cycles dependencies =
    let edges = edges_from [] dependencies in
    elim (strongly_connected_components edges) [
      | none ↦ none
      | some components ↦ some (reported_cycles edges components)
    ]
