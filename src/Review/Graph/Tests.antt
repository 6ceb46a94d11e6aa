-- ===== src/Review/Graph/Tests.antt =====
-- A graph with two cycles, and the witnesses of the theorems on the search.
use praxis_bound.Review.Paths.Utf8.{compare_utf8, insert_by, sort_by}
use praxis_bound.Review.Graph.{
  Dependency, Edges, targets_of, add_edges, edges_from, index_in, enter, follow, pop_to,
  close_component, lower_parent, finish, step, run, search_root, search_roots,
  strongly_connected_components, is_cycle, reported_cycles, find_dependency_cycles,
}
use praxis_bound.Review.Graph.Layers.{joined}
use praxis_bound.Review.Graph.Halts.{find_dependency_cycles_ends}
use praxis_bound.Review.Graph.Groups.{strongly_connected_components-Distinct}
use praxis_bound.Common.{
  ◌≡◌, refl, true, some, List, [], ◌∷◌, map, All, Text, lit, contains, texts, Distinct,
}

abbrev depends : Text → List Text → Dependency
depends story depends_on = record { story = story; depends_on = depends_on }

-- C and B depend on each other, D on itself, and A on all of them
abbrev dependencies : List Dependency
dependencies =
    depends (lit "A") (lit "C" ∷ (lit "D" ∷ []))
    ∷ (depends (lit "D") (lit "D" ∷ [])
        ∷ (depends (lit "C") (lit "B" ∷ []) ∷ (depends (lit "B") (lit "C" ∷ (lit "E" ∷ [])) ∷ [])))

reading : Unit {0}
unfolding compare_utf8 insert_by sort_by targets_of add_edges edges_from index_in enter follow
    pop_to close_component lower_parent finish step run search_root search_roots
    strongly_connected_components is_cycle reported_cycles find_dependency_cycles texts
reading = tt

two_cycles :
    find_dependency_cycles dependencies ≡ some ((lit "B" ∷ (lit "C" ∷ [])) ∷ ((lit "D" ∷ []) ∷ []))
unfolding reading
two_cycles = refl

find_dependency_cycles_ends_example :
    (groups : List (List Text)) × (find_dependency_cycles dependencies ≡ some groups)
find_dependency_cycles_ends_example = find_dependency_cycles_ends dependencies

abbrev edges : Edges
edges = edges_from [] dependencies

strongly_connected_components-Distinct_example :
    (components : List (List Text)) × (strongly_connected_components edges ≡ some components)
    × Distinct (joined components)
    × All
        (λ node. contains (joined components) node ≡ true)
        (map (λ (e : Text × List Text). e.0) edges)
strongly_connected_components-Distinct_example = strongly_connected_components-Distinct edges
