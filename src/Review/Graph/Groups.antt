-- ===== src/Review/Graph/Groups.antt =====
-- Every declared node is in one component.
use mathlib.Core.Path.{subst}
use praxis_bound.Review.Graph.{
  Edges, Search, no_search, index_in, enter, search_root, search_roots,
  strongly_connected_components, enough_rounds,
}
use praxis_bound.Review.Graph.Layers.{joined}
use praxis_bound.Review.Graph.Components.{IsSettled, root-IsSettled, run_keeps}
use praxis_bound.Review.Graph.Halts.{roots_end}
use praxis_bound.Common.{
  ℕ, ◌≡◌, refl, sym, ap, ◌∙◌, inl, inr, true, false, none, some, List, [], ◌∷◌, ◌++◌, map,
  Bool-cases, Option-cases, some_injective, is_none, All, Text, text_eq, text_eq_refl, contains,
  Distinct,
}

enter_visits :
    (edges : Edges) (s : Search) (v : Text)
    → is_none (index_in (enter edges s v).0.visits v) ≡ false
unfolding enter index_in
enter_visits edges s v = rw (text_eq_refl v) refl

enter_keeps :
    (edges : Edges) (s : Search) (root v : Text)
    → is_none (index_in s.visits v) ≡ false
    → is_none (index_in (enter edges s root).0.visits v) ≡ false
unfolding enter index_in
enter_keeps edges s root v h = elim (Bool-cases (text_eq root v)) [
  | inl e ↦ rw e refl
  | inr e ↦ rw e h
]

root_keeps :
    (edges : Edges) (rounds : ℕ) (s : Search) (root v : Text) (t : Search)
    → is_none (index_in s.visits v) ≡ false
    → search_root edges rounds s root ≡ some t
    → is_none (index_in t.visits v) ≡ false
unfolding search_root
root_keeps edges rounds s root v t h e = elim (Option-cases (index_in s.visits root)) [
  | inr (i, f) ↦
      subst (λ (x : Search). is_none (index_in x.visits v) ≡ false) (some_injective s t (rw f at e))
        h
  | inl f ↦
      run_keeps v edges rounds (enter edges s root).0 ((enter edges s root).1 ∷ []) t
        (enter_keeps edges s root v h) (rw f at e)
]

root_visited :
    (edges : Edges) (rounds : ℕ) (s : Search) (root : Text) (t : Search)
    → search_root edges rounds s root ≡ some t
    → is_none (index_in t.visits root) ≡ false
unfolding search_root
root_visited edges rounds s root t e = elim (Option-cases (index_in s.visits root)) [
  | inr (i, f) ↦
      subst (λ (x : Search). is_none (index_in x.visits root) ≡ false)
        (some_injective s t (rw f at e)) (rw f refl)
  | inl f ↦
      run_keeps root edges rounds (enter edges s root).0 ((enter edges s root).1 ∷ []) t
        (enter_visits edges s root) (rw f at e)
]

-- what the loop over the roots ends in
pub record AreSearched (s : Search) (roots : List Text) : Type 0 where
  pub settled : IsSettled s
  pub visited : All (λ root. is_none (index_in s.visits root) ≡ false) roots

next_roots :
    (edges : Edges) (rounds : ℕ) (s t : Search) (root : Text) (roots : List Text) (u : Search)
    → search_root edges rounds s root ≡ some t
    → search_roots edges rounds s (root ∷ roots) ≡ some u
    → search_roots edges rounds t roots ≡ some u
unfolding search_roots
next_roots edges rounds s t root roots u e h = rw (search_roots, e) at h

no_roots :
    (edges : Edges) (rounds : ℕ) (s : Search) (root : Text) (roots : List Text) (u : Search)
    → search_root edges rounds s root ≡ none
    → search_roots edges rounds s (root ∷ roots) ≡ some u
    → ⊥
unfolding search_roots
no_roots edges rounds s root roots u e h = absurd (cc (rw (search_roots, e) at h))

roots_searched :
    (edges : Edges) (rounds : ℕ) (s : Search) (roots : List Text) (u : Search)
    → IsSettled s
    → search_roots edges rounds s roots ≡ some u
    → AreSearched u roots
      × ((v : Text) → is_none (index_in s.visits v) ≡ false → is_none (index_in u.visits v) ≡ false)
roots_searched edges rounds s [] u h e =
    let same : s ≡ u = some_injective s u (unfold search_roots in e) in
    (
      record { settled = subst IsSettled same h; visited = tt },
      λ v k. subst (λ (x : Search). is_none (index_in x.visits v) ≡ false) same k,
    )
roots_searched edges rounds s (root ∷ roots) u h e =
    elim (Option-cases (search_root edges rounds s root)) [
      | inl f ↦ absurd (no_roots edges rounds s root roots u f e)
      | inr (t, f) ↦
          let (searched, keeps) =
            roots_searched edges rounds t roots u (root-IsSettled edges rounds s root t h f)
              (next_roots edges rounds s t root roots u f e) in
          (
            record {
              settled = searched.settled;
              visited = (keeps root (root_visited edges rounds s root t f), searched.visited);
            },
            λ v k. keeps v (root_keeps edges rounds s root v t k f),
          )
    ]

nothing_searched : IsSettled no_search
unfolding IsSettled index_in contains
nothing_searched = (record { apart = tt; visited = λ v. refl; marked = λ v. refl }, refl)

settled_node :
    (s : Search) (v : Text)
    → IsSettled s
    → is_none (index_in s.visits v) ≡ false
    → contains (joined s.components) v ≡ true
unfolding IsSettled
settled_node s v (p, empty) h =
    ap (λ (t : List Text). contains (t ++ joined s.components) v) (sym empty)
    ∙ (p.visited v ∙ rw h refl)

settled_apart : (s : Search) → IsSettled s → Distinct (joined s.components)
unfolding IsSettled
settled_apart s (p, empty) =
    subst (λ (t : List Text). Distinct (t ++ joined s.components)) empty p.apart

components_contain :
    (s : Search) (roots : List Text)
    → AreSearched s roots
    → All (λ root. contains (joined s.components) root ≡ true) roots
components_contain s [] h = tt
components_contain s (root ∷ roots) h = (
  settled_node s root h.settled h.visited.0,
  components_contain s roots (record { settled = h.settled; visited = h.visited.1 }),
)

-- The search for strongly connected components returns, no node is in two of the components that it
-- returns or twice in one, and every node with declared dependencies is in one of them.
pub strongly_connected_components-Distinct :
    (edges : Edges)
    → (components : List (List Text)) × (strongly_connected_components edges ≡ some components)
      × Distinct (joined components)
      × All
          (λ node. contains (joined components) node ≡ true)
          (map (λ (e : Text × List Text). e.0) edges)
unfolding strongly_connected_components
strongly_connected_components-Distinct edges =
    let nodes = map (λ (e : Text × List Text). e.0) edges in
    let (s, e) = roots_end edges no_search nodes in
    let (searched, keeps) =
      roots_searched edges (enough_rounds edges) no_search nodes s nothing_searched e in
    (
      s.components,
      rw (strongly_connected_components, e) refl,
      settled_apart s searched.settled,
      components_contain s nodes searched,
    )
