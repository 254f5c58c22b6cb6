-- ===== src/WellFounded/Cycle.antt =====
-- Phase 3 of compiler/src/fidl/compiler/utils/wellfounded_graphs.go: a cycle of ill-founded nodes. A nodePath
-- is a list of nodes and targets. `none` is a panic.
use fidl.Prelude.{
  ℕ, zero, suc, Bool, true, false, not, ◌||◌, Option, none, some, List, [], ◌∷◌, ◌++◌, ◌==◌, ltb,
  if◌then◌else◌,
}
use fidl.WellFounded.{Node, Finder, visit_started, set_state, holder_for_node}

-- The path holds the targets of its edges.
pub record CycleDescription : Type 0 where
  pub first : ℕ
  pub last : ℕ
  pub path : List ℕ

-- `path[len(path)-1]`
unfoldable pub last_element : {A : Type 0} → List A → Option A
last_element [] = none
last_element (x ∷ []) = some x
last_element (x ∷ (y ∷ ys)) = last_element (y ∷ ys)

abbrev pub is_empty : {A : Type 0} → List A → Bool
is_empty [] = true
is_empty (x ∷ xs) = false

-- the loop over the path
unfoldable pub collect_edges : ℕ → List (ℕ × ℕ) → List ℕ → List ℕ
collect_edges start [] edges = edges
collect_edges start ((node, target) ∷ path) edges =
    collect_edges start path
      (if not (is_empty edges) || node == start then edges ++ target ∷ [] else edges)

unfoldable pub new_cycle_description : List (ℕ × ℕ) → ℕ → ℕ → Option CycleDescription
unfolding last_element collect_edges
new_cycle_description path start end = elim (last_element path) [
  | none ↦ none
  | some (last_node, last_target) ↦
      if not (last_node == end)
      then none
      else if not (last_target == start)
      then none
      else let edges = collect_edges start path [] in
        elim (last_element edges) [
          | none ↦ none
          | some target ↦
              if not (target == start)
              then none
              else some (record { first = start; last = end; path = edges })
        ]
]

-- the loop that finds the pending node with the least visitation order
unfoldable pub min_ill_founded_node : (ℕ → Option ℕ) → List ℕ → Option ℕ → Option ℕ
min_ill_founded_node order [] least = least
min_ill_founded_node order (n ∷ ns) least = min_ill_founded_node order ns (elim least [
  | none ↦ some n
  | some m ↦ if ltb (visitation_order order n) (visitation_order order m) then some n else some m
])
  where
    visitation_order : (ℕ → Option ℕ) → ℕ → ℕ
    visitation_order order n = elim (order n) [ none ↦ 0 | some i ↦ i ]

module _ (graph : ℕ → Node) where
  -- the loop over the edges of `v`
  unfoldable pub follow_edges :
      (ℕ → List (ℕ × ℕ) → Finder → Option CycleDescription)
      → ℕ
      → List (ℕ × ℕ)
      → List ℕ
      → Finder
      → Option CycleDescription
  unfolding new_cycle_description holder_for_node
  follow_edges find v path [] s = none
  follow_edges find v path (child ∷ children) s =
      let s' = holder_for_node child s in
      let path' = path ++ (v, child) ∷ [] in
      elim (s'.state child) [
        | visit_started ↦ new_cycle_description path' child v
        | _ ↦ elim (s'.known child) [
          | false ↦ find child path' s'
          | true ↦ follow_edges find v path children s'
        ]
      ]

  -- `findKnownIllFoundedCycle`; every call starts a node that was not started, so that the number of
  -- nodes bounds the depth.
  unfoldable pub find_known_ill_founded_cycle :
      ℕ → ℕ → List (ℕ × ℕ) → Finder → Option CycleDescription
  unfolding follow_edges set_state
  find_known_ill_founded_cycle zero v path s = none
  find_known_ill_founded_cycle (suc depth) v path s =
      follow_edges (find_known_ill_founded_cycle depth) v path (graph v).out_edges
        (set_state v visit_started s)
