-- ===== src/WellFounded/Check.antt =====
-- CheckWellFounded of compiler/src/fidl/compiler/utils/wellfounded_graphs.go on a root that is not nil, and the
-- loop of MojomDescriptor (core/mojom_descriptor.go) that checks every type of the program.
use fidl.Prelude.{ℕ, ◌+◌, Bool, true, false, none, some, List, [], ◌∷◌, length}
use fidl.WellFounded.{Node, Finder, make_cycle_finder, holder_for_node, phase1, phase2}
use fidl.WellFounded.Cycle.{
  CycleDescription, is_empty, min_ill_founded_node, find_known_ill_founded_cycle,
}

-- nil, a cycle, or a panic
pub data Outcome : Type 0 where
  well_founded : Outcome
  ill_founded : CycleDescription → Outcome
  panicked : Outcome

module _ (graph : ℕ → Node) (any_order : List ℕ → List ℕ) where
  -- behind the second phase
  unfoldable pub describe_cycle : ℕ → Finder → Outcome
  unfolding min_ill_founded_node find_known_ill_founded_cycle holder_for_node make_cycle_finder
  describe_cycle nodes s = elim (min_ill_founded_node s.order (any_order s.pending_set) none) [
    | none ↦ panicked
    | some v ↦
        elim (find_known_ill_founded_cycle graph nodes v []
          (holder_for_node v (make_cycle_finder s.known))) [
            | none ↦ panicked
            | some c ↦ ill_founded c
          ]
  ]

  -- behind the first phase; the second one has at most as many rounds as the two sets have nodes.
  unfoldable pub propagate : ℕ → Finder → Outcome × (ℕ → Bool)
  unfolding phase2 describe_cycle
  propagate nodes s =
      let t = phase2 graph any_order (length s.foundation_set + length s.pending_set) s in
      elim (is_empty t.pending_set) [
        | true ↦ (well_founded, t.known)
        | false ↦ (describe_cycle nodes t, t.known)
      ]

  -- Of a graph with the nodes below `nodes`, of which those in `known` are known to be well-founded.
  unfoldable pub check_well_founded : ℕ → ℕ → (ℕ → Bool) → Outcome × (ℕ → Bool)
  unfolding phase1 propagate holder_for_node make_cycle_finder
  check_well_founded nodes root known = elim (known root) [
    | true ↦ (well_founded, known)
    | false ↦
        let s = phase1 graph nodes root (holder_for_node root (make_cycle_finder known)) in
        elim (is_empty s.pending_set) [ true ↦ (well_founded, s.known) | false ↦ propagate nodes s ]
  ]

  -- One type after the other, up to the first error.
  unfoldable pub check_all_well_founded : ℕ → List ℕ → (ℕ → Bool) → Outcome × (ℕ → Bool)
  unfolding check_well_founded
  check_all_well_founded nodes [] known = (well_founded, known)
  check_all_well_founded nodes (root ∷ roots) known =
      let r = check_well_founded nodes root known in
      elim r.0 [
        | well_founded ↦ check_all_well_founded nodes roots r.1
        | ill_founded c ↦ (ill_founded c, r.1)
        | panicked ↦ (panicked, r.1)
      ]
