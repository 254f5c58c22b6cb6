-- ===== src/WellFounded/Tests.antt =====
-- Runs of CheckWellFounded on small type graphs, and witnesses of what is proved of it.
use fidl.Prelude.{ℕ, zero, suc, ◌+◌, ◌≡◌, ◌↔◌, refl, arith, Bool, true, false, List, [], ◌∷◌}
use fidl.WellFounded.Sets.{member, add, remove, all_in}
use fidl.WellFounded.{Node, Finder, make_cycle_finder, holder_for_node, phase1, phase2}
use fidl.WellFounded.Spec.{founded, HasNoLoop}
use fidl.WellFounded.Phase2.{work}
use fidl.WellFounded.Rounds.{IsOrder}
use fidl.WellFounded.Check.{well_founded, ill_founded, check_well_founded, check_all_well_founded}
use fidl.WellFounded.Report.{IsReport}
use fidl.WellFounded.Bounds.{phase2-terminates}
use fidl.WellFounded.Correct.{
  IsMemory, IsBelow, IsAllFounded, check_well_founded-IsReport, check_well_founded-decides,
  check_all_well_founded-decides,
}

-- union U { S s; E e; }; struct S { U u; }; struct E {};
abbrev founded_graph : ℕ → Node
founded_graph zero = record { is_square = true; out_edges = 1 ∷ 2 ∷ [] }
founded_graph (suc zero) = record { is_square = false; out_edges = 0 ∷ [] }
founded_graph (suc (suc v)) = record { is_square = false; out_edges = [] }

-- struct A { B b; E e; }; union B { A a; }; struct E {};
abbrev ill_graph : ℕ → Node
ill_graph zero = record { is_square = false; out_edges = 1 ∷ 2 ∷ [] }
ill_graph (suc zero) = record { is_square = true; out_edges = 0 ∷ [] }
ill_graph (suc (suc v)) = record { is_square = false; out_edges = [] }

-- union U { S s; E e; }; struct S { U u; S s; }; struct E {};
abbrev loop_graph : ℕ → Node
loop_graph zero = record { is_square = true; out_edges = 1 ∷ 2 ∷ [] }
loop_graph (suc zero) = record { is_square = false; out_edges = 0 ∷ 1 ∷ [] }
loop_graph (suc (suc v)) = record { is_square = false; out_edges = [] }

abbrev as_is : List ℕ → List ℕ
as_is xs = xs

abbrev unknown : ℕ → Bool
unknown v = false

as_is-IsOrder : IsOrder as_is
as_is-IsOrder xs x = refl

unknown-IsMemory : (graph : ℕ → Node) → IsMemory graph unknown
unknown-IsMemory graph = ((λ v h. absurd (cc)), (λ v c h m. absurd (cc)))

founded-IsBelow : IsBelow founded_graph 3
founded-IsBelow zero c m = ground (arith, m)
founded-IsBelow (suc zero) c m = ground (arith, m)
founded-IsBelow (suc (suc v)) c m = absurd (cc)

ill-IsBelow : IsBelow ill_graph 3
ill-IsBelow zero c m = ground (arith, m)
ill-IsBelow (suc zero) c m = ground (arith, m)
ill-IsBelow (suc (suc v)) c m = absurd (cc)

founded_no_loop : HasNoLoop founded_graph
founded_no_loop zero e = absurd (cc)
founded_no_loop (suc zero) e = refl
founded_no_loop (suc (suc v)) e = refl

founded_run : (check_well_founded founded_graph as_is 3 0 unknown).0 ≡ well_founded
unfolding check_well_founded add remove all_in
founded_run = refl

ill_run :
    (check_well_founded ill_graph as_is 3 0 unknown).0
    ≡ ill_founded (record { first = 0; last = 1; path = 1 ∷ 0 ∷ [] })
unfolding check_well_founded add remove all_in
ill_run = refl

-- S contains itself, and nothing is reported.
loop_run : (check_well_founded loop_graph as_is 3 0 unknown).0 ≡ well_founded
unfolding check_well_founded add remove all_in
loop_run = refl

check_well_founded-IsReport_example :
    IsReport ill_graph 0 (check_well_founded ill_graph as_is 3 0 unknown).0
check_well_founded-IsReport_example =
    check_well_founded-IsReport ill_graph as_is as_is-IsOrder 3 ill-IsBelow 0 unknown (omega arith)
      (unknown-IsMemory ill_graph)

check_well_founded-decides_example :
    ((check_well_founded founded_graph as_is 3 0 unknown).0 ≡ well_founded)
    ↔ IsAllFounded founded_graph 0
check_well_founded-decides_example =
    check_well_founded-decides founded_graph as_is as_is-IsOrder 3 founded-IsBelow 0 unknown
      (omega arith) (unknown-IsMemory founded_graph) founded_no_loop

check_all_well_founded-decides_example :
    ((check_all_well_founded founded_graph as_is 3 (1 ∷ 0 ∷ 2 ∷ []) unknown).0 ≡ well_founded)
    ↔ ((root : ℕ) → member root (1 ∷ 0 ∷ 2 ∷ []) ≡ true → IsAllFounded founded_graph root)
check_all_well_founded-decides_example =
    check_all_well_founded-decides founded_graph as_is as_is-IsOrder 3 founded-IsBelow
      (1 ∷ 0 ∷ 2 ∷ []) unknown (λ root m. ground (arith, m)) (unknown-IsMemory founded_graph)
      founded_no_loop

abbrev loop_state : Finder
loop_state = phase1 loop_graph 3 0 (holder_for_node 0 (make_cycle_finder unknown))

phase2-terminates_example :
    (phase2 loop_graph as_is (work loop_state + 5) loop_state
      ≡ phase2 loop_graph as_is (work loop_state) loop_state)
    × ((x : ℕ) → founded (phase2 loop_graph as_is (work loop_state + 5) loop_state) x ≡ false)
phase2-terminates_example =
    phase2-terminates loop_graph as_is as_is-IsOrder (work loop_state + 5) loop_state (omega arith)
