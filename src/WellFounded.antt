-- ===== src/WellFounded.antt =====
-- compiler/src/fidl/compiler/utils/wellfounded_graphs.go: is every type below a type well founded? A
-- node is a number, and a holder is its node. An edge is its target; its label is never looked at. The
-- maps and the holders' fields are functions of the node; a NodeSet is a list without repetitions.
pub mod Sets
pub mod Spec
pub mod Child
pub mod Visit
pub mod Scan
pub mod Finish
pub mod Close
pub mod Phase1
pub mod Cycle
pub mod Check
pub mod Loop
pub mod Phase2
pub mod Rounds
pub mod Reach
pub mod End
pub mod Start
pub mod Describe
pub mod Walk
pub mod Report
pub mod Checked
pub mod Correct
pub mod Bounds
mod Tests
use fidl.Prelude.{
  ℕ, zero, suc, ◌+◌, Bool, true, false, not, ◌&&◌, ◌||◌, Option, none, some, List, [], ◌∷◌, ◌++◌,
  ◌==◌, ltb, if◌then◌else◌, length,
}
use fidl.WellFounded.Sets.{update, member, add, remove, all_in}

pub record Node : Type 0 where
  pub is_square : Bool
  pub out_edges : List ℕ

pub data VisitationState : Type 0 where
  unvisited visit_started visit_ended : VisitationState

-- `known` is what the nodes remember of SetKnownWellFounded; the rest is the cycleFinder's.
pub record Finder : Type 0 where
  pub known : ℕ → Bool
  pub state : ℕ → VisitationState
  pub parents : ℕ → List ℕ
  pub order : ℕ → Option ℕ
  pub visitation_index : ℕ
  pub foundation_set : List ℕ
  pub pending_set : List ℕ

unfoldable pub make_cycle_finder : (ℕ → Bool) → Finder
make_cycle_finder known = record {
  known = known;
  state = λ v. unvisited;
  parents = λ v. [];
  order = λ v. none;
  visitation_index = 0;
  foundation_set = [];
  pending_set = [];
}

-- A holder is made with the next visitation order.
unfoldable pub holder_for_node : ℕ → Finder → Finder
holder_for_node v s = elim (s.order v) [
  | some i ↦ s
  | none ↦ record s {
    order = update s.order v (some s.visitation_index);
    visitation_index = s.visitation_index + 1;
  }
]

unfoldable pub set_known_well_founded : ℕ → Finder → Finder
set_known_well_founded v s = record s { known = update s.known v true }

unfoldable pub set_state : ℕ → VisitationState → Finder → Finder
set_state v t s = record s { state = update s.state v t }

-- `childHolder.parentsToBeNotified.Add(nodeHolder)`
unfoldable pub add_parent : ℕ → ℕ → Finder → Finder
add_parent child v s = record s { parents = update s.parents child (add v (s.parents child)) }

module _ (graph : ℕ → Node) where
  -- What a visited child does to its parent's node, and to sawUnverifiedChild.
  unfoldable pub see_child : ℕ → ℕ → Bool → Finder → Bool × Finder
  unfolding set_known_well_founded add_parent
  see_child v child saw s =
      if (graph v).is_square && s.known v
      then (saw, s)
      else if s.known child
      then (saw, (if (graph v).is_square then set_known_well_founded v s else s))
      else (true, add_parent child v s)

  -- one round of the loop over the edges, with the recursive call
  unfoldable pub visit_child : (ℕ → Finder → Finder) → ℕ → Finder → Finder
  unfolding holder_for_node
  visit_child visit child s =
      let s' = holder_for_node child s in
      elim (s'.state child) [ unvisited ↦ visit child s' | _ ↦ s' ]

  unfoldable pub scan_edges : (ℕ → Finder → Finder) → ℕ → List ℕ → Bool → Finder → Bool × Finder
  unfolding see_child visit_child
  scan_edges visit v [] saw s = (saw, s)
  scan_edges visit v (child ∷ children) saw s =
      let r = see_child v child saw (visit_child visit child s) in
      scan_edges visit v children r.0 r.1

  -- behind the loop
  unfoldable pub finish_visit : ℕ → Bool → Finder → Finder
  unfolding set_known_well_founded set_state
  finish_visit v saw s =
      let s' = if not saw && not (s.known v) then set_known_well_founded v s else s in
      set_state v visit_ended (
        if s'.known v
        then elim (s'.parents v) [
          | [] ↦ s'
          | _ ∷ _ ↦ record s' { foundation_set = add v s'.foundation_set }
        ]
        else record s' { pending_set = add v s'.pending_set })

  -- `checkWellFoundedPhase1`; every call marks a node that was unvisited, so that the number of nodes
  -- bounds the depth.
  unfoldable pub phase1 : ℕ → ℕ → Finder → Finder
  unfolding scan_edges finish_visit set_state
  phase1 zero v s = s
  phase1 (suc depth) v s = elim (s.known v) [
    | true ↦ set_state v visit_ended s
    | false ↦
        let r =
          scan_edges (phase1 depth) v (graph v).out_edges false (set_state v visit_started s) in
        finish_visit v r.0 r.1
  ]

  -- the body of the loop over the parents to be notified
  unfoldable pub notify : ℕ → Finder → Finder
  unfolding set_known_well_founded
  notify p s =
      if member p s.pending_set
        && ((graph p).is_square
            || all_in (λ child. child == p || s.known child) (graph p).out_edges)
      then record (set_known_well_founded p s) {
        foundation_set = add p s.foundation_set;
        pending_set = remove p s.pending_set;
      }
      else s

  unfoldable pub notify_all : List ℕ → Finder → Finder
  unfolding notify
  notify_all [] s = s
  notify_all (p ∷ ps) s = notify_all ps (notify p s)

  -- `any_order` is the order in which Go ranges over a map with these keys.
  module _ (any_order : List ℕ → List ℕ) where
    -- `checkWellFoundedPhase2`; a node leaves the two sets in each round.
    unfoldable pub phase2 : ℕ → Finder → Finder
    unfolding notify_all
    phase2 zero s = s
    phase2 (suc rounds) s = elim (any_order s.foundation_set) [
      | [] ↦ s
      | n ∷ _ ↦ phase2 rounds (
          notify_all (any_order (s.parents n))
            (record s { foundation_set = remove n s.foundation_set }))
    ]
