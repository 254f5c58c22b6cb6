-- ===== src/WellFounded/Reach.antt =====
-- What checkWellFoundedPhase1 visits can be reached from where it starts.
use fidl.Prelude.{
  ℕ, zero, suc, ◌+◌, ◌≡◌, sym, ◌∙◌, refl, arith, inl, inr, Bool, true, false, not, ◌&&◌, none, some,
  List, [], ◌∷◌, ◌==◌, Bool-cases, if◌then◌else◌, ==→eq, ==_refl,
}
use fidl.WellFounded.Sets.{update, member, add}
use fidl.WellFounded.{
  Node, Finder, VisitationState, unvisited, visit_started, visit_ended, set_state,
  set_known_well_founded, add_parent, holder_for_node, see_child, visit_child, scan_edges,
  finish_visit, phase1,
}
use fidl.WellFounded.Spec.{visited, child}

module _ (graph : ℕ → Node) where
  -- A path of edges, from the first node to the second one.
  pub data Reaches (root : ℕ) : ℕ → Type 0 where
    here : Reaches root root
    step : {v c : ℕ} → Reaches root v → child graph v c ≡ true → Reaches root c

  pub Reaches-trans : {a b c : ℕ} → Reaches a b → Reaches b c → Reaches a c
  Reaches-trans p here = p
  Reaches-trans p (step q m) = step (Reaches-trans p q) m

  module _ (R : ℕ → Type 0) (closed : (v c : ℕ) → R v → child graph v c ≡ true → R c) where
    abbrev pub VisitsOnly : Finder → Type 0
    VisitsOnly s = (x : ℕ) → visited s x ≡ true → R x

    see_child-VisitsOnly :
        (v c : ℕ) (saw : Bool) (s : Finder)
        → VisitsOnly s
        → VisitsOnly (see_child graph v c saw s).1
    unfolding see_child set_known_well_founded add_parent
    see_child-VisitsOnly v c saw s o =
        go ((graph v).is_square && s.known v) (s.known c) (graph v).is_square
      where
        go :
            (a b d : Bool)
            → let r : Bool × Finder =
                if a
                then (saw, s)
                else if b
                then (saw, (if d then set_known_well_founded v s else s))
                else (true, add_parent c v s) in
              VisitsOnly r.1
        go true b d = o
        go false true true = o
        go false true false = o
        go false false d = o

    holder-VisitsOnly : (c : ℕ) (s : Finder) → VisitsOnly s → VisitsOnly (holder_for_node c s)
    unfolding holder_for_node
    holder-VisitsOnly c s o =
        elim (s.order c)
          as (λ h. VisitsOnly (elim h [
            | some i ↦ s
            | none ↦ record s {
              order = update s.order c (some s.visitation_index);
              visitation_index = s.visitation_index + 1;
            }
          ])) [ some i ↦ o | none ↦ o ]

    visit_child-VisitsOnly :
        (visit : ℕ → Finder → Finder) (c : ℕ) (s : Finder)
        → ((t : Finder) → VisitsOnly t → VisitsOnly (visit c t))
        → VisitsOnly s
        → VisitsOnly (visit_child graph visit c s)
    unfolding visit_child
    visit_child-VisitsOnly visit c s f o =
        let s' = holder_for_node c s in
        let o' = holder-VisitsOnly c s o in
        elim (s'.state c) as (λ t. VisitsOnly (elim t [ unvisited ↦ visit c s' | _ ↦ s' ])) [
          | unvisited ↦ f s' o'
          | visit_started ↦ o'
          | visit_ended ↦ o'
        ]

    scan_edges-VisitsOnly :
        (visit : ℕ → Finder → Finder) (v : ℕ) (cs : List ℕ) (saw : Bool) (s : Finder)
        → ((c : ℕ) (t : Finder) → R c → VisitsOnly t → VisitsOnly (visit c t))
        → ((c : ℕ) → member c cs ≡ true → R c)
        → VisitsOnly s
        → VisitsOnly (scan_edges graph visit v cs saw s).1
    unfolding scan_edges
    scan_edges-VisitsOnly visit v [] saw s f m o = o
    scan_edges-VisitsOnly visit v (c ∷ cs) saw s f m o =
        let t = visit_child graph visit c s in
        let a = see_child graph v c saw t in
        let rc = m c (ground (arith, ==_refl c)) in
        scan_edges-VisitsOnly visit v cs a.0 a.1 f (λ x q. m x (ground (arith, q)))
          (see_child-VisitsOnly v c saw t (visit_child-VisitsOnly visit c s (λ t. f c t rc) o))

    set_state-VisitsOnly :
        (v : ℕ) (t : VisitationState) (s : Finder)
        → R v
        → VisitsOnly s
        → VisitsOnly (set_state v t s)
    unfolding set_state
    set_state-VisitsOnly v t s rv o x h = elim (Bool-cases (x == v)) [
      | inl e ↦ let d = ==→eq x v e in rw d rv
      | inr n ↦ o x (sym (rw n refl) ∙ h)
    ]

    abbrev with_sets : ℕ → Finder → Bool → List ℕ → Finder
    with_sets v t known ps =
        if known
        then elim ps [ [] ↦ t | _ ∷ _ ↦ record t { foundation_set = add v t.foundation_set } ]
        else record t { pending_set = add v t.pending_set }

    finish_visit-VisitsOnly :
        (v : ℕ) (saw : Bool) (s : Finder)
        → R v
        → VisitsOnly s
        → VisitsOnly (finish_visit graph v saw s)
    unfolding finish_visit set_known_well_founded
    finish_visit-VisitsOnly v saw s rv o =
        let s' = if not saw && not (s.known v) then set_known_well_founded v s else s in
        let o' = first (not saw && not (s.known v)) in
        set_state-VisitsOnly v visit_ended (with_sets v s' (s'.known v) (s'.parents v)) rv
          (second s' (s'.known v) (s'.parents v) o')
      where
        first : (a : Bool) → VisitsOnly (if a then set_known_well_founded v s else s)
        first true = o
        first false = o

        second :
            (t : Finder) (a : Bool) (ps : List ℕ) → VisitsOnly t → VisitsOnly (with_sets v t a ps)
        second t true [] q = q
        second t true (p ∷ ps) q = q
        second t false ps q = q

    pub phase1-VisitsOnly :
        (depth v : ℕ) (s : Finder) → R v → VisitsOnly s → VisitsOnly (phase1 graph depth v s)
    unfolding phase1
    phase1-VisitsOnly zero v s rv o = o
    phase1-VisitsOnly (suc depth) v s rv o =
        elim (s.known v)
          as (λ k. VisitsOnly (elim k [
            | true ↦ set_state v visit_ended s
            | false ↦
                let r =
                  scan_edges graph (phase1 graph depth) v (graph v).out_edges false
                    (set_state v visit_started s) in
                finish_visit graph v r.0 r.1
          ])) [
            | true ↦ set_state-VisitsOnly v visit_ended s rv o
            | false ↦
                let r : Bool × Finder =
                  scan_edges graph (phase1 graph depth) v (graph v).out_edges false
                    (set_state v visit_started s) in
                finish_visit-VisitsOnly v r.0 r.1 rv (
                  scan_edges-VisitsOnly (phase1 graph depth) v (graph v).out_edges false
                    (set_state v visit_started s) (phase1-VisitsOnly depth) (λ c m. closed v c rv m)
                    (set_state-VisitsOnly v visit_started s rv o))
          ]
