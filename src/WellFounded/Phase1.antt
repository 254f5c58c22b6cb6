-- ===== src/WellFounded/Phase1.antt =====
-- checkWellFoundedPhase1 as a whole.
use fidl.Prelude.{
  ℕ, zero, suc, ◌<◌, ◌≡◌, ◌≢◌, sym, ◌∙◌, refl, arith, inl, inr, Bool, true, false, ◌==◌, Bool-cases,
  ==→eq, ==_refl,
}
use fidl.WellFounded.{
  Node, Finder, VisitationState, visit_started, visit_ended, set_state, scan_edges, finish_visit,
  phase1,
}
use fidl.WellFounded.Spec.{visited, pending, child, IsInv, IsDone-keeps, Grows-trans}
use fidl.WellFounded.Visit.{room, room-lt, IsVisit, Visits}
use fidl.WellFounded.Scan.{IsScan, scan_edges-IsScan, false_before}
use fidl.WellFounded.Finish.{visited-set_state, mark-Grows, mark-IsInv, founding}
use fidl.WellFounded.Close.{finish_visit-IsFinish}

known-set_state :
    (v : ℕ) (t : VisitationState) (s : Finder) (x : ℕ) → (set_state v t s).known x ≡ s.known x
unfolding set_state
known-set_state v t s x = refl

pending-set_state :
    (v : ℕ) (t : VisitationState) (s : Finder) (x : ℕ) → pending (set_state v t s) x ≡ pending s x
unfolding set_state
pending-set_state v t s x = refl

module _ (graph : ℕ → Node) (before : ℕ → Bool) where
  known-IsVisit :
      (v : ℕ) (s : Finder)
      → IsInv graph before s
      → visited s v ≡ false
      → s.known v ≡ true
      → IsVisit graph before s (set_state v visit_ended s)
        × (visited (set_state v visit_ended s) v ≡ true)
  known-IsVisit v s i n k =
      let f =
        founding graph before v s s.foundation_set i k (inl (i.old v k n)) (λ x m. m) (λ x m. inr m)
          (λ p l. absurd (let q = i.link_visited p v l in cc)) in
      let ne : (x : ℕ) → visited s x ≡ true → x ≢ v =
        λ x h e. (let q : visited s v ≡ true = rw (← e) h in cc) in
      (
        record {
          grows = f.grows;
          same_known = λ x h. f.only.same_known x h (ne x h);
          same_pending = λ x h. f.only.same_pending x h (ne x h);
          inv = f.inv;
          fresh = λ x h u. elim (f.no_more x h) [ inl e ↦ rw e f.done | inr m ↦ absurd (cc) ];
        },
        visited-set_state v visit_ended s v refl ∙ rw (==_refl v) refl,
      )

  unknown-IsVisit :
      (v : ℕ) (s : Finder) (r : Bool × Finder)
      → visited s v ≡ false
      → IsScan graph before v (graph v).out_edges false (set_state v visit_started s) r
      → IsVisit graph before s (finish_visit graph v r.0 r.1)
        × (visited (finish_visit graph v r.0 r.1) v ≡ true)
  unknown-IsVisit v s r n f =
      let now = λ (x : ℕ). visited-set_state v visit_started s x refl in
      let here : visited (set_state v visit_started s) v ≡ true = now v ∙ rw (==_refl v) refl in
      let g = mark-Grows graph before v visit_started s refl in
      let e = finish_visit-IsFinish graph before v (set_state v visit_started s) r here f in
      let ne : (x : ℕ) → visited s x ≡ true → x ≢ v =
        λ x h q. (let a : visited s v ≡ true = rw (← q) h in cc) in
      let there = λ (x : ℕ) (h : visited s x ≡ true). f.grows.visits x (g.visits x h) in
      (
        record {
          grows = Grows-trans graph g (Grows-trans graph f.grows e.grows);
          same_known = λ x h.
              e.only.same_known x (there x h) (ne x h)
              ∙ f.only.same_known x (g.visits x h) (ne x h)
              ∙ known-set_state v visit_started s x;
          same_pending = λ x h.
              e.only.same_pending x (there x h) (ne x h)
              ∙ f.only.same_pending x (g.visits x h) (ne x h)
              ∙ pending-set_state v visit_started s x;
          inv = e.inv;
          fresh = λ x h u. elim (Bool-cases (x == v)) [
            | inl q ↦ rw (==→eq x v q) e.done
            | inr q ↦
                let d : x ≢ v = ground arith in
                let m : visited r.1 x ≡ true = elim (e.no_more x h) [
                  | inl a ↦ absurd (d a)
                  | inr a ↦ a
                ] in
                IsDone-keeps graph before v r.1 _ x e.grows e.only m d
                  (f.fresh x m (now x ∙ rw (q, u) refl))
          ];
        },
        e.grows.visits v (f.grows.visits v here),
      )

  known_cases :
      (depth v : ℕ) (s : Finder) (k : Bool)
      → k ≡ s.known v
      → (k ≡ false
          → let r =
              scan_edges graph
                (phase1 graph depth)
                v
                (graph v).out_edges
                false
                (set_state v visit_started s) in
            IsScan graph before v (graph v).out_edges false (set_state v visit_started s) r)
      → IsInv graph before s
      → visited s v ≡ false
      → let t : Finder = elim k [
        | true ↦ set_state v visit_ended s
        | false ↦
            let r =
              scan_edges graph
                (phase1 graph depth)
                v
                (graph v).out_edges
                false
                (set_state v visit_started s) in
            finish_visit graph v r.0 r.1
      ] in
        IsVisit graph before s t × (visited t v ≡ true)
  known_cases depth v s true e f i n = known-IsVisit v s i n (sym e)
  known_cases depth v s false e f i n = unknown-IsVisit v s _ n (f refl)

  start_room :
      (n v : ℕ) (s : Finder)
      → v < n
      → visited s v ≡ false
      → room n (set_state v visit_started s) < room n s
  start_room n v s l u =
      room-lt n v s (set_state v visit_started s)
        (mark-Grows graph before v visit_started s refl).visits l u
        (visited-set_state v visit_started s v refl ∙ rw (==_refl v) refl)

  -- Phase 1 with enough depth does a whole visit.
  pub phase1-Visits :
      (n depth : ℕ)
      → ((v c : ℕ) → child graph v c ≡ true → c < n)
      → Visits graph before n depth (phase1 graph depth)
  unfolding phase1
  phase1-Visits n zero edges v s i u l r = absurd (omega (arith, start_room n v s l u, r))
  phase1-Visits n (suc depth) edges v s i u l r =
      let now = λ (x : ℕ). visited-set_state v visit_started s x refl in
      let here : visited (set_state v visit_started s) v ≡ true = now v ∙ rw (==_refl v) refl in
      let g = mark-Grows graph before v visit_started s refl in
      let less = start_room n v s l u in
      let clear : pending s v ≡ false =
        false_before (pending s v) (visited s v) (i.pending_visited v) u in
      known_cases depth v s (s.known v) refl
        (λ k.
          scan_edges-IsScan graph before v n depth (phase1 graph depth) (graph v).out_edges false
            (set_state v visit_started s) (phase1-Visits n depth edges) (λ c m. (edges v c m, m))
            (mark-IsInv graph before v visit_started s refl i) here
            (pending-set_state v visit_started s v ∙ clear) (omega (arith, less, r)))
        i u
