-- ===== src/WellFounded/Scan.antt =====
-- The loop of checkWellFoundedPhase1 over the edges of a node.
use fidl.Prelude.{
  ℕ, ◌<◌, ◌≤◌, ◌≡◌, ◌≢◌, ◌∙◌, refl, arith, ◌⊎◌, inl, inr, Bool, true, false, List, [], ◌∷◌,
  Bool-cases, ==_refl,
}
use fidl.WellFounded.Sets.{member}
use fidl.WellFounded.{Node, Finder, visit_child, see_child, scan_edges}
use fidl.WellFounded.Spec.{
  visited, pending, linked, child, IsInv, Grows, ChangesOnly, IsDone, IsDone-keeps, Grows-refl,
  Grows-trans, ChangesOnly-trans,
}
use fidl.WellFounded.Child.{IsSeen, see_child-IsSeen}
use fidl.WellFounded.Visit.{room, room-le, IsVisit, only_of_visit, Visits, visit_child-IsVisit}

pub member_cases :
    (x c : ℕ) (cs : List ℕ) → member x (c ∷ cs) ≡ true → (x ≡ c) ⊎ (member x cs ≡ true)
member_cases x c cs h = ground arith

-- What is false at the end was false before.
pub false_before : (a b : Bool) → (a ≡ true → b ≡ true) → b ≡ false → a ≡ false
false_before true b h k = absurd (let e = h refl in cc)
false_before false b h k = refl

module _ (graph : ℕ → Node) (before : ℕ → Bool) (v : ℕ) where
  pub record IsScan (cs : List ℕ) (saw : Bool) (s : Finder) (r : Bool × Finder) : Type 0 where
    pub grows : Grows graph s r.1
    pub only : ChangesOnly graph v s r.1
    pub inv : IsInv graph before r.1
    pub fresh : (x : ℕ) → visited r.1 x ≡ true → visited s x ≡ false → IsDone graph before r.1 x
    pub still : pending r.1 v ≡ false
    pub sees : (c : ℕ) → member c cs ≡ true → visited r.1 c ≡ true
    pub settles :
        r.1.known v ≡ false
        → (c : ℕ) → member c cs ≡ true
        → (r.1.known c ≡ true) ⊎ (linked r.1 v c ≡ true)
    pub unraised : r.0 ≡ false → saw ≡ false
    pub circle_clear :
        r.0 ≡ false
        → (graph v).is_square ≡ false
        → (c : ℕ) → member c cs ≡ true
        → r.1.known c ≡ true
    pub square_clear : r.0 ≡ false → (graph v).is_square ≡ true → (r.1.known v ≡ true) ⊎ (cs ≡ [])
    pub raised :
        r.0 ≡ true → (saw ≡ true) ⊎ ((c : ℕ) × (member c cs ≡ true) × (linked r.1 v c ≡ true))
    pub waits :
        (graph v).is_square ≡ true
        → r.1.known v ≡ false
        → (c : ℕ) → member c cs ≡ true
        → linked r.1 v c ≡ true

  IsScan-nil :
      (saw : Bool) (s : Finder)
      → IsInv graph before s
      → pending s v ≡ false
      → IsScan [] saw s (saw, s)
  IsScan-nil saw s i p = record {
    grows = Grows-refl graph s;
    only = record { same_known = λ x h n. refl; same_pending = λ x h n. refl };
    inv = i;
    fresh = λ x h n. absurd (cc);
    still = p;
    sees = λ c m. absurd (cc);
    settles = λ k c m. absurd (cc);
    unraised = λ h. h;
    circle_clear = λ h q c m. absurd (cc);
    square_clear = λ h q. inr refl;
    raised = λ h. inl h;
    waits = λ q k c m. absurd (cc);
  }

  IsScan-cons :
      (c : ℕ) (cs : List ℕ) (saw : Bool) (s t : Finder) (a r : Bool × Finder)
      → visited s v ≡ true
      → IsVisit graph before s t
      → visited t c ≡ true
      → IsSeen graph before v c saw t a
      → IsScan cs a.0 a.1 r
      → IsScan (c ∷ cs) saw s r
  IsScan-cons c cs saw s t a r hv k hc f l =
      let st = f.step in
      let first = Grows-trans graph k.grows st.grows in
      let first_only = ChangesOnly-trans graph k.grows (only_of_visit graph before v k) st.only in
      let unknown =
        λ (h : r.1.known v ≡ false). false_before (a.1.known v) (r.1.known v) (l.grows.knows v) h in
      let linked_later = λ (h : linked a.1 v c ≡ true). l.grows.links v c h in
      record {
        grows = Grows-trans graph first l.grows;
        only = ChangesOnly-trans graph first first_only l.only;
        inv = l.inv;
        fresh = λ x h n. elim (Bool-cases (visited t x)) [
          | inl m ↦
              let ne : x ≢ v = λ e. (let q : visited s x ≡ true = rw e hv in cc) in
              let d = IsDone-keeps graph before v t a.1 x st.grows st.only m ne (k.fresh x m n) in
              IsDone-keeps graph before v a.1 r.1 x l.grows l.only (st.grows.visits x m) ne d
          | inr m ↦ l.fresh x h (st.same_visits x ∙ m)
        ];
        still = l.still;
        sees = λ x m. elim (member_cases x c cs m) [
          | inl e ↦ rw e (l.grows.visits c (st.grows.visits c hc))
          | inr q ↦ l.sees x q
        ];
        settles = λ h x m. elim (member_cases x c cs m) [
          | inl e ↦ rw e (elim (f.settles (unknown h)) [
            | inl p ↦ inl (l.grows.knows c p)
            | inr p ↦ inr (linked_later p)
          ])
          | inr q ↦ l.settles h x q
        ];
        unraised = λ h. (f.clear (l.unraised h)).0;
        circle_clear = λ h q x m. elim (member_cases x c cs m) [
          | inl e ↦ rw e (l.grows.knows c ((f.clear (l.unraised h)).1 q))
          | inr p ↦ l.circle_clear h q x p
        ];
        square_clear = λ h q. inl (l.grows.knows v ((f.clear (l.unraised h)).2 q));
        raised = λ h. elim (l.raised h) [
          | inl q ↦ elim (f.raised q) [
            | inl p ↦ inl p
            | inr p ↦ inr (c, ground (arith, ==_refl c), linked_later p)
          ]
          | inr (x, m, p) ↦ inr (x, ground arith, p)
        ];
        waits = λ q h x m. elim (member_cases x c cs m) [
          | inl e ↦ rw e (linked_later (f.waits q (unknown h)))
          | inr p ↦ l.waits q h x p
        ];
      }

  pub scan_edges-IsScan :
      (n depth : ℕ) (visit : ℕ → Finder → Finder) (cs : List ℕ) (saw : Bool) (s : Finder)
      → Visits graph before n depth visit
      → ((c : ℕ) → member c cs ≡ true → (c < n) × (child graph v c ≡ true))
      → IsInv graph before s
      → visited s v ≡ true
      → pending s v ≡ false
      → room n s ≤ depth
      → IsScan cs saw s (scan_edges graph visit v cs saw s)
  unfolding scan_edges
  scan_edges-IsScan n depth visit [] saw s ih m i hv p l = IsScan-nil saw s i p
  scan_edges-IsScan n depth visit (c ∷ cs) saw s ih m i hv p l =
      let (small, is_child) = m c (ground (arith, ==_refl c)) in
      let (k, hc) = visit_child-IsVisit graph before n depth c visit s ih i small l in
      let t = visit_child graph visit c s in
      let hv' = k.grows.visits v hv in
      let p' = k.same_pending v hv ∙ p in
      let f = see_child-IsSeen graph before v c saw t k.inv hv' hc p' is_child in
      let a = see_child graph v c saw t in
      IsScan-cons c cs saw s t a _ hv k hc f (
        scan_edges-IsScan n depth visit cs a.0 a.1 ih (λ x q. m x (ground arith)) f.step.inv
          (f.step.grows.visits v hv') (f.step.same_pendings v ∙ p')
          (omega (arith, room-le n s t k.grows.visits, room-le n t a.1 f.step.grows.visits)))
