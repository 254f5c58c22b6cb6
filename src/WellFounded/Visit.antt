-- ===== src/WellFounded/Visit.antt =====
-- Whole visits of checkWellFoundedPhase1: what they promise, and how one follows another.
use fidl.Prelude.{
  ℕ, zero, suc, ◌+◌, ◌<◌, ◌≤◌, ◌≡◌, ◌∙◌, refl, arith, inl, inr, Bool, true, false, Option, none,
  some, ◌==◌, Bool-cases, if◌then◌else◌, ==→eq,
}
use fidl.WellFounded.Sets.{update}
use fidl.WellFounded.{
  Node, Finder, VisitationState, unvisited, visit_started, visit_ended, holder_for_node,
  visit_child,
}
use fidl.WellFounded.Spec.{
  visited, pending, IsInv, Grows, ChangesOnly, IsDone, IsDone-keeps, Grows-refl, Grows-trans,
}

-- how many of the nodes below `n` are unvisited
abbrev pub room : ℕ → Finder → ℕ
room zero s = 0
room (suc n) s = (if visited s n then 0 else 1) + room n s

pub room-le :
    (n : ℕ) (s t : Finder)
    → ((x : ℕ) → visited s x ≡ true → visited t x ≡ true)
    → room n t ≤ room n s
room-le zero s t h = omega arith
room-le (suc n) s t h = ground (arith, room-le n s t h, h n)

pub room-lt :
    (n v : ℕ) (s t : Finder)
    → ((x : ℕ) → visited s x ≡ true → visited t x ≡ true)
    → v < n
    → visited s v ≡ false
    → visited t v ≡ true
    → room n t < room n s
room-lt zero v s t h k u m = absurd (omega arith)
room-lt (suc n) v s t h k u m = elim (Bool-cases (v == n)) [
  | inl e ↦
      let d = ==→eq v n e in
      let a : visited s n ≡ false = rw (← d) u in
      let b : visited t n ≡ true = rw (← d) m in ground (arith, room-le n s t h)
  | inr q ↦ ground (arith, room-lt n v s t h (ground arith) u m, h n)
]

module _ (graph : ℕ → Node) (before : ℕ → Bool) where
  -- What a visit promises: what was visited is not changed, and what is visited is done.
  pub record IsVisit (s t : Finder) : Type 0 where
    pub grows : Grows graph s t
    pub same_known : (x : ℕ) → visited s x ≡ true → t.known x ≡ s.known x
    pub same_pending : (x : ℕ) → visited s x ≡ true → pending t x ≡ pending s x
    pub inv : IsInv graph before t
    pub fresh : (x : ℕ) → visited t x ≡ true → visited s x ≡ false → IsDone graph before t x

  pub only_of_visit : (v : ℕ) {s t : Finder} → IsVisit s t → ChangesOnly graph v s t
  only_of_visit v k = record {
    same_known = λ x h n. k.same_known x h;
    same_pending = λ x h n. k.same_pending x h;
  }

  IsDone-after :
      {s t : Finder} (x : ℕ)
      → IsVisit s t
      → visited s x ≡ true
      → IsDone graph before s x
      → IsDone graph before t x
  IsDone-after {s} {t} x k h d =
      IsDone-keeps graph before (suc x) s t x k.grows (only_of_visit (suc x) k) h (omega arith) d

  pub IsVisit-trans : {s t u : Finder} → IsVisit s t → IsVisit t u → IsVisit s u
  IsVisit-trans {s} {t} {u} k l = record {
    grows = Grows-trans graph k.grows l.grows;
    same_known = λ x h. l.same_known x (k.grows.visits x h) ∙ k.same_known x h;
    same_pending = λ x h. l.same_pending x (k.grows.visits x h) ∙ k.same_pending x h;
    inv = l.inv;
    fresh = λ x h n. elim (Bool-cases (visited t x)) [
      | inl m ↦ IsDone-after x l m (k.fresh x m n)
      | inr m ↦ l.fresh x h m
    ];
  }

  pub IsVisit-refl : (s : Finder) → IsInv graph before s → IsVisit s s
  IsVisit-refl s i = record {
    grows = Grows-refl graph s;
    same_known = λ x h. refl;
    same_pending = λ x h. refl;
    inv = i;
    fresh = λ x h n. absurd (cc);
  }

  numbered :
      (s : Finder) (o : ℕ → Option ℕ) (i : ℕ)
      → IsInv graph before s
      → IsVisit s (record s { order = o; visitation_index = i })
  numbered s o i k = record {
    grows = record {
      visits = λ x h. h;
      knows = λ x h. h;
      founds = λ x h. h;
      pends = λ x h. h;
      links = λ p c h. h;
      no_links = λ p c h l. l;
    };
    same_known = λ x h. refl;
    same_pending = λ x h. refl;
    inv = record {
      old = k.old;
      sound = k.sound;
      link_child = k.link_child;
      link_visited = k.link_visited;
      pending_unknown = k.pending_unknown;
      pending_visited = k.pending_visited;
      founded_known = k.founded_known;
    };
    fresh = λ x h n. absurd (cc);
  }

  pub holder-IsVisit : (c : ℕ) (s : Finder) → IsInv graph before s → IsVisit s (holder_for_node c s)
  unfolding holder_for_node
  holder-IsVisit c s i =
      elim (s.order c)
        as (λ o. IsVisit s (elim o [
          | some i ↦ s
          | none ↦ record s {
            order = update s.order c (some s.visitation_index);
            visitation_index = s.visitation_index + 1;
          }
        ])) [ some j ↦ IsVisit-refl s i | none ↦ numbered s _ _ i ]

  -- What a recursive call promises, on a node below `n` with room for it.
  abbrev pub Visits : ℕ → ℕ → (ℕ → Finder → Finder) → Type 0
  Visits n depth visit =
      (c : ℕ) (s : Finder)
      → IsInv graph before s
      → visited s c ≡ false
      → c < n
      → room n s ≤ depth
      → IsVisit s (visit c s) × (visited (visit c s) c ≡ true)

  child_of_state :
      (n depth c : ℕ) (visit : ℕ → Finder → Finder) (s : Finder) (st : VisitationState)
      → st ≡ s.state c
      → Visits n depth visit
      → IsInv graph before s
      → c < n
      → room n s ≤ depth
      → IsVisit s (elim st [ unvisited ↦ visit c s | _ ↦ s ])
        × (visited (elim st [ unvisited ↦ visit c s | _ ↦ s ]) c ≡ true)
  child_of_state n depth c visit s unvisited e ih i l r = ih c s i (rw (← e) refl) l r
  child_of_state n depth c visit s visit_started e ih i l r = (IsVisit-refl s i, rw (← e) refl)
  child_of_state n depth c visit s visit_ended e ih i l r = (IsVisit-refl s i, rw (← e) refl)

  pub visit_child-IsVisit :
      (n depth c : ℕ) (visit : ℕ → Finder → Finder) (s : Finder)
      → Visits n depth visit
      → IsInv graph before s
      → c < n
      → room n s ≤ depth
      → IsVisit s (visit_child graph visit c s) × (visited (visit_child graph visit c s) c ≡ true)
  unfolding visit_child
  visit_child-IsVisit n depth c visit s ih i l r =
      let h = holder-IsVisit c s i in
      let s' = holder_for_node c s in
      let (k, m) =
        child_of_state n depth c visit s' (s'.state c) refl ih h.inv l
          (omega (arith, room-le n s s' h.grows.visits)) in
      (IsVisit-trans h k, m)
