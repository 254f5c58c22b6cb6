-- ===== src/WellFounded/Finish.antt =====
-- The end of a visit in checkWellFoundedPhase1, behind the loop.
use fidl.Prelude.{
  ℕ, ◌≡◌, sym, ◌∙◌, refl, arith, ◌⊎◌, inl, inr, Bool, true, false, ◌||◌, List, ◌==◌, Bool-cases,
  ==→eq, ==_refl,
}
use fidl.WellFounded.Sets.{member, add, member-add}
use fidl.WellFounded.{Node, Finder, VisitationState, visit_ended, set_state}
use fidl.WellFounded.Spec.{
  is_visited, visited, pending, founded, linked, child, IsInv, Grows, ChangesOnly, IsWaiting,
  IsDone,
}

pub visited-set_state :
    (v : ℕ) (t : VisitationState) (s : Finder) (x : ℕ)
    → is_visited t ≡ true
    → visited (set_state v t s) x ≡ (x == v || visited s x)
unfolding set_state
visited-set_state v t s x h = elim (Bool-cases (x == v)) [
  | inl e ↦ rw (e, h) refl
  | inr n ↦ rw n refl
]

module _ (graph : ℕ → Node) (before : ℕ → Bool) where
  or_true : (a : Bool) {b : Bool} → b ≡ true → (a || b) ≡ true
  or_true true h = refl
  or_true false h = h

  or_false : (a : Bool) {b : Bool} → (a || b) ≡ false → b ≡ false
  or_false true h = absurd (cc)
  or_false false h = h

  pub mark-Grows :
      (v : ℕ) (t : VisitationState) (s : Finder)
      → is_visited t ≡ true
      → Grows graph s (set_state v t s)
  unfolding set_state
  mark-Grows v t s h = record {
    visits = λ x k. visited-set_state v t s x h ∙ or_true (x == v) k;
    knows = λ x k. k;
    founds = λ x k. k;
    pends = λ x k. k;
    links = λ q x k. k;
    no_links = λ q x k l. l;
  }

  pub mark-IsInv :
      (v : ℕ) (t : VisitationState) (s : Finder)
      → is_visited t ≡ true
      → IsInv graph before s
      → IsInv graph before (set_state v t s)
  unfolding set_state
  mark-IsInv v t s h i =
      let g = mark-Grows v t s h in
      record {
        old = λ x k n. i.old x k (or_false (x == v) (sym (visited-set_state v t s x h) ∙ n));
        sound = i.sound;
        link_child = i.link_child;
        link_visited = λ p c l. g.visits c (i.link_visited p c l);
        pending_unknown = i.pending_unknown;
        pending_visited = λ x p. g.visits x (i.pending_visited x p);
        founded_known = i.founded_known;
      }

  -- The visit of `v` ends in `t`.
  pub record IsFinish (v : ℕ) (s t : Finder) : Type 0 where
    pub grows : Grows graph s t
    pub only : ChangesOnly graph v s t
    pub inv : IsInv graph before t
    pub done : IsDone graph before t v
    pub no_more : (x : ℕ) → visited t x ≡ true → (x ≡ v) ⊎ (visited s x ≡ true)

  marked :
      (v : ℕ) (t : VisitationState) (s : Finder) (x : ℕ)
      → is_visited t ≡ true
      → visited (set_state v t s) x ≡ true
      → (x ≡ v) ⊎ (visited s x ≡ true)
  marked v t s x h k =
      let e : (x == v || visited s x) ≡ true = sym (visited-set_state v t s x h) ∙ k in
      elim (Bool-cases (x == v)) [ inl a ↦ inl (==→eq x v a) | inr a ↦ inr (sym (rw a refl) ∙ e) ]

  -- A known node goes to the foundation set if it has parents to notify.
  pub founding :
      (v : ℕ) (s : Finder) (fs : List ℕ)
      → IsInv graph before s
      → s.known v ≡ true
      → (before v ≡ true) ⊎ ((c : ℕ) → child graph v c ≡ true → visited s c ≡ true)
      → ((x : ℕ) → founded s x ≡ true → member x fs ≡ true)
      → ((x : ℕ) → member x fs ≡ true → (x ≡ v) ⊎ (founded s x ≡ true))
      → ((p : ℕ) → linked s p v ≡ true → member v fs ≡ true)
      → IsFinish v s (set_state v visit_ended (record s { foundation_set = fs }))
  unfolding set_state
  founding v s fs i k o more back has =
      let g = mark-Grows v visit_ended s refl in
      let j = mark-IsInv v visit_ended s refl i in
      record {
        grows = record {
          visits = g.visits;
          knows = g.knows;
          founds = more;
          pends = g.pends;
          links = g.links;
          no_links = g.no_links;
        };
        only = record { same_known = λ x h n. refl; same_pending = λ x h n. refl };
        inv = record {
          old = j.old;
          sound = j.sound;
          link_child = j.link_child;
          link_visited = j.link_visited;
          pending_unknown = j.pending_unknown;
          pending_visited = j.pending_visited;
          founded_known = λ x m. elim (back x m) [ inl e ↦ rw e k | inr a ↦ i.founded_known x a ];
        };
        done = record {
          settled = inl k;
          opened = elim o [ inl a ↦ inl a | inr a ↦ inr (λ c m. g.visits c (a c m)) ];
          waiting = λ p. absurd (let u = i.pending_unknown v p in cc);
          ready = λ p l q. has p l;
        };
        no_more = λ x h. marked v visit_ended s x refl h;
      }

  -- An unknown node goes to the pending set.
  pub suspending :
      (v : ℕ) (s : Finder)
      → IsInv graph before s
      → s.known v ≡ false
      → visited s v ≡ true
      → ((c : ℕ) → child graph v c ≡ true → visited s c ≡ true)
      → IsWaiting graph s v
      → IsFinish v s (set_state v visit_ended (record s { pending_set = add v s.pending_set }))
  unfolding set_state
  suspending v s i k h o w =
      let g = mark-Grows v visit_ended s refl in
      let j = mark-IsInv v visit_ended s refl i in
      let now = λ (x : ℕ). member-add x v s.pending_set in
      let back : (x : ℕ) → member x (add v s.pending_set) ≡ true → (x ≡ v) ⊎ (pending s x ≡ true) =
        λ x m. elim (Bool-cases (x == v)) [
          | inl e ↦ inl (==→eq x v e)
          | inr e ↦ inr (sym (now x ∙ rw e refl) ∙ m)
        ] in
      record {
        grows = record {
          visits = g.visits;
          knows = g.knows;
          founds = g.founds;
          pends = λ x p. now x ∙ or_true (x == v) p;
          links = g.links;
          no_links = g.no_links;
        };
        only = record {
          same_known = λ x m n. refl;
          same_pending = λ x m n. let q : (x == v) ≡ false = ground arith in now x ∙ rw q refl;
        };
        inv = record {
          old = j.old;
          sound = j.sound;
          link_child = j.link_child;
          link_visited = j.link_visited;
          pending_unknown =
              λ x m. elim (back x m) [ inl e ↦ rw e k | inr a ↦ i.pending_unknown x a ];
          pending_visited = λ x m.
              g.visits x (elim (back x m) [ inl e ↦ rw e h | inr a ↦ i.pending_visited x a ]);
          founded_known = j.founded_known;
        };
        done = record {
          settled = inr (now v ∙ rw (==_refl v) refl);
          opened = inr (λ c m. g.visits c (o c m));
          waiting = λ p. w;
          ready = λ p l q. absurd (cc);
        };
        no_more = λ x m. marked v visit_ended s x refl m;
      }
