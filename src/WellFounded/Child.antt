-- ===== src/WellFounded/Child.antt =====
-- What the loop of checkWellFoundedPhase1 does with one child.
use fidl.Prelude.{
  ℕ, ◌≡◌, ◌≢◌, sym, ◌∙◌, refl, arith, ◌⊎◌, inl, inr, Bool, true, false, ◌&&◌, ◌||◌, ◌==◌,
  Bool-cases, if◌then◌else◌, ==→eq, ==_refl,
}
use fidl.WellFounded.Sets.{update, member-add}
use fidl.WellFounded.{Node, Finder, set_known_well_founded, add_parent, see_child}
use fidl.WellFounded.Spec.{
  visited, pending, linked, child, IsWellFounded, square, IsInv, Grows, ChangesOnly, Grows-refl,
}

module _ (graph : ℕ → Node) (before : ℕ → Bool) where
  -- Something happens in the visit of `v`, and no state changes.
  pub record IsStep (v : ℕ) (s t : Finder) : Type 0 where
    pub grows : Grows graph s t
    pub only : ChangesOnly graph v s t
    pub inv : IsInv graph before t
    pub same_visits : (x : ℕ) → visited t x ≡ visited s x
    pub same_pendings : (x : ℕ) → pending t x ≡ pending s x

  step_refl : (v : ℕ) (s : Finder) → IsInv graph before s → IsStep v s s
  step_refl v s i = record {
    grows = Grows-refl graph s;
    only = record { same_known = λ x h n. refl; same_pending = λ x h n. refl };
    inv = i;
    same_visits = λ x. refl;
    same_pendings = λ x. refl;
  }

  update-true : (f : ℕ → Bool) (v x : ℕ) → f x ≡ true → update f v true x ≡ true
  update-true f v x h = ground arith

  update-ne : (f : ℕ → Bool) (v x : ℕ) → x ≢ v → update f v true x ≡ f x
  update-ne f v x h = ground arith

  update_back : (f : ℕ → Bool) (v x : ℕ) → update f v true x ≡ true → (x ≡ v) ⊎ (f x ≡ true)
  update_back f v x h = ground arith

  pub step_known :
      (v : ℕ) (s : Finder)
      → IsInv graph before s
      → visited s v ≡ true
      → pending s v ≡ false
      → IsWellFounded graph v
      → IsStep v s (set_known_well_founded v s)
  unfolding set_known_well_founded
  step_known v s i h p w = record {
    grows = record {
      visits = λ x k. k;
      knows = λ x k. update-true s.known v x k;
      founds = λ x k. k;
      pends = λ x k. k;
      links = λ q x k. k;
      no_links = λ q x k l. l;
    };
    only = record { same_known = λ x k n. update-ne s.known v x n; same_pending = λ x k n. refl };
    inv = record {
      link_child = i.link_child;
      link_visited = i.link_visited;
      pending_visited = i.pending_visited;
      old = λ x k u. elim (update_back s.known v x k) [
        | inl e ↦ absurd (let q : visited s x ≡ true = rw e h in cc)
        | inr k' ↦ i.old x k' u
      ];
      sound = λ x k. elim (update_back s.known v x k) [ inl e ↦ rw e w | inr k' ↦ i.sound x k' ];
      pending_unknown = λ x q. elim (Bool-cases (x == v)) [
        | inl e ↦ let d = ==→eq x v e in absurd (let r : pending s v ≡ true = rw (← d) q in cc)
        | inr n ↦ let k = i.pending_unknown x q in ground arith
      ];
      founded_known = λ x q. update-true s.known v x (i.founded_known x q);
    };
    same_visits = λ x. refl;
    same_pendings = λ x. refl;
  }

  linked-add_parent :
      (c v p x : ℕ) (s : Finder)
      → linked (add_parent c v s) p x ≡ (x == c && p == v || linked s p x)
  unfolding add_parent
  linked-add_parent c v p x s = elim (Bool-cases (x == c)) [
    | inl e ↦ let d = ==→eq x c e in rw (d, ==_refl c) (member-add p v (s.parents c))
    | inr n ↦ rw n refl
  ]

  linked_cases :
      (c v p x : ℕ) (s : Finder)
      → (x == c && p == v || linked s p x) ≡ true
      → ((x ≡ c) × (p ≡ v)) ⊎ (linked s p x ≡ true)
  linked_cases c v p x s h = ground arith

  or_right : (a : Bool) {b : Bool} → b ≡ true → (a || b) ≡ true
  or_right true h = refl
  or_right false h = h

  pub step_parent :
      (v c : ℕ) (s : Finder)
      → IsInv graph before s
      → child graph v c ≡ true
      → visited s c ≡ true
      → s.known c ≡ false
      → IsStep v s (add_parent c v s)
  unfolding add_parent
  step_parent v c s i m h u =
      let l = λ (p x : ℕ). linked-add_parent c v p x s in
      let back = λ (p x : ℕ) (k : linked (add_parent c v s) p x ≡ true).
        linked_cases c v p x s (sym (l p x) ∙ k) in
      record {
        grows = record {
          visits = λ x k. k;
          knows = λ x k. k;
          founds = λ x k. k;
          pends = λ x k. k;
          links = λ p x k. l p x ∙ or_right (x == c && p == v) k;
          no_links = λ p x k n. elim (back p x n) [
            | inl (e, d) ↦ absurd (let q : s.known c ≡ true = rw (← e) k in cc)
            | inr a ↦ a
          ];
        };
        only = record { same_known = λ x k n. refl; same_pending = λ x k n. refl };
        inv = record {
          old = i.old;
          sound = i.sound;
          link_child =
              λ p x n. elim (back p x n) [ inl (e, d) ↦ rw (e, d) m | inr a ↦ i.link_child p x a ];
          link_visited =
              λ p x n. elim (back p x n) [ inl (e, d) ↦ rw e h | inr a ↦ i.link_visited p x a ];
          pending_unknown = i.pending_unknown;
          pending_visited = i.pending_visited;
          founded_known = i.founded_known;
        };
        same_visits = λ x. refl;
        same_pendings = λ x. refl;
      }

  -- What is then known of the child, and of the flag.
  pub record IsSeen (v c : ℕ) (saw : Bool) (s : Finder) (r : Bool × Finder) : Type 0 where
    pub step : IsStep v s r.1
    pub settles : r.1.known v ≡ false → (r.1.known c ≡ true) ⊎ (linked r.1 v c ≡ true)
    pub clear :
        r.0 ≡ false
        → (saw ≡ false)
          × ((graph v).is_square ≡ false → r.1.known c ≡ true)
          × ((graph v).is_square ≡ true → r.1.known v ≡ true)
    pub raised : r.0 ≡ true → (saw ≡ true) ⊎ (linked r.1 v c ≡ true)
    pub waits : (graph v).is_square ≡ true → r.1.known v ≡ false → linked r.1 v c ≡ true

  if_IsSeen :
      (v c : ℕ) (saw : Bool) (s : Finder) (b : Bool) (x y : Bool × Finder)
      → (b ≡ true → IsSeen v c saw s x)
      → (b ≡ false → IsSeen v c saw s y)
      → IsSeen v c saw s (if b then x else y)
  if_IsSeen v c saw s true x y p q = p refl
  if_IsSeen v c saw s false x y p q = q refl

  known_set : (v : ℕ) (s : Finder) → (set_known_well_founded v s).known v ≡ true
  unfolding set_known_well_founded
  known_set v s = ground arith

  linked_set : (v c : ℕ) (s : Finder) → linked (add_parent c v s) v c ≡ true
  linked_set v c s = linked-add_parent c v v c s ∙ ground (arith, ==_refl c, ==_refl v)

  child_known :
      (v c : ℕ) (saw : Bool) (s : Finder) (b : Bool)
      → b ≡ (graph v).is_square
      → IsInv graph before s
      → visited s v ≡ true
      → pending s v ≡ false
      → child graph v c ≡ true
      → s.known c ≡ true
      → IsSeen v c saw s (saw, (if b then set_known_well_founded v s else s))
  child_known v c saw s true e i h p m k =
      let st = step_known v s i h p (square c (sym e) m (i.sound c k)) in
      let kc = st.grows.knows c k in
      record {
        step = st;
        settles = λ _. inl kc;
        clear = λ f. (f, (λ _. kc), (λ _. known_set v s));
        raised = λ f. inl f;
        waits = λ _ n. absurd (let q = known_set v s in cc);
      }
  child_known v c saw s false e i h p m k = record {
    step = step_refl v s i;
    settles = λ _. inl k;
    clear = λ f. (f, (λ _. k), (λ q. absurd (cc)));
    raised = λ f. inl f;
    waits = λ q n. absurd (cc);
  }

  pub see_child-IsSeen :
      (v c : ℕ) (saw : Bool) (s : Finder)
      → IsInv graph before s
      → visited s v ≡ true
      → visited s c ≡ true
      → pending s v ≡ false
      → child graph v c ≡ true
      → IsSeen v c saw s (see_child graph v c saw s)
  unfolding see_child
  see_child-IsSeen v c saw s i h hc p m =
      if_IsSeen v c saw s ((graph v).is_square && s.known v) _ _
        (λ t.
          let sq : (graph v).is_square ≡ true = ground arith in
          let kv : s.known v ≡ true = ground arith in
          record {
            step = step_refl v s i;
            settles = λ n. absurd (cc);
            clear = λ f. (f, (λ q. absurd (cc)), (λ _. kv));
            raised = λ f. inl f;
            waits = λ _ n. absurd (cc);
          })
        (λ f.
          if_IsSeen v c saw s (s.known c) _ _
            (child_known v c saw s (graph v).is_square refl i h p m)
            (λ u. record {
              step = step_parent v c s i m hc u;
              settles = λ _. inr (linked_set v c s);
              clear = λ q. absurd (cc);
              raised = λ _. inr (linked_set v c s);
              waits = λ _ _. linked_set v c s;
            }))
