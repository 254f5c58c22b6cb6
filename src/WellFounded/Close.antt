-- ===== src/WellFounded/Close.antt =====
-- What checkWellFoundedPhase1 makes of a node behind the loop over its edges.
use fidl.Prelude.{
  ℕ, ◌≡◌, sym, ◌∙◌, refl, arith, inl, inr, Bool, true, false, not, ◌&&◌, List, [], ◌∷◌, Bool-cases,
  if◌then◌else◌, ==_refl,
}
use fidl.WellFounded.Sets.{member, add, member-add}
use fidl.WellFounded.{Node, Finder, visit_ended, set_state, set_known_well_founded, finish_visit}
use fidl.WellFounded.Spec.{
  visited, pending, linked, child, IsWellFounded, leaf, circle, IsInv, IsWaiting, Grows-trans,
  ChangesOnly-trans,
}
use fidl.WellFounded.Child.{IsStep, step_known}
use fidl.WellFounded.Scan.{IsScan}
use fidl.WellFounded.Finish.{IsFinish, founding, suspending}

pub none_in : (x : ℕ) (xs : List ℕ) → [] ≡ xs → member x xs ≡ false
none_in x xs e = rw (← e) refl

module _ (graph : ℕ → Node) (before : ℕ → Bool) where
  abbrev with_foundation : ℕ → List ℕ → Finder → Finder
  with_foundation v ps s = elim ps [
    | [] ↦ s
    | _ ∷ _ ↦ record s { foundation_set = add v s.foundation_set }
  ]

  abbrev close : ℕ → Bool → Finder → Finder
  close v known s = set_state v visit_ended (
      if known
      then elim (s.parents v) [
        | [] ↦ s
        | _ ∷ _ ↦ record s { foundation_set = add v s.foundation_set }
      ]
      else record s { pending_set = add v s.pending_set })

  close_founding :
      (v : ℕ) (s : Finder) (ps : List ℕ)
      → ps ≡ s.parents v
      → IsInv graph before s
      → s.known v ≡ true
      → ((c : ℕ) → child graph v c ≡ true → visited s c ≡ true)
      → IsFinish graph before v s (set_state v visit_ended (with_foundation v ps s))
  close_founding v s [] e i k o =
      founding graph before v s s.foundation_set i k (inr o) (λ x m. m) (λ x m. inr m)
        (λ p l. absurd (let q = none_in p (s.parents v) e in cc))
  close_founding v s (p ∷ ps) e i k o =
      let now = λ (x : ℕ). member-add x v s.foundation_set in
      founding graph before v s (add v s.foundation_set) i k (inr o)
        (λ x m. let a = now x in ground (arith, a)) (λ x m. let a = now x in ground (arith, a))
        (λ q l. let a = now v in ground (arith, a, ==_refl v))

  close-IsFinish :
      (v : ℕ) (s : Finder) (known : Bool)
      → known ≡ s.known v
      → IsInv graph before s
      → visited s v ≡ true
      → ((c : ℕ) → child graph v c ≡ true → visited s c ≡ true)
      → (s.known v ≡ false → IsWaiting graph s v)
      → IsFinish graph before v s (close v known s)
  close-IsFinish v s true e i h o w = close_founding v s (s.parents v) refl i (sym e) o
  close-IsFinish v s false e i h o w = suspending graph before v s i (sym e) h o (w (sym e))

  IsFinish-step :
      {v : ℕ} {s t u : Finder}
      → IsStep graph before v s t
      → IsFinish graph before v t u
      → IsFinish graph before v s u
  IsFinish-step st f = record {
    grows = Grows-trans graph st.grows f.grows;
    only = ChangesOnly-trans graph st.grows st.only f.only;
    inv = f.inv;
    done = f.done;
    no_more =
        λ x h. elim (f.no_more x h) [ inl e ↦ inl e | inr m ↦ inr (sym (st.same_visits x) ∙ m) ];
  }

  known_set : (v : ℕ) (s : Finder) → (set_known_well_founded v s).known v ≡ true
  unfolding set_known_well_founded
  known_set v s = ground arith

  close_test :
      (v : ℕ) (s : Finder) (test : Bool)
      → (test ≡ true → IsWellFounded graph v)
      → IsInv graph before s
      → visited s v ≡ true
      → pending s v ≡ false
      → ((c : ℕ) → child graph v c ≡ true → visited s c ≡ true)
      → (test ≡ false → s.known v ≡ false → IsWaiting graph s v)
      → let s' = if test then set_known_well_founded v s else s in
        IsFinish graph before v s (close v (s'.known v) s')
  close_test v s true wf i h p o w =
      let st = step_known graph before v s i h p (wf refl) in
      let t = set_known_well_founded v s in
      IsFinish-step st (
        close-IsFinish v t (t.known v) refl st.inv (st.same_visits v ∙ h)
          (λ c m. st.same_visits c ∙ o c m) (λ n. absurd (let k = known_set v s in cc)))
  close_test v s false wf i h p o w = close-IsFinish v s (s.known v) refl i h o (w refl)

  all_known-IsWellFounded :
      (v : ℕ) (s : Finder)
      → IsInv graph before s
      → (graph v).is_square ≡ false
      → ((c : ℕ) → child graph v c ≡ true → s.known c ≡ true)
      → IsWellFounded graph v
  all_known-IsWellFounded v s i e k = circle e (λ c m. i.sound c (k c m))

  clear-IsWellFounded :
      (v : ℕ) (s : Finder) (r : Bool × Finder)
      → IsScan graph before v (graph v).out_edges false s r
      → r.0 ≡ false
      → r.1.known v ≡ false
      → IsWellFounded graph v
  clear-IsWellFounded v s r f h k = elim (Bool-cases (graph v).is_square) [
    | inl e ↦ elim (f.square_clear h e) [ inl a ↦ absurd (cc) | inr n ↦ leaf n ]
    | inr e ↦ all_known-IsWellFounded v r.1 f.inv e (f.circle_clear h e)
  ]

  raised-IsWaiting :
      (v : ℕ) (s : Finder) (r : Bool × Finder)
      → IsScan graph before v (graph v).out_edges false s r
      → r.0 ≡ true
      → r.1.known v ≡ false
      → IsWaiting graph r.1 v
  raised-IsWaiting v s r f h k =
      let some_child : (c : ℕ) × (child graph v c ≡ true) × (linked r.1 v c ≡ true) =
        elim (f.raised h) [ inl a ↦ absurd (cc) | inr a ↦ a ] in
      let (c, m, l) = some_child in
      (
        f.settles k,
        (λ e. some_child),
        (λ e. (f.waits e k, (λ n. let q = none_in c (graph v).out_edges (sym n) in cc))),
      )

  pub finish_visit-IsFinish :
      (v : ℕ) (s : Finder) (r : Bool × Finder)
      → visited s v ≡ true
      → IsScan graph before v (graph v).out_edges false s r
      → IsFinish graph before v r.1 (finish_visit graph v r.0 r.1)
  unfolding finish_visit
  finish_visit-IsFinish v s r h f =
      close_test v r.1 (not r.0 && not (r.1.known v))
        (λ e. clear-IsWellFounded v s r f (ground (arith, e)) (ground (arith, e))) f.inv
        (f.grows.visits v h) f.still f.sees
        (λ e k. raised-IsWaiting v s r f (ground (arith, e, k)) k)
