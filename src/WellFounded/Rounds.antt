-- ===== src/WellFounded/Rounds.antt =====
-- The rounds of checkWellFoundedPhase2 until the foundation set is empty, in whatever order Go ranges over sets.
use fidl.Prelude.{
  ℕ, zero, suc, ◌<◌, ◌≤◌, ◌≡◌, sym, ◌∙◌, refl, arith, inl, inr, true, false, ◌||◌, List, [], ◌∷◌,
  ◌==◌, Bool-cases, ==→eq, ==_refl, length,
}
use fidl.WellFounded.Sets.{member, remove, all_in_lem}
use fidl.WellFounded.{Node, Finder, notify, notify_all, phase2}
use fidl.WellFounded.Spec.{HasNoLoop, founded, linked, child, IsWellFounded, circle, square}
use fidl.WellFounded.Loop.{IsLoop, notify_test, fired}
use fidl.WellFounded.Phase2.{
  work, IsNotified, IsNotified-refl, IsNotified-trans, notify_cases, notify_all-IsLoop, taken,
  taken-IsLoop, taken-IsNotified,
}

-- What the range of Go does with a set: it visits its elements.
abbrev pub IsOrder : (List ℕ → List ℕ) → Type 0
IsOrder any_order = (xs : List ℕ) (x : ℕ) → member x (any_order xs) ≡ member x xs

pub member_none : (xs : List ℕ) (x : ℕ) → length xs ≤ 0 → member x xs ≡ false
member_none [] x h = refl
member_none (y ∷ ys) x h = absurd (omega (arith, h))

module _ (graph : ℕ → Node) (any_order : List ℕ → List ℕ) (order : IsOrder any_order) where
  pub record IsFinal (s t : Finder) : Type 0 where
    pub loop : IsLoop graph [] t
    pub notified : IsNotified s t
    pub nothing : (x : ℕ) → founded t x ≡ false

  abbrev after_round : Finder → ℕ → Finder
  after_round s n = notify_all graph (any_order (s.parents n)) (taken graph n s)

  round-IsLoop :
      (n : ℕ) (s : Finder)
      → IsLoop graph [] s
      → founded s n ≡ true
      → IsLoop graph [] (after_round s n)
        × IsNotified s (after_round s n)
        × (work (after_round s n) < work s)
  round-IsLoop n s i h =
      let (a, l) = taken-IsNotified graph n s h in
      let t =
        taken-IsLoop graph n (any_order (s.parents n)) s (λ p q. order (s.parents n) p ∙ q) i in
      let (j, b) = notify_all-IsLoop graph (any_order (s.parents n)) (taken graph n s) t in
      let m = b.less in (j, IsNotified-trans a b, omega (arith, l, m))

  abbrev pub next_round : ℕ → Finder → List ℕ → Finder
  next_round rounds s ns = elim ns [
    | [] ↦ s
    | n ∷ _ ↦ phase2 graph any_order rounds (
        notify_all graph (any_order (s.parents n))
          (record s { foundation_set = remove n s.foundation_set }))
  ]

  next_round-IsFinal :
      (rounds : ℕ) (s : Finder) (ns : List ℕ)
      → ((t : Finder)
          → IsLoop graph [] t
          → work t ≤ rounds
          → IsFinal t (phase2 graph any_order rounds t))
      → any_order s.foundation_set ≡ ns
      → IsLoop graph [] s
      → work s ≤ suc rounds
      → IsFinal s (next_round rounds s ns)
  next_round-IsFinal rounds s [] ih e i l = record {
    loop = i;
    notified = IsNotified-refl s;
    nothing = λ x. sym (order s.foundation_set x) ∙ rw e refl;
  }
  next_round-IsFinal rounds s (n ∷ ns) ih e i l =
      let h : founded s n ≡ true =
        sym (order s.foundation_set n) ∙ rw e (ground (arith, ==_refl n)) in
      let (j, a, m) = round-IsLoop n s i h in
      let f = ih (after_round s n) j (omega (arith, l, m)) in
      record { loop = f.loop; notified = IsNotified-trans a f.notified; nothing = f.nothing }

  -- Phase 2 empties the foundation set.
  pub phase2-IsFinal :
      (rounds : ℕ) (s : Finder)
      → IsLoop graph [] s
      → work s ≤ rounds
      → IsFinal s (phase2 graph any_order rounds s)
  unfolding phase2
  phase2-IsFinal zero s i l = record {
    loop = i;
    notified = IsNotified-refl s;
    nothing = λ x. member_none s.foundation_set x (omega (arith, l));
  }
  phase2-IsFinal (suc rounds) s i l =
      next_round-IsFinal rounds s (any_order s.foundation_set) (phase2-IsFinal rounds) refl i l

  abbrev pub IsSound : Finder → Type 0
  IsSound s = (v : ℕ) → s.known v ≡ true → IsWellFounded graph v

  abbrev pub HasLinks : Finder → Type 0
  HasLinks s = (p c : ℕ) → linked s p c ≡ true → child graph p c ≡ true

  fired-IsWellFounded :
      (n p : ℕ) (s : Finder)
      → HasNoLoop graph
      → IsSound s
      → s.known n ≡ true
      → child graph p n ≡ true
      → notify_test graph p s ≡ true
      → IsWellFounded graph p
  fired-IsWellFounded n p s no_loop sound k m t = elim (Bool-cases (graph p).is_square) [
    | inl e ↦ square n e m (sound n k)
    | inr e ↦ circle e (λ c a.
        let test =
          all_in_lem (λ x. x == p || s.known x) (graph p).out_edges c (ground (arith, e, t)) a in
        let b = no_loop p e in
        elim (Bool-cases (c == p)) [
          | inl q ↦ let d = ==→eq c p q in absurd (let f : child graph p c ≡ false = rw d b in cc)
          | inr q ↦ sound c (ground (arith, test, q))
        ])
  ]

  fired-IsSound :
      (p : ℕ) (s : Finder) → IsSound s → IsWellFounded graph p → IsSound (fired graph p s)
  fired-IsSound p s sound w x k = elim (Bool-cases (x == p)) [
    | inl e ↦ let d = ==→eq x p e in rw d w
    | inr e ↦ sound x (ground (arith, k, e))
  ]

  notify_all-IsSound :
      (n : ℕ) (ps : List ℕ) (s : Finder)
      → HasNoLoop graph
      → ((p : ℕ) → member p ps ≡ true → child graph p n ≡ true)
      → s.known n ≡ true
      → IsSound s
      → IsSound (notify_all graph ps s)
  unfolding notify_all
  notify_all-IsSound n [] s no_loop m k sound = sound
  notify_all-IsSound n (p ∷ ps) s no_loop m k sound =
      let (k', sound') =
        notify_cases graph p s (λ t. (t.known n ≡ true) × IsSound t)
          (λ e.
            let w = fired-IsWellFounded n p s no_loop sound k (m p (ground (arith, ==_refl p))) e in
            (ground (arith, k), fired-IsSound p s sound w))
          (λ e. (k, sound)) in
      notify_all-IsSound n ps (notify graph p s) no_loop (λ q a. m q (ground (arith, a))) k' sound'

  same_links-HasLinks : (s t : Finder) → IsNotified s t → HasLinks s → HasLinks t
  same_links-HasLinks s t a l p c h = let e = a.same_parents c in l p c (rw (← e) h)

  next_round-IsSound :
      (rounds : ℕ) (s : Finder) (ns : List ℕ)
      → HasNoLoop graph
      → ((t : Finder)
          → IsLoop graph [] t
          → HasLinks t
          → IsSound t
          → IsSound (phase2 graph any_order rounds t))
      → any_order s.foundation_set ≡ ns
      → IsLoop graph [] s
      → HasLinks s
      → IsSound s
      → IsSound (next_round rounds s ns)
  next_round-IsSound rounds s [] no_loop ih e i l sound = sound
  next_round-IsSound rounds s (n ∷ ns) no_loop ih e i l sound =
      let h : founded s n ≡ true =
        sym (order s.foundation_set n) ∙ rw e (ground (arith, ==_refl n)) in
      let (j, a, m) = round-IsLoop n s i h in
      ih (after_round s n) j (same_links-HasLinks s (after_round s n) a l) (
        notify_all-IsSound n (any_order (s.parents n)) (taken graph n s) no_loop
          (λ p q. l p n (sym (order (s.parents n) p) ∙ q)) (i.founded_known n h) sound)

  -- Without such edges, phase 2 marks well-founded nodes only.
  pub phase2-IsSound :
      (rounds : ℕ) (s : Finder)
      → HasNoLoop graph
      → IsLoop graph [] s
      → HasLinks s
      → IsSound s
      → IsSound (phase2 graph any_order rounds s)
  unfolding phase2
  phase2-IsSound zero s no_loop i l sound = sound
  phase2-IsSound (suc rounds) s no_loop i l sound =
      next_round-IsSound rounds s (any_order s.foundation_set) no_loop
        (λ t. phase2-IsSound rounds t no_loop) refl i l sound
