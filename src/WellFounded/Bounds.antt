-- ===== src/WellFounded/Bounds.antt =====
-- The loop of checkWellFoundedPhase2 ends.
use fidl.Prelude.{
  ℕ, zero, suc, ◌<◌, ◌≤◌, ◌≡◌, sym, ◌∙◌, ap, refl, arith, true, false, List, [], ◌∷◌, ==_refl,
}
use fidl.WellFounded.{Node, Finder, notify, notify_all, phase2}
use fidl.WellFounded.Spec.{founded}
use fidl.WellFounded.Phase2.{work, notify-IsNotified, taken, taken-IsNotified}
use fidl.WellFounded.Rounds.{IsOrder, member_none, next_round}

module _ (graph : ℕ → Node) (any_order : List ℕ → List ℕ) (order : IsOrder any_order) where
  notify_all-work : (ps : List ℕ) (s : Finder) → work (notify_all graph ps s) ≤ work s
  unfolding notify_all
  notify_all-work [] s = omega arith
  notify_all-work (p ∷ ps) s =
      let a = (notify-IsNotified graph p s).less in
      omega (arith, a, notify_all-work ps (notify graph p s))

  -- A round has a node less to do.
  round-work :
      (n : ℕ) (ns : List ℕ) (s : Finder)
      → any_order s.foundation_set ≡ n ∷ ns
      → work (notify_all graph (any_order (s.parents n)) (taken graph n s)) < work s
  round-work n ns s e =
      let h : founded s n ≡ true =
        sym (order s.foundation_set n) ∙ rw e (ground (arith, ==_refl n)) in
      omega (
        arith,
        (taken-IsNotified graph n s h).1,
        notify_all-work (any_order (s.parents n)) (taken graph n s),
      )

  no_order :
      (s : Finder) (n : ℕ) (ns : List ℕ) → work s ≤ 0 → any_order s.foundation_set ≡ n ∷ ns → ⊥
  no_order s n ns h e = omega (arith, h, round-work n ns s e)

  abbrev IsSameRound : ℕ → ℕ → Finder → List ℕ → Type 0
  IsSameRound r q s ns =
      (next_round graph any_order order r s ns ≡ next_round graph any_order order q s ns)
      × ((x : ℕ) → founded (next_round graph any_order order r s ns) x ≡ false)

  abbrev IsSame : ℕ → ℕ → Finder → Type 0
  IsSame r q s =
      (phase2 graph any_order r s ≡ phase2 graph any_order q s)
      × ((x : ℕ) → founded (phase2 graph any_order r s) x ≡ false)

  none_founded : (s : Finder) → any_order s.foundation_set ≡ [] → (x : ℕ) → founded s x ≡ false
  none_founded s e x = sym (order s.foundation_set x) ∙ rw e refl

  same_round :
      (r q : ℕ) (s : Finder) (ns : List ℕ)
      → any_order s.foundation_set ≡ ns
      → ((t : Finder) → work t < work s → IsSame r q t)
      → IsSameRound r q s ns
  same_round r q s [] e ih = (refl, none_founded s e)
  same_round r q s (n ∷ ns) e ih =
      ih (notify_all graph (any_order (s.parents n)) (taken graph n s)) (round-work n ns s e)

  no_round :
      (r : ℕ) (s : Finder) (ns : List ℕ)
      → any_order s.foundation_set ≡ ns
      → work s ≤ 0
      → next_round graph any_order order r s ns ≡ s
  no_round r s [] e h = refl
  no_round r s (n ∷ ns) e h = absurd (no_order s n ns h e)

  none_left : (s : Finder) → work s ≤ 0 → (x : ℕ) → founded s x ≡ false
  none_left s h x = member_none s.foundation_set x (omega (arith, h))

  phase2-IsSame : (r q : ℕ) (s : Finder) → work s ≤ r → work s ≤ q → IsSame r q s
  unfolding phase2
  phase2-IsSame zero zero s h k = (refl, none_left s h)
  phase2-IsSame zero (suc q) s h k =
      (sym (no_round q s (any_order s.foundation_set) refl h), none_left s h)
  phase2-IsSame (suc r) zero s h k =
      let e = no_round r s (any_order s.foundation_set) refl k in
      (e, λ x. ap (λ t. founded t x) e ∙ none_left s k x)
  phase2-IsSame (suc r) (suc q) s h k =
      same_round r q s (any_order s.foundation_set) refl
        (λ t l. phase2-IsSame r q t (omega (arith, h, l)) (omega (arith, k, l)))

  -- In whatever order Go ranges over sets, the loop of phase 2 has emptied the foundation set after as many
  -- rounds as the foundation set and the pending set have nodes, and allowing it more changes nothing.
  pub phase2-terminates :
      (rounds : ℕ) (s : Finder)
      → work s ≤ rounds
      → (phase2 graph any_order rounds s ≡ phase2 graph any_order (work s) s)
        × ((x : ℕ) → founded (phase2 graph any_order rounds s) x ≡ false)
  phase2-terminates rounds s h = phase2-IsSame rounds (work s) s h (omega arith)
