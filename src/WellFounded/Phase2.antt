-- ===== src/WellFounded/Phase2.antt =====
-- checkWellFoundedPhase2 as a whole.
use fidl.Prelude.{
  ℕ, ◌+◌, ◌<◌, ◌≤◌, ◌≡◌, ◌∙◌, refl, arith, ◌⊎◌, inl, inr, Bool, true, false, List, [], ◌∷◌, ◌==◌,
  Bool-cases, if◌then◌else◌, ==→eq, length,
}
use fidl.WellFounded.Sets.{member, remove, member-remove, length-add-le, length-remove-lt}
use fidl.WellFounded.{Node, Finder, set_known_well_founded, notify, notify_all}
use fidl.WellFounded.Spec.{pending, founded, linked}
use fidl.WellFounded.Loop.{
  IsLoop, notify_test, fired, unfired, fired_known, fired_set, fired-IsLoop, kept-IsLoop,
}

-- how many nodes the two sets hold
abbrev pub work : Finder → ℕ
work s = length s.foundation_set + length s.pending_set

-- What a notification, and phase 2, never does: forget a known node, or lose a pending one.
pub record IsNotified (s t : Finder) : Type 0 where
  pub knows : (x : ℕ) → s.known x ≡ true → t.known x ≡ true
  pub settled :
      (x : ℕ)
      → (s.known x ≡ true) ⊎ (pending s x ≡ true)
      → (t.known x ≡ true) ⊎ (pending t x ≡ true)
  pub unpending : (x : ℕ) → pending t x ≡ true → pending s x ≡ true
  pub only_pending : (x : ℕ) → t.known x ≡ true → (s.known x ≡ true) ⊎ (pending s x ≡ true)
  pub same_parents : (x : ℕ) → t.parents x ≡ s.parents x
  pub less : work t ≤ work s

pub IsNotified-refl : (s : Finder) → IsNotified s s
IsNotified-refl s = record {
  knows = λ x h. h;
  settled = λ x h. h;
  unpending = λ x h. h;
  only_pending = λ x h. inl h;
  same_parents = λ x. refl;
  less = omega arith;
}

pub IsNotified-trans : {s t u : Finder} → IsNotified s t → IsNotified t u → IsNotified s u
IsNotified-trans {s} {t} {u} a b = record {
  knows = λ x h. b.knows x (a.knows x h);
  settled = λ x h. b.settled x (a.settled x h);
  unpending = λ x h. a.unpending x (b.unpending x h);
  only_pending = λ x h. elim (b.only_pending x h) [
    | inl k ↦ a.only_pending x k
    | inr p ↦ inr (a.unpending x p)
  ];
  same_parents = λ x. b.same_parents x ∙ a.same_parents x;
  less = (let p = a.less in let q = b.less in omega (arith, p, q));
}

module _ (graph : ℕ → Node) where
  fired-IsNotified : (p : ℕ) (s : Finder) → pending s p ≡ true → IsNotified s (fired graph p s)
  fired-IsNotified p s h = record {
    knows = fired_known graph p s;
    settled = fired_set graph p s;
    unpending = λ x m. (unfired graph p s x m).1;
    only_pending = λ x k. elim (Bool-cases (x == p)) [
      | inl e ↦ let d = ==→eq x p e in inr (rw d h)
      | inr e ↦ inl (ground (arith, k, e))
    ];
    same_parents = λ x. refl;
    less = omega (arith, length-remove-lt p s.pending_set h, length-add-le p s.foundation_set);
  }

  pub notify_cases :
      (p : ℕ) (s : Finder) (P : Finder → Type 0)
      → (notify_test graph p s ≡ true → P (fired graph p s))
      → (notify_test graph p s ≡ false → P s)
      → P (notify graph p s)
  unfolding notify set_known_well_founded
  notify_cases p s P a b = go (notify_test graph p s) a b
    where
      go :
          (t : Bool)
          → (t ≡ true → P (fired graph p s))
          → (t ≡ false → P s)
          → P (if t then fired graph p s else s)
      go true a b = a refl
      go false a b = b refl

  pub notify-IsNotified : (p : ℕ) (s : Finder) → IsNotified s (notify graph p s)
  notify-IsNotified p s =
      notify_cases p s (λ t. IsNotified s t) (λ e. fired-IsNotified p s (ground (arith, e)))
        (λ e. IsNotified-refl s)

  notify-IsLoop :
      (p : ℕ) (todo : List ℕ) (s : Finder)
      → IsLoop graph (p ∷ todo) s
      → IsLoop graph todo (notify graph p s) × IsNotified s (notify graph p s)
  notify-IsLoop p todo s i = (
    notify_cases p s (λ t. IsLoop graph todo t)
        (λ e. fired-IsLoop graph p todo s i (ground (arith, e))) (kept-IsLoop graph p todo s i),
    notify-IsNotified p s,
  )

  pub notify_all-IsLoop :
      (todo : List ℕ) (s : Finder)
      → IsLoop graph todo s
      → IsLoop graph [] (notify_all graph todo s) × IsNotified s (notify_all graph todo s)
  unfolding notify_all
  notify_all-IsLoop [] s i = (i, IsNotified-refl s)
  notify_all-IsLoop (p ∷ ps) s i =
      let (j, a) = notify-IsLoop p ps s i in
      let (k, b) = notify_all-IsLoop ps (notify graph p s) j in (k, IsNotified-trans a b)

  abbrev pub taken : ℕ → Finder → Finder
  taken n s = record s { foundation_set = remove n s.foundation_set }

  -- Taking a node out of the foundation set starts the round of its parents.
  pub taken-IsLoop :
      (n : ℕ) (todo : List ℕ) (s : Finder)
      → ((p : ℕ) → linked s p n ≡ true → member p todo ≡ true)
      → IsLoop graph [] s
      → IsLoop graph todo (taken n s)
  taken-IsLoop n todo s all i = record {
    pending_unknown = i.pending_unknown;
    founded_known =
        λ c h. i.founded_known c (let e = member-remove c n s.foundation_set in ground (arith, e));
    waits = i.waits;
    square_links = i.square_links;
    nonempty = i.nonempty;
    closed = i.closed;
    reason = λ q h. elim (i.reason q h) [
      | inl u ↦ inl u
      | inr (inl (c, m, f, l)) ↦ elim (Bool-cases (c == n)) [
        | inl e ↦ inr (inr (all q (let d = ==→eq c n e in rw (← d) l)))
        | inr e ↦
            inr (inl (c, m, (let r = member-remove c n s.foundation_set in ground (arith, r)), l))
      ]
      | inr (inr m) ↦ absurd (cc)
    ];
  }

  pub taken-IsNotified :
      (n : ℕ) (s : Finder)
      → founded s n ≡ true
      → IsNotified s (taken n s) × (work (taken n s) < work s)
  taken-IsNotified n s h =
      let l = length-remove-lt n s.foundation_set h in
      (
        record {
          knows = λ x k. k;
          settled = λ x k. k;
          unpending = λ x k. k;
          only_pending = λ x k. inl k;
          same_parents = λ x. refl;
          less = omega (arith, l);
        },
        omega (arith, l),
      )
