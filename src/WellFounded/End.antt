-- ===== src/WellFounded/End.antt =====
-- What phases 1 and 2 have found out when they end.
use fidl.Prelude.{
  ℕ, ◌≡◌, sym, refl, arith, ◌⊎◌, inl, inr, Bool, true, false, List, [], ◌∷◌, Bool-cases, ==_refl,
}
use fidl.WellFounded.{Node, Finder}
use fidl.WellFounded.Spec.{pending, founded, child, IsWellFounded, leaf, circle, square}
use fidl.WellFounded.Close.{none_in}
use fidl.WellFounded.Loop.{IsLoop, IsUnmet}
use fidl.WellFounded.Phase2.{IsNotified}
use fidl.WellFounded.Reach.{Reaches, here, step}

module _ (graph : ℕ → Node) where
  pub IsUnmet-at_end :
      (s : Finder) (q : ℕ)
      → IsLoop graph [] s
      → ((x : ℕ) → founded s x ≡ false)
      → pending s q ≡ true
      → IsUnmet graph s q
  IsUnmet-at_end s q i n h = elim (i.reason q h) [
    | inl u ↦ u
    | inr (inl (c, m, f, l)) ↦ absurd (let e = n c in cc)
    | inr (inr m) ↦ absurd (cc)
  ]

  pub unknown_pending :
      (s : Finder) (q c : ℕ)
      → IsLoop graph [] s
      → pending s q ≡ true
      → child graph q c ≡ true
      → s.known c ≡ false
      → pending s c ≡ true
  unknown_pending s q c i h m u = elim (i.closed q c h m) [ inl k ↦ absurd (cc) | inr p ↦ p ]

  -- A node that is pending at the end has a child that is pending.
  pub pending-child :
      (s : Finder) (q : ℕ)
      → IsLoop graph [] s
      → ((x : ℕ) → founded s x ≡ false)
      → pending s q ≡ true
      → (c : ℕ) × (child graph q c ≡ true) × (s.known c ≡ false)
  pending-child s q i n h = elim (Bool-cases (graph q).is_square) [
    | inr sq ↦ (IsUnmet-at_end s q i n h).0 sq
    | inl sq ↦ go (graph q).out_edges refl sq
  ]
    where
      go :
          (cs : List ℕ)
          → (graph q).out_edges ≡ cs
          → (graph q).is_square ≡ true
          → (c : ℕ) × (child graph q c ≡ true) × (s.known c ≡ false)
      go [] e sq = absurd (i.nonempty q h sq e)
      go (c ∷ cs) e sq =
          let m : child graph q c ≡ true = rw e (ground (arith, ==_refl c)) in
          (c, m, (IsUnmet-at_end s q i n h).1 sq c m)

  -- It is not well-founded.
  pub pending-IsIllFounded :
      (s : Finder) (q : ℕ)
      → IsLoop graph [] s
      → ((x : ℕ) → founded s x ≡ false)
      → pending s q ≡ true
      → ¬ IsWellFounded graph q
  pending-IsIllFounded s q i n h (leaf e) =
      let (c, m, k) = pending-child s q i n h in let a = none_in c (graph q).out_edges (sym e) in cc
  pending-IsIllFounded s q i n h (circle sq all) =
      let (c, m, k) = (IsUnmet-at_end s q i n h).0 sq in
      pending-IsIllFounded s c i n (unknown_pending s q c i h m k) (all c m)
  pending-IsIllFounded s q i n h (square c sq m w) =
      pending-IsIllFounded s c i n
        (unknown_pending s q c i h m ((IsUnmet-at_end s q i n h).1 sq c m)) w

  -- What the search has seen from `root`, and what it makes of it.
  pub record IsEnd (root : ℕ) (before : ℕ → Bool) (seen : ℕ → Bool) (t : Finder) : Type 0 where
    pub seen_root : seen root ≡ true
    pub knows : (x : ℕ) → before x ≡ true → t.known x ≡ true
    pub from : (x : ℕ) → t.known x ≡ true → (before x ≡ true) ⊎ (seen x ≡ true)
    pub opened :
        (x : ℕ)
        → seen x ≡ true
        → (before x ≡ true) ⊎ ((c : ℕ) → child graph x c ≡ true → seen c ≡ true)
    pub settled : (x : ℕ) → seen x ≡ true → (t.known x ≡ true) ⊎ (pending t x ≡ true)
    pub pending_seen : (x : ℕ) → pending t x ≡ true → seen x ≡ true
    pub reach : (x : ℕ) → seen x ≡ true → Reaches graph root x

  pub notified-IsEnd :
      (root : ℕ) (before seen : ℕ → Bool) (s t : Finder)
      → IsEnd root before seen s
      → IsNotified s t
      → IsEnd root before seen t
  notified-IsEnd root before seen s t e a = record {
    seen_root = e.seen_root;
    knows = λ x h. a.knows x (e.knows x h);
    from =
        λ x k. elim (a.only_pending x k) [ inl h ↦ e.from x h | inr p ↦ inr (e.pending_seen x p) ];
    opened = e.opened;
    settled = λ x h. a.settled x (e.settled x h);
    pending_seen = λ x p. e.pending_seen x (a.unpending x p);
    reach = e.reach;
  }

  -- What is known at the start is closed under edges.
  abbrev pub IsClosed : (ℕ → Bool) → Type 0
  IsClosed known = (v c : ℕ) → known v ≡ true → child graph v c ≡ true → known c ≡ true

  pub end-IsClosed :
      (root : ℕ) (before seen : ℕ → Bool) (t : Finder)
      → IsEnd root before seen t
      → IsClosed before
      → ((x : ℕ) → pending t x ≡ false)
      → IsClosed t.known
  end-IsClosed root before seen t e cl none v c k m = elim (e.from v k) [
    | inl b ↦ e.knows c (cl v c b m)
    | inr s ↦ elim (e.opened v s) [
      | inl b ↦ e.knows c (cl v c b m)
      | inr all ↦ elim (e.settled c (all c m)) [
        | inl k' ↦ k'
        | inr p ↦ absurd (let n = none c in cc)
      ]
    ]
  ]

  -- When nothing is pending, everything that can be reached is known.
  pub end_known :
      (root : ℕ) (before seen : ℕ → Bool) (t : Finder) {x : ℕ}
      → IsEnd root before seen t
      → IsClosed before
      → ((x : ℕ) → pending t x ≡ false)
      → Reaches graph root x
      → t.known x ≡ true
  end_known root before seen t e cl none here = elim (e.settled root e.seen_root) [
    | inl k ↦ k
    | inr p ↦ absurd (let n = none root in cc)
  ]
  end_known root before seen t {x} e cl none (step {v} r m) =
      end-IsClosed root before seen t e cl none v x (end_known root before seen t e cl none r) m
