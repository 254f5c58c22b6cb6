-- ===== src/WellFounded/Loop.antt =====
-- checkWellFoundedPhase2: what one notification keeps, and one round.
use fidl.Prelude.{
  ℕ, ◌≡◌, ◌≢◌, ◌∙◌, refl, arith, ◌⊎◌, inl, inr, Bool, true, false, ◌&&◌, ◌||◌, List, [], ◌∷◌, ◌==◌,
  Bool-cases, ==→eq, ==_refl,
}
use fidl.WellFounded.Sets.{
  update, member, add, remove, all_in, all_in-false, member-add, member-remove,
}
use fidl.WellFounded.{Node, Finder}
use fidl.WellFounded.Spec.{pending, founded, linked, child}

module _ (graph : ℕ → Node) where
  -- A pending node still has a reason to be pending.
  abbrev pub IsUnmet : Finder → ℕ → Type 0
  IsUnmet s q =
      ((graph q).is_square ≡ false → (c : ℕ) × (child graph q c ≡ true) × (s.known c ≡ false))
      × ((graph q).is_square ≡ true → (c : ℕ) → child graph q c ≡ true → s.known c ≡ false)

  -- Or it will be notified, because of a child in the foundation set or in this round.
  abbrev pub IsOpen : List ℕ → Finder → ℕ → Type 0
  IsOpen todo s q =
      IsUnmet s q
      ⊎ ((c : ℕ) × (child graph q c ≡ true) × (founded s c ≡ true) × (linked s q c ≡ true))
      ⊎ (member q todo ≡ true)

  -- What holds when the nodes of `todo` are still to be notified in this round.
  pub record IsLoop (todo : List ℕ) (s : Finder) : Type 0 where
    pub pending_unknown : (q : ℕ) → pending s q ≡ true → s.known q ≡ false
    pub founded_known : (c : ℕ) → founded s c ≡ true → s.known c ≡ true
    pub waits :
        (q c : ℕ)
        → pending s q ≡ true
        → child graph q c ≡ true
        → (s.known c ≡ true) ⊎ (linked s q c ≡ true)
    pub square_links :
        (q c : ℕ)
        → pending s q ≡ true
        → (graph q).is_square ≡ true
        → child graph q c ≡ true
        → linked s q c ≡ true
    pub nonempty :
        (q : ℕ) → pending s q ≡ true → (graph q).is_square ≡ true → (graph q).out_edges ≢ []
    pub closed :
        (q c : ℕ)
        → pending s q ≡ true
        → child graph q c ≡ true
        → (s.known c ≡ true) ⊎ (pending s c ≡ true)
    pub reason : (q : ℕ) → pending s q ≡ true → IsOpen todo s q

  abbrev pub notify_test : ℕ → Finder → Bool
  notify_test p s =
      member p s.pending_set
      && ((graph p).is_square || all_in (λ c. c == p || s.known c) (graph p).out_edges)

  kept-IsUnmet : (p : ℕ) (s : Finder) → pending s p ≡ true → notify_test p s ≡ false → IsUnmet s p
  kept-IsUnmet p s h t =
      let not_square : (graph p).is_square ≡ false = ground arith in
      let (c, m, k) = all_in-false (λ c. c == p || s.known c) (graph p).out_edges (ground arith) in
      ((λ _. (c, m, ground arith)), (λ q. absurd (cc)))

  pub kept-IsLoop :
      (p : ℕ) (todo : List ℕ) (s : Finder)
      → IsLoop (p ∷ todo) s
      → notify_test p s ≡ false
      → IsLoop todo s
  kept-IsLoop p todo s i t = record {
    pending_unknown = i.pending_unknown;
    founded_known = i.founded_known;
    waits = i.waits;
    square_links = i.square_links;
    nonempty = i.nonempty;
    closed = i.closed;
    reason = λ q h. elim (i.reason q h) [
      | inl u ↦ inl u
      | inr (inl w) ↦ inr (inl w)
      | inr (inr m) ↦ elim (Bool-cases (q == p)) [
        | inl e ↦ let d = ==→eq q p e in inl (rw d (kept-IsUnmet p s (rw (← d) h) t))
        | inr e ↦ inr (inr (ground arith))
      ]
    ];
  }

  -- what a successful notification makes of the state
  abbrev pub fired : ℕ → Finder → Finder
  fired p s = record s {
    known = update s.known p true;
    foundation_set = add p s.foundation_set;
    pending_set = remove p s.pending_set;
  }

  pub unfired :
      (p : ℕ) (s : Finder) (q : ℕ) → pending (fired p s) q ≡ true → (q ≢ p) × (pending s q ≡ true)
  unfired p s q h = let e = member-remove q p s.pending_set in ground (arith, e, ==_refl q)

  pub fired_known : (p : ℕ) (s : Finder) (c : ℕ) → s.known c ≡ true → (fired p s).known c ≡ true
  fired_known p s c h = ground arith

  fired_unknown :
      (p : ℕ) (s : Finder) (c : ℕ) → c ≢ p → s.known c ≡ false → (fired p s).known c ≡ false
  fired_unknown p s c n h = ground arith

  fired-founded : (p : ℕ) (s : Finder) (c : ℕ) → founded s c ≡ true → founded (fired p s) c ≡ true
  fired-founded p s c h = let e = member-add c p s.foundation_set in ground (arith, e)

  fired_here : (p : ℕ) (s : Finder) → founded (fired p s) p ≡ true
  fired_here p s = member-add p p s.foundation_set ∙ rw (==_refl p) refl

  pub fired_set :
      (p : ℕ) (s : Finder) (x : ℕ)
      → (s.known x ≡ true) ⊎ (pending s x ≡ true)
      → ((fired p s).known x ≡ true) ⊎ (pending (fired p s) x ≡ true)
  fired_set p s x h = let e = member-remove x p s.pending_set in ground (arith, e)

  fired_reason :
      (p : ℕ) (todo : List ℕ) (s : Finder) (q : ℕ)
      → IsLoop (p ∷ todo) s
      → pending s p ≡ true
      → pending s q ≡ true
      → q ≢ p
      → IsOpen (p ∷ todo) s q
      → IsOpen todo (fired p s) q
  fired_reason p todo s q i hp h n (inl u) = elim (Bool-cases (child graph q p)) [
    | inl m ↦
        let l : linked s q p ≡ true = elim (i.waits q p h m) [
          | inl k ↦ absurd (let a = i.pending_unknown p hp in cc)
          | inr l ↦ l
        ] in
        inr (inl (p, m, fired_here p s, l))
    | inr m ↦
        let ne : (c : ℕ) → child graph q c ≡ true → c ≢ p =
          λ c a e. (let b : child graph q p ≡ true = rw (← e) a in cc) in
        inl (
          (λ sq. let (c, a, k) = u.0 sq in (c, a, fired_unknown p s c (ne c a) k)),
          (λ sq c a. fired_unknown p s c (ne c a) (u.1 sq c a)),
        )
  ]
  fired_reason p todo s q i hp h n (inr (inl (c, m, f, l))) =
      inr (inl (c, m, fired-founded p s c f, l))
  fired_reason p todo s q i hp h n (inr (inr m)) = inr (inr (ground arith))

  pub fired-IsLoop :
      (p : ℕ) (todo : List ℕ) (s : Finder)
      → IsLoop (p ∷ todo) s
      → pending s p ≡ true
      → IsLoop todo (fired p s)
  fired-IsLoop p todo s i hp =
      let was = λ (q : ℕ) (h : pending (fired p s) q ≡ true). (unfired p s q h).1 in
      record {
        pending_unknown =
            λ q h. let (n, a) = unfired p s q h in fired_unknown p s q n (i.pending_unknown q a);
        founded_known = λ c h.
            let e = member-add c p s.foundation_set in
            let f = i.founded_known c in ground (arith, e, f);
        waits = λ q c h m. elim (i.waits q c (was q h) m) [
          | inl k ↦ inl (fired_known p s c k)
          | inr l ↦ inr l
        ];
        square_links = λ q c h. i.square_links q c (was q h);
        nonempty = λ q h. i.nonempty q (was q h);
        closed = λ q c h m. fired_set p s c (i.closed q c (was q h) m);
        reason =
            λ q h. let (n, a) = unfired p s q h in fired_reason p todo s q i hp a n (i.reason q a);
      }
