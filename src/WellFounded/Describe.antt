-- ===== src/WellFounded/Describe.antt =====
-- newCycleDescription on a path that ends with a cycle.
use fidl.Prelude.{
  ℕ, ◌≡◌, ◌≢◌, sym, ◌∙◌, refl, arith, inl, inr, Bool, true, false, ◌||◌, some, List, [], ◌∷◌, ◌++◌,
  ◌==◌, Bool-cases, ==→eq, ==_refl,
}
use mathlib.Core.List.{append_assoc, append-nil}
use fidl.WellFounded.{Node}
use fidl.WellFounded.Spec.{child}
use fidl.WellFounded.Cycle.{CycleDescription, last_element, collect_edges, new_cycle_description}

-- Is `x` a node of the path, where it is left?
abbrev pub node_in : ℕ → List (ℕ × ℕ) → Bool
node_in x [] = false
node_in x ((node, target) ∷ path) = x == node || node_in x path

pub node_in_snoc :
    (x : ℕ) (path : List (ℕ × ℕ)) (v c : ℕ)
    → node_in x (path ++ (v, c) ∷ []) ≡ (x == v || node_in x path)
node_in_snoc x [] v c = refl
node_in_snoc x ((node, target) ∷ path) v c = ground (arith, node_in_snoc x path v c)

pub last_snoc : {A : Type 0} (xs : List A) (x : A) → last_element (xs ++ x ∷ []) ≡ some x
unfolding last_element
last_snoc [] x = refl
last_snoc (y ∷ []) x = refl
last_snoc (y ∷ (z ∷ zs)) x = last_snoc (z ∷ zs) x

-- The nodes of a walk, and of a cycle, are bad in a sense that the client gives.
module _ (graph : ℕ → Node) (IsBad : ℕ → Type 0) where
  -- The targets of the edges of a walk.
  pub data IsWalk : ℕ → List ℕ → ℕ → Type 0 where
    stay : {a : ℕ} → IsWalk a [] a
    go :
        {a b c : ℕ} {bs : List ℕ}
        → child graph a b ≡ true
        → IsBad b
        → IsWalk b bs c
        → IsWalk a (b ∷ bs) c

  pub data IsChain : ℕ → List (ℕ × ℕ) → ℕ → Type 0 where
    nil : {a : ℕ} → IsChain a [] a
    cons :
        {a b c : ℕ} {path : List (ℕ × ℕ)}
        → child graph a b ≡ true
        → IsBad b
        → IsChain b path c
        → IsChain a ((a, b) ∷ path) c

  pub record IsCycle (c : CycleDescription) : Type 0 where
    pub walk : IsWalk c.first c.path c.first
    pub nonempty : c.path ≢ []
    pub closing : child graph c.last c.first ≡ true
    pub bad_first : IsBad c.first
    pub bad_last : IsBad c.last

  pub IsChain-snoc :
      {a b c : ℕ} {path : List (ℕ × ℕ)}
      → IsChain a path b
      → child graph b c ≡ true
      → IsBad c
      → IsChain a (path ++ (b, c) ∷ []) c
  IsChain-snoc nil m w = cons m w nil
  IsChain-snoc (cons k u p) m w = cons k u (IsChain-snoc p m w)

  abbrev targets : List (ℕ × ℕ) → List ℕ
  targets [] = []
  targets ((node, target) ∷ path) = target ∷ targets path

  chain-IsWalk : {a c : ℕ} {path : List (ℕ × ℕ)} → IsChain a path c → IsWalk a (targets path) c
  chain-IsWalk nil = stay
  chain-IsWalk (cons m w p) = go m w (chain-IsWalk p)

  walk_last : {a b c : ℕ} {bs : List ℕ} → IsWalk a (b ∷ bs) c → last_element (b ∷ bs) ≡ some c
  unfolding last_element
  walk_last (go m w stay) = refl
  walk_last (go m w (go k u p)) = walk_last (go k u p)

  -- Once an edge is collected, all later ones are.
  collect_rest :
      (start : ℕ) (path : List (ℕ × ℕ)) (e : ℕ) (es : List ℕ)
      → collect_edges start path (e ∷ es) ≡ (e ∷ es) ++ targets path
  unfolding collect_edges
  collect_rest start [] e es = sym (append-nil (e ∷ es))
  collect_rest start ((node, target) ∷ path) e es =
      collect_rest start path e (es ++ target ∷ [])
      ∙ append_assoc (e ∷ es) (target ∷ []) (targets path)

  abbrev IsCollected : ℕ → ℕ → List ℕ → Type 0
  IsCollected start end es = IsWalk start es end × (last_element es ≡ some end) × (es ≢ [])

  collect-IsCollected :
      {a end : ℕ} (start : ℕ) (path : List (ℕ × ℕ))
      → IsChain a path end
      → node_in start path ≡ true
      → IsCollected start end (collect_edges start path [])
  unfolding collect_edges
  collect-IsCollected start [] nil h = absurd (cc)
  collect-IsCollected {end = end} start ((a, b) ∷ path) (cons m w p) h =
      elim (Bool-cases (a == start)) [
        | inl e ↦ rw (e, collect_rest start path b []) (found (==→eq a start e))
        | inr e ↦ rw e (collect-IsCollected start path p (ground (arith, h, e)))
      ]
    where
      found : a ≡ start → IsCollected start end (b ∷ targets path)
      found d =
          let walk : IsWalk start (b ∷ targets path) end = rw (← d) (go m w (chain-IsWalk p)) in
          (walk, walk_last walk, λ q. (cc))

  -- A path that ends with an edge to one of its nodes gives the cycle from that node.
  pub new_cycle_description-IsCycle :
      (a start end : ℕ) (path : List (ℕ × ℕ))
      → IsChain a (path ++ (end, start) ∷ []) start
      → node_in start (path ++ (end, start) ∷ []) ≡ true
      → child graph end start ≡ true
      → IsBad start
      → IsBad end
      → (c : CycleDescription) × (new_cycle_description (path ++ (end, start) ∷ []) start end
          ≡ some c)
        × IsCycle c
  unfolding new_cycle_description
  new_cycle_description-IsCycle a start end path p h m w u =
      let (walk, l, n) = collect-IsCollected start (path ++ (end, start) ∷ []) p h in
      let c : CycleDescription = record {
        first = start;
        last = end;
        path = collect_edges start (path ++ (end, start) ∷ []) [];
      } in
      (
        c,
        rw
            (
              new_cycle_description,
              last_snoc path (end, start),
              ==_refl end,
              ==_refl start,
              l,
              ==_refl start,
            )
            refl,
        record { walk = walk; nonempty = n; closing = m; bad_first = w; bad_last = u },
      )
