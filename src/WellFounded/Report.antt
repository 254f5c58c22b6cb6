-- ===== src/WellFounded/Report.antt =====
-- The cycle that checkWellFounded returns behind phase 2.
use fidl.Prelude.{
  ℕ, ◌<◌, ◌≡◌, ◌≢◌, sym, ◌∙◌, refl, arith, Bool, true, false, Option, none, some, List, [], ◌∷◌,
  if◌then◌else◌, ==_refl, ltb,
}
use fidl.WellFounded.Sets.{member}
use fidl.WellFounded.{Node, Finder, make_cycle_finder, holder_for_node}
use fidl.WellFounded.Spec.{visited, pending, founded, child, IsWellFounded}
use fidl.WellFounded.Start.{room_le}
use fidl.WellFounded.Loop.{IsLoop}
use fidl.WellFounded.Rounds.{IsOrder}
use fidl.WellFounded.Reach.{Reaches, here, step}
use fidl.WellFounded.End.{IsEnd, pending-child, unknown_pending, pending-IsIllFounded}
use fidl.WellFounded.Cycle.{
  CycleDescription, is_empty, min_ill_founded_node, find_known_ill_founded_cycle,
}
use fidl.WellFounded.Check.{Outcome, well_founded, ill_founded, describe_cycle}
use fidl.WellFounded.Describe.{IsCycle, nil}
use fidl.WellFounded.Walk.{IsWalking, find_cycle-Finds}

min_from :
    (P : ℕ → Type 0) (order : ℕ → Option ℕ) (ns : List ℕ) (m : ℕ)
    → P m
    → ((x : ℕ) → member x ns ≡ true → P x)
    → (v : ℕ) × (min_ill_founded_node order ns (some m) ≡ some v) × P v
unfolding min_ill_founded_node
min_from P order [] m h all = (m, refl, h)
min_from P order (n ∷ ns) m h all =
    let later : (x : ℕ) → member x ns ≡ true → P x = λ x q. all x (ground (arith, q)) in
    choose (ltb _ _) (min_from P order ns n (all n (ground (arith, ==_refl n))) later)
      (min_from P order ns m h later)
  where
    choose :
        (b : Bool)
        → (v : ℕ) × (min_ill_founded_node order ns (some n) ≡ some v) × P v
        → (v : ℕ) × (min_ill_founded_node order ns (some m) ≡ some v) × P v
        → (v : ℕ) × (min_ill_founded_node order ns (if b then some n else some m) ≡ some v) × P v
    choose true p q = p
    choose false p q = q

-- A set that is not empty has a node with the least visitation order.
min_of :
    (P : ℕ → Type 0) (order : ℕ → Option ℕ) (ns : List ℕ) (q : ℕ)
    → member q ns ≡ true
    → ((x : ℕ) → member x ns ≡ true → P x)
    → (v : ℕ) × (min_ill_founded_node order ns none ≡ some v) × P v
unfolding min_ill_founded_node
min_of P order [] q m all = absurd (cc)
min_of P order (n ∷ ns) q m all =
    min_from P order ns n (all n (ground (arith, ==_refl n))) (λ x h. all x (ground (arith, h)))

some_member : (xs : List ℕ) → is_empty xs ≡ false → (x : ℕ) × (member x xs ≡ true)
some_member [] e = absurd (cc)
some_member (x ∷ xs) e = (x, ground (arith, ==_refl x))

module _ (graph : ℕ → Node) where
  -- ill-founded, and found below `root`
  abbrev pub IsBad : ℕ → ℕ → Type 0
  IsBad root q = (¬ IsWellFounded graph q) × Reaches graph root q

  -- nil, or a cycle of ill-founded nodes below `root`; never a panic
  pub data IsReport (root : ℕ) : Outcome → Type 0 where
    nothing : IsReport root well_founded
    cycle : {c : CycleDescription} → IsCycle graph (IsBad root) c → IsReport root (ill_founded c)

  reach_small :
      (n root : ℕ) {x : ℕ}
      → ((v c : ℕ) → child graph v c ≡ true → c < n)
      → root < n
      → Reaches graph root x
      → x < n
  reach_small n root edges small here = small
  reach_small n root {x} edges small (step {v} r m) = edges v x m

  fresh-IsWalking :
      (known : ℕ → Bool) (v : ℕ)
      → IsWalking known (λ x. false) (holder_for_node v (make_cycle_finder known))
        × (visited (holder_for_node v (make_cycle_finder known)) v ≡ false)
  unfolding holder_for_node make_cycle_finder
  fresh-IsWalking known v =
      (record { same = λ x. refl; only = λ x h. h; started = λ x h. (cc) }, refl)

  describe_lem :
      (any_order : List ℕ → List ℕ) (n v : ℕ) (s : Finder) (c : CycleDescription)
      → min_ill_founded_node s.order (any_order s.pending_set) none ≡ some v
      → find_known_ill_founded_cycle graph n v [] (holder_for_node v (make_cycle_finder s.known))
        ≡ some c
      → describe_cycle graph any_order n s ≡ ill_founded c
  unfolding describe_cycle
  describe_lem any_order n v s c e f = rw (describe_cycle, e, f) refl

  pub describe_cycle-IsReport :
      (any_order : List ℕ → List ℕ) (n root : ℕ) (before seen : ℕ → Bool) (s : Finder)
      → IsOrder any_order
      → ((v c : ℕ) → child graph v c ≡ true → c < n)
      → root < n
      → IsEnd graph root before seen s
      → IsLoop graph [] s
      → ((x : ℕ) → founded s x ≡ false)
      → is_empty s.pending_set ≡ false
      → IsReport root (describe_cycle graph any_order n s)
        × (describe_cycle graph any_order n s ≢ well_founded)
  describe_cycle-IsReport any_order n root before seen s order edges small e i none_founded ne =
      let (q, m) = some_member s.pending_set ne in
      let (v, ev, p) =
        min_of (λ x. pending s x ≡ true) s.order (any_order s.pending_set) q
          (order s.pending_set q ∙ m) (λ x h. sym (order s.pending_set x) ∙ h) in
      let (w, u) = fresh-IsWalking s.known v in
      let f = holder_for_node v (make_cycle_finder s.known) in
      let reached = λ (x : ℕ) (h : pending s x ≡ true). e.reach x (e.pending_seen x h) in
      let (c, ec, ic) =
        find_cycle-Finds graph (IsBad root) s.known (λ x. pending s x) n edges
          (λ x h. (pending-IsIllFounded graph s x i none_founded h, reached x h))
          (λ x h. pending-child graph s x i none_founded h)
          (λ x y h. unknown_pending graph s x y i h) n v v [] f nil p
          (reach_small n root edges small (reached v p)) u (λ x h. absurd (cc)) w (room_le n f) in
      let d = describe_lem any_order n v s c ev ec in
      (rw d (cycle ic), λ b. (let k = sym d ∙ b in cc))
