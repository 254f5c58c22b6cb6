-- ===== src/WellFounded/Correct.antt =====
-- CheckWellFounded decides well-foundedness, and so does the loop of DetectIllFoundedTypes over all types.
use fidl.Prelude.{
  ℕ, ◌<◌, ◌≡◌, ◌↔◌, refl, arith, inl, inr, Bool, true, List, [], ◌∷◌, ◌==◌, Bool-cases, ==→eq,
  ==_refl,
}
use fidl.WellFounded.Sets.{member}
use fidl.WellFounded.{Node}
use fidl.WellFounded.Spec.{HasNoLoop, child, IsWellFounded}
use fidl.WellFounded.Rounds.{IsOrder}
use fidl.WellFounded.Reach.{Reaches}
use fidl.WellFounded.End.{IsClosed}
use fidl.WellFounded.Check.{
  Outcome, well_founded, ill_founded, panicked, check_well_founded, check_all_well_founded,
}
use fidl.WellFounded.Report.{IsReport, nothing, cycle}
use fidl.WellFounded.Checked.{check_well_founded-IsChecked}

-- What one run takes over from the runs before it: the nodes known to be well-founded are, and so are their
-- children.
abbrev pub IsMemory : (ℕ → Node) → (ℕ → Bool) → Type 0
IsMemory graph known = ((v : ℕ) → known v ≡ true → IsWellFounded graph v) × IsClosed graph known

-- all edges lead to nodes below `n`
abbrev pub IsBelow : (ℕ → Node) → ℕ → Type 0
IsBelow graph n = (v c : ℕ) → child graph v c ≡ true → c < n

-- Every node that the root reaches is well-founded.
abbrev pub IsAllFounded : (ℕ → Node) → ℕ → Type 0
IsAllFounded graph root = (x : ℕ) → Reaches graph root x → IsWellFounded graph x

module _ (graph : ℕ → Node) (any_order : List ℕ → List ℕ) (order : IsOrder any_order) (n : ℕ)
    (edges : IsBelow graph n) where
  -- In whatever order Go ranges over sets, and with no hypothesis on the edges, CheckWellFounded on a root among
  -- the n nodes, with a sound and closed memory, does not panic, and what it returns is nil or a cycle: a walk
  -- along edges from `first` back to `first`, of ill-founded nodes that the root reaches, with an edge from
  -- `last` to `first`.
  pub check_well_founded-IsReport :
      (root : ℕ) (known : ℕ → Bool)
      → root < n
      → IsMemory graph known
      → IsReport graph root (check_well_founded graph any_order n root known).0
  check_well_founded-IsReport root known small (sound, cl) =
      (check_well_founded-IsChecked graph any_order order n edges known sound cl root small).report

  all_founded_nil :
      (root : ℕ) (o : Outcome) → IsReport graph root o → IsAllFounded graph root → o ≡ well_founded
  all_founded_nil root well_founded nothing all = refl
  all_founded_nil root panicked r all = elim r [ ]
  all_founded_nil root (ill_founded c) (cycle k) all =
      absurd (let (ill, r) = k.bad_first in ill (all c.first r))

  -- Where no circle node has an edge to itself, and with a sound and closed memory, CheckWellFounded on a root
  -- among the n nodes returns nil just when every node that the root reaches is
  -- well-founded.
  pub check_well_founded-decides :
      (root : ℕ) (known : ℕ → Bool)
      → root < n
      → IsMemory graph known
      → HasNoLoop graph
      → ((check_well_founded graph any_order n root known).0 ≡ well_founded)
        ↔ IsAllFounded graph root
  check_well_founded-decides root known small (sound, cl) no_loop =
      let k =
        check_well_founded-IsChecked graph any_order order n edges known sound cl root small in
      (
        (λ h x r. k.sound no_loop x (k.all_known h x r)),
        all_founded_nil root (check_well_founded graph any_order n root known).0 k.report,
      )

  pub check_well_founded-IsMemory :
      (root : ℕ) (known : ℕ → Bool)
      → root < n
      → IsMemory graph known
      → HasNoLoop graph
      → let r = check_well_founded graph any_order n root known in
        ((x : ℕ) → r.1 x ≡ true → IsWellFounded graph x)
        × ((x : ℕ) → known x ≡ true → r.1 x ≡ true)
        × (r.0 ≡ well_founded → IsMemory graph r.1)
  check_well_founded-IsMemory root known small (sound, cl) no_loop =
      let k =
        check_well_founded-IsChecked graph any_order order n edges known sound cl root small in
      (k.sound no_loop, k.knows, λ h. (k.sound no_loop, k.closed h))

  abbrev AllRoots : List ℕ → Type 0
  AllRoots roots = (root : ℕ) → member root roots ≡ true → IsAllFounded graph root

  next_check :
      (roots : List ℕ) (o : Outcome) (k : ℕ → Bool)
      → let r : Outcome × (ℕ → Bool) = elim o [
        | well_founded ↦ check_all_well_founded graph any_order n roots k
        | ill_founded c ↦ (ill_founded c, k)
        | panicked ↦ (panicked, k)
      ] in
        r.0 ≡ well_founded
        → (o ≡ well_founded) × ((check_all_well_founded graph any_order n roots k).0 ≡ well_founded)
  next_check roots well_founded k h = (refl, h)
  next_check roots (ill_founded c) k h = absurd (cc)
  next_check roots panicked k h = absurd (cc)

  -- Under the same conditions, checking one type after the other, each with the memory that the one before
  -- leaves, returns nil just when every node that one of them reaches is well-founded.
  pub check_all_well_founded-decides :
      (roots : List ℕ) (known : ℕ → Bool)
      → ((root : ℕ) → member root roots ≡ true → root < n)
      → IsMemory graph known
      → HasNoLoop graph
      → ((check_all_well_founded graph any_order n roots known).0 ≡ well_founded) ↔ AllRoots roots
  unfolding check_all_well_founded
  check_all_well_founded-decides [] known small mem no_loop =
      ((λ h root m. absurd (cc)), (λ all. refl))
  check_all_well_founded-decides (root ∷ roots) known small mem no_loop =
      let r = check_well_founded graph any_order n root known in
      let sm = small root (ground (arith, ==_refl root)) in
      let (to, from) = check_well_founded-decides root known sm mem no_loop in
      let after = (check_well_founded-IsMemory root known sm mem no_loop).2 in
      let rest = λ (h : r.0 ≡ well_founded).
        check_all_well_founded-decides roots r.1 (λ x m. small x (ground (arith, m))) (after h)
          no_loop in
      (
        (λ h x m.
            let (a, b) = next_check roots r.0 r.1 h in
            elim (Bool-cases (x == root)) [
              | inl e ↦ let d = ==→eq x root e in rw d (to a)
              | inr e ↦ (rest a).0 b x (ground (arith, m, e))
            ]),
        (λ all.
            let a = from (all root (ground (arith, ==_refl root))) in
            let b = (rest a).1 (λ x m. all x (ground (arith, m))) in
            rw (check_all_well_founded, a) b),
      )
