-- ===== src/WellFounded/Checked.antt =====
-- What one call of CheckWellFounded reports, and what it leaves behind in the nodes.
use fidl.Prelude.{ℕ, ◌+◌, ◌<◌, ◌≡◌, sym, refl, arith, Bool, true, false, List, [], ◌∷◌, length}
use fidl.WellFounded.Sets.{member}
use fidl.WellFounded.{Node, Finder, phase2}
use fidl.WellFounded.Spec.{HasNoLoop, visited, founded, child, IsWellFounded}
use fidl.WellFounded.Start.{after_phase1, phase1-IsVisit, phase1-IsLoop, phase1-IsEnd}
use fidl.WellFounded.Loop.{IsLoop}
use fidl.WellFounded.Rounds.{IsOrder, phase2-IsFinal, phase2-IsSound}
use fidl.WellFounded.Reach.{Reaches, here, step}
use fidl.WellFounded.End.{IsEnd, notified-IsEnd, IsClosed, end-IsClosed, end_known}
use fidl.WellFounded.Cycle.{is_empty}
use fidl.WellFounded.Check.{Outcome, well_founded, propagate, check_well_founded, describe_cycle}
use fidl.WellFounded.Report.{IsReport, nothing, describe_cycle-IsReport}

none_pending : (xs : List ℕ) → is_empty xs ≡ true → (x : ℕ) → member x xs ≡ false
none_pending [] e x = refl
none_pending (y ∷ ys) e x = absurd (cc)

module _ (graph : ℕ → Node) (any_order : List ℕ → List ℕ) (order : IsOrder any_order) (n : ℕ)
    (edges : (v c : ℕ) → child graph v c ≡ true → c < n) where
  -- The outcome, and the nodes that are known to be well-founded afterwards.
  pub record IsChecked (root : ℕ) (before : ℕ → Bool) (r : Outcome × (ℕ → Bool)) : Type 0 where
    pub report : IsReport graph root r.0
    pub all_known : r.0 ≡ well_founded → (x : ℕ) → Reaches graph root x → r.1 x ≡ true
    pub closed : r.0 ≡ well_founded → IsClosed graph r.1
    pub knows : (x : ℕ) → before x ≡ true → r.1 x ≡ true
    pub sound : HasNoLoop graph → (x : ℕ) → r.1 x ≡ true → IsWellFounded graph x

  closed_reach :
      (before : ℕ → Bool) (root : ℕ) {x : ℕ}
      → IsClosed graph before
      → before root ≡ true
      → Reaches graph root x
      → before x ≡ true
  closed_reach before root cl h here = h
  closed_reach before root {x} cl h (step {v} r m) = cl v x (closed_reach before root cl h r) m

  nothing_pending :
      (root : ℕ) (before seen : ℕ → Bool) (s : Finder)
      → IsEnd graph root before seen s
      → IsClosed graph before
      → is_empty s.pending_set ≡ true
      → (HasNoLoop graph → (x : ℕ) → s.known x ≡ true → IsWellFounded graph x)
      → IsChecked root before (well_founded, s.known)
  nothing_pending root before seen s e cl p sound =
      let none = none_pending s.pending_set p in
      record {
        report = nothing;
        all_known = λ h x r. end_known graph root before seen s e cl none r;
        closed = λ h. end-IsClosed graph root before seen s e cl none;
        knows = e.knows;
        sound = sound;
      }

  propagate_empty :
      (root : ℕ) (before seen : ℕ → Bool) (t : Finder) (b : Bool)
      → b ≡ is_empty t.pending_set
      → root < n
      → IsClosed graph before
      → IsEnd graph root before seen t
      → IsLoop graph [] t
      → ((x : ℕ) → founded t x ≡ false)
      → (HasNoLoop graph → (x : ℕ) → t.known x ≡ true → IsWellFounded graph x)
      → IsChecked root before (elim b [
        | true ↦ (well_founded, t.known)
        | false ↦ (describe_cycle graph any_order n t, t.known)
      ])
  propagate_empty root before seen t true p small cl e i none sound =
      nothing_pending root before seen t e cl (sym p) sound
  propagate_empty root before seen t false p small cl e i none sound =
      let (r, ne) =
        describe_cycle-IsReport graph any_order n root before seen t order edges small e i none
          (sym p) in
      record {
        report = r;
        all_known = λ h. absurd (ne h);
        closed = λ h. absurd (ne h);
        knows = e.knows;
        sound = sound;
      }

  module _ (before : ℕ → Bool) (known_sound : (v : ℕ) → before v ≡ true → IsWellFounded graph v)
      (cl : IsClosed graph before) where
    propagate-IsChecked :
        (root : ℕ)
        → root < n
        → IsChecked root before
            (propagate graph any_order n (after_phase1 graph before known_sound n root))
    unfolding propagate
    propagate-IsChecked root small =
        let s = after_phase1 graph before known_sound n root in
        let i = phase1-IsLoop graph before known_sound n root edges small in
        let k = (phase1-IsVisit graph before known_sound n root edges small).0 in
        let rounds = length s.foundation_set + length s.pending_set in
        let f = phase2-IsFinal graph any_order order rounds s i (omega arith) in
        let t = phase2 graph any_order rounds s in
        let e = phase1-IsEnd graph before known_sound n root edges small in
        propagate_empty root before (λ x. visited s x) t (is_empty t.pending_set) refl small cl
          (notified-IsEnd graph root before (λ x. visited s x) s t e f.notified) f.loop f.nothing
          (λ no_loop.
            phase2-IsSound graph any_order order rounds s no_loop i k.inv.link_child k.inv.sound)

    phase1_empty :
        (root : ℕ) (b : Bool)
        → root < n
        → let s = after_phase1 graph before known_sound n root in
          b ≡ is_empty s.pending_set
          → IsChecked root before
              (elim b [ true ↦ (well_founded, s.known) | false ↦ propagate graph any_order n s ])
    phase1_empty root true small p =
        let k = (phase1-IsVisit graph before known_sound n root edges small).0 in
        nothing_pending root before _ (after_phase1 graph before known_sound n root)
          (phase1-IsEnd graph before known_sound n root edges small) cl (sym p) (λ _. k.inv.sound)
    phase1_empty root false small p = propagate-IsChecked root small

    root_known :
        (root : ℕ) (b : Bool)
        → b ≡ before root
        → root < n
        → let s = after_phase1 graph before known_sound n root in
          IsChecked root before (elim b [
            | true ↦ (well_founded, before)
            | false ↦ elim (is_empty s.pending_set) [
              | true ↦ (well_founded, s.known)
              | false ↦ propagate graph any_order n s
            ]
          ])
    root_known root true p small = record {
      report = nothing;
      all_known = λ h x r. closed_reach before root cl (sym p) r;
      closed = λ h. cl;
      knows = λ x h. h;
      sound = λ _. known_sound;
    }
    root_known root false p small = phase1_empty root (is_empty _) small refl

    pub check_well_founded-IsChecked :
        (root : ℕ)
        → root < n
        → IsChecked root before (check_well_founded graph any_order n root before)
    unfolding check_well_founded
    check_well_founded-IsChecked root small = root_known root (before root) refl small
