-- ===== src/WellFounded/Start.antt =====
-- The state after checkWellFoundedPhase1: what phase 2 starts from.
use fidl.Prelude.{
  ℕ, zero, suc, ◌<◌, ◌≤◌, ◌≡◌, ◌∙◌, refl, arith, inl, inr, Bool, true, false, not, [], Bool-cases,
}
use fidl.WellFounded.Sets.{all_in, all_in_lem, all_in-false}
use fidl.WellFounded.{Node, Finder, make_cycle_finder, holder_for_node, phase1}
use fidl.WellFounded.Spec.{visited, pending, linked, child, IsWellFounded, IsInv, IsDone}
use fidl.WellFounded.Visit.{room, IsVisit, IsVisit-trans, holder-IsVisit}
use fidl.WellFounded.Phase1.{phase1-Visits}
use fidl.WellFounded.Loop.{IsLoop, IsOpen}
use fidl.WellFounded.End.{IsEnd}
use fidl.WellFounded.Reach.{Reaches, here, step, phase1-VisitsOnly}

pub room_le : (n : ℕ) (s : Finder) → room n s ≤ n
room_le zero s = omega arith
room_le (suc n) s = ground (arith, room_le n s)

module _ (graph : ℕ → Node) where
  module _ (before : ℕ → Bool) (any_sound : (v : ℕ) → before v ≡ true → IsWellFounded graph v) where
    start-IsInv : IsInv graph before (make_cycle_finder before)
    unfolding make_cycle_finder
    start-IsInv = record {
      old = λ v k n. k;
      sound = any_sound;
      link_child = λ p c l. absurd (cc);
      link_visited = λ p c l. absurd (cc);
      pending_unknown = λ v p. absurd (cc);
      pending_visited = λ v p. absurd (cc);
      founded_known = λ v f. absurd (cc);
    }

    start_unvisited : (x : ℕ) → visited (make_cycle_finder before) x ≡ false
    unfolding make_cycle_finder
    start_unvisited x = refl

    start_known : (x : ℕ) → (make_cycle_finder before).known x ≡ before x
    unfolding make_cycle_finder
    start_known x = refl

    holder_unvisited :
        (root x : ℕ) → visited (holder_for_node root (make_cycle_finder before)) x ≡ false
    unfolding holder_for_node make_cycle_finder
    holder_unvisited root x = refl

    abbrev pub after_phase1 : ℕ → ℕ → Finder
    after_phase1 n root = phase1 graph n root (holder_for_node root (make_cycle_finder before))

    module _ (n root : ℕ) (edges : (v c : ℕ) → child graph v c ≡ true → c < n)
        (small : root < n) where
      pub phase1-IsVisit :
          IsVisit graph before (make_cycle_finder before) (after_phase1 n root)
          × (visited (after_phase1 n root) root ≡ true)
      phase1-IsVisit =
          let h = holder-IsVisit graph before root (make_cycle_finder before) start-IsInv in
          let s = holder_for_node root (make_cycle_finder before) in
          let (k, m) =
            phase1-Visits graph before n n edges root s h.inv (holder_unvisited root root) small
              (room_le n s) in
          (IsVisit-trans graph before h k, m)

      phase1-IsDone :
          (x : ℕ)
          → visited (after_phase1 n root) x ≡ true
          → IsDone graph before (after_phase1 n root) x
      phase1-IsDone x h = phase1-IsVisit.0.fresh x h (start_unvisited x)

      unbefore : (q : ℕ) → pending (after_phase1 n root) q ≡ true → before q ≡ true → ⊥
      unbefore q h b =
          let k = phase1-IsVisit.0 in
          let a = k.grows.knows q (start_known q ∙ b) in let c = k.inv.pending_unknown q h in cc

      phase1_reason :
          (q : ℕ) → pending (after_phase1 n root) q ≡ true → IsOpen graph [] (after_phase1 n root) q
      phase1_reason q h =
          let k = phase1-IsVisit.0 in
          let t = after_phase1 n root in
          let d = phase1-IsDone q (k.inv.pending_visited q h) in
          let w = d.waiting h in
          let done_child : (c : ℕ) → child graph q c ≡ true → IsDone graph before t c = λ c m.
            elim d.opened [
              | inl b ↦ absurd (unbefore q h b)
              | inr all ↦ phase1-IsDone c (all c m)
            ] in
          let ready : (c : ℕ)
              → child graph q c ≡ true
              → linked t q c ≡ true
              → t.known c ≡ true
              → IsOpen graph [] t q =
            λ c m l e. inr (inl (c, m, (done_child c m).ready q l e, l)) in
          elim (Bool-cases (graph q).is_square) [
            | inr e ↦
                let (c, m, l) = w.1 e in
                elim (Bool-cases (t.known c)) [
                  | inl a ↦ ready c m l a
                  | inr a ↦ inl ((λ _. (c, m, a)), (λ f. absurd (cc)))
                ]
            | inl e ↦ elim (Bool-cases (all_in (λ c. not (t.known c)) (graph q).out_edges)) [
              | inl a ↦ inl (
                (λ f. absurd (cc)),
                (λ _ c m.
                    let b = all_in_lem (λ c. not (t.known c)) (graph q).out_edges c a m in
                    ground (arith, b)),
              )
              | inr a ↦
                  let (c, m, b) = all_in-false (λ c. not (t.known c)) (graph q).out_edges a in
                  ready c m ((w.2 e).0 c m) (ground (arith, b))
            ]
          ]

      pub phase1-IsLoop : IsLoop graph [] (after_phase1 n root)
      phase1-IsLoop =
          let k = phase1-IsVisit.0 in
          let t = after_phase1 n root in
          let w = λ (q : ℕ) (h : pending t q ≡ true).
            (phase1-IsDone q (k.inv.pending_visited q h)).waiting h in
          record {
            pending_unknown = k.inv.pending_unknown;
            founded_known = k.inv.founded_known;
            waits = λ q c h m. (w q h).0 c m;
            square_links = λ q c h e m. ((w q h).2 e).0 c m;
            nonempty = λ q h e. ((w q h).2 e).1;
            closed = λ q c h m. elim ((phase1-IsDone q (k.inv.pending_visited q h)).opened) [
              | inl b ↦ absurd (unbefore q h b)
              | inr all ↦ (phase1-IsDone c (all c m)).settled
            ];
            reason = phase1_reason;
          }

      pub phase1-IsEnd :
          IsEnd graph root before (visited (after_phase1 n root)) (after_phase1 n root)
      phase1-IsEnd =
          let k = phase1-IsVisit.0 in
          let t = after_phase1 n root in
          record {
            seen_root = phase1-IsVisit.1;
            knows = λ x b. k.grows.knows x (start_known x ∙ b);
            from = λ x h. elim (Bool-cases (visited t x)) [
              | inl v ↦ inr v
              | inr u ↦ inl (k.inv.old x h u)
            ];
            opened = λ x h. (phase1-IsDone x h).opened;
            settled = λ x h. (phase1-IsDone x h).settled;
            pending_seen = k.inv.pending_visited;
            reach =
                phase1-VisitsOnly graph (Reaches graph root) (λ v c r m. step r m) n root
                  (holder_for_node root (make_cycle_finder before)) here
                  (λ x h. absurd (let u = holder_unvisited root x in cc));
          }
