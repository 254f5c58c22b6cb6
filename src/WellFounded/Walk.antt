-- ===== src/WellFounded/Walk.antt =====
-- findKnownIllFoundedCycle finds a cycle, when every unknown node that it meets has an unknown child.
use fidl.Prelude.{
  ℕ, zero, suc, ◌+◌, ◌<◌, ◌≤◌, ◌≡◌, ◌≢◌, sym, ◌∙◌, refl, arith, inl, inr, Bool, true, false, ◌||◌,
  Option, none, some, List, [], ◌∷◌, ◌++◌, ◌==◌, Bool-cases, ==→eq, ==_refl,
}
use fidl.WellFounded.Sets.{update, member}
use fidl.WellFounded.{
  Node, Finder, VisitationState, unvisited, visit_started, visit_ended, set_state, holder_for_node,
}
use fidl.WellFounded.Spec.{visited, child}
use fidl.WellFounded.Visit.{room, room-lt}
use fidl.WellFounded.Finish.{visited-set_state}
use fidl.WellFounded.Scan.{member_cases}
use fidl.WellFounded.Cycle.{
  CycleDescription, new_cycle_description, follow_edges, find_known_ill_founded_cycle,
}
use fidl.WellFounded.Describe.{
  node_in, node_in_snoc, IsChain, IsChain-snoc, IsCycle, new_cycle_description-IsCycle,
}

-- Only nodes of `on` are visited, and their visits have not ended.
pub record IsWalking (known : ℕ → Bool) (on : ℕ → Bool) (s : Finder) : Type 0 where
  pub same : (x : ℕ) → s.known x ≡ known x
  pub only : (x : ℕ) → visited s x ≡ true → on x ≡ true
  pub started : (x : ℕ) → s.state x ≢ visit_ended

holder-IsWalking :
    (known on : ℕ → Bool) (c : ℕ) (s : Finder)
    → IsWalking known on s
    → IsWalking known on (holder_for_node c s)
unfolding holder_for_node
holder-IsWalking known on c s w =
    elim (s.order c)
      as (λ h. IsWalking known on (elim h [
        | some i ↦ s
        | none ↦ record s {
          order = update s.order c (some s.visitation_index);
          visitation_index = s.visitation_index + 1;
        }
      ])) [ some i ↦ w | none ↦ record { same = w.same; only = w.only; started = w.started } ]

holder_room : (n c : ℕ) (s : Finder) → room n (holder_for_node c s) ≤ room n s
unfolding holder_for_node
holder_room zero c s = omega arith
holder_room (suc n) c s = ground (arith, holder_room n c s, holder_visited n c s)
  where
    holder_visited : (x c : ℕ) (s : Finder) → visited (holder_for_node c s) x ≡ visited s x
    holder_visited x c s =
        elim (s.order c)
          as (λ h.
            visited
              (elim h [
                | some i ↦ s
                | none ↦ record s {
                  order = update s.order c (some s.visitation_index);
                  visitation_index = s.visitation_index + 1;
                }
              ])
              x
            ≡ visited s x) [ some i ↦ refl | none ↦ refl ]

or_true : (a : Bool) {b : Bool} → b ≡ true → (a || b) ≡ true
or_true true h = refl
or_true false h = h

start-IsWalking :
    (known on on' : ℕ → Bool) (v : ℕ) (s : Finder)
    → ((x : ℕ) → on' x ≡ (x == v || on x))
    → IsWalking known on s
    → IsWalking known on' (set_state v visit_started s)
unfolding set_state
start-IsWalking known on on' v s e w = record {
  same = w.same;
  only = λ x h. elim (Bool-cases (x == v)) [
    | inl q ↦ e x ∙ rw q refl
    | inr q ↦
        e x
        ∙ or_true (x == v)
            (w.only x (sym (visited-set_state v visit_started s x refl ∙ rw q refl) ∙ h))
  ];
  started = λ x h. elim (Bool-cases (x == v)) [
    | inl q ↦ (let a : visit_started ≡ visit_ended = sym (rw q refl) ∙ h in cc)
    | inr q ↦ w.started x (sym (rw q refl) ∙ h)
  ];
}

started_room :
    (n v : ℕ) (s : Finder)
    → v < n
    → visited s v ≡ false
    → room n (set_state v visit_started s) < room n s
started_room n v s l u =
    let now = λ (x : ℕ). visited-set_state v visit_started s x refl in
    room-lt n v s (set_state v visit_started s) (λ x h. now x ∙ or_true (x == v) h) l u
      (now v ∙ rw (==_refl v) refl)

-- What the client knows of the graph: `unmet` nodes are the unknown ones it may meet.
module _ (graph : ℕ → Node) (IsBad : ℕ → Type 0) (known unmet : ℕ → Bool) (n : ℕ)
    (small : (v c : ℕ) → child graph v c ≡ true → c < n) (bad : (v : ℕ) → unmet v ≡ true → IsBad v)
    (next : (v : ℕ) → unmet v ≡ true → (c : ℕ) × (child graph v c ≡ true) × (known c ≡ false))
    (stays : (v c : ℕ)
      → unmet v ≡ true
      → child graph v c ≡ true
      → known c ≡ false
      → unmet c ≡ true) where
  abbrev on_path : List (ℕ × ℕ) → ℕ → Bool
  on_path path x = node_in x path

  abbrev Found : Option CycleDescription → Type 0
  Found r = (c : CycleDescription) × (r ≡ some c) × IsCycle graph IsBad c

  -- What a call promises, with the nodes of the path visited before it.
  abbrev Finds : ℕ → (ℕ → List (ℕ × ℕ) → Finder → Option CycleDescription) → Type 0
  Finds depth find =
      (root v : ℕ) (path : List (ℕ × ℕ)) (s : Finder)
      → IsChain graph IsBad root path v
      → unmet v ≡ true
      → v < n
      → visited s v ≡ false
      → ((x : ℕ) → node_in x path ≡ true → unmet x ≡ true)
      → IsWalking known (on_path path) s
      → room n s ≤ depth
      → Found (find v path s)

  abbrev IsCurrent : ℕ → ℕ → List (ℕ × ℕ) → Finder → Type 0
  IsCurrent root v path s =
      IsChain graph IsBad root path v
      × (unmet v ≡ true)
      × ((x : ℕ) → node_in x path ≡ true → unmet x ≡ true)
      × IsWalking known (λ x. x == v || node_in x path) s

  follow_started :
      (root v c : ℕ) (path : List (ℕ × ℕ)) (s : Finder)
      → IsCurrent root v path s
      → child graph v c ≡ true
      → visited s c ≡ true
      → Found (new_cycle_description (path ++ (v, c) ∷ []) c v)
  follow_started root v c path s (p, u, on, w) m h =
      let here : (c == v || node_in c path) ≡ true = w.only c h in
      let uc : unmet c ≡ true = elim (Bool-cases (c == v)) [
        | inl e ↦ let d = ==→eq c v e in rw d u
        | inr e ↦ on c (ground (arith, here, e))
      ] in
      new_cycle_description-IsCycle graph IsBad root c v path
        (IsChain-snoc graph IsBad p m (bad c uc)) (node_in_snoc c path v c ∙ here) m (bad c uc)
        (bad v u)

  follow_state :
      (depth : ℕ) (find : ℕ → List (ℕ × ℕ) → Finder → Option CycleDescription) (root v c : ℕ)
      (path : List (ℕ × ℕ)) (cs : List ℕ) (s : Finder) (st : VisitationState) (k : Bool)
      → Finds depth find
      → st ≡ s.state c
      → k ≡ s.known c
      → IsCurrent root v path s
      → child graph v c ≡ true
      → room n s ≤ depth
      → (k ≡ true → Found (follow_edges graph find v path cs s))
      → Found (elim st [
        | visit_started ↦ new_cycle_description (path ++ (v, c) ∷ []) c v
        | _ ↦ elim k [
          | false ↦ find c (path ++ (v, c) ∷ []) s
          | true ↦ follow_edges graph find v path cs s
        ]
      ])
  follow_state depth find root v c path cs s visit_started k ih e d cur m l rest =
      follow_started root v c path s cur m (rw (← e) refl)
  follow_state depth find root v c path cs s visit_ended k ih e d (p, u, on, w) m l rest =
      absurd (w.started c (sym e))
  follow_state depth find root v c path cs s unvisited true ih e d cur m l rest = rest refl
  follow_state depth find root v c path cs s unvisited false ih e d (p, u, on, w) m l rest =
      let uc = stays v c u m (sym (w.same c) ∙ sym d) in
      ih root c (path ++ (v, c) ∷ []) s (IsChain-snoc graph IsBad p m (bad c uc)) uc (small v c m)
        (rw (← e) refl)
        (λ x h. elim (Bool-cases (x == v)) [
          | inl q ↦ let d = ==→eq x v q in rw d u
          | inr q ↦ on x (let a = node_in_snoc x path v c in ground (arith, a, h, q))
        ])
        (record {
          same = w.same;
          only = λ x h. node_in_snoc x path v c ∙ w.only x h;
          started = w.started;
        })
        l

  follow_edges-Found :
      (depth : ℕ) (find : ℕ → List (ℕ × ℕ) → Finder → Option CycleDescription) (root v : ℕ)
      (path : List (ℕ × ℕ)) (cs : List ℕ) (s : Finder)
      → Finds depth find
      → IsCurrent root v path s
      → ((c : ℕ) → member c cs ≡ true → child graph v c ≡ true)
      → (c : ℕ) × (member c cs ≡ true) × (known c ≡ false)
      → room n s ≤ depth
      → Found (follow_edges graph find v path cs s)
  unfolding follow_edges
  follow_edges-Found depth find root v path [] s ih cur m (x, a, u) l = absurd (cc)
  follow_edges-Found depth find root v path (c ∷ cs) s ih (p, u, on, w) m (x, a, b) l =
      let s' = holder_for_node c s in
      let w' = holder-IsWalking known _ c s w in
      let l' : room n s' ≤ depth = omega (arith, l, holder_room n c s) in
      follow_state depth find root v c path cs s' (s'.state c) (s'.known c) ih refl refl
        (p, u, on, w') (m c (ground (arith, ==_refl c))) l'
        (λ k.
          let kc : known c ≡ true = sym (w'.same c) ∙ k in
          let later : member x cs ≡ true = elim (member_cases x c cs a) [
            | inl e ↦ absurd (let f : known c ≡ false = rw (← e) b in cc)
            | inr q ↦ q
          ] in
          follow_edges-Found depth find root v path cs s' ih (p, u, on, w')
            (λ y q. m y (ground (arith, q))) (x, later, b) l')

  -- With enough depth, it finds a cycle of such nodes.
  pub find_cycle-Finds : (depth : ℕ) → Finds depth (find_known_ill_founded_cycle graph depth)
  unfolding find_known_ill_founded_cycle
  find_cycle-Finds zero root v path s p u sm nv on w l =
      absurd (omega (arith, l, started_room n v s sm nv))
  find_cycle-Finds (suc depth) root v path s p u sm nv on w l =
      follow_edges-Found depth (find_known_ill_founded_cycle graph depth) root v path
        (graph v).out_edges (set_state v visit_started s) (find_cycle-Finds depth)
        (
          p,
          u,
          on,
          start-IsWalking known (on_path path) (λ x. x == v || node_in x path) v s (λ x. refl) w,
        )
        (λ c m. m) (next v u) (omega (arith, l, started_room n v s sm nv))
