-- ===== src/WellFounded/Spec.antt =====
-- Well-founded nodes, as the head of wellfounded_graphs.go defines them, and what phase 1 keeps.
use fidl.Prelude.{ℕ, ◌≡◌, ◌≢◌, sym, ◌∙◌, ◌⊎◌, inl, inr, Bool, true, false, []}
use fidl.WellFounded.Sets.{member}
use fidl.WellFounded.{Node, Finder, VisitationState, unvisited, visit_started, visit_ended}

abbrev pub is_visited : VisitationState → Bool
is_visited unvisited = false
is_visited visit_started = true
is_visited visit_ended = true

abbrev pub visited : Finder → ℕ → Bool
visited s v = is_visited (s.state v)

abbrev pub pending : Finder → ℕ → Bool
pending s v = member v s.pending_set

abbrev pub founded : Finder → ℕ → Bool
founded s v = member v s.foundation_set

-- `p` is to be notified of `c`.
abbrev pub linked : Finder → ℕ → ℕ → Bool
linked s p c = member p (s.parents c)

module _ (graph : ℕ → Node) where
  abbrev pub child : ℕ → ℕ → Bool
  child v c = member c (graph v).out_edges

  -- No circle node has an edge to itself.
  abbrev pub HasNoLoop : Type 0
  HasNoLoop = (v : ℕ) → (graph v).is_square ≡ false → child v v ≡ false

  -- A leaf is well-founded, so is a circle node with all children well-founded, and a square node with
  -- some child well-founded.
  pub data IsWellFounded : ℕ → Type 0 where
    leaf : {v : ℕ} → (graph v).out_edges ≡ [] → IsWellFounded v
    circle :
        {v : ℕ}
        → (graph v).is_square ≡ false
        → ((c : ℕ) → child v c ≡ true → IsWellFounded c)
        → IsWellFounded v
    square :
        {v : ℕ} (c : ℕ)
        → (graph v).is_square ≡ true
        → child v c ≡ true
        → IsWellFounded c
        → IsWellFounded v

  -- `before` is what was known at the start.
  pub record IsInv (before : ℕ → Bool) (s : Finder) : Type 0 where
    pub old : (v : ℕ) → s.known v ≡ true → visited s v ≡ false → before v ≡ true
    pub sound : (v : ℕ) → s.known v ≡ true → IsWellFounded v
    pub link_child : (p c : ℕ) → linked s p c ≡ true → child p c ≡ true
    pub link_visited : (p c : ℕ) → linked s p c ≡ true → visited s c ≡ true
    pub pending_unknown : (v : ℕ) → pending s v ≡ true → s.known v ≡ false
    pub pending_visited : (v : ℕ) → pending s v ≡ true → visited s v ≡ true
    pub founded_known : (v : ℕ) → founded s v ≡ true → s.known v ≡ true

  -- What phase 1 only adds to.
  pub record Grows (s t : Finder) : Type 0 where
    pub visits : (v : ℕ) → visited s v ≡ true → visited t v ≡ true
    pub knows : (v : ℕ) → s.known v ≡ true → t.known v ≡ true
    pub founds : (v : ℕ) → founded s v ≡ true → founded t v ≡ true
    pub pends : (v : ℕ) → pending s v ≡ true → pending t v ≡ true
    pub links : (p c : ℕ) → linked s p c ≡ true → linked t p c ≡ true
    pub no_links : (p c : ℕ) → s.known c ≡ true → linked t p c ≡ true → linked s p c ≡ true

  -- Of the nodes visited before, at most `v` may become known or pending.
  pub record ChangesOnly (v : ℕ) (s t : Finder) : Type 0 where
    pub same_known : (x : ℕ) → visited s x ≡ true → x ≢ v → t.known x ≡ s.known x
    pub same_pending : (x : ℕ) → visited s x ≡ true → x ≢ v → pending t x ≡ pending s x

  -- Why a node is pending: it waits for a child, a square node for all of them.
  abbrev pub IsWaiting : Finder → ℕ → Type 0
  IsWaiting s v =
      ((c : ℕ) → child v c ≡ true → (s.known c ≡ true) ⊎ (linked s v c ≡ true))
      × ((graph v).is_square ≡ false → (c : ℕ) × (child v c ≡ true) × (linked s v c ≡ true))
      × ((graph v).is_square ≡ true
          → ((c : ℕ) → child v c ≡ true → linked s v c ≡ true) × ((graph v).out_edges ≢ []))

  -- What holds of a node once its visit has ended.
  pub record IsDone (before : ℕ → Bool) (s : Finder) (v : ℕ) : Type 0 where
    pub settled : (s.known v ≡ true) ⊎ (pending s v ≡ true)
    pub opened : (before v ≡ true) ⊎ ((c : ℕ) → child v c ≡ true → visited s c ≡ true)
    pub waiting : pending s v ≡ true → IsWaiting s v
    pub ready : (p : ℕ) → linked s p v ≡ true → s.known v ≡ true → founded s v ≡ true

  pub IsDone-keeps :
      (before : ℕ → Bool) (v : ℕ) (s t : Finder) (x : ℕ)
      → Grows s t
      → ChangesOnly v s t
      → visited s x ≡ true
      → x ≢ v
      → IsDone before s x
      → IsDone before t x
  IsDone-keeps before v s t x g k h n d =
      let pending_back : pending t x ≡ true → pending s x ≡ true =
        λ p. sym (k.same_pending x h n) ∙ p in
      record {
        settled = elim d.settled [ inl a ↦ inl (g.knows x a) | inr a ↦ inr (g.pends x a) ];
        opened = elim d.opened [ inl a ↦ inl a | inr a ↦ inr (λ c m. g.visits c (a c m)) ];
        waiting = λ p.
            let w = d.waiting (pending_back p) in
            (
              (λ c m. elim (w.0 c m) [ inl a ↦ inl (g.knows c a) | inr a ↦ inr (g.links x c a) ]),
              (λ q. let (c, m, l) = w.1 q in (c, m, g.links x c l)),
              (λ q. let (l, e) = w.2 q in ((λ c m. g.links x c (l c m)), e)),
            );
        ready = λ p l a.
            let a' : s.known x ≡ true = sym (k.same_known x h n) ∙ a in
            g.founds x (d.ready p (g.no_links p x a' l) a');
      }

  pub Grows-refl : (s : Finder) → Grows s s
  Grows-refl s = record {
    visits = λ v h. h;
    knows = λ v h. h;
    founds = λ v h. h;
    pends = λ v h. h;
    links = λ p c h. h;
    no_links = λ p c k h. h;
  }

  pub Grows-trans : {s t u : Finder} → Grows s t → Grows t u → Grows s u
  Grows-trans g h = record {
    visits = λ v k. h.visits v (g.visits v k);
    knows = λ v k. h.knows v (g.knows v k);
    founds = λ v k. h.founds v (g.founds v k);
    pends = λ v k. h.pends v (g.pends v k);
    links = λ p c k. h.links p c (g.links p c k);
    no_links = λ p c k l. g.no_links p c k (h.no_links p c (g.knows c k) l);
  }

  pub ChangesOnly-trans :
      {v : ℕ} {s t u : Finder}
      → Grows s t
      → ChangesOnly v s t
      → ChangesOnly v t u
      → ChangesOnly v s u
  ChangesOnly-trans g h k = record {
    same_known = λ x m n. k.same_known x (g.visits x m) n ∙ h.same_known x m n;
    same_pending = λ x m n. k.same_pending x (g.visits x m) n ∙ h.same_pending x m n;
  }
