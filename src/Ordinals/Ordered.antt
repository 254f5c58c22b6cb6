-- ===== src/Ordinals/Ordered.antt =====
-- What ComputeMethodOrdinals and ComputeFieldTags promise.
use fidl.Prelude.{
  ℕ, ◌+◌, ◌-◌, ◌^◌, ◌≡◌, ap, ◌∙◌, refl, arith, Bool, true, Option, none, some, List, [], ◌∷◌, All,
}
use fidl.Ordinals.{
  Declared, Slots, ByOrdinal, lookup, all_ordinals, number_methods, number_tags, sort, look_up_all,
  compute_method_ordinals, compute_field_tags,
}
use fidl.Ordinals.Slots.{one_of, count, count_slots, Yields, Yields-bind, IsFull}
use fidl.Ordinals.Entries.{IsStrict, IsStrict-sort, All-insert, count_slots-insert}
use fidl.Ordinals.Numbered.{all_declared, IsOwn, IsEntries}
use fidl.Ordinals.Sorted.{number_methods-Yields, number_tags-Yields}

-- The declarations in the order of their ordinals, which rise: each as often as it is declared, none nil.
pub record IsOrdered (entries : ByOrdinal) (slots : Slots) : Type 0 where
  pub rising : (os : List ℕ) × IsStrict os × (slots ≡ look_up_all entries os)
  pub full : All IsFull slots
  pub counts : (p : Declared → Bool) → count_slots p slots ≡ count p (all_declared entries)

-- Ordinals below `bound` for these declarations, and the declarations in their order.
abbrev pub IsNumbered : ℕ → List Declared → ByOrdinal × Slots → Type 0
IsNumbered bound ds r = (all_declared r.0 ≡ ds) × All (IsOwn bound) r.0 × IsOrdered r.0 r.1

count_slots-cons :
    (p : Declared → Bool) (o : Option Declared) (s t : Slots)
    → count_slots p s ≡ count_slots p t
    → count_slots p (o ∷ s) ≡ count_slots p (o ∷ t)
count_slots-cons p none s t h = h
count_slots-cons p (some d) s t h = omega (arith, h)

count_slots-sort :
    (p : Declared → Bool) (entries : ByOrdinal) (os : List ℕ)
    → count_slots p (look_up_all entries (sort os)) ≡ count_slots p (look_up_all entries os)
unfolding sort
count_slots-sort p entries [] = refl
count_slots-sort p entries (o ∷ os) =
    count_slots-insert p entries o (sort os)
    ∙ count_slots-cons p (lookup o entries) _ _ (count_slots-sort p entries os)

count_found :
    (p : Declared → Bool) (entries es : ByOrdinal)
    → All (λ e. lookup e.0 entries ≡ some e.1) es
    → count_slots p (look_up_all entries (all_ordinals es)) ≡ count p (all_declared es)
count_found p entries [] h = refl
count_found p entries ((o, d) ∷ es) (e, h) =
    ap (λ (x : Option Declared). count_slots p (x ∷ look_up_all entries (all_ordinals es))) e
    ∙ ap (λ (n : ℕ). one_of p d + n) (count_found p entries es h)

All-sort : (P : ℕ → Type 0) (os : List ℕ) → All P os → All P (sort os)
unfolding sort
All-sort P [] h = tt
All-sort P (o ∷ os) h = All-insert P o (sort os) h.0 (All-sort P os h.1)

IsFull-some : (o : Option Declared) (d : Declared) → o ≡ some d → IsFull o
IsFull-some (some e) d h = tt
IsFull-some none d h = absurd (cc)

found-IsFull :
    (entries es : ByOrdinal)
    → All (λ e. lookup e.0 entries ≡ some e.1) es
    → All (λ o. IsFull (lookup o entries)) (all_ordinals es)
found-IsFull entries [] h = tt
found-IsFull entries ((o, d) ∷ es) (e, h) =
    (IsFull-some (lookup o entries) d e, found-IsFull entries es h)

All-look_up_all :
    (entries : ByOrdinal) (os : List ℕ)
    → All (λ o. IsFull (lookup o entries)) os
    → All IsFull (look_up_all entries os)
All-look_up_all entries [] h = tt
All-look_up_all entries (o ∷ os) h = (h.0, All-look_up_all entries os h.1)

IsEntries-IsNumbered :
    (bound : ℕ) (ds : List Declared) (entries : ByOrdinal)
    → IsEntries bound ds entries
    → IsNumbered bound ds (entries, look_up_all entries (sort (all_ordinals entries)))
IsEntries-IsNumbered bound ds entries i = (
  i.declared,
  i.own,
  record {
    rising = (sort (all_ordinals entries), IsStrict-sort (all_ordinals entries) i.distinct, refl);
    full =
        All-look_up_all entries (sort (all_ordinals entries))
          (All-sort _ (all_ordinals entries) (found-IsFull entries entries i.found));
    counts = λ p.
        count_slots-sort p entries (all_ordinals entries) ∙ count_found p entries entries i.found;
  },
)

IsEntries-start : (bound : ℕ) → IsEntries bound [] []
IsEntries-start bound = record { distinct = tt; found = tt; declared = refl; own = tt }

-- The computation of method ordinals does not panic. Without an error it gives each method, in the order of
-- declaration, a uint32 ordinal, which is the declared one where there is one; and it leaves the methods in the
-- order of their ordinals, which rise strictly: each method as often as it is declared, and none nil.
pub compute_method_ordinals-IsNumbered :
    (methods : List Declared)
    → Yields (IsNumbered (2 ^ 32) methods) (compute_method_ordinals methods)
unfolding compute_method_ordinals
compute_method_ordinals-IsNumbered methods =
    Yields-bind (IsEntries (2 ^ 32) methods) _ (number_methods 0 methods []) _
      (number_methods-Yields 0 methods [] [] (omega arith) (IsEntries-start (2 ^ 32)))
      (λ entries i. IsEntries-IsNumbered (2 ^ 32) methods entries i)

-- The computation of union tags does not panic. Without an error it gives each field, in the order of
-- declaration, a tag below 2^32 - 1, which is the declared one where there is one; and it leaves the fields in
-- the order of their tags, which rise strictly: each field as often as it is declared, and none nil.
pub compute_field_tags-IsNumbered :
    (fields : List Declared) → Yields (IsNumbered (2 ^ 32 - 1) fields) (compute_field_tags fields)
unfolding compute_field_tags
compute_field_tags-IsNumbered fields =
    Yields-bind (IsEntries (2 ^ 32 - 1) fields) _ (number_tags (2 ^ 32 - 1) true fields []) _
      (number_tags-Yields (2 ^ 32 - 1) true fields [] [] refl (IsEntries-start (2 ^ 32 - 1)))
      (λ entries i. IsEntries-IsNumbered (2 ^ 32 - 1) fields entries i)
