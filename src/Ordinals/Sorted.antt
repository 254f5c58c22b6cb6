-- ===== src/Ordinals/Sorted.antt =====
-- Methods in ordinal order, and union fields in tag order.
use fidl.Prelude.{
  ℕ, ◌+◌, ◌-◌, ◌%◌, ◌^◌, ◌<◌, ◌≡◌, sym, ap, ◌∙◌, refl, arith, Bool, true, false, not, ◌&&◌, List,
  [], ◌∷◌, ◌++◌, leb, if◌then◌else◌,
}
use fidl.Prelude.Int.{ℤ, pos, negsuc}
use fidl.Ordinals.{
  Declared, Result, ok, err, ordinal_range, ByOrdinal, put_entry, method_ordinal, number_methods,
  field_tag, number_tags,
}
use fidl.Ordinals.Slots.{Yields, Yields-bind}
use fidl.Ordinals.Numbered.{IsOwn, IsEntries, put_entry-Yields, method_ordinal-Yields}

append_assoc :
    (xs : List Declared) (y : Declared) (zs : List Declared) → (xs ++ y ∷ []) ++ zs ≡ xs ++ (y ∷ zs)
append_assoc [] y zs = refl
append_assoc (x ∷ xs) y zs = ap {B = List Declared} (λ r. x ∷ r) (append_assoc xs y zs)

append-nil : (xs : List Declared) → xs ++ [] ≡ xs
append-nil [] = refl
append-nil (x ∷ xs) = ap {B = List Declared} (λ r. x ∷ r) (append-nil xs)

IsEntries-over :
    (bound : ℕ) (xs ys : List Declared) (r : Result ByOrdinal)
    → xs ≡ ys
    → Yields (IsEntries bound xs) r
    → Yields (IsEntries bound ys) r
IsEntries-over bound xs ys r e h = rw (← e) h

pub number_methods-Yields :
    (next : ℕ) (ms ds : List Declared) (entries : ByOrdinal)
    → next < 2 ^ 32
    → IsEntries (2 ^ 32) ds entries
    → Yields (IsEntries (2 ^ 32) (ds ++ ms)) (number_methods next ms entries)
unfolding number_methods
number_methods-Yields next [] ds entries l i = rw (append-nil ds) i
number_methods-Yields next (m ∷ ms) ds entries l i =
    Yields-bind (λ o. IsOwn (2 ^ 32) (o, m)) _ (method_ordinal m.declared_ordinal next m) _
      (method_ordinal-Yields m.declared_ordinal next m refl l)
      (λ o w.
        Yields-bind (IsEntries (2 ^ 32) (ds ++ m ∷ [])) _ (put_entry o m entries) _
          (put_entry-Yields (2 ^ 32) o m ds entries i w)
          (λ more j.
            IsEntries-over (2 ^ 32) _ _ (number_methods ((o + 1) % 2 ^ 32) ms more)
              (append_assoc ds m ms)
              (number_methods-Yields ((o + 1) % 2 ^ 32) ms (ds ++ m ∷ []) more (omega arith) j)))

-- The tag before the first one is the greatest uint32.
abbrev IsPrevious : ℕ → Bool → Type 0
IsPrevious previous true = previous ≡ 2 ^ 32 - 1
IsPrevious previous false = previous < 2 ^ 32 - 1

field_tag-Yields :
    (z : ℤ) (previous : ℕ) (first : Bool) (d : Declared)
    → d.declared_ordinal ≡ z
    → IsPrevious previous first
    → Yields (λ o. IsOwn (2 ^ 32 - 1) (o, d)) (field_tag z previous first d)
unfolding field_tag
field_tag-Yields (pos k) previous first d e h = go (leb (2 ^ 32 - 1) k) (λ f. ground (arith, f))
  where
    go :
        (b : Bool)
        → (b ≡ false → k < 2 ^ 32 - 1)
        → Yields (λ o. IsOwn (2 ^ 32 - 1) (o, d)) (if b then err (ordinal_range k d) else ok k)
    go true f = tt
    go false f = ((λ n q. (let a = sym e ∙ q in cc)), f refl)
field_tag-Yields (negsuc k) previous true d e h =
    rest (leb (2 ^ 32 - 2) previous && not true) (omega (arith, h))
  where
    rest :
        (b : Bool)
        → (previous + 1) % 2 ^ 32 < 2 ^ 32 - 1
        → Yields
            (λ o. IsOwn (2 ^ 32 - 1) (o, d))
            (if b then err (ordinal_range (previous + 1) d) else ok ((previous + 1) % 2 ^ 32))
    rest true l = tt
    rest false l = ((λ n q. absurd (let a = sym e ∙ q in cc)), l)
field_tag-Yields (negsuc k) previous false d e h =
    rest (leb (2 ^ 32 - 2) previous && not false)
      (λ f. (let g : previous < 2 ^ 32 - 2 = ground (arith, f) in omega (arith, g)))
  where
    rest :
        (b : Bool)
        → (b ≡ false → (previous + 1) % 2 ^ 32 < 2 ^ 32 - 1)
        → Yields
            (λ o. IsOwn (2 ^ 32 - 1) (o, d))
            (if b then err (ordinal_range (previous + 1) d) else ok ((previous + 1) % 2 ^ 32))
    rest true l = tt
    rest false l = ((λ n q. absurd (let a = sym e ∙ q in cc)), l refl)

pub number_tags-Yields :
    (previous : ℕ) (first : Bool) (ms ds : List Declared) (entries : ByOrdinal)
    → IsPrevious previous first
    → IsEntries (2 ^ 32 - 1) ds entries
    → Yields (IsEntries (2 ^ 32 - 1) (ds ++ ms)) (number_tags previous first ms entries)
unfolding number_tags
number_tags-Yields previous first [] ds entries l i = rw (append-nil ds) i
number_tags-Yields previous first (m ∷ ms) ds entries l i =
    Yields-bind (λ o. IsOwn (2 ^ 32 - 1) (o, m)) _ (field_tag m.declared_ordinal previous first m) _
      (field_tag-Yields m.declared_ordinal previous first m refl l)
      (λ o w.
        Yields-bind (IsEntries (2 ^ 32 - 1) (ds ++ m ∷ [])) _ (put_entry o m entries) _
          (put_entry-Yields (2 ^ 32 - 1) o m ds entries i w)
          (λ more j.
            IsEntries-over (2 ^ 32 - 1) _ _ (number_tags o false ms more) (append_assoc ds m ms)
              (number_tags-Yields o false ms (ds ++ m ∷ []) more w.1 j)))
