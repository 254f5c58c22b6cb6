-- ===== src/Ordinals/Entries.antt =====
-- The ordinals of methods and the tags of union fields.
use fidl.Prelude.{
  ℕ, ◌<◌, ◌≡◌, ap, ◌∙◌, refl, arith, inl, inr, Bool, false, ◌||◌, Option, none, some, List, [], ◌∷◌,
  ◌++◌, leb, ◌==◌, Bool-cases, All,
}
use fidl.Ordinals.{Declared, Slots, ByOrdinal, lookup, insert, sort, look_up_all}
use fidl.Ordinals.Slots.{count_slots}

abbrev pub is_in : ℕ → List ℕ → Bool
is_in x [] = false
is_in x (y ∷ ys) = x == y || is_in x ys

abbrev pub IsDistinct : List ℕ → Type 0
IsDistinct [] = Unit
IsDistinct (x ∷ xs) = (is_in x xs ≡ false) × IsDistinct xs

-- Each is less than all behind it.
abbrev pub IsStrict : List ℕ → Type 0
IsStrict [] = Unit
IsStrict (x ∷ xs) = All (λ y. x < y) xs × IsStrict xs

pub is_in-snoc : (x : ℕ) (xs : List ℕ) (y : ℕ) → is_in x (xs ++ y ∷ []) ≡ (is_in x xs || x == y)
is_in-snoc x [] y = ground arith
is_in-snoc x (z ∷ xs) y = ground (arith, is_in-snoc x xs y)

pub IsDistinct-snoc :
    (xs : List ℕ) (y : ℕ) → IsDistinct xs → is_in y xs ≡ false → IsDistinct (xs ++ y ∷ [])
IsDistinct-snoc [] y d n = (refl, tt)
IsDistinct-snoc (x ∷ xs) y (m, d) n =
    let e = is_in-snoc x xs y in
    (ground (arith, e, m, n), IsDistinct-snoc xs y d (ground (arith, n)))

is_in-insert : (x y : ℕ) (ys : List ℕ) → is_in x (insert y ys) ≡ (x == y || is_in x ys)
unfolding insert
is_in-insert x y [] = refl
is_in-insert x y (z ∷ ys) = ground (arith, is_in-insert x y ys)

is_in-sort : (x : ℕ) (ys : List ℕ) → is_in x (sort ys) ≡ is_in x ys
unfolding sort
is_in-sort x [] = refl
is_in-sort x (y ∷ ys) =
    is_in-insert x y (sort ys) ∙ ap (λ (b : Bool). x == y || b) (is_in-sort x ys)

pub All-insert : (P : ℕ → Type 0) (x : ℕ) (xs : List ℕ) → P x → All P xs → All P (insert x xs)
unfolding insert
All-insert P x [] h k = (h, tt)
All-insert P x (y ∷ ys) h k = elim (Bool-cases (leb x y)) [
  | inl e ↦ rw e (h, k)
  | inr e ↦ rw e (k.0, All-insert P x ys h k.1)
]

All-lt : (x y : ℕ) (ys : List ℕ) → x < y → All (λ z. y < z) ys → All (λ z. x < z) ys
All-lt x y [] h k = tt
All-lt x y (z ∷ ys) h k = ((let q = k.0 in omega (arith, h, q)), All-lt x y ys h k.1)

IsStrict-insert : (x : ℕ) (xs : List ℕ) → is_in x xs ≡ false → IsStrict xs → IsStrict (insert x xs)
unfolding insert
IsStrict-insert x [] n h = (tt, tt)
IsStrict-insert x (y ∷ ys) n h = elim (Bool-cases (leb x y)) [
  | inl e ↦ let l : x < y = ground (arith, e, n) in rw e ((l, All-lt x y ys l h.0), h)
  | inr e ↦
      rw e (All-insert _ x ys (ground (arith, e)) h.0, IsStrict-insert x ys (ground (arith, n)) h.1)
]

pub IsStrict-sort : (xs : List ℕ) → IsDistinct xs → IsStrict (sort xs)
unfolding sort
IsStrict-sort [] d = tt
IsStrict-sort (x ∷ xs) (n, d) =
    IsStrict-insert x (sort xs) (is_in-sort x xs ∙ n) (IsStrict-sort xs d)

-- Sorting the ordinals keeps how often each declaration is looked up.
pub count_slots-insert :
    (p : Declared → Bool) (entries : ByOrdinal) (x : ℕ) (xs : List ℕ)
    → count_slots p (look_up_all entries (insert x xs))
      ≡ count_slots p (look_up_all entries (x ∷ xs))
unfolding insert
count_slots-insert p entries x [] = refl
count_slots-insert p entries x (y ∷ ys) = elim (Bool-cases (leb x y)) [
  | inl e ↦ rw e refl
  | inr e ↦
      rw e (swap (lookup x entries) (lookup y entries) _ _ (count_slots-insert p entries x ys))
]
  where
    swap :
        (a b : Option Declared) (s t : Slots)
        → count_slots p s ≡ count_slots p (a ∷ t)
        → count_slots p (b ∷ s) ≡ count_slots p (a ∷ (b ∷ t))
    swap none none s t h = h
    swap none (some d) s t h = omega (arith, h)
    swap (some c) none s t h = h
    swap (some c) (some d) s t h = omega (arith, h)
