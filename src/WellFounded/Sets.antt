-- ===== src/WellFounded/Sets.antt =====
-- Maps and sets of nodes.
use fidl.Prelude.{
  ℕ, ◌+◌, ◌<◌, ◌≤◌, ◌≡◌, refl, arith, Bool, true, false, not, ◌&&◌, ◌||◌, List, [], ◌∷◌, ◌==◌,
  if◌then◌else◌, length, Bool-cases, inl, inr, ==→eq,
}

-- `f[n] = v`
abbrev pub update : {A : Type 0} → (ℕ → A) → ℕ → A → ℕ → A
update f n v m = if m == n then v else f m

abbrev pub member : ℕ → List ℕ → Bool
member x [] = false
member x (y ∷ ys) = x == y || member x ys

unfoldable pub add : ℕ → List ℕ → List ℕ
add x ys = if member x ys then ys else x ∷ ys

unfoldable pub remove : ℕ → List ℕ → List ℕ
remove x [] = []
remove x (y ∷ ys) = if y == x then remove x ys else y ∷ remove x ys

unfoldable pub all_in : (ℕ → Bool) → List ℕ → Bool
all_in p [] = true
all_in p (x ∷ xs) = p x && all_in p xs

pub member-add : (z x : ℕ) (ys : List ℕ) → member z (add x ys) ≡ (z == x || member z ys)
unfolding add
member-add z x ys = ground (arith, member_eq z x ys)
  where
    member_eq : (z x : ℕ) (ys : List ℕ) → z ≡ x → member z ys ≡ member x ys
    member_eq z x ys e = rw e refl

pub member-remove : (z x : ℕ) (ys : List ℕ) → member z (remove x ys) ≡ (not (z == x) && member z ys)
unfolding remove
member-remove z x [] = ground arith
member-remove z x (y ∷ ys) = ground (arith, member-remove z x ys)

-- Removing an element makes the list shorter.
pub length-remove-le : (x : ℕ) (ys : List ℕ) → length (remove x ys) ≤ length ys
unfolding remove
length-remove-le x [] = omega arith
length-remove-le x (y ∷ ys) = ground (arith, length-remove-le x ys)

pub length-remove-lt : (x : ℕ) (ys : List ℕ) → member x ys ≡ true → length (remove x ys) < length ys
unfolding remove
length-remove-lt x [] h = cc
length-remove-lt x (y ∷ ys) h = ground (arith, length-remove-lt x ys, length-remove-le x ys)

pub length-add-le : (x : ℕ) (ys : List ℕ) → length (add x ys) ≤ length ys + 1
unfolding add
length-add-le x ys = ground arith

pub all_in_lem :
    (p : ℕ → Bool) (xs : List ℕ) (x : ℕ) → all_in p xs ≡ true → member x xs ≡ true → p x ≡ true
unfolding all_in
all_in_lem p [] x h m = cc
all_in_lem p (y ∷ ys) x h m =
    let here : p y ≡ true = ground arith in
    let later : all_in p ys ≡ true = ground arith in
    elim (Bool-cases (x == y)) [
      | inl e ↦ let q = ==→eq x y e in rw q here
      | inr n ↦ all_in_lem p ys x later (ground arith)
    ]

-- What a failed test of all elements has found.
pub all_in-false :
    (p : ℕ → Bool) (xs : List ℕ)
    → all_in p xs ≡ false
    → (x : ℕ) × (member x xs ≡ true) × (p x ≡ false)
unfolding all_in
all_in-false p [] h = cc
all_in-false p (y ∷ ys) h = elim (Bool-cases (p y)) [
  | inl e ↦ let (x, m, f) = all_in-false p ys (ground arith) in (x, ground arith, f)
  | inr f ↦ (y, ground arith, f)
]
