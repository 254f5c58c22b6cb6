-- ===== src/Ordinals/Slots.antt =====
-- What ComputeFieldOrdinals of user_defined_types.go leaves in the slots.
use fidl.Prelude.{
  ℕ, zero, suc, sym, ◌∙◌, ◌-◌, ◌+◌, ◌^◌, ◌%◌, ◌<◌, ◌≤◌, ◌≡◌, refl, ap, arith, Bool, true, false,
  Option, none, some, List, [], ◌∷◌, leb, if◌then◌else◌, length, get_elem?, set, replicate, All,
  length-set, length-replicate,
}
use fidl.Prelude.Int.{ℤ, pos, negsuc}
use fidl.Ordinals.{
  Declared, Result, ok, err, panicked, Slots, ◌>>=◌, OrdinalError, put_field, number_at,
  number_fields, compute_field_ordinals,
}

abbrev pub one_of : (Declared → Bool) → Declared → ℕ
one_of p d = if p d then 1 else 0

abbrev pub count : (Declared → Bool) → List Declared → ℕ
count p [] = 0
count p (d ∷ ds) = one_of p d + count p ds

abbrev pub count_slots : (Declared → Bool) → Slots → ℕ
count_slots p [] = 0
count_slots p (none ∷ s) = count_slots p s
count_slots p (some d ∷ s) = one_of p d + count_slots p s

-- What a result promises where it is no error.
abbrev pub Yields : {A : Type 0} → (A → Type 0) → Result A → Type 0
Yields P (ok a) = P a
Yields P (err e) = Unit
Yields P panicked = ⊥

count_slots-set :
    (p : Declared → Bool) (s : Slots) (i : ℕ) (d : Declared)
    → get_elem? s i ≡ some none
    → count_slots p (set s i (some d)) ≡ one_of p d + count_slots p s
count_slots-set p [] i d h = cc
count_slots-set p (none ∷ s) zero d h = refl
count_slots-set p (some x ∷ s) zero d h = cc
count_slots-set p (none ∷ s) (suc i) d h = count_slots-set p s i d h
count_slots-set p (some x ∷ s) (suc i) d h = omega (arith, count_slots-set p s i d h)

get_elem?-none : (s : Slots) (i : ℕ) → get_elem? s i ≡ none → length s ≤ i
get_elem?-none [] i h = omega arith
get_elem?-none (x ∷ s) zero h = cc
get_elem?-none (x ∷ s) (suc i) h = omega (arith, get_elem?-none s i h)

put_field-Yields :
    (ordinal : ℕ) (f : Declared) (s : Slots)
    → Yields
        (λ r. (get_elem? s ordinal ≡ some none) × (r.1 ≡ set s ordinal (some f)))
        (put_field ordinal f s)
unfolding put_field
put_field-Yields ordinal f s = ground (arith, get_elem?-none s ordinal)

get_elem?-set :
    (s : Slots) (i : ℕ) (o v : Option Declared)
    → get_elem? s i ≡ some o
    → get_elem? (set s i v) i ≡ some v
get_elem?-set [] i o v h = cc
get_elem?-set (x ∷ s) zero o v h = refl
get_elem?-set (x ∷ s) (suc i) o v h = get_elem?-set s i o v h

-- A field stays in its slot when another slot, which was nil, is filled.
set_keeps :
    (s : Slots) (i j : ℕ) (d f : Declared)
    → get_elem? s i ≡ some none
    → get_elem? s j ≡ some (some d)
    → get_elem? (set s i (some f)) j ≡ some (some d)
set_keeps [] i j d f h k = cc
set_keeps (x ∷ s) zero zero d f h k = absurd (let e = sym h ∙ k in cc)
set_keeps (x ∷ s) zero (suc j) d f h k = k
set_keeps (x ∷ s) (suc i) zero d f h k = k
set_keeps (x ∷ s) (suc i) (suc j) d f h k = set_keeps s i j d f h k

-- the field is in the slot that it asks for
abbrev pub IsAtDeclared : Slots → Declared → Type 0
IsAtDeclared s f = (n : ℕ) → f.declared_ordinal ≡ pos n → get_elem? s n ≡ some (some f)

-- one field more, in a slot that was nil
abbrev IsFilled : Slots → Declared → Slots → Type 0
IsFilled s f s' =
    (i : ℕ) × (get_elem? s i ≡ some none) × (s' ≡ set s i (some f)) × IsAtDeclared s' f

at_declared :
    (n : ℕ) (f : Declared) (s s' : Slots) (d : ℤ)
    → f.declared_ordinal ≡ d
    → ((m : ℕ) → d ≡ pos m → m ≡ n)
    → get_elem? s n ≡ some none
    → s' ≡ set s n (some f)
    → IsAtDeclared s' f
at_declared n f s s' d e u g k m h =
    let q : m ≡ n = u m (sym e ∙ h) in rw (q, k) (get_elem?-set s n none (some f) g)

pub Yields-map :
    {A : Type 0} (P Q : A → Type 0) (r : Result A) → ((a : A) → P a → Q a) → Yields P r → Yields Q r
Yields-map P Q (ok a) h k = h a k
Yields-map P Q (err e) h k = tt
Yields-map P Q panicked h k = k

Yields-if_err :
    {A : Type 0} (P : A → Type 0) (b : Bool) (e : OrdinalError) (r : Result A)
    → Yields P r
    → Yields P (if b then err e else r)
Yields-if_err P true e r h = tt
Yields-if_err P false e r h = h

number_at-Yields :
    (next : ℕ) (f : Declared) (s : Slots) (d : ℤ)
    → f.declared_ordinal ≡ d
    → Yields (λ r. IsFilled s f r.1) (number_at d next f s)
unfolding number_at
number_at-Yields next f s (negsuc n) e =
    Yields-map (λ r. (get_elem? s next ≡ some none) × (r.1 ≡ set s next (some f))) _
      (put_field next f s)
      (λ r h. (next, h.0, h.1, at_declared next f s r.1 (negsuc n) e (λ m k. absurd (cc)) h.0 h.1))
      (put_field-Yields next f s)
number_at-Yields next f s (pos n) e = Yields-if_err _ (leb (2 ^ 32 - 1) n) _ (put_field n f s) (
    Yields-map (λ r. (get_elem? s n ≡ some none) × (r.1 ≡ set s n (some f))) _ (put_field n f s)
      (λ r h. (n, h.0, h.1, at_declared n f s r.1 (pos n) e (λ m k. cc) h.0 h.1))
      (put_field-Yields n f s))

-- from the slots `s`, with the fields `fs` in them as well
abbrev IsNumbered : Slots → List Declared → Slots → Type 0
IsNumbered s fs s' =
    ((p : Declared → Bool) → count_slots p s' ≡ count_slots p s + count p fs)
    × (length s' ≡ length s)
    × ((j : ℕ) (d : Declared) → get_elem? s j ≡ some (some d) → get_elem? s' j ≡ some (some d))
    × All (IsAtDeclared s') fs

then-IsNumbered :
    (s t u : Slots) (f : Declared) (fs : List Declared)
    → IsFilled s f t
    → IsNumbered t fs u
    → IsNumbered s (f ∷ fs) u
then-IsNumbered s t u f fs (i, g, e, at) (counts, len, keeps, all) = (
  λ p. omega (arith, counts p, ap (count_slots p) e, count_slots-set p s i f g),
  omega (arith, len, ap length e, length-set s i (some f)),
  λ j d h. keeps j d (rw e (set_keeps s i j d f g h)),
  ((λ n h. keeps n f (at n h)), all),
)

pub Yields-bind :
    {A B : Type 0} (P : A → Type 0) (Q : B → Type 0) (r : Result A) (f : A → Result B)
    → Yields P r
    → ((a : A) → P a → Yields Q (f a))
    → Yields Q (r >>= f)
Yields-bind P Q (ok a) f h k = k a h
Yields-bind P Q (err e) f h k = tt
Yields-bind P Q panicked f h k = h

number_fields-Yields :
    (next : ℕ) (fs : List Declared) (s : Slots) → Yields (IsNumbered s fs) (number_fields next fs s)
unfolding number_fields
number_fields-Yields next [] s = (λ p. omega arith, refl, λ j d h. h, tt)
number_fields-Yields next (f ∷ fs) s =
    Yields-bind (λ r. IsFilled s f r.1) _ (number_at f.declared_ordinal next f s) _
      (number_at-Yields next f s f.declared_ordinal refl)
      (λ r h.
        Yields-map (IsNumbered r.1 fs) _ (number_fields r.0 fs r.1)
          (λ u k. then-IsNumbered s r.1 u f fs h k) (number_fields-Yields r.0 fs r.1))

abbrev any : Declared → Bool
any d = true

-- A list of slots has as many fields as slots only if it has no nil slot.
abbrev pub IsFull : Option Declared → Type 0
IsFull none = ⊥
IsFull (some d) = Unit

count-le : (s : Slots) → count_slots any s ≤ length s
count-le [] = omega arith
count-le (none ∷ s) = omega (arith, count-le s)
count-le (some d ∷ s) = omega (arith, count-le s)

IsFull-of_count : (s : Slots) → length s ≤ count_slots any s → All IsFull s
IsFull-of_count [] h = tt
IsFull-of_count (none ∷ s) h = absurd (omega (arith, count-le s))
IsFull-of_count (some d ∷ s) h = (tt, IsFull-of_count s (omega arith))

count-any : (fs : List Declared) → count any fs ≡ length fs
count-any [] = refl
count-any (f ∷ fs) = omega (arith, count-any fs)

count_slots-replicate : (p : Declared → Bool) (n : ℕ) → count_slots p (replicate n none) ≡ 0
count_slots-replicate p zero = refl
count_slots-replicate p (suc n) = count_slots-replicate p n

-- Of a struct with fewer than 2^32 fields, the computation of ordinals does not panic; without an error it
-- leaves a field in each of the slots: the slots hold the fields, each as often as it is declared, as many slots as
-- fields, none of them nil, and each field with a declared ordinal in the slot of that number.
pub compute_field_ordinals-Yields :
    (fields : List Declared)
    → length fields < 2 ^ 32
    → Yields
        (λ slots.
          (length slots ≡ length fields)
          × All IsFull slots
          × ((p : Declared → Bool) → count_slots p slots ≡ count p fields)
          × All (IsAtDeclared slots) fields)
        (compute_field_ordinals fields)
unfolding compute_field_ordinals
compute_field_ordinals-Yields fields small =
    let empty : Option Declared = none in
    let n = length fields % 2 ^ 32 in
    let e : n ≡ length fields = omega arith in
    Yields-map (IsNumbered (replicate n none) fields) _ (number_fields 0 fields (replicate n none))
      (λ slots h.
        let counts = λ (p : Declared → Bool). h.0 p in
        let none_yet = λ (p : Declared → Bool). count_slots-replicate p n in
        let len : length slots ≡ length fields = omega (arith, h.1, length-replicate n empty) in
        (
          len,
          IsFull-of_count slots (omega (arith, len, counts any, none_yet any, count-any fields)),
          (λ p. omega (arith, counts p, none_yet p)),
          h.3,
        ))
      (number_fields-Yields 0 fields (replicate n none))
