-- ===== src/Ordinals.antt =====
-- Ordinals of struct fields, methods and tags of union fields:
-- compiler/src/fidl/compiler/core/user_defined_types.go.
pub mod Slots
pub mod Entries
pub mod Numbered
pub mod Sorted
pub mod Ordered
mod Tests
use fidl.Prelude.{
  ℕ, suc, ◌+◌, ◌-◌, ◌%◌, ◌^◌, Bool, true, false, not, ◌&&◌, Option, none, some, List, [], ◌∷◌, ◌++◌,
  ltb, leb, ◌==◌, if◌then◌else◌, length, get_elem?, set, replicate, map,
}
use fidl.Prelude.Int.{ℤ, pos, negsuc}

-- A declaration that gets an ordinal: who it is, and its declaredOrdinal, negative where it has none.
pub record Declared : Type 0 where
  pub name : ℕ
  pub declared_ordinal : ℤ

pub data OrdinalError : Type 0 where
  ordinal_range : ℕ → Declared → OrdinalError
  ordinal_duplicate : ℕ → Declared → Declared → OrdinalError

pub data Result (A : Type 0) : Type 0 where
  ok : A → Result A
  err : OrdinalError → Result A
  panicked : Result A

infixl 5 ◌>>=◌
abbrev pub ◌>>=◌ : {A B : Type 0} → Result A → (A → Result B) → Result B
◌>>=◌ (ok a) f = f a
◌>>=◌ (err e) f = err e
◌>>=◌ panicked f = panicked

-- A nil slot is `none`.
abbrev pub Slots : Type 0
Slots = List (Option Declared)

-- the field at its ordinal, and the next ordinal
unfoldable pub put_field : ℕ → Declared → Slots → Result (ℕ × Slots)
put_field ordinal field slots =
    if leb (length slots) ordinal
    then err (ordinal_range ordinal field)
    else elim (get_elem? slots ordinal) [
      | none ↦ panicked
      | some slot ↦ elim slot [
        | some existing ↦ err (ordinal_duplicate ordinal field existing)
        | none ↦ ok ((ordinal + 1) % 2 ^ 32, set slots ordinal (some field))
      ]
    ]

-- the field with this declared ordinal
unfoldable pub number_at : ℤ → ℕ → Declared → Slots → Result (ℕ × Slots)
unfolding put_field
number_at (negsuc _) next field slots = put_field next field slots
number_at (pos d) next field slots =
    if leb (2 ^ 32 - 1) d then err (ordinal_range d field) else put_field d field slots

unfoldable pub number_fields : ℕ → List Declared → Slots → Result Slots
unfolding number_at
number_fields next [] slots = ok slots
number_fields next (field ∷ fields) slots =
    number_at field.declared_ordinal next field slots >>= λ r. number_fields r.0 fields r.1

-- `ComputeFieldOrdinals`: the fields in ordinal order
unfoldable pub compute_field_ordinals : List Declared → Result Slots
unfolding number_fields
compute_field_ordinals fields = number_fields 0 fields (replicate (length fields % 2 ^ 32) none)

-- MethodsByOrdinal, or fieldsByTag: keys and what they are mapped to, in the order of the entries. The keys in
-- this order are the array of ordinals.
abbrev pub ByOrdinal : Type 0
ByOrdinal = List (ℕ × Declared)

abbrev pub lookup : ℕ → ByOrdinal → Option Declared
lookup ordinal [] = none
lookup ordinal ((key, d) ∷ entries) = if ordinal == key then some d else lookup ordinal entries

abbrev pub all_ordinals : ByOrdinal → List ℕ
all_ordinals [] = []
all_ordinals ((key, d) ∷ entries) = key ∷ all_ordinals entries

-- the test for an existing entry, and the new one
unfoldable pub put_entry : ℕ → Declared → ByOrdinal → Result ByOrdinal
put_entry ordinal d entries = elim (lookup ordinal entries) [
  | some existing ↦ err (ordinal_duplicate ordinal d existing)
  | none ↦ ok (entries ++ (ordinal, d) ∷ [])
]

-- `declaredOrdinal >= math.MaxUint32`
abbrev pub in_range : ℕ → Declared → Result ℕ
in_range ordinal d = if leb (2 ^ 32 - 1) ordinal then err (ordinal_range ordinal d) else ok ordinal

unfoldable pub method_ordinal : ℤ → ℕ → Declared → Result ℕ
method_ordinal (negsuc _) next method = ok next
method_ordinal (pos n) next method = in_range n method

unfoldable pub number_methods : ℕ → List Declared → ByOrdinal → Result ByOrdinal
unfolding method_ordinal put_entry
number_methods next [] entries = ok entries
number_methods next (method ∷ methods) entries =
    method_ordinal method.declared_ordinal next method >>= λ ordinal.
    put_entry ordinal method entries >>= λ entries'.
    number_methods ((ordinal + 1) % 2 ^ 32) methods entries'

-- `tag` follows `previous`, unless it is the first.
unfoldable pub field_tag : ℤ → ℕ → Bool → Declared → Result ℕ
field_tag (pos n) previous first field = in_range n field
field_tag (negsuc _) previous first field =
    if leb (2 ^ 32 - 2) previous && not first
    then err (ordinal_range (previous + 1) field)
    else ok ((previous + 1) % 2 ^ 32)

unfoldable pub number_tags : ℕ → Bool → List Declared → ByOrdinal → Result ByOrdinal
unfolding field_tag put_entry
number_tags previous first [] entries = ok entries
number_tags previous first (field ∷ fields) entries =
    field_tag field.declared_ordinal previous first field >>= λ tag.
    put_entry tag field entries >>= λ entries'. number_tags tag false fields entries'

unfoldable pub insert : ℕ → List ℕ → List ℕ
insert x [] = x ∷ []
insert x (y ∷ ys) = if leb x y then x ∷ y ∷ ys else y ∷ insert x ys

-- `sort.Sort(utils.UInt32Slice(…))`
unfoldable pub sort : List ℕ → List ℕ
unfolding insert
sort [] = []
sort (x ∷ xs) = insert x (sort xs)

abbrev pub look_up_all : ByOrdinal → List ℕ → Slots
look_up_all entries [] = []
look_up_all entries (o ∷ os) = lookup o entries ∷ look_up_all entries os

-- `ComputeMethodOrdinals`: the entries, and the methods in ordinal order
unfoldable pub compute_method_ordinals : List Declared → Result (ByOrdinal × Slots)
unfolding number_methods sort
compute_method_ordinals methods = number_methods 0 methods [] >>= λ entries.
    ok (entries, look_up_all entries (sort (all_ordinals entries)))

-- `ComputeFieldTags`: the entries, and the fields in tag order
unfoldable pub compute_field_tags : List Declared → Result (ByOrdinal × Slots)
unfolding number_tags sort
compute_field_tags fields = number_tags (2 ^ 32 - 1) true fields [] >>= λ entries.
    ok (entries, look_up_all entries (sort (all_ordinals entries)))
