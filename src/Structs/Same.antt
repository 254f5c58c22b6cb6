-- ===== src/Structs/Same.antt =====
-- The packing of computed_data.go neither loses a field nor makes one.
use fidl.Prelude.{
  ℕ, ◌+◌, ◌%◌, ◌^◌, ◌≡◌, refl, arith, Bool, true, false, ◌&&◌, List, [], ◌∷◌, ltb, leb,
  if◌then◌else◌,
}
use fidl.Structs.{
  Field, compute_tentative_field_offset, insert_field, pack_field, pack_from, compute_field_offsets,
}

-- a field without its position
abbrev pub unplaced : Field → Field
unplaced f = record f { offset = 0; bit = 0 }

-- how many fields have a property, whatever their positions
abbrev pub count_fields : (Field → Bool) → List Field → ℕ
count_fields p [] = 0
count_fields p (f ∷ fs) = (if p (unplaced f) then 1 else 0) + count_fields p fs

module _ (p : Field → Bool) where
  abbrev one : Field → ℕ
  one f = if p (unplaced f) then 1 else 0

  one_if : (c : Bool) (x y : Field) (n : ℕ) → one x ≡ n → one y ≡ n → one (if c then x else y) ≡ n
  one_if true x y n h k = h
  one_if false x y n h k = k

  one-tentative : (f b : Field) → one (compute_tentative_field_offset f b) ≡ one f
  unfolding compute_tentative_field_offset
  one-tentative f b = one_if (f.is_bool && b.is_bool && ltb b.bit 7) _ _ (one f) refl refl

  count_if :
      (c : Bool) (x y : List Field) (n : ℕ)
      → count_fields p x ≡ n
      → count_fields p y ≡ n
      → count_fields p (if c then x else y) ≡ n
  count_if true x y n h k = h
  count_if false x y n h k = k

  count-insert_field :
      (f b : Field) (fs : List Field)
      → count_fields p (insert_field f b fs) ≡ one f + (one b + count_fields p fs)
  unfolding insert_field
  count-insert_field f b [] = omega (arith, one-tentative f b)
  count-insert_field f b (a ∷ fs) =
      let f' = compute_tentative_field_offset f b in
      let k = count-insert_field f a fs in
      count_if (leb ((f'.offset + f'.size) % 2 ^ 32) a.offset) (b ∷ f' ∷ a ∷ fs)
        (b ∷ insert_field f a fs) _ (omega (arith, one-tentative f b)) (omega (arith, k))

  count-pack_field :
      (f : Field) (fs : List Field) → count_fields p (pack_field f fs) ≡ one f + count_fields p fs
  unfolding pack_field
  count-pack_field f [] = refl
  count-pack_field f (b ∷ fs) = count-insert_field f b fs

  count-pack_from :
      (packed fields : List Field)
      → count_fields p (pack_from packed fields) ≡ count_fields p packed + count_fields p fields
  unfolding pack_from
  count-pack_from packed [] = omega arith
  count-pack_from packed (f ∷ fields) =
      omega (arith, count-pack_from (pack_field f packed) fields, count-pack_field f packed)

  -- The packing keeps the fields: whatever property a field has by its type, as many fields have it
  -- after the packing as before.
  pub count-compute_field_offsets :
      (fields : List Field) → count_fields p (compute_field_offsets fields) ≡ count_fields p fields
  unfolding compute_field_offsets
  count-compute_field_offsets fields = omega (arith, count-pack_from [] fields)
