-- ===== src/Structs/Packing.antt =====
-- What the packing of computed_data.go promises: fields at their alignment, no two of them over each
-- other.
use fidl.Prelude.{
  ℕ, ◌+◌, ◌*◌, ◌%◌, ◌^◌, ◌≤◌, ◌<◌, ◌≡◌, inl, refl, arith, Bool, true, false, List, [], ◌∷◌, leb,
  if◌then◌else◌, length, All,
}
use fidl.Structs.{
  Field, compute_tentative_field_offset, insert_field, pack_field, pack_from, compute_field_offsets,
}
use fidl.Structs.Fits.{
  IsTyped, IsPlaced, IsBehind, tentative-Goes, moved-IsTyped, zero_aligned, IsBehind-trans,
}

-- Fields in packing order: each is placed, and all later ones are behind it.
pub IsPacked : ℕ → List Field → Type 0
IsPacked limit [] = Unit
IsPacked limit (f ∷ fs) = IsPlaced limit f × All (IsBehind f) fs × IsPacked limit fs

IsPlaced-mono : (m n : ℕ) (f : Field) → m ≤ n → IsPlaced m f → IsPlaced n f
IsPlaced-mono m n f h p = record {
  typed = p.typed;
  aligned = p.aligned;
  bit_in = p.bit_in;
  end_in = omega (arith, p.end_in);
}

IsPacked-mono : (m n : ℕ) (fs : List Field) → m ≤ n → IsPacked m fs → IsPacked n fs
unfolding IsPacked
IsPacked-mono m n [] h p = tt
IsPacked-mono m n (f ∷ fs) h p = (IsPlaced-mono m n f h p.0, p.1, IsPacked-mono m n fs h p.2)

All-IsBehind :
    (f a : Field) (fs : List Field)
    → IsTyped f
    → IsTyped a
    → IsBehind f a
    → All (IsBehind a) fs
    → All (IsBehind f) fs
All-IsBehind f a [] s t h k = tt
All-IsBehind f a (g ∷ fs) s t h k = (IsBehind-trans f a g s t h k.0, All-IsBehind f a fs s t h k.1)

fits_before :
    (limit : ℕ) (f a : Field)
    → f.offset + f.size ≤ limit
    → limit < 2 ^ 32
    → leb ((f.offset + f.size) % 2 ^ 32) a.offset ≡ true
    → f.offset + f.size ≤ a.offset
fits_before limit f a h r c = ground arith

module _ (limit : ℕ) (room : limit + 24 < 2 ^ 32) (f : Field) (typed : IsTyped f) where
  if_fields :
      (P : List Field → Type 0) (c : Bool) (x y : List Field)
      → (c ≡ true → P x)
      → P y
      → P (if c then x else y)
  if_fields P true x y p q = p refl
  if_fields P false x y p q = q

  -- What the fields are behind, the new field is behind.
  insert_field-IsBehind :
      (x b : Field) (fs : List Field)
      → IsTyped x
      → IsBehind x b
      → All (IsBehind x) fs
      → IsPacked limit (b ∷ fs)
      → All (IsBehind x) (insert_field f b fs)
  unfolding insert_field IsPacked
  insert_field-IsBehind x b [] t h k p =
      let g = tentative-Goes limit f b typed p.0 room in
      (h, (IsBehind-trans x b (compute_tentative_field_offset f b) t p.0.typed h g.1, tt))
  insert_field-IsBehind x b (a ∷ fs) t h k p =
      let g = tentative-Goes limit f b typed p.0 room in
      let further = insert_field-IsBehind x a fs t k.0 k.1 p.2 in
      let f' = compute_tentative_field_offset f b in
      if_fields (All (IsBehind x)) (leb ((f'.offset + f'.size) % 2 ^ 32) a.offset) (b ∷ f' ∷ a ∷ fs)
        (b ∷ insert_field f a fs)
        (λ _. (h, (IsBehind-trans x b (compute_tentative_field_offset f b) t p.0.typed h g.1, k)))
        (h, further)

  insert_field-IsPacked :
      (b : Field) (fs : List Field)
      → IsPacked limit (b ∷ fs)
      → IsPacked (limit + 24) (insert_field f b fs)
  unfolding insert_field IsPacked
  insert_field-IsPacked b [] p =
      let g = tentative-Goes limit f b typed p.0 room in
      (IsPlaced-mono limit _ b (omega arith) p.0, (g.1, tt), (g.0, tt, tt))
  insert_field-IsPacked b (a ∷ fs) p =
      let g = tentative-Goes limit f b typed p.0 room in
      let further = insert_field-IsPacked a fs p.2 in
      let b' = IsPlaced-mono limit (limit + 24) b (omega arith) p.0 in
      let f' = compute_tentative_field_offset f b in
      if_fields (IsPacked (limit + 24)) (leb ((f'.offset + f'.size) % 2 ^ 32) a.offset) _ _
        (λ c.
          let before_a : IsBehind f' a = inl (fits_before (limit + 24) f' a g.0.end_in room c) in
          (
            b',
            (g.1, p.1),
            (
              g.0,
              (before_a, All-IsBehind _ a fs g.0.typed p.2.0.typed before_a p.2.1),
              IsPacked-mono limit (limit + 24) (a ∷ fs) (omega arith) p.2,
            ),
          ))
        (b', insert_field-IsBehind b a fs p.0.typed p.1.0 p.1.1 p.2, further)

  pack_field-IsPacked :
      (fs : List Field) → IsPacked limit fs → IsPacked (limit + 24) (pack_field f fs)
  unfolding pack_field IsPacked
  pack_field-IsPacked [] p = (
    record {
      typed = moved-IsTyped f 0 0 typed;
      aligned = zero_aligned f.alignment typed.aligned_type;
      bit_in = omega arith;
      end_in = omega (arith, typed.size_le);
    },
    tt,
    tt,
  )
  pack_field-IsPacked (b ∷ fs) p = insert_field-IsPacked b fs p

pack_from-IsPacked :
    (limit : ℕ) (packed fields : List Field)
    → All IsTyped fields
    → limit + 24 * length fields < 2 ^ 32
    → IsPacked limit packed
    → IsPacked (limit + 24 * length fields) (pack_from packed fields)
unfolding pack_from
pack_from-IsPacked limit packed [] t h p = IsPacked-mono limit _ packed (omega arith) p
pack_from-IsPacked limit packed (f ∷ fields) t h p =
    let q = pack_field-IsPacked limit (omega arith) f t.0 packed p in
    IsPacked-mono (limit + 24 + 24 * length fields) _ (pack_from (pack_field f packed) fields)
      (omega arith)
      (pack_from-IsPacked (limit + 24) (pack_field f packed) fields t.1 (omega arith) q)

-- For fields of types that take 1 to 16 bytes at an alignment of 1, 2, 4 or 8, a bool taking one byte,
-- that are too few to pass 2^32 bytes at 24 bytes each: the packing puts every field at its alignment,
-- with a bit below 8 and an end at 24 bytes per field at most, and each field behind the ones before it
-- in packing order, at or after their ends or at a later bit of a byte that both use as bools.
pub compute_field_offsets-IsPacked :
    (fields : List Field)
    → All IsTyped fields
    → 24 * length fields < 2 ^ 32
    → IsPacked (24 * length fields) (compute_field_offsets fields)
unfolding compute_field_offsets IsPacked
compute_field_offsets-IsPacked fields t h =
    IsPacked-mono (0 + 24 * length fields) _ (pack_from [] fields) (omega arith)
      (pack_from-IsPacked 0 [] fields t (omega arith) tt)
