-- ===== src/Structs/Tests.antt =====
-- A concrete struct.
use fidl.Prelude.{ℕ, ◌≡◌, refl, arith, inl, inr, Bool, true, false, List, [], ◌∷◌, map, leb}
use fidl.Structs.{
  Field, compute_padding, compute_tentative_field_offset, insert_field, pack_field, pack_from,
  compute_field_offsets,
}
use fidl.Structs.Fits.{IsTyped}
use fidl.Structs.Packing.{IsPacked, compute_field_offsets-IsPacked}
use fidl.Structs.Same.{count_fields, count-compute_field_offsets}

abbrev of_type : ℕ → Bool → Field
of_type n b = record { size = n; alignment = n; is_bool = b; offset = 0; bit = 0 }

-- bool, int64, int16, bool, int32
abbrev fields : List Field
fields = of_type 1 true ∷ of_type 8 false ∷ of_type 2 false ∷ of_type 1 true ∷ of_type 4 false ∷ []

-- The second bool shares the first one's byte, and the int16 and the int32 fill the hole.
packed :
    map {B = ℕ × ℕ × ℕ} (λ f. (f.size, f.offset, f.bit)) (compute_field_offsets fields)
    ≡ (1, 0, 0) ∷ (1, 0, 1) ∷ (2, 2, 0) ∷ (4, 4, 0) ∷ (8, 8, 0) ∷ []
unfolding compute_field_offsets pack_from pack_field insert_field compute_tentative_field_offset
    compute_padding
packed = refl

bool_IsTyped : IsTyped (of_type 1 true)
bool_IsTyped = record {
  aligned_type = inl refl;
  size_pos = omega arith;
  size_le = omega arith;
  bool_size = λ _. (refl, refl);
}

int64_IsTyped : IsTyped (of_type 8 false)
int64_IsTyped = record {
  aligned_type = inr (inr (inr refl));
  size_pos = omega arith;
  size_le = omega arith;
  bool_size = λ e. cc;
}

abbrev two_fields : List Field
two_fields = of_type 1 true ∷ of_type 8 false ∷ []

compute_field_offsets-IsPacked_example : IsPacked 48 (compute_field_offsets two_fields)
compute_field_offsets-IsPacked_example =
    compute_field_offsets-IsPacked two_fields (bool_IsTyped, (int64_IsTyped, tt)) (omega arith)

count-compute_field_offsets_example :
    count_fields (λ f. leb 4 f.size) (compute_field_offsets fields) ≡ 2
count-compute_field_offsets_example = count-compute_field_offsets (λ f. leb 4 f.size) fields
