-- ===== src/Structs.antt =====
-- Struct packing: compiler/src/fidl/compiler/core/computed_data.go. A field is what the packing reads
-- and sets of a StructField: the size and alignment of its type, whether it is a bool, offset and bit.
pub mod Fits
pub mod Packing
pub mod Same
mod Tests
use fidl.Prelude.{ℕ, ◌+◌, ◌-◌, ◌%◌, ◌^◌, Bool, ◌&&◌, List, [], ◌∷◌, ltb, leb, if◌then◌else◌}

pub record Field : Type 0 where
  pub size : ℕ
  pub alignment : ℕ
  pub is_bool : Bool
  pub offset : ℕ
  pub bit : ℕ

-- The alignment is positive, and larger than the remainder.
unfoldable pub compute_padding : ℕ → ℕ → ℕ
compute_padding offset alignment = (alignment - offset % alignment) % alignment

unfoldable pub compute_tentative_field_offset : Field → Field → Field
unfolding compute_padding
compute_tentative_field_offset field previous =
    if field.is_bool && previous.is_bool && ltb previous.bit 7
    then record field { offset = previous.offset; bit = previous.bit + 1 }
    else let offset = (previous.offset + previous.size) % 2 ^ 32 in
      record field { offset = (offset + compute_padding offset field.alignment) % 2 ^ 32; bit = 0 }

-- One field's search behind `before`, whose successors in packing order are the last argument.
unfoldable pub insert_field : Field → Field → List Field → List Field
unfolding compute_tentative_field_offset
insert_field field before [] = before ∷ compute_tentative_field_offset field before ∷ []
insert_field field before (after ∷ afters) =
    let field' = compute_tentative_field_offset field before in
    let further = insert_field field after afters in
    if leb ((field'.offset + field'.size) % 2 ^ 32) after.offset
    then before ∷ field' ∷ after ∷ afters
    else before ∷ further

-- one round of the loop over the fields
unfoldable pub pack_field : Field → List Field → List Field
unfolding insert_field
pack_field field [] = record field { offset = 0; bit = 0 } ∷ []
pack_field field (before ∷ afters) = insert_field field before afters

unfoldable pub pack_from : List Field → List Field → List Field
unfolding pack_field
pack_from packed [] = packed
pack_from packed (field ∷ fields) = pack_from (pack_field field packed) fields

-- `computeFieldOffsets`: from the fields in ordinal order, the fields in packing order
unfoldable pub compute_field_offsets : List Field → List Field
unfolding pack_from
compute_field_offsets fields = pack_from [] fields
