-- ===== src/Ordinals/Tests.antt =====
-- Runs of ComputeFieldOrdinals, ComputeMethodOrdinals and ComputeFieldTags, and witnesses of what is proved of them.
use fidl.Prelude.{ℕ, ◌-◌, ◌^◌, ◌≡◌, refl, arith, Bool, some, List, [], ◌∷◌, length, All}
use fidl.Prelude.Int.{pos, negsuc}
use fidl.Ordinals.{
  Declared, ordinal_duplicate, ok, err, put_field, number_at, number_fields, compute_field_ordinals,
  compute_method_ordinals, number_methods, method_ordinal, put_entry, compute_field_tags,
  number_tags, field_tag, sort, insert, ordinal_range,
}
use fidl.Ordinals.Ordered.{
  IsNumbered, compute_method_ordinals-IsNumbered, compute_field_tags-IsNumbered,
}
use fidl.Ordinals.Slots.{
  Yields, IsFull, IsAtDeclared, count, count_slots, compute_field_ordinals-Yields,
}

-- struct { a@2; b@0; c; d@3; }
abbrev field_a : Declared
field_a = record { name = 1; declared_ordinal = pos 2 }

abbrev field_b : Declared
field_b = record { name = 2; declared_ordinal = pos 0 }

abbrev field_c : Declared
field_c = record { name = 3; declared_ordinal = negsuc 0 }

abbrev field_d : Declared
field_d = record { name = 4; declared_ordinal = pos 3 }

abbrev four : List Declared
four = field_a ∷ field_b ∷ field_c ∷ field_d ∷ []

four_run :
    compute_field_ordinals four
    ≡ ok (some field_b ∷ some field_c ∷ some field_a ∷ some field_d ∷ [])
unfolding compute_field_ordinals number_fields number_at put_field
four_run = refl

duplicate_run :
    compute_field_ordinals (field_b ∷ field_c ∷ field_b ∷ [])
    ≡ err (ordinal_duplicate 0 field_b field_b)
unfolding compute_field_ordinals number_fields number_at put_field
duplicate_run = refl

compute_field_ordinals-Yields_example :
    Yields
      (λ slots.
        (length slots ≡ 4)
        × All IsFull slots
        × ((p : Declared → Bool) → count_slots p slots ≡ count p four)
        × All (IsAtDeclared slots) four)
      (compute_field_ordinals four)
compute_field_ordinals-Yields_example = compute_field_ordinals-Yields four (omega arith)

abbrev method_at : ℕ → ℕ → Declared
method_at name ordinal = record { name = name; declared_ordinal = pos ordinal }

-- interface { a@2(); b@0(); c(); d@3(); };
four_methods_run :
    compute_method_ordinals four
    ≡ ok (
      (2, field_a) ∷ (0, field_b) ∷ (1, field_c) ∷ (3, field_d) ∷ [],
      some field_b ∷ some field_c ∷ some field_a ∷ some field_d ∷ [],
    )
unfolding compute_method_ordinals number_methods method_ordinal put_entry sort insert
four_methods_run = refl

-- A method behind the greatest ordinal gets the next one, which could not be declared; a union field does not.
method_after_greatest :
    compute_method_ordinals (method_at 1 (2 ^ 32 - 2) ∷ field_c ∷ [])
    ≡ ok (
      (2 ^ 32 - 2, method_at 1 (2 ^ 32 - 2)) ∷ (2 ^ 32 - 1, field_c) ∷ [],
      some (method_at 1 (2 ^ 32 - 2)) ∷ some field_c ∷ [],
    )
unfolding compute_method_ordinals number_methods method_ordinal put_entry sort insert
method_after_greatest = refl

tag_after_greatest :
    compute_field_tags (method_at 1 (2 ^ 32 - 2) ∷ field_c ∷ [])
    ≡ err (ordinal_range (2 ^ 32 - 1) field_c)
unfolding compute_field_tags number_tags field_tag put_entry sort insert
tag_after_greatest = refl

compute_method_ordinals-IsNumbered_example :
    Yields (IsNumbered (2 ^ 32) four) (compute_method_ordinals four)
compute_method_ordinals-IsNumbered_example = compute_method_ordinals-IsNumbered four

compute_field_tags-IsNumbered_example :
    Yields (IsNumbered (2 ^ 32 - 1) four) (compute_field_tags four)
compute_field_tags-IsNumbered_example = compute_field_tags-IsNumbered four
