-- ===== src/Versions/Tests.antt =====
-- Runs of the version computations, and witnesses of what is proved of them.
use fidl.Prelude.{ℕ, ◌≡◌, refl, arith, true, Option, none, some, List, [], ◌∷◌}
use fidl.Prelude.Int.{pos}
use fidl.Structs.{compute_padding}
use fidl.Versions.{
  Attribute, integer_literal, int64_value, uint32_value, find_min_version, min_version_attribute,
  out_of_order, check_min_version, VersionedField, StructVersion, maximum_uint32,
  compute_payload_size_so_far, versions, refused, take_version, version_fields,
  compute_version_info, VersionedMethod, last_version, raise_version, version_methods,
  compute_interface_version,
}
use fidl.Versions.Yield.{
  Yields, IsVersionInfo, field_pairs, IsAscending, compute_version_info-Yields,
}
use fidl.Versions.Info.{all_min_versions}
use fidl.Versions.Interface.{
  IsGreatest, all_versions, method_min_versions, compute_interface_version-Yields,
}

abbrev min_version : ℕ → Option (List Attribute)
min_version n = some (record { is_min_version = true; value = integer_literal (pos n) } ∷ [])

abbrev field : ℕ → ℕ → Option (List Attribute) → VersionedField
field offset size attributes = record {
  attributes = attributes;
  allowed = true;
  offset = offset;
  size = size;
}

-- struct { int64 a; int32 b; [MinVersion=2] int32 c; [MinVersion=2] int8 d; [MinVersion=5] int64 e; };
abbrev five : List VersionedField
five =
    field 0 8 none
    ∷ field 8 4 none
    ∷ field 12 4 (min_version 2)
    ∷ field 16 1 (min_version 2)
    ∷ field 24 8 (min_version 5)
    ∷ []

abbrev five_info : List StructVersion
five_info =
    record { version_number = 0; num_fields = 2; num_bytes = 24 }
    ∷ record { version_number = 2; num_fields = 4; num_bytes = 32 }
    ∷ record { version_number = 5; num_fields = 5; num_bytes = 40 }
    ∷ []

five_run : compute_version_info five ≡ versions (five_info, 0 ∷ 0 ∷ 2 ∷ 2 ∷ 5 ∷ [])
unfolding compute_version_info version_fields min_version_attribute find_min_version uint32_value
    int64_value check_min_version take_version maximum_uint32 compute_payload_size_so_far
    compute_padding
five_run = refl

falling_run :
    compute_version_info (field 0 4 (min_version 3) ∷ field 4 4 (min_version 2) ∷ [])
    ≡ refused out_of_order
unfolding compute_version_info version_fields min_version_attribute find_min_version uint32_value
    int64_value check_min_version take_version maximum_uint32 compute_payload_size_so_far
    compute_padding
falling_run = refl

compute_version_info-Yields_example :
    Yields
      (λ r.
        IsVersionInfo (field_pairs five) r.0
        × (r.1 ≡ all_min_versions (field_pairs five))
        × IsAscending 0 r.1)
      (compute_version_info five)
compute_version_info-Yields_example = compute_version_info-Yields five (omega arith)

abbrev two_methods : List VersionedMethod
two_methods =
    record { method_attributes = none; parameters = some five_info; response_parameters = none }
    ∷ record { method_attributes = min_version 3; parameters = none; response_parameters = none }
    ∷ []

two_methods_run : compute_interface_version two_methods ≡ versions (5, 0 ∷ 3 ∷ [])
unfolding compute_interface_version version_methods min_version_attribute find_min_version
    uint32_value int64_value check_min_version raise_version last_version
two_methods_run = refl

compute_interface_version-Yields_example :
    Yields
      (λ r.
        IsGreatest 0 (all_versions two_methods) r.0
        × (r.1 ≡ method_min_versions two_methods)
        × IsAscending 0 (method_min_versions two_methods))
      (compute_interface_version two_methods)
compute_interface_version-Yields_example =
    compute_interface_version-Yields two_methods ((tt, tt), ((tt, tt), tt))
