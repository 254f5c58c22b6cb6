-- ===== src/Versions/Loop.antt =====
-- The loop of computeVersionInfo, and what it returns.
use fidl.Prelude.{
  ℕ, ◌+◌, ◌%◌, ◌^◌, ◌<◌, ◌≤◌, ◌≡◌, sym, ap, ◌∙◌, refl, arith, Bool, true, false, List, [], ◌∷◌,
  ◌++◌, ltb, leb, if◌then◌else◌, length,
}
use fidl.Versions.{
  VersionedField, StructVersion, VersionLoop, maximum_uint32, compute_payload_size_so_far,
  take_version,
}
use fidl.Versions.Info.{
  fields_upto, bytes_upto, IsEntry, all_sizes, fields_upto-snoc, bytes_upto-snoc, all_sizes-snoc,
  IsLoop,
}

pub length-snoc : (xs : List ℕ) (x : ℕ) → length (xs ++ x ∷ []) ≡ length xs + 1
length-snoc [] x = refl
length-snoc (y ∷ ys) x = omega (arith, length-snoc ys x)

if_false : (b : Bool) (x y : ℕ) → b ≡ false → (if b then x else y) ≡ y
if_false true x y e = absurd (cc)
if_false false x y e = refl

if_true : (b : Bool) (x y : ℕ) → b ≡ true → (if b then x else y) ≡ x
if_true true x y e = refl
if_true false x y e = absurd (cc)

-- An entry of a lower version says nothing of a further field.
pub IsEntry-snoc :
    (ps : List (ℕ × ℕ)) (m size : ℕ) (e : StructVersion)
    → e.version_number < m
    → IsEntry ps e
    → IsEntry (ps ++ (m, size) ∷ []) e
IsEntry-snoc ps m size e l (a, b) =
    let n : leb m e.version_number ≡ false = ground arith in
    (
      a
          ∙ sym (
              fields_upto-snoc e.version_number ps m size
              ∙ ap (λ (x : ℕ). fields_upto e.version_number ps + x)
                  (if_false (leb m e.version_number) 1 0 n)
              ∙ (omega arith)),
      b
          ∙ sym (
              bytes_upto-snoc e.version_number ps m size 8
              ∙ if_false (leb m e.version_number) _ _ n),
    )

abbrev pub entry : ℕ → VersionLoop → StructVersion
entry n s = record {
  version_number = s.previous_min_version;
  num_fields = n;
  num_bytes = s.payload_size_so_far;
}

pub entry-IsEntry :
    (ps : List (ℕ × ℕ)) (s : VersionLoop) (n : ℕ)
    → IsLoop ps s
    → n ≡ length (all_sizes ps)
    → IsEntry ps (entry n s)
entry-IsEntry ps s n i e =
    let (a, b) = i.everything s.previous_min_version (omega arith) in (e ∙ sym a, sym b)

abbrev pub raised : ℕ → ℕ → ℕ → VersionLoop → VersionLoop
raised n value size s = record {
  previous_min_version = value;
  payload_size_so_far = maximum_uint32 s.payload_size_so_far size;
  version_info = s.version_info ++ entry n s ∷ [];
  min_versions = s.min_versions ++ value ∷ [];
}

abbrev pub kept : ℕ → ℕ → VersionLoop → VersionLoop
kept value size s = record {
  previous_min_version = s.previous_min_version;
  payload_size_so_far = maximum_uint32 s.payload_size_so_far size;
  version_info = s.version_info;
  min_versions = s.min_versions ++ value ∷ [];
}

pub take_version-cases :
    (i value : ℕ) (field : VersionedField) (s : VersionLoop) (P : VersionLoop → Type 0)
    → let size = compute_payload_size_so_far field in
      (s.previous_min_version < value → P (raised (i % 2 ^ 32) value size s))
      → (value ≤ s.previous_min_version → P (kept value size s))
      → P (take_version i value field s)
unfolding take_version
take_version-cases i value field s P f g =
    go (ltb s.previous_min_version value) (λ e. f (ground (arith, e))) (λ e. g (ground (arith, e)))
  where
    go :
        (b : Bool)
        → let size = compute_payload_size_so_far field in
          (b ≡ true → P (raised (i % 2 ^ 32) value size s))
          → (b ≡ false → P (kept value size s))
          → P (record {
            previous_min_version = if b then value else s.previous_min_version;
            payload_size_so_far = maximum_uint32 s.payload_size_so_far size;
            version_info =
                if b then s.version_info ++ entry (i % 2 ^ 32) s ∷ [] else s.version_info;
            min_versions = s.min_versions ++ value ∷ [];
          })
    go true f g = f refl
    go false f g = g refl

pub everything-snoc :
    (ps : List (ℕ × ℕ)) (s : VersionLoop) (value size v : ℕ)
    → IsLoop ps s
    → s.previous_min_version ≤ value
    → value ≤ v
    → let qs = ps ++ (value, size) ∷ [] in
      (fields_upto v qs ≡ length (all_sizes qs))
      × (bytes_upto v qs 8 ≡ maximum_uint32 s.payload_size_so_far size)
everything-snoc ps s value size v i l h =
    let (a, b) = i.everything v (omega (arith, l, h)) in
    let t : leb value v ≡ true = ground (arith, h) in
    (
      fields_upto-snoc v ps value size
          ∙ ap (λ (x : ℕ). fields_upto v ps + x) (if_true (leb value v) 1 0 t)
          ∙ ap (λ (x : ℕ). x + 1) a
          ∙ sym (
              ap (λ (xs : List ℕ). length xs) (all_sizes-snoc ps value size)
              ∙ length-snoc (all_sizes ps) size),
      bytes_upto-snoc v ps value size 8
          ∙ if_true (leb value v) _ _ t
          ∙ ap (λ (x : ℕ). maximum_uint32 x size) b,
    )
