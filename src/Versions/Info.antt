-- ===== src/Versions/Info.antt =====
-- What the version info of a struct says of its fields.
use fidl.Prelude.{
  ℕ, ◌+◌, ◌<◌, ◌≤◌, ◌≡◌, ap, refl, arith, ◌⊎◌, Bool, true, false, ◌||◌, List, [], ◌∷◌, ◌++◌, ltb,
  leb, ◌==◌, if◌then◌else◌, length, All,
}
use fidl.Versions.{StructVersion, VersionLoop, maximum_uint32}

-- A field as a minVersion and the payload size up to it. How many fields there are up to version `v`:
abbrev pub fields_upto : ℕ → List (ℕ × ℕ) → ℕ
fields_upto v [] = 0
fields_upto v ((m, size) ∷ ps) = (if leb m v then 1 else 0) + fields_upto v ps

-- the largest of a first size and the sizes of the fields up to version `v`
abbrev pub bytes_upto : ℕ → List (ℕ × ℕ) → ℕ → ℕ
bytes_upto v [] bytes = bytes
bytes_upto v ((m, size) ∷ ps) bytes =
    bytes_upto v ps (if leb m v then (if ltb size bytes then bytes else size) else bytes)

-- What an entry of the version info says of the fields.
abbrev pub IsEntry : List (ℕ × ℕ) → StructVersion → Type 0
IsEntry ps e =
    (e.num_fields ≡ fields_upto e.version_number ps)
    × (e.num_bytes ≡ bytes_upto e.version_number ps 8)

abbrev pub IsRising : List StructVersion → Type 0
IsRising [] = Unit
IsRising (e ∷ es) = All (λ f. e.version_number < f.version_number) es × IsRising es

abbrev pub has_version : ℕ → List StructVersion → Bool
has_version v [] = false
has_version v (e ∷ es) = v == e.version_number || has_version v es

abbrev pub all_min_versions : List (ℕ × ℕ) → List ℕ
all_min_versions [] = []
all_min_versions ((m, size) ∷ ps) = m ∷ all_min_versions ps

abbrev pub all_sizes : List (ℕ × ℕ) → List ℕ
all_sizes [] = []
all_sizes ((m, size) ∷ ps) = size ∷ all_sizes ps

pub fields_upto-snoc :
    (v : ℕ) (ps : List (ℕ × ℕ)) (m size : ℕ)
    → fields_upto v (ps ++ (m, size) ∷ []) ≡ fields_upto v ps + (if leb m v then 1 else 0)
fields_upto-snoc v [] m size = ground arith
fields_upto-snoc v ((k, a) ∷ ps) m size = omega (arith, fields_upto-snoc v ps m size)

pub bytes_upto-snoc :
    (v : ℕ) (ps : List (ℕ × ℕ)) (m size bytes : ℕ)
    → bytes_upto v (ps ++ (m, size) ∷ []) bytes
      ≡ (if leb m v then maximum_uint32 (bytes_upto v ps bytes) size else bytes_upto v ps bytes)
unfolding maximum_uint32
bytes_upto-snoc v [] m size bytes = refl
bytes_upto-snoc v ((k, a) ∷ ps) m size bytes = bytes_upto-snoc v ps m size _

pub All-snoc :
    {A : Type 0} (P : A → Type 0) (xs : List A) (x : A) → All P xs → P x → All P (xs ++ x ∷ [])
All-snoc P [] x h k = (k, tt)
All-snoc P (y ∷ ys) x h k = (h.0, All-snoc P ys x h.1 k)

pub All-map :
    {A : Type 0} (P Q : A → Type 0) (xs : List A) → ((x : A) → P x → Q x) → All P xs → All Q xs
All-map P Q [] f h = tt
All-map P Q (x ∷ xs) f h = (f x h.0, All-map P Q xs f h.1)

pub IsRising-snoc :
    (es : List StructVersion) (e : StructVersion)
    → IsRising es
    → All (λ f. f.version_number < e.version_number) es
    → IsRising (es ++ e ∷ [])
IsRising-snoc [] e h k = (tt, tt)
IsRising-snoc (f ∷ es) e h k = (All-snoc _ es e h.0 k.0, IsRising-snoc es e h.1 k.1)

pub has_version-snoc :
    (v : ℕ) (es : List StructVersion) (e : StructVersion)
    → has_version v (es ++ e ∷ []) ≡ (has_version v es || v == e.version_number)
has_version-snoc v [] e = ground arith
has_version-snoc v (f ∷ es) e = ground (arith, has_version-snoc v es e)

pub all_min_versions-snoc :
    (ps : List (ℕ × ℕ)) (m size : ℕ)
    → all_min_versions (ps ++ (m, size) ∷ []) ≡ all_min_versions ps ++ m ∷ []
all_min_versions-snoc [] m size = refl
all_min_versions-snoc ((k, a) ∷ ps) m size =
    ap {B = List ℕ} (λ ms. k ∷ ms) (all_min_versions-snoc ps m size)

pub all_sizes-snoc :
    (ps : List (ℕ × ℕ)) (m size : ℕ) → all_sizes (ps ++ (m, size) ∷ []) ≡ all_sizes ps ++ size ∷ []
all_sizes-snoc [] m size = refl
all_sizes-snoc ((k, a) ∷ ps) m size = ap {B = List ℕ} (λ ms. a ∷ ms) (all_sizes-snoc ps m size)

-- What the loop keeps: `ps` are the fields that it has passed.
pub record IsLoop (ps : List (ℕ × ℕ)) (s : VersionLoop) : Type 0 where
  pub mins : s.min_versions ≡ all_min_versions ps
  pub everything :
      (v : ℕ)
      → s.previous_min_version ≤ v
      → (fields_upto v ps ≡ length (all_sizes ps)) × (bytes_upto v ps 8 ≡ s.payload_size_so_far)
  pub entries : All (λ e. (e.version_number < s.previous_min_version) × IsEntry ps e) s.version_info
  pub rising : IsRising s.version_info
  pub listed :
      All
        (λ m. (has_version m s.version_info ≡ true) ⊎ (m ≡ s.previous_min_version))
        (0 ∷ all_min_versions ps)
