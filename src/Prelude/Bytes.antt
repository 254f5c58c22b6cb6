-- ===== src/Prelude/Bytes.antt =====
-- Little-endian words in a byte slice: encoding/binary's `LittleEndian.PutUintN` and `UintN`.
use Prim.Native.Nat.{ℕ, zero, suc, ◌+◌, ◌*◌, ◌/◌, ◌%◌, ◌^◌, ◌≤◌, ◌<◌}
use mathlib.Core.Path.{◌≡◌, refl, ◌∙◌}
use mathlib.Core.Logic.{◌⊎◌, inl}
use mathlib.Core.List.{List, [], ◌∷◌}
use native.Mathlib.Omega.{arith}
use fidl.Prelude.Lists.{All, length, set, get_or, length-set, get_or-set_self, get_or-set_ne}

abbrev pub Bytes : Type 0
Bytes = List ℕ

-- `n` bytes of `v` from index `off` on, lowest first. The caller has checked that they fit.
abbrev pub put_le : ℕ → ℕ → ℕ → Bytes → Bytes
put_le zero off v b = b
put_le (suc n) off v b = put_le n (suc off) (v / 256) (set b off (v % 256))

abbrev pub get_le : ℕ → ℕ → Bytes → ℕ
get_le zero off b = 0
get_le (suc n) off b = get_or b off 0 + 256 * get_le n (suc off) b

pub length-put_le : (n off v : ℕ) (b : Bytes) → length (put_le n off v b) ≡ length b
length-put_le zero off v b = refl
length-put_le (suc n) off v b = length-put_le n (suc off) (v / 256) _ ∙ length-set b off _

-- Bytes outside the word stay.
pub get_or-put_le :
    (n off v : ℕ) (b : Bytes) (i : ℕ)
    → (i < off) ⊎ (off + n ≤ i)
    → get_or (put_le n off v b) i 0 ≡ get_or b i 0
get_or-put_le zero off v b i h = refl
get_or-put_le (suc n) off v b i h =
    get_or-put_le n (suc off) (v / 256) (set b off (v % 256)) i (omega arith)
    ∙ get_or-set_ne b off i (v % 256) 0 (omega arith)

-- A word depends on its own bytes only.
pub get_le-agree :
    (n off : ℕ) (b c : Bytes)
    → ((i : ℕ) → off ≤ i → i < off + n → get_or b i 0 ≡ get_or c i 0)
    → get_le n off b ≡ get_le n off c
get_le-agree zero off b c h = refl
get_le-agree (suc n) off b c h = omega (
  arith,
  h off (omega arith) (omega arith),
  get_le-agree n (suc off) b c (λ i p q. h i (omega arith) (omega arith)),
)

-- The value of the lowest `n` bytes of `v`.
abbrev pub low_bytes : ℕ → ℕ → ℕ
low_bytes zero v = 0
low_bytes (suc n) v = v % 256 + 256 * low_bytes n (v / 256)

-- Reading back what was written gives the value, cut to the width.
pub get_le-put_le :
    (n off v : ℕ) (b : Bytes) → off + n ≤ length b → get_le n off (put_le n off v b) ≡ low_bytes n v
get_le-put_le zero off v b h = refl
get_le-put_le (suc n) off v b h =
    let b' = set b off (v % 256) in
    omega (
      arith,
      get_or-put_le n (suc off) (v / 256) b' off (inl (omega arith)),
      get_or-set_self b off (v % 256) 0 (omega arith),
      get_le-put_le n (suc off) (v / 256) b' (omega (arith, length-set b off (v % 256))),
    )

pub low_bytes_one : (v : ℕ) → v < 2 ^ 8 → low_bytes 1 v ≡ v
low_bytes_one v h = omega arith

pub low_bytes_two : (v : ℕ) → v < 2 ^ 16 → low_bytes 2 v ≡ v
low_bytes_two v h = omega arith

pub low_bytes_four : (v : ℕ) → v < 2 ^ 32 → low_bytes 4 v ≡ v
low_bytes_four v h = omega arith

pub low_bytes_eight : (v : ℕ) → v < 2 ^ 64 → low_bytes 8 v ≡ v
low_bytes_eight v h = omega arith

-- A slice of bytes.
abbrev pub IsBytes : Bytes → Type 0
IsBytes = All (λ b. b < 256)

pub get_or-IsBytes : (b : Bytes) (i : ℕ) → IsBytes b → get_or b i 0 < 256
get_or-IsBytes [] i h = omega arith
get_or-IsBytes (x ∷ b) zero h = h.0
get_or-IsBytes (x ∷ b) (suc i) h = get_or-IsBytes b i h.1

pub get_le_four-lt : (off : ℕ) (b : Bytes) → IsBytes b → get_le 4 off b < 2 ^ 32
get_le_four-lt off b h = omega (
  arith,
  get_or-IsBytes b off h,
  get_or-IsBytes b (suc off) h,
  get_or-IsBytes b (suc (suc off)) h,
  get_or-IsBytes b (suc (suc (suc off))) h,
)
