-- ===== src/Structs/Fits.antt =====
-- One field behind another in the packing of computed_data.go.
use fidl.Prelude.{
  ℕ, ◌+◌, ◌%◌, ◌^◌, ◌≤◌, ◌<◌, ◌≡◌, ◌⊎◌, inl, inr, refl, ◌∙◌, arith, Bool, true, false, ◌&&◌, ltb,
  if◌then◌else◌,
}
use fidl.Structs.{Field, compute_padding, compute_tentative_field_offset}

abbrev pub IsAlignment : ℕ → Type 0
IsAlignment a = (a ≡ 1) ⊎ (a ≡ 2) ⊎ (a ≡ 4) ⊎ (a ≡ 8)

-- The sizes of field types: a bool takes a byte, and nothing takes more than 16.
pub record IsTyped (f : Field) : Type 0 where
  pub aligned_type : IsAlignment f.alignment
  pub size_pos : 1 ≤ f.size
  pub size_le : f.size ≤ 16
  pub bool_size : f.is_bool ≡ true → (f.size ≡ 1) × (f.alignment ≡ 1)

-- A field that lies at its alignment and ends at `limit` at most.
pub record IsPlaced (limit : ℕ) (f : Field) : Type 0 where
  pub typed : IsTyped f
  pub aligned : f.offset % f.alignment ≡ 0
  pub bit_in : f.bit < 8
  pub end_in : f.offset + f.size ≤ limit

-- `g` lies behind `f`, or is a later bit of the same byte.
abbrev pub IsBehind : Field → Field → Type 0
IsBehind f g =
    (f.offset + f.size ≤ g.offset)
    ⊎ ((f.is_bool ≡ true) × (g.is_bool ≡ true) × (f.offset ≡ g.offset) × (f.bit < g.bit))

compute_padding_lem :
    (o a : ℕ) → IsAlignment a → ((o + compute_padding o a) % a ≡ 0) × (compute_padding o a < 8)
unfolding compute_padding
compute_padding_lem o a (inl e) = rw e (omega arith)
compute_padding_lem o a (inr (inl e)) = rw e (omega arith)
compute_padding_lem o a (inr (inr (inl e))) = rw e (omega arith)
compute_padding_lem o a (inr (inr (inr e))) = rw e (omega arith)

-- A type does not change with the position.
pub moved-IsTyped : (f : Field) (o b : ℕ) → IsTyped f → IsTyped (record f { offset = o; bit = b })
moved-IsTyped f o b t = record {
  aligned_type = t.aligned_type;
  size_pos = t.size_pos;
  size_le = t.size_le;
  bool_size = t.bool_size;
}

-- A field that may be put behind `b`, under the next limit.
abbrev pub Goes : ℕ → Field → Field → Type 0
Goes limit b g = IsPlaced (limit + 24) g × IsBehind b g

if_Goes :
    (limit : ℕ) (b : Field) (c : Bool) (x y : Field)
    → (c ≡ true → Goes limit b x)
    → Goes limit b y
    → Goes limit b (if c then x else y)
if_Goes limit b true x y p q = p refl
if_Goes limit b false x y p q = q

pub zero_aligned : (a : ℕ) → IsAlignment a → 0 % a ≡ 0
zero_aligned a (inl e) = rw e refl
zero_aligned a (inr (inl e)) = rw e refl
zero_aligned a (inr (inr (inl e))) = rw e refl
zero_aligned a (inr (inr (inr e))) = rw e refl

one_aligned : (o a : ℕ) → a ≡ 1 → o % a ≡ 0
one_aligned o a e = rw e (omega arith)

shares_byte :
    (limit : ℕ) (f b : Field)
    → IsTyped f
    → IsPlaced limit b
    → (f.is_bool && b.is_bool && ltb b.bit 7) ≡ true
    → Goes limit b (record f { offset = b.offset; bit = b.bit + 1 })
shares_byte limit f b t p c =
    let fb : f.is_bool ≡ true = ground arith in
    let bb : b.is_bool ≡ true = ground arith in
    let small : b.bit < 7 = ground arith in
    let k = t.bool_size fb in
    let kb = p.typed.bool_size bb in
    (
      record {
        typed = moved-IsTyped f b.offset (b.bit + 1) t;
        aligned = one_aligned b.offset f.alignment k.1;
        bit_in = omega arith;
        end_in = omega (arith, p.end_in);
      },
      inr (bb, fb, refl, omega arith),
    )

takes_bytes :
    (limit : ℕ) (f b : Field)
    → IsTyped f
    → IsPlaced limit b
    → limit + 24 < 2 ^ 32
    → (o : ℕ) → o ≡ (b.offset + b.size) % 2 ^ 32
    → Goes limit b (record f { offset = (o + compute_padding o f.alignment) % 2 ^ 32; bit = 0 })
takes_bytes limit f b t p h o e =
    let k = compute_padding_lem o f.alignment t.aligned_type in
    let d : (o + compute_padding o f.alignment) % 2 ^ 32 ≡ o + compute_padding o f.alignment =
      omega (arith, p.end_in, k.1) in
    (
      record {
        typed = moved-IsTyped f _ 0 t;
        aligned = rw d k.0;
        bit_in = omega arith;
        end_in = omega (arith, d, k.1, p.end_in, t.size_le);
      },
      inl (omega (arith, d, p.end_in)),
    )

pub tentative-Goes :
    (limit : ℕ) (f b : Field)
    → IsTyped f
    → IsPlaced limit b
    → limit + 24 < 2 ^ 32
    → Goes limit b (compute_tentative_field_offset f b)
unfolding compute_tentative_field_offset
tentative-Goes limit f b t p h =
    if_Goes limit b (f.is_bool && b.is_bool && ltb b.bit 7) _ _ (shares_byte limit f b t p)
      (takes_bytes limit f b t p h _ refl)

pub IsBehind-trans :
    (f g h : Field) → IsTyped f → IsTyped g → IsBehind f g → IsBehind g h → IsBehind f h
IsBehind-trans f g h s t (inl p) (inl q) = inl (omega arith)
IsBehind-trans f g h s t (inl p) (inr q) = inl (omega (arith, q.2))
IsBehind-trans f g h s t (inr p) (inl q) =
    inl (omega (arith, p.2, q, (s.bool_size p.0).0, t.size_pos))
IsBehind-trans f g h s t (inr p) (inr q) = inr (p.0, q.1, p.2 ∙ q.2, omega (arith, p.3, q.3))
