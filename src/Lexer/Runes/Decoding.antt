-- ===== src/Lexer/Runes/Decoding.antt =====
-- What the lexer relies on of the UTF-8 decoder.
use fidl.Prelude.{
  refl, ℕ, ◌+◌, ◌≤◌, ◌<◌, ◌≡◌, arith, Bool, true, false, [], ◌∷◌, ◌==◌, ltb, if◌then◌else◌, length,
  take,
}
use fidl.Prelude.Bytes.{Bytes}
use fidl.Lexer.Runes.{within, decode_rune, decode_two, decode_three, decode_four}

-- the newlines of a text
abbrev pub newlines : Bytes → ℕ
newlines [] = 0
newlines (b ∷ bs) = (if b == b'\n' then 1 else 0) + newlines bs

-- A rune and its width at the front of `b`: the width is within the text, and the rune is a newline
-- exactly if these bytes hold one.
pub record IsStep (b : Bytes) (r : ℕ × ℕ) : Type 0 where
  pub width_pos : 1 ≤ r.1
  pub width_in : r.1 ≤ length b
  pub newline : newlines (take r.1 b) ≡ (if r.0 == b'\n' then 1 else 0)

if_IsStep :
    (b : Bytes) (t : Bool) (x y : ℕ × ℕ)
    → (t ≡ true → IsStep b x)
    → (t ≡ false → IsStep b y)
    → IsStep b (if t then x else y)
if_IsStep b true x y p q = p refl
if_IsStep b false x y p q = q refl

one : (b : ℕ) (bs : Bytes) → ltb b 0x80 ≡ true → IsStep (b ∷ bs) (b, 1)
one b bs h = ground arith

invalid : (b : ℕ) (bs : Bytes) → ltb b 0x80 ≡ false → IsStep (b ∷ bs) (0xfffd, 1)
invalid b bs h = ground arith

two : (b : ℕ) (bs : Bytes) → within 0xc2 0xdf b ≡ true → IsStep (b ∷ bs) (decode_two b bs)
unfolding decode_two
two b [] h = ground arith
two b (c ∷ bs) h = ground arith

three :
    (lo hi b : ℕ) (bs : Bytes)
    → within 0xe0 0xef b ≡ true
    → 0x80 ≤ lo
    → (b ≡ 0xe0 → 0xa0 ≤ lo)
    → IsStep (b ∷ bs) (decode_three lo hi b bs)
unfolding decode_three
three lo hi b [] h k m = ground arith
three lo hi b (c ∷ []) h k m = ground arith
three lo hi b (c ∷ d ∷ bs) h k m = ground arith

four :
    (lo hi b : ℕ) (bs : Bytes)
    → within 0xf0 0xf4 b ≡ true
    → 0x80 ≤ lo
    → (b ≡ 0xf0 → 0x90 ≤ lo)
    → IsStep (b ∷ bs) (decode_four lo hi b bs)
unfolding decode_four
four lo hi b [] h k m = ground arith
four lo hi b (c ∷ []) h k m = ground arith
four lo hi b (c ∷ d ∷ []) h k m = ground arith
four lo hi b (c ∷ d ∷ e ∷ bs) h k m = ground arith

e0 : (b : ℕ) (bs : Bytes) → b == 0xe0 ≡ true → IsStep (b ∷ bs) (decode_three 0xa0 0xbf b bs)
e0 b bs t = three 0xa0 0xbf b bs (ground arith) (omega arith) (λ _. omega arith)

ed : (b : ℕ) (bs : Bytes) → b == 0xed ≡ true → IsStep (b ∷ bs) (decode_three 0x80 0x9f b bs)
ed b bs t = three 0x80 0x9f b bs (ground arith) (omega arith) (λ q. ground arith)

e1 :
    (b : ℕ) (bs : Bytes) → within 0xe1 0xef b ≡ true → IsStep (b ∷ bs) (decode_three 0x80 0xbf b bs)
e1 b bs t = three 0x80 0xbf b bs (ground arith) (omega arith) (λ q. ground arith)

f0 : (b : ℕ) (bs : Bytes) → b == 0xf0 ≡ true → IsStep (b ∷ bs) (decode_four 0x90 0xbf b bs)
f0 b bs t = four 0x90 0xbf b bs (ground arith) (omega arith) (λ _. omega arith)

f4 : (b : ℕ) (bs : Bytes) → b == 0xf4 ≡ true → IsStep (b ∷ bs) (decode_four 0x80 0x8f b bs)
f4 b bs t = four 0x80 0x8f b bs (ground arith) (omega arith) (λ q. ground arith)

f1 : (b : ℕ) (bs : Bytes) → within 0xf1 0xf3 b ≡ true → IsStep (b ∷ bs) (decode_four 0x80 0xbf b bs)
f1 b bs t = four 0x80 0xbf b bs (ground arith) (omega arith) (λ q. ground arith)

pub decode_rune-IsStep : (b : Bytes) → 0 < length b → IsStep b (decode_rune b)
unfolding decode_rune
decode_rune-IsStep [] h = elim h [ ]
decode_rune-IsStep (b ∷ bs) h = if_IsStep _ (ltb b 0x80) _ _ (one b bs) (λ n.
    if_IsStep _ (within 0xc2 0xdf b) _ _ (two b bs) (λ _.
      if_IsStep _ (b == 0xe0) _ _ (e0 b bs) (λ _. if_IsStep _ (b == 0xed) _ _ (ed b bs) (λ _.
        if_IsStep _ (within 0xe1 0xef b) _ _ (e1 b bs) (λ _.
          if_IsStep _ (b == 0xf0) _ _ (f0 b bs) (λ _.
            if_IsStep _ (b == 0xf4) _ _ (f4 b bs)
              (λ _. if_IsStep _ (within 0xf1 0xf3 b) _ _ (f1 b bs) (λ _. invalid b bs n))))))))
