-- ===== src/Lexer/Left.antt =====
-- The bytes that are left to read, and the loops of lexer.go measured by them.
use fidl.Prelude.{
  ℕ, zero, suc, ◌+◌, ◌-◌, ◌≤◌, ◌<◌, ◌≡◌, refl, arith, Bool, true, false, Bool-cases, inl, inr,
  length, drop, length-drop,
}
use fidl.Lexer.Runes.{rune_error, is_skippable, is_digit}
use fidl.Lexer.Runes.Decoding.{decode_rune-IsStep}
use fidl.Lexer.Tokens.{TokenKind, empty_line}
use fidl.Lexer.Machine.{
  Lexer, begin_token, emit_token, is_eos, rune_at, consume, peek, loop, loop_all,
}
use fidl.Lexer.States.{skip_round, string_round}

unfoldable pub left : Lexer → ℕ
left l = length l.source - l.source_pos_bytes

pub peek_at_end : (l : Lexer) → left l ≡ 0 → peek l ≡ rune_error
unfolding left peek is_eos
peek_at_end l h = ground arith

pub left_of_is_eos : (l : Lexer) → is_eos l ≡ false → 0 < left l
unfolding left is_eos
left_of_is_eos l h = ground arith

pub left-consume-lt : (l : Lexer) → 0 < left l → left (consume l) < left l
unfolding left consume is_eos rune_at
left-consume-lt l h =
    let k = length-drop l.source_pos_bytes l.source in
    let st = decode_rune-IsStep (drop l.source_pos_bytes l.source) (omega (arith, k)) in
    ground (arith, st.width_pos, st.width_in, k)

pub left-consume-le : (l : Lexer) → left (consume l) ≤ left l
unfolding left consume is_eos rune_at
left-consume-le l = ground arith

pub left-emit_token : (k : TokenKind) (l : Lexer) → left (emit_token k l) ≡ left l
unfolding left emit_token begin_token
left-emit_token k l = refl

pub left-begin_token : (l : Lexer) → left (begin_token l) ≡ left l
unfolding left begin_token
left-begin_token l = refl

pub left-loop-le :
    (test : Lexer → Bool) (body : Lexer → Lexer)
    → ((l : Lexer) → left (body l) ≤ left l)
    → (fuel : ℕ) (l : Lexer) → left (loop test body fuel l) ≤ left l
unfolding loop
left-loop-le test body keep zero l = omega arith
left-loop-le test body keep (suc fuel) l =
    let rest = left-loop-le test body keep fuel (body l) in
    let k = keep l in
    elim (test l)
      as (λ b. left (elim b [ true ↦ loop test body fuel (body l) | false ↦ l ]) ≤ left l) [
        | true ↦ omega arith
        | false ↦ omega arith
      ]

-- A loop whose test holds makes a round.
pub left-loop_all-lt :
    (test : Lexer → Bool) (body : Lexer → Lexer)
    → ((l : Lexer) → left (body l) ≤ left l)
    → (l : Lexer) → test l ≡ true
    → left (body l) < left l
    → left (loop_all test body l) < left l
unfolding loop
left-loop_all-lt test body keep l t k =
    let e : length l.source + 1 ≡ suc (length l.source) = omega arith in
    rw (e, loop, t) (omega (arith, left-loop-le test body keep (length l.source) (body l)))

pub loop-ends :
    (test : Lexer → Bool) (body : Lexer → Lexer)
    → ((l : Lexer) → test l ≡ true → left (body l) < left l)
    → (fuel : ℕ) (l : Lexer) → left l < fuel
    → test (loop test body fuel l) ≡ false
unfolding loop
loop-ends test body less zero l h = absurd (omega arith)
loop-ends test body less (suc fuel) l h = elim (Bool-cases (test l)) [
  | inl t ↦
      let k = less l t in
      let rest = loop-ends test body less fuel (body l) (omega arith) in rw (loop, t) rest
  | inr f ↦ rw (loop, f) f
]

-- A loop whose rounds consume is given enough fuel: it ends at a lexer that fails its test.
pub loop_all-ends :
    (test : Lexer → Bool) (body : Lexer → Lexer)
    → ((l : Lexer) → test l ≡ true → left (body l) < left l)
    → (l : Lexer) → test (loop_all test body l) ≡ false
unfolding left
loop_all-ends test body less l = loop-ends test body less (length l.source + 1) l (omega arith)

pub left_of_digit : (l : Lexer) → is_digit (peek l) ≡ true → 0 < left l
unfolding is_digit
left_of_digit l h = ground (arith, peek_at_end l)

pub left_of_skippable : (l : Lexer) → is_skippable (peek l) ≡ true → 0 < left l
unfolding is_skippable
left_of_skippable l h = ground (arith, peek_at_end l)

pub left-skip_round-lt : (l : Lexer) → is_skippable (peek l) ≡ true → left (skip_round l) < left l
unfolding skip_round
left-skip_round-lt l h =
    let b = begin_token l in
    let e = emit_token empty_line b in
    ground (
      arith,
      left_of_skippable l h,
      left-begin_token l,
      left-emit_token empty_line b,
      left-consume-lt b,
      left-consume-lt e,
    )

pub left-skip_round-le : (l : Lexer) → left (skip_round l) ≤ left l
unfolding skip_round
left-skip_round-le l =
    let b = begin_token l in
    let e = emit_token empty_line b in
    ground (
      arith,
      left-begin_token l,
      left-emit_token empty_line b,
      left-consume-le b,
      left-consume-le e,
    )

pub left-string_round-le : (l : Lexer) → left (string_round l) ≤ left l
unfolding string_round
left-string_round-le l = ground (arith, left-consume-le l, left-consume-le (consume l))
