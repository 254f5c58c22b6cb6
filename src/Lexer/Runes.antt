-- ===== src/Lexer/Runes.antt =====
-- Runes: the UTF-8 decoder of Go's unicode/utf8 and the tests of lexer.go on a rune.
pub mod Decoding
use fidl.Prelude.{ℕ, ◌+◌, ◌-◌, ◌*◌, Bool, ◌&&◌, ◌||◌, [], ◌∷◌, ltb, leb, ◌==◌, if◌then◌else◌}
use fidl.Prelude.Bytes.{Bytes}

abbrev pub rune_error : ℕ
rune_error = 0xfffd

abbrev pub within : ℕ → ℕ → ℕ → Bool
within lo hi c = leb lo c && leb c hi

abbrev failed : ℕ × ℕ
failed = (rune_error, 1)

-- The second byte's range depends on the first; the others are continuation bytes.
decode_two : ℕ → Bytes → ℕ × ℕ
decode_two b (c ∷ _) = if within 0x80 0xbf c then ((b - 0xc0) * 64 + (c - 0x80), 2) else failed
decode_two b _ = failed

decode_three : ℕ → ℕ → ℕ → Bytes → ℕ × ℕ
decode_three lo hi b (c ∷ d ∷ _) =
    if within lo hi c && within 0x80 0xbf d
    then ((b - 0xe0) * 4096 + (c - 0x80) * 64 + (d - 0x80), 3)
    else failed
decode_three lo hi b _ = failed

decode_four : ℕ → ℕ → ℕ → Bytes → ℕ × ℕ
decode_four lo hi b (c ∷ d ∷ e ∷ _) =
    if within lo hi c && within 0x80 0xbf d && within 0x80 0xbf e
    then ((b - 0xf0) * 262144 + (c - 0x80) * 4096 + (d - 0x80) * 64 + (e - 0x80), 4)
    else failed
decode_four lo hi b _ = failed

-- `utf8.DecodeRuneInString`: the rune and its width, (RuneError, 1) for an invalid encoding and
-- (RuneError, 0) at the end.
unfoldable pub decode_rune : Bytes → ℕ × ℕ
unfolding decode_two decode_three decode_four
decode_rune [] = (rune_error, 0)
decode_rune (b ∷ bs) =
    if ltb b 0x80
    then (b, 1)
    else if within 0xc2 0xdf b
    then decode_two b bs
    else if b == 0xe0
    then decode_three 0xa0 0xbf b bs
    else if b == 0xed
    then decode_three 0x80 0x9f b bs
    else if within 0xe1 0xef b
    then decode_three 0x80 0xbf b bs
    else if b == 0xf0
    then decode_four 0x90 0xbf b bs
    else if b == 0xf4
    then decode_four 0x80 0x8f b bs
    else if within 0xf1 0xf3 b
    then decode_four 0x80 0xbf b bs
    else failed

unfoldable pub is_skippable : ℕ → Bool
is_skippable c = c == b' ' || c == b'\t' || c == b'\r' || c == b'\n'

unfoldable pub is_equals_or_response_start : ℕ → Bool
is_equals_or_response_start c = c == b'='

unfoldable pub is_alpha : ℕ → Bool
is_alpha c = within b'a' b'z' c || within b'A' b'Z' c

unfoldable pub is_digit : ℕ → Bool
is_digit c = within b'0' b'9' c

unfoldable pub is_hex_digit : ℕ → Bool
unfolding is_digit
is_hex_digit c = is_digit c || within b'a' b'f' c || within b'A' b'F' c

unfoldable pub is_name_start : ℕ → Bool
unfolding is_alpha
is_name_start c = is_alpha c || c == b'_'

-- `isNameRune` of lexName
unfoldable pub is_name_rune : ℕ → Bool
unfolding is_alpha is_digit
is_name_rune c = is_alpha c || is_digit c || c == b'_'

unfoldable pub is_ordinal_start : ℕ → Bool
is_ordinal_start c = c == b'@'

unfoldable pub is_number_start : ℕ → Bool
unfolding is_digit
is_number_start c = is_digit c

unfoldable pub is_string_start : ℕ → Bool
is_string_start c = c == b'"'

unfoldable pub is_maybe_comment : ℕ → Bool
is_maybe_comment c = c == b'/'
