-- ===== src/Lexer/Positions.antt =====
-- Where the lexer of lexer.go is in its source, and where its tokens lie: the line it counts, and the
-- text that each token carries.
use fidl.Prelude.{
  ℕ, zero, suc, ◌+◌, ◌*◌, ◌≤◌, ◌≡◌, ◌≢◌, refl, ap, arith, Bool, true, false, Option, none, some,
  List, [], ◌∷◌, ◌++◌, leb, if◌then◌else◌, length, take, drop, length-drop,
}
use fidl.Prelude.Bytes.{Bytes}
use fidl.Lexer.Runes.{decode_rune}
use fidl.Lexer.Runes.Decoding.{newlines, IsStep, decode_rune-IsStep}
use fidl.Lexer.Tokens.{TokenKind, Token}
use fidl.Lexer.Machine.{
  Lexer, slice, start, cur_text, begin_token, emit_token, is_eos, rune_at, consume,
}
use fidl.Lexer.States.{root, run, tokenize_unfiltered}
use fidl.Lexer.Ends.{run-root-ne-none}
use fidl.Lexer.Moves.{run_keeps}

-- The tokens lie in the first `to` bytes of the source in the order of the list, none over another;
-- each carries its bytes, up to some `end`, and the number of newlines before it.
pub data Lies (source : Bytes) : List Token → ℕ → Type 0 where
  none_yet : (to : ℕ) → Lies source [] to
  one_more :
      (ts : List Token) (from end to : ℕ) (t : Token)
      → Lies source ts from
      → from ≤ t.source_pos_bytes
      → t.source_pos_bytes ≤ end
      → end ≤ to
      → t.text ≡ slice t.source_pos_bytes end source
      → t.line_no ≡ newlines (take t.source_pos_bytes source)
      → Lies source (ts ++ (t ∷ [])) to

pub record IsPlaced (source : Bytes) (l : Lexer) : Type 0 where
  pub same_source : l.source ≡ source
  pub pos_in : l.source_pos_bytes ≤ length source
  pub cur_le : l.cur_token_source_pos_bytes ≤ l.source_pos_bytes
  pub line : l.line_no ≡ newlines (take l.source_pos_bytes source)
  pub cur_line : l.cur_token_line_no ≡ newlines (take l.cur_token_source_pos_bytes source)
  pub placed : Lies source l.tokens l.cur_token_source_pos_bytes

newlines_append : (xs ys : Bytes) → newlines (xs ++ ys) ≡ newlines xs + newlines ys
newlines_append [] ys = omega arith
newlines_append (x ∷ xs) ys = omega (arith, newlines_append xs ys)

take_nil : (w : ℕ) → 0 ≡ 0 + newlines (take w [])
take_nil zero = refl
take_nil (suc w) = refl

-- the lines after a rune of width `w` at `n`
newlines-take_add :
    (n w : ℕ) (xs : Bytes)
    → newlines (take (n + w) xs) ≡ newlines (take n xs) + newlines (take w (drop n xs))
newlines-take_add zero w xs = let e : 0 + w ≡ w = omega arith in rw e (omega arith)
newlines-take_add (suc n) w [] = let e : suc n + w ≡ suc (n + w) = omega arith in rw e (take_nil w)
newlines-take_add (suc n) w (x ∷ xs) =
    let e : suc n + w ≡ suc (n + w) = omega arith in rw e (omega (arith, newlines-take_add n w xs))

later : (source : Bytes) (ts : List Token) (m n : ℕ) → m ≤ n → Lies source ts m → Lies source ts n
later source _ m n k (none_yet _) = none_yet n
later source _ m n k (one_more us from end _ t h a b c d e) =
    one_more us from end n t h a b (omega arith) d e

if_IsPlaced :
    (source : Bytes) (b : Bool) (x y : Lexer)
    → IsPlaced source x
    → (b ≡ false → IsPlaced source y)
    → IsPlaced source (if b then x else y)
if_IsPlaced source true x y p q = p
if_IsPlaced source false x y p q = q refl

IsStep-at :
    (source : Bytes) (l : Lexer)
    → IsPlaced source l
    → leb (length l.source) l.source_pos_bytes ≡ false
    → IsStep (drop l.source_pos_bytes source) (decode_rune (drop l.source_pos_bytes l.source))
IsStep-at source l h n =
    let e : l.source ≡ source = h.same_source in
    rw e (
      decode_rune-IsStep (drop l.source_pos_bytes source)
        (ground (arith, length-drop l.source_pos_bytes source, ap length e)))

consume-IsPlaced : (source : Bytes) (l : Lexer) → IsPlaced source l → IsPlaced source (consume l)
unfolding consume is_eos rune_at
consume-IsPlaced source l h =
    if_IsPlaced source (leb (length l.source) l.source_pos_bytes) _ _ h (λ n.
      let st = IsStep-at source l h n in
      let w = (decode_rune (drop l.source_pos_bytes l.source)).1 in
      let k = length-drop l.source_pos_bytes source in
      record {
        same_source = h.same_source;
        pos_in = omega (arith, st.width_in, k);
        cur_le = omega arith;
        line = ground (arith, h.line, st.newline, newlines-take_add l.source_pos_bytes w source);
        cur_line = h.cur_line;
        placed = h.placed;
      })

begin_token-IsPlaced :
    (source : Bytes) (l : Lexer) → IsPlaced source l → IsPlaced source (begin_token l)
unfolding begin_token
begin_token-IsPlaced source l h = record {
  same_source = h.same_source;
  pos_in = h.pos_in;
  cur_le = omega arith;
  line = h.line;
  cur_line = h.line;
  placed = later source l.tokens _ _ h.cur_le h.placed;
}

emit_token-IsPlaced :
    (source : Bytes) (k : TokenKind) (l : Lexer)
    → IsPlaced source l
    → IsPlaced source (emit_token k l)
unfolding emit_token begin_token cur_text
emit_token-IsPlaced source k l h = record {
  same_source = h.same_source;
  pos_in = h.pos_in;
  cur_le = omega arith;
  line = h.line;
  cur_line = h.line;
  placed =
      one_more l.tokens l.cur_token_source_pos_bytes l.source_pos_bytes l.source_pos_bytes _
        h.placed (omega arith) h.cur_le (omega arith)
        (ap (slice l.cur_token_source_pos_bytes l.source_pos_bytes) h.same_source) h.cur_line;
}

start-IsPlaced : (source : Bytes) → IsPlaced source (start source)
unfolding start
start-IsPlaced source = record {
  same_source = refl;
  pos_in = omega arith;
  cur_le = omega arith;
  line = refl;
  cur_line = refl;
  placed = none_yet 0;
}

-- Whatever the source, a run of the lexer that returns has a position inside the source and a line
-- number that counts the newlines before it; the tokens it sent lie in the source in their order,
-- none over another, and each carries the source's bytes at its position and the number of
-- newlines before it.
run-IsPlaced :
    (source : Bytes) (fuel : ℕ) (l : Lexer)
    → run fuel root (start source) ≡ some l
    → IsPlaced source l
run-IsPlaced source fuel l e =
    run_keeps (IsPlaced source)
      (record {
        by_consume = consume-IsPlaced source;
        by_begin = begin_token-IsPlaced source;
        by_emit = emit_token-IsPlaced source;
      })
      fuel root (start source) (start-IsPlaced source) e

lies :
    (source : Bytes) (o : Option Lexer)
    → o ≢ none
    → ((l : Lexer) → o ≡ some l → IsPlaced source l)
    → (ts : List Token) × (elim o [ none ↦ none | some l ↦ some l.tokens ] ≡ some ts)
      × Lies source ts (length source)
lies source none n p = absurd (n refl)
lies source (some l) n p =
    let h = p l refl in
    let k : l.cur_token_source_pos_bytes ≤ length source = omega (arith, h.cur_le, h.pos_in) in
    (l.tokens, refl, later source l.tokens _ _ k h.placed)

-- For every source, valid UTF-8 or not, `tokenizeUnfiltered` ends; the tokens it sends lie in the
-- source in the order in which they are sent, none over another, and each carries the source's
-- bytes from its position on and a line number that is the number of newlines before it.
pub tokenize_unfiltered-Lies :
    (source : Bytes)
    → (ts : List Token) × (tokenize_unfiltered source ≡ some ts) × Lies source ts (length source)
unfolding tokenize_unfiltered
tokenize_unfiltered-Lies source =
    lies source _ (run-root-ne-none source) (run-IsPlaced source (5 * length source + 5))
