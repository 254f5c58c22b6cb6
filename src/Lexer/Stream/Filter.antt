-- ===== src/Lexer/Stream/Filter.antt =====
-- The filtered stream of token_stream.go against the filtering of a list.
use fidl.Prelude.{
  ℕ, zero, suc, ◌+◌, ◌<◌, ◌≡◌, refl, ap, ap₂, ◌∙◌, arith, inl, inr, Bool, Bool-cases, true, false,
  some, List, [], ◌∷◌, ◌++◌, if◌then◌else◌, length,
}
use fidl.Lexer.Tokens.{TokenKind, Token, eof}
use fidl.Lexer.Stream.{
  TokenChan, FilteredTokenStream, eof_token, consume_next, peek_next, is_key, skip_rounds,
  skip_filtered, peek_filtered, consume_filtered, new_filtered_token_stream, new_token_chan,
}

abbrev pub head_or_eof : List Token → Token
head_or_eof [] = eof_token
head_or_eof (t ∷ ts) = t

abbrev pub tail : List Token → List Token
tail [] = []
tail (t ∷ ts) = ts

-- the tokens whose kind is no key
abbrev pub unfiltered : List TokenKind → List Token → List Token
unfiltered ks [] = []
unfiltered ks (t ∷ ts) = if is_key ks t.kind then unfiltered ks ts else t ∷ unfiltered ks ts

-- the first `n` tokens, the EOF token at the end and after it
abbrev pub first : ℕ → List Token → List Token
first zero ts = []
first (suc n) ts = head_or_eof ts ∷ first n (tail ts)

-- what a reader gets that peeks and consumes `n` times
abbrev pub drain : ℕ → FilteredTokenStream → List Token
drain zero s = []
drain (suc n) s = let (t, s') = peek_filtered s in t ∷ drain n (consume_filtered s')

-- a channel before and after its first receive, with `ts` to come
abbrev reading : List Token → TokenChan
reading ts = record { token_chan = tail ts; next_token = head_or_eof ts; read = true }

abbrev chan : Bool → List Token → TokenChan
chan true ts = reading ts
chan false ts = new_token_chan ts

abbrev rest : List TokenKind → List Token → List Token
rest ks [] = []
rest ks (t ∷ ts) = if is_key ks t.kind then rest ks ts else t ∷ ts

module _ (ks : List TokenKind) (ok : is_key ks eof ≡ false) where
  abbrev over : TokenChan → List Token → FilteredTokenStream
  over c log = record { token_stream = c; filter = ks; filtered_tokens = log }

  -- At some log, a stream at the first token that is not filtered.
  abbrev IsAt : List Token → FilteredTokenStream → Type 0
  IsAt ts s = (log : List Token) × (s ≡ over (reading ts) log)

  goes_on :
      (t : Token) (ts log : List Token) (s : FilteredTokenStream)
      → IsAt (rest ks ts) s
      → IsAt (rest ks (t ∷ ts)) (if is_key ks t.kind then s else over (reading (t ∷ ts)) log)
  goes_on t ts log s h = elim (Bool-cases (is_key ks t.kind)) [
    | inl y ↦ rw y h
    | inr f ↦ (log, rw f refl)
  ]

  skip_rounds_lem :
      (n : ℕ) (ts log : List Token)
      → length ts < n
      → IsAt (rest ks ts) (skip_rounds n (head_or_eof ts) (over (reading ts) log))
  unfolding skip_rounds consume_next peek_next
  skip_rounds_lem zero ts log h = absurd (omega arith)
  skip_rounds_lem (suc n) [] log h = (log, rw ok refl)
  skip_rounds_lem (suc n) (t ∷ []) log h =
      goes_on t [] log _ (skip_rounds_lem n [] (log ++ (t ∷ [])) (omega arith))
  skip_rounds_lem (suc n) (t ∷ u ∷ ts) log h =
      goes_on t (u ∷ ts) log _ (skip_rounds_lem n (u ∷ ts) (log ++ (t ∷ [])) (omega arith))

  -- The loop of `skipFiltered` is given a round per token and more.
  room : (b : Bool) (ts : List Token) → length ts < length (chan b ts).token_chan + 2
  unfolding new_token_chan
  room true [] = omega arith
  room true (t ∷ ts) = omega arith
  room false ts = omega arith

  skip_filtered_lem :
      (b : Bool) (ts log : List Token) → IsAt (rest ks ts) (skip_filtered (over (chan b ts) log))
  unfolding skip_filtered peek_next consume_next new_token_chan
  skip_filtered_lem true ts log = skip_rounds_lem _ ts log (room true ts)
  skip_filtered_lem false [] log = skip_rounds_lem _ [] log (room false [])
  skip_filtered_lem false (t ∷ ts) log = skip_rounds_lem _ (t ∷ ts) log (room false (t ∷ ts))

  unfiltered-rest : (ts : List Token) → unfiltered ks (rest ks ts) ≡ unfiltered ks ts
  unfiltered-rest [] = refl
  unfiltered-rest (t ∷ ts) = elim (Bool-cases (is_key ks t.kind)) [
    | inl y ↦ rw y (unfiltered-rest ts)
    | inr f ↦ rw f (rw f refl)
  ]

  head-rest : (ts : List Token) → head_or_eof (rest ks ts) ≡ head_or_eof (unfiltered ks ts)
  head-rest [] = refl
  head-rest (t ∷ ts) = elim (Bool-cases (is_key ks t.kind)) [
    | inl y ↦ rw y (head-rest ts)
    | inr f ↦ rw f refl
  ]

  tail-rest : (ts : List Token) → unfiltered ks (tail (rest ks ts)) ≡ tail (unfiltered ks ts)
  tail-rest [] = refl
  tail-rest (t ∷ ts) = elim (Bool-cases (is_key ks t.kind)) [
    | inl y ↦ rw y (tail-rest ts)
    | inr f ↦ rw f refl
  ]

  consume_reading : (ts : List Token) → consume_next (reading ts) ≡ reading (tail ts)
  unfolding consume_next
  consume_reading [] = refl
  consume_reading (t ∷ []) = refl
  consume_reading (t ∷ u ∷ ts) = refl

  peek_filtered_lem :
      (b : Bool) (ts log : List Token)
      → (log' : List Token) × (peek_filtered (over (chan b ts) log)
          ≡ (head_or_eof (rest ks ts), over (reading (rest ks ts)) log'))
  unfolding peek_filtered peek_next
  peek_filtered_lem b ts log = let (log', e) = skip_filtered_lem b ts log in (log', rw e refl)

  consume_filtered_lem :
      (ts log : List Token)
      → IsAt (rest ks (tail (rest ks ts))) (consume_filtered (over (reading ts) log))
  unfolding consume_filtered
  consume_filtered_lem ts log =
      let (log', e) = skip_filtered_lem true ts log in
      rw (e, consume_reading (rest ks ts)) (skip_filtered_lem true (tail (rest ks ts)) log')

  drain-chan :
      (n : ℕ) (b : Bool) (ts log : List Token)
      → drain n (over (chan b ts) log) ≡ first n (unfiltered ks ts)
  drain-chan zero b ts log = refl
  drain-chan (suc n) b ts log =
      let (log₁, e₁) = peek_filtered_lem b ts log in
      let (log₂, e₂) = consume_filtered_lem (rest ks ts) log₁ in
      let after = rest ks (tail (rest ks (rest ks ts))) in
      let k : unfiltered ks after ≡ tail (unfiltered ks ts) =
        unfiltered-rest (tail (rest ks (rest ks ts)))
        ∙ tail-rest (rest ks ts)
        ∙ ap tail (unfiltered-rest ts) in
      rw (e₁, e₂) (ap₂ ◌∷◌ (head-rest ts) (drain-chan n true after log₂ ∙ ap (first n) k))

-- For a filter without EOF, `NewFilteredTokenStream` returns, and peeking and consuming `n` times on
-- its stream gives the first `n` tokens that the filter lets through, in the order in which the lexer
-- sent them, and the EOF token from their end on.
pub drain-new_filtered_token_stream :
    (ks : List TokenKind) (ts : List Token) (n : ℕ)
    → is_key ks eof ≡ false
    → (s : FilteredTokenStream) × (new_filtered_token_stream (new_token_chan ts) ks ≡ some s)
      × (drain n s ≡ first n (unfiltered ks ts))
unfolding new_filtered_token_stream
drain-new_filtered_token_stream ks ts n ok = (_, rw ok refl, drain-chan ks ok n false ts [])
