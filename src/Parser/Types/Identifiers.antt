-- ===== src/Parser/Types/Identifiers.antt =====
-- `parseIdentifier`: what it reads, and that it reads every identifier.
use fidl.Prelude.{
  ℕ, zero, suc, ◌<◌, ◌≡◌, refl, ◌∙◌, ap, true, false, List, [], ◌∷◌, ◌++◌, length, arith,
  Bool-cases, inl, inr, length-append,
}
use mathlib.Core.List.{append_assoc}
use fidl.Prelude.Bytes.{Bytes}
use fidl.Prelude.Go.{ok, and_then}
use fidl.Lexer.Tokens.{Token, name, dot, eof}
use fidl.Types.{UserTypeRef}
use fidl.Parser.{Parser, is_kind, head_token, parse_error_t, unexpected_token}
use fidl.Parser.Steps.{
  Context, at, Returns, Returns-map, and_then-Reads, Reads, failed, read, Leaves, try_match_hit,
  try_match_miss, is_kind_other, peek_next_token-at,
}
use fidl.Parser.Types.{identifier_loop, parse_identifier}
use fidl.Parser.Grammar.{IsIdentifier, last_name, dotted}

module _ (c : Context) (refs : List UserTypeRef) (f : ℕ) (first seen last : Token)
    (acc : Bytes) where
  -- No name at the start.
  pub identifier_loop_none :
      (ts : List Token)
      → is_kind name (head_token ts) ≡ false
      → identifier_loop (suc f) first acc (at c ts seen last refs)
        ≡ ok acc (parse_error_t unexpected_token first (at c ts (head_token ts) last refs))
  unfolding identifier_loop
  identifier_loop_none ts h = rw (try_match_miss c seen last refs name ts h) refl

  -- The last name.
  identifier_loop_last :
      (t : Token) (ts : List Token)
      → is_kind name t ≡ true
      → is_kind dot (head_token ts) ≡ false
      → identifier_loop (suc f) first acc (at c (t ∷ ts) seen last refs)
        ≡ ok (acc ++ t.text) (at c ts (head_token ts) t refs)
  unfolding identifier_loop
  identifier_loop_last t ts h e =
      rw (try_match_hit c seen last refs name t ts refl h, try_match_miss c t t refs dot ts e) refl

  pub identifier_loop_dotted :
      (t d : Token) (ts : List Token)
      → is_kind name t ≡ true
      → is_kind dot d ≡ true
      → identifier_loop (suc f) first acc (at c (t ∷ d ∷ ts) seen last refs)
        ≡ identifier_loop f first (acc ++ (t.text ++ b'.' ∷ [])) (at c ts d d refs)
  unfolding identifier_loop
  identifier_loop_dotted t d ts h e =
      rw
        (
          try_match_hit c seen last refs name t (d ∷ ts) refl h,
          try_match_hit c t t refs dot d ts refl e,
        )
        refl

abbrev ReadsName : List UserTypeRef → Bytes → List Token → Bytes → List UserTypeRef → Type 0
ReadsName refs acc xs identifier refs' =
    ((text : Bytes) × (IsIdentifier xs text × (identifier ≡ acc ++ text))) × (refs' ≡ refs)

text_dotted :
    (acc text id : Bytes) → (acc ++ (text ++ b'.' ∷ [])) ++ id ≡ acc ++ (text ++ b'.' ∷ id)
text_dotted acc text id =
    append_assoc acc (text ++ b'.' ∷ []) id
    ∙ ap (λ (x : Bytes). acc ++ x) (append_assoc text (b'.' ∷ []) id)

-- Each round takes a name and a dot, so the rounds are fewer than the tokens.
identifier_loop-Reads :
    (c : Context) (refs : List UserTypeRef) (f : ℕ) (first seen last : Token) (acc : Bytes)
    (ts : List Token)
    → length ts < f
    → Returns
        (Reads c ts (ReadsName refs acc) (λ _. Unit {0}))
        (identifier_loop f first acc (at c ts seen last refs))
identifier_loop-Reads c refs zero first seen last acc ts h = absurd (omega arith)
identifier_loop-Reads c refs (suc f) first seen last acc [] h =
    rw (identifier_loop_none c refs f first seen last acc [] refl) (failed _ _ tt refl)
identifier_loop-Reads c refs (suc f) first seen last acc (t ∷ []) h =
    elim (Bool-cases (is_kind name t)) [
      | inl n ↦
          rw (identifier_loop_last c refs f first seen last acc t [] n refl)
            (read _ _ (t ∷ []) [] _ _ refs refl refl ((t.text, (last_name t n, refl)), refl))
      | inr n ↦
          rw (identifier_loop_none c refs f first seen last acc (t ∷ []) n) (failed _ _ tt refl)
    ]
identifier_loop-Reads c refs (suc f) first seen last acc (t ∷ d ∷ ts) h =
    let again =
      identifier_loop-Reads c refs f first d d (acc ++ (t.text ++ b'.' ∷ [])) ts (omega arith) in
    elim (Bool-cases (is_kind name t)) [
      | inr n ↦
          rw (identifier_loop_none c refs f first seen last acc (t ∷ d ∷ ts) n) (failed _ _ tt refl)
      | inl n ↦ elim (Bool-cases (is_kind dot d)) [
        | inr e ↦
            rw (identifier_loop_last c refs f first seen last acc t (d ∷ ts) n e) (
              read _ _ (t ∷ []) (d ∷ ts) _ _ refs refl refl ((t.text, (last_name t n, refl)), refl))
        | inl e ↦
            rw (identifier_loop_dotted c refs f first seen last acc t d ts n e)
              (Returns-map _ _ _ (longer n e) again)
      ]
    ]
  where
    longer :
        is_kind name t ≡ true
        → is_kind dot d ≡ true
        → (a : Bytes) (p : Parser)
        → Reads c ts (ReadsName refs (acc ++ (t.text ++ b'.' ∷ []))) (λ _. Unit {0}) a p
        → Reads c (t ∷ d ∷ ts) (ReadsName refs acc) (λ _. Unit {0}) a p
    longer n e a p (failed _ _ _ bad) = failed a p tt bad
    longer n e a p (read _ _ xs rest seen' last' refs' q split ((text, (id, eq)), same)) =
        read a p (t ∷ d ∷ xs) rest seen' last' refs' q (ap (λ l. t ∷ d ∷ l) split)
          ((_, (dotted t d xs text n e id, eq ∙ text_dotted acc t.text text)), same)

identifier_loop-IsIdentifier :
    (c : Context) (refs : List UserTypeRef) (f : ℕ) (first seen last : Token) (acc : Bytes)
    (ts rest : List Token) (text : Bytes)
    → IsIdentifier ts text
    → length ts < f
    → is_kind dot (head_token rest) ≡ false
    → Leaves c rest refs
        (acc ++ text)
        (identifier_loop f first acc (at c (ts ++ rest) seen last refs))
identifier_loop-IsIdentifier c refs zero first seen last acc ts rest text id h e =
    absurd (omega arith)
identifier_loop-IsIdentifier c refs (suc f) first seen last acc ts rest text (last_name t n) h e =
    (head_token rest, t, identifier_loop_last c refs f first seen last acc t rest n e)
identifier_loop-IsIdentifier c refs (suc f) first seen last acc ts rest text
      (dotted t d xs id n e id') h end =
    let (seen', last', again) =
      identifier_loop-IsIdentifier c refs f first d d (acc ++ (t.text ++ b'.' ∷ [])) xs rest id id'
        (omega arith) end in
    (
      seen',
      last',
      identifier_loop_dotted c refs f first seen last acc t d (xs ++ rest) n e
          ∙ again
          ∙ ap (λ x. ok x (at c rest seen' last' refs)) (text_dotted acc t.text id),
    )

-- The start of the method, at a name and at another token.
pub parse_identifier_name :
    (c : Context) (refs : List UserTypeRef) (seen last t : Token) (ts : List Token)
    → is_kind name t ≡ true
    → parse_identifier (at c (t ∷ ts) seen last refs)
      ≡ and_then
          (identifier_loop (suc (suc (length ts))) t [] (at c (t ∷ ts) t last refs))
          (λ identifier p. ok (identifier, t) p)
unfolding parse_identifier
parse_identifier_name c refs seen last t ts n =
    let e = is_kind_other name eof t refl n in
    ground (arith, n, peek_next_token-at c seen last refs t ts e)

parse_identifier_other :
    (c : Context) (refs : List UserTypeRef) (seen last t : Token) (ts : List Token)
    → is_kind eof t ≡ false
    → is_kind name t ≡ false
    → parse_identifier (at c (t ∷ ts) seen last refs)
      ≡ ok ([], t) (parse_error_t unexpected_token t (at c (t ∷ ts) t last refs))
unfolding parse_identifier
parse_identifier_other c refs seen last t ts e n =
    ground (arith, n, peek_next_token-at c seen last refs t ts e)

abbrev pub ReadsIdentifier :
    List UserTypeRef → List Token → (Bytes × Token) → List UserTypeRef → Type 0
ReadsIdentifier refs xs r refs' = (IsIdentifier xs r.0 × (r.1 ≡ head_token xs)) × (refs' ≡ refs)

pub IsIdentifier-name :
    (xs : List Token) (text : Bytes) → IsIdentifier xs text → is_kind name (head_token xs) ≡ true
IsIdentifier-name xs text (last_name u n) = n
IsIdentifier-name xs text (dotted u d ys id n m i) = n

pub IsIdentifier-head :
    (t : Token) (ts xs rest : List Token) (text : Bytes)
    → IsIdentifier xs text
    → t ∷ ts ≡ xs ++ rest
    → t ≡ head_token xs
IsIdentifier-head t ts xs rest text (last_name u n) e = cc
IsIdentifier-head t ts xs rest text (dotted u d ys id n m i) e = cc

pub parse_identifier-Reads :
    (c : Context) (refs : List UserTypeRef) (seen last t : Token) (ts : List Token)
    → is_kind eof t ≡ false
    → Returns
        (Reads c (t ∷ ts) (ReadsIdentifier refs) (λ _. Unit {0}))
        (parse_identifier (at c (t ∷ ts) seen last refs))
parse_identifier-Reads c refs seen last t ts e = elim (Bool-cases (is_kind name t)) [
  | inr n ↦ rw (parse_identifier_other c refs seen last t ts e n) (failed _ _ tt refl)
  | inl n ↦ rw (parse_identifier_name c refs seen last t ts n) (
      and_then-Reads c (t ∷ ts) (ReadsName refs []) (λ _. Unit {0}) _
        (identifier_loop (suc (suc (length ts))) t [] (at c (t ∷ ts) t last refs))
        (λ identifier p. ok (identifier, t) p)
        (identifier_loop-Reads c refs (suc (suc (length ts))) t t last [] (t ∷ ts) (omega arith))
        (λ a p _ bad. failed _ _ tt bad)
        (λ a xs rest seen' last' refs' split r.
          read _ _ xs rest seen' last' refs' refl split
            ((rw r.0.1.1 r.0.1.0, IsIdentifier-head t ts xs rest r.0.0 r.0.1.0 split), r.1)))
]

-- Every identifier is read, before a token that is no dot.
pub parse_identifier-IsIdentifier :
    (c : Context) (refs : List UserTypeRef) (seen last : Token) (ts rest : List Token)
    (text : Bytes)
    → IsIdentifier ts text
    → is_kind dot (head_token rest) ≡ false
    → Leaves c rest refs (text, head_token ts) (parse_identifier (at c (ts ++ rest) seen last refs))
parse_identifier-IsIdentifier c refs seen last ts rest text id e = go ts text id id
  where
    go :
        (xs : List Token) (text : Bytes)
        → IsIdentifier xs text
        → IsIdentifier xs text
        → Leaves c rest refs
            (text, head_token xs)
            (parse_identifier (at c (xs ++ rest) seen last refs))
    go xs text whole (last_name t n) =
        let (s', l', r) =
          identifier_loop-IsIdentifier c refs (suc (suc (length rest))) t t last [] (t ∷ []) rest
            text whole (omega arith) e in
        (
          s',
          l',
          parse_identifier_name c refs seen last t rest n
              ∙ ap (λ o. and_then o (λ identifier p. ok (identifier, t) p)) r,
        )
    go xs text whole (dotted t d ys i n m id') =
        let (s', l', r) =
          identifier_loop-IsIdentifier c refs (suc (suc (suc (length (ys ++ rest))))) t t last []
            (t ∷ d ∷ ys) rest text whole (omega (arith, length-append ys rest)) e in
        (
          s',
          l',
          parse_identifier_name c refs seen last t (d ∷ ys ++ rest) n
              ∙ ap (λ o. and_then o (λ identifier p. ok (identifier, t) p)) r,
        )
