-- ===== src/Parser/Literals/Initializers.antt =====
-- `parseEnumValueInitializer` at a reference that ends with a dot.
use fidl.Prelude.{
  ℕ, zero, suc, ◌<◌, ◌≡◌, refl, sym, ap, true, false, Option, none, some, List, [], ◌∷◌, ◌++◌,
  length, arith, length-append,
}
use fidl.Prelude.Bytes.{Bytes}
use fidl.Prelude.Go.{Outcome, ok, panic, and_then}
use fidl.Lexer.Tokens.{Token, name, dot, eof}
use fidl.Types.{UserTypeRef}
use fidl.Parser.{Parser, OutOfFuel, AssigneeSpec, is_kind, is_ok, head_token}
use fidl.Parser.Steps.{Context, at, Returns, and_then-Returns, peek_next_token-at, is_kind_other}
use fidl.Parser.Types.{identifier_loop, parse_identifier}
use fidl.Parser.Types.Identifiers.{
  identifier_loop_none, identifier_loop_dotted, parse_identifier_name,
}
use fidl.Parser.Grammar.{IsIdentifier, last_name, dotted}
use fidl.Parser.Integers.{NumError}
use fidl.Parser.Literals.{
  parse_user_value_ref, parse_value, parse_enum_value_initializer, check_initializer,
  mark_used_as_enum_value_initializer, ValueRef, user_value,
}

-- The loop ends with an error at a dot that no name follows.
loop_dot-Returns :
    (c : Context) (refs : List UserTypeRef) (f : ℕ) (first seen last d : Token) (acc : Bytes)
    (ts rest : List Token) (text : Bytes)
    → IsIdentifier ts text
    → length ts < f
    → is_kind dot d ≡ true
    → is_kind name (head_token rest) ≡ false
    → Returns
        (λ _ p. is_ok p ≡ false)
        (identifier_loop f first acc (at c (ts ++ (d ∷ rest)) seen last refs))
loop_dot-Returns c refs zero first seen last d acc ts rest text i h k e = absurd (omega arith)
loop_dot-Returns c refs (suc zero) first seen last d acc ts rest text (last_name t n) h k e =
    absurd (omega arith)
loop_dot-Returns c refs (suc (suc f)) first seen last d acc ts rest text (last_name t n) h k e =
    rw
      (
        identifier_loop_dotted c refs (suc f) first seen last acc t d rest n k,
        identifier_loop_none c refs f first d d (acc ++ (t.text ++ b'.' ∷ [])) rest e,
      )
      refl
loop_dot-Returns c refs (suc f) first seen last d acc ts rest text (dotted t u xs id n m i) h k e =
    rw (identifier_loop_dotted c refs f first seen last acc t u (xs ++ (d ∷ rest)) n m) (
      loop_dot-Returns c refs f first u u d (acc ++ (t.text ++ b'.' ∷ [])) xs rest id i
        (omega arith) k e)

identifier_dot-Returns :
    (c : Context) (refs : List UserTypeRef) (seen last d : Token) (ts rest : List Token)
    (text : Bytes)
    → IsIdentifier ts text
    → IsIdentifier ts text
    → is_kind dot d ≡ true
    → is_kind name (head_token rest) ≡ false
    → Returns (λ _ p. is_ok p ≡ false) (parse_identifier (at c (ts ++ (d ∷ rest)) seen last refs))
identifier_dot-Returns c refs seen last d ts rest text i (last_name t n) k e =
    rw (parse_identifier_name c refs seen last t (d ∷ rest) n) (
      and_then-Returns (λ _ p. is_ok p ≡ false) _
        (identifier_loop (suc (suc (suc (length rest)))) t [] (at c (t ∷ d ∷ rest) t last refs)) _
        (loop_dot-Returns c refs (suc (suc (suc (length rest)))) t t last d [] (t ∷ []) rest text i
          (omega arith) k e)
        (λ _ _ bad. bad))
identifier_dot-Returns c refs seen last d ts rest text i (dotted t u xs id n m j) k e =
    let l = suc (suc (suc (length (xs ++ (d ∷ rest))))) in
    rw (parse_identifier_name c refs seen last t (u ∷ (xs ++ (d ∷ rest))) n) (
      and_then-Returns (λ _ p. is_ok p ≡ false) _
        (identifier_loop l t [] (at c (t ∷ u ∷ (xs ++ (d ∷ rest))) t last refs)) _
        (loop_dot-Returns c refs l t t last d [] (t ∷ u ∷ xs) rest text i
          (omega (arith, length-append xs (d ∷ rest))) k e)
        (λ _ _ bad. bad))

module _ (float_error : Bytes → Option NumError) (spec : AssigneeSpec) where
  -- The nil pointer of a reference that could not be read.
  reference-Returns :
      (c : Context) (refs : List UserTypeRef) (seen last d : Token) (ts rest : List Token)
      (text : Bytes)
      → IsIdentifier ts text
      → is_kind dot d ≡ true
      → is_kind name (head_token rest) ≡ false
      → Returns
          (λ a p. (a ≡ none) × (is_ok p ≡ false))
          (parse_user_value_ref float_error spec (at c (ts ++ (d ∷ rest)) seen last refs))
  unfolding parse_user_value_ref
  reference-Returns c refs seen last d ts rest text i k e =
      and_then-Returns (λ _ p. is_ok p ≡ false) _
        (parse_identifier (at c (ts ++ (d ∷ rest)) seen last refs)) _
        (identifier_dot-Returns c refs seen last d ts rest text i i k e)
        (λ a p bad. rw bad (refl, bad))

  -- The value of such a reference is not nil.
  value-Returns :
      (c : Context) (refs : List UserTypeRef) (seen last t d : Token) (ts xs rest : List Token)
      (text : Bytes)
      → xs ++ (d ∷ rest) ≡ t ∷ ts
      → is_kind name t ≡ true
      → IsIdentifier xs text
      → is_kind dot d ≡ true
      → is_kind name (head_token rest) ≡ false
      → Returns
          (λ a _. a ≡ some (user_value none))
          (parse_value float_error spec (at c (t ∷ ts) seen last refs))
  unfolding parse_value
  value-Returns c refs seen last t d ts xs rest text w n i k e =
      rw (peek_next_token-at c seen last refs t ts (is_kind_other name eof t refl n), n)
        (and_then-Returns (λ a p. (a ≡ none) × (is_ok p ≡ false)) _
          (parse_user_value_ref float_error spec (at c (t ∷ ts) t last refs)) _
          (rw (sym w) (reference-Returns c refs t last d xs rest text i k e))
          (λ a p h. ap (λ r. some (user_value r)) h.0))

  starts_with_name :
      (xs rest : List Token) (text : Bytes)
      → IsIdentifier xs text
      → (t : Token) × (ts : List Token) × ((xs ++ rest ≡ t ∷ ts) × (is_kind name t ≡ true))
  starts_with_name xs rest text (last_name t n) = (t, rest, (refl, n))
  starts_with_name xs rest text (dotted t d ys id n m i) = (t, d ∷ (ys ++ rest), (refl, n))

  -- An initializer of an enum value that is an identifier, a dot and then no name panics: `parseValue` gives
  -- a nil pointer that is no nil value, and the method marks it.
  pub parse_enum_value_initializer-dot :
      (c : Context) (refs : List UserTypeRef) (seen last d : Token) (ts rest : List Token)
      (text : Bytes)
      → IsIdentifier ts text
      → is_kind dot d ≡ true
      → is_kind name (head_token rest) ≡ false
      → parse_enum_value_initializer float_error spec (at c (ts ++ (d ∷ rest)) seen last refs)
        ≡ panic
  unfolding parse_enum_value_initializer
  parse_enum_value_initializer-dot c refs seen last d ts rest text i k e =
      let (t, xs, (w, n)) = starts_with_name ts (d ∷ rest) text i in
      rw (w, peek_next_token-at c seen last refs t xs (is_kind_other name eof t refl n))
        (marked t _ (value-Returns c refs t last t d xs ts rest text w n i k e))
    where
      marked :
          (t : Token) (o : Outcome OutOfFuel Parser (Option ValueRef))
          → Returns (λ a _. a ≡ some (user_value none)) o
          → and_then o (check_initializer t) ≡ panic
      marked t (ok a p) h =
          unfold check_initializer mark_used_as_enum_value_initializer in rw h refl
      marked t (Outcome.err _ _) h = absurd h
      marked t panic h = refl
