-- ===== src/Parser/Types/Sound.antt =====
-- `parseType`: what it reads is a type of the grammar.
use fidl.Prelude.{
  ℕ, zero, suc, ◌<◌, ◌≡◌, refl, true, false, Option, none, some, List, [], ◌∷◌, length, All, arith,
  Bool-cases, inl, inr,
}
use fidl.Prelude.Bytes.{Bytes}
use fidl.Prelude.Go.{Outcome, ok, and_then}
use fidl.Lexer.Tokens.{Token, name, eof, codes, same_bytes}
use fidl.Lexer.Stream.{eof_token}
use fidl.Types.{TypeRef, UserTypeRef, built_in_type}
use fidl.Parser.{Parser, OutOfFuel, Act, is_kind, peek_next_token, head_token}
use fidl.Parser.Steps.{
  Context, at, Returns, Reads, failed, read, and_then-Reads, peek_next_token-at,
  peek_next_token_end, at_end, is_kind_other,
}
use fidl.Parser.Integers.Literals.{IsSpelled}
use fidl.Parser.Types.{
  parse_type, or_array, or_map, or_reference, or_else, try_parse_built_in_type,
  try_parse_array_type, try_parse_map_type, parse_type_reference, parse_built_in_name, parse_array,
  parse_map, is_word,
}
use fidl.Parser.Types.BuiltIns.{parse_built_in_name-Reads}
use fidl.Parser.Types.Arrays.{parse_array-Reads, ParsesTypes}
use fidl.Parser.Types.Maps.{parse_map-Reads, Refuses}
use fidl.Parser.Types.References.{ReadsType, IsNil, parse_type_reference-Reads}

-- What follows a method lets its type through, and does nothing after its error.
pub record Ends (next : Option TypeRef → Act (Option TypeRef)) : Type 0 where
  pub passes : (type : TypeRef) (p : Parser) → next (some type) p ≡ ok (some type) p
  pub refuses : Refuses (next none)

parse_type_reference-Refuses : Refuses parse_type_reference
unfolding parse_type_reference
parse_type_reference-Refuses p h = rw h refl

try_parse_map_type-Refuses : (parse : Act (Option TypeRef)) → Refuses (try_parse_map_type parse)
unfolding try_parse_map_type
try_parse_map_type-Refuses parse p h = rw h refl

try_parse_array_type-Refuses : (parse : Act (Option TypeRef)) → Refuses (try_parse_array_type parse)
unfolding try_parse_array_type
try_parse_array_type-Refuses parse p h = rw h refl

pub or_reference-Ends : Ends or_reference
unfolding or_reference or_else
or_reference-Ends = record { passes = λ type p. refl; refuses = parse_type_reference-Refuses }

pub or_map-Ends : (parse : Act (Option TypeRef)) → Ends (or_map parse)
or_map-Ends parse = record { passes = through; refuses = nothing }
  where
    through : (type : TypeRef) (p : Parser) → or_map parse (some type) p ≡ ok (some type) p
    through type p = unfold or_map or_else in or_reference-Ends.passes type p

    nothing : Refuses (or_map parse none)
    nothing p h =
        unfold or_map or_else in
        rw (try_parse_map_type-Refuses parse p h) (or_reference-Ends.refuses p h)

pub or_array-Ends : (parse : Act (Option TypeRef)) → Ends (or_array parse)
or_array-Ends parse = record { passes = through; refuses = nothing }
  where
    through : (type : TypeRef) (p : Parser) → or_array parse (some type) p ≡ ok (some type) p
    through type p = unfold or_array or_else in (or_map-Ends parse).passes type p

    nothing : Refuses (or_array parse none)
    nothing p h =
        unfold or_array or_else in
        rw (try_parse_array_type-Refuses parse p h) ((or_map-Ends parse).refuses p h)

and_then-Ends_Reads :
    (c : Context) (refs : List UserTypeRef) (ts : List Token)
    (next : Option TypeRef → Act (Option TypeRef)) (o : Outcome OutOfFuel Parser (Option TypeRef))
    → Ends next
    → Returns (Reads c ts (ReadsType c refs) IsNil) o
    → Returns (Reads c ts (ReadsType c refs) IsNil) (and_then o next)
and_then-Ends_Reads c refs ts next o ends h =
    and_then-Reads c ts (ReadsType c refs) IsNil _ o next h
      (λ a p e bad. rw (e, ends.refuses p bad) (failed _ _ refl bad))
      (λ a xs r s l refs' p g.
        rw (g.1.0, ends.passes g.0 (at c r s l refs'))
          (read _ _ xs r s l refs' refl p (g.0, (refl, g.1.1))))

-- The branches of the three methods that look at a token first.
module _ (c : Context) (refs : List UserTypeRef) (seen last t : Token) (ts : List Token)
    (e : is_kind eof t ≡ false) where
  pub try_built_in_name :
      is_kind name t ≡ true
      → try_parse_built_in_type (at c (t ∷ ts) seen last refs)
        ≡ parse_built_in_name t (built_in_type t.text) (at c (t ∷ ts) t last refs)
  unfolding try_parse_built_in_type
  try_built_in_name n = rw (peek_next_token-at c seen last refs t ts e, n) refl

  pub try_built_in_other :
      is_kind name t ≡ false
      → try_parse_built_in_type (at c (t ∷ ts) seen last refs) ≡ ok none (at c (t ∷ ts) t last refs)
  unfolding try_parse_built_in_type
  try_built_in_other n = rw (peek_next_token-at c seen last refs t ts e, n) refl

  module _ (parse : Act (Option TypeRef)) where
    pub try_array_word :
        is_word (codes "array") t ≡ true
        → try_parse_array_type parse (at c (t ∷ ts) seen last refs)
          ≡ parse_array parse (at c (t ∷ ts) t last refs)
    unfolding try_parse_array_type
    try_array_word w = rw (peek_next_token-at c seen last refs t ts e, w) refl

    pub try_array_other :
        is_word (codes "array") t ≡ false
        → try_parse_array_type parse (at c (t ∷ ts) seen last refs)
          ≡ ok none (at c (t ∷ ts) t last refs)
    unfolding try_parse_array_type
    try_array_other w = rw (peek_next_token-at c seen last refs t ts e, w) refl

    pub try_map_word :
        is_word (codes "map") t ≡ true
        → try_parse_map_type parse (at c (t ∷ ts) seen last refs)
          ≡ parse_map parse (at c (t ∷ ts) t last refs)
    unfolding try_parse_map_type
    try_map_word w = rw (peek_next_token-at c seen last refs t ts e, w) refl

    pub try_map_other :
        is_word (codes "map") t ≡ false
        → try_parse_map_type parse (at c (t ∷ ts) seen last refs)
          ≡ ok none (at c (t ∷ ts) t last refs)
    unfolding try_parse_map_type
    try_map_other w = rw (peek_next_token-at c seen last refs t ts e, w) refl

try_built_in_end :
    (c : Context) (refs : List UserTypeRef) (seen last : Token) (t : Token) (ts : List Token)
    → is_kind eof t ≡ true
    → try_parse_built_in_type (at c (t ∷ ts) seen last refs)
      ≡ ok none (at_end c (t ∷ ts) t seen last refs)
unfolding try_parse_built_in_type
try_built_in_end c refs seen last t ts e =
    let n = is_kind_other eof name t refl e in
    rw (peek_next_token_end c seen last refs t ts e, n) refl

-- A word that is not the given one.
not_word :
    (text : Bytes) (t : Token)
    → is_word text t ≡ false
    → is_kind name t ≡ true
    → same_bytes text t.text ≡ false
not_word text t w n = ground (arith, w, n)

module _ (c : Context) (parse : Act (Option TypeRef)) (refuses : Refuses parse) (bound : ℕ)
    (parses : ParsesTypes c bound parse) (refs : List UserTypeRef) (last t : Token)
    (ts : List Token) (e : is_kind eof t ≡ false) (len : length ts < suc bound)
    (sp : All IsSpelled ts) (b : is_kind name t ≡ true → built_in_type t.text ≡ none) where
  or_map-Reads :
      (seen : Token)
      → is_word (codes "array") t ≡ false
      → Returns
          (Reads c (t ∷ ts) (ReadsType c refs) IsNil)
          (or_map parse none (at c (t ∷ ts) seen last refs))
  unfolding or_map or_else
  or_map-Reads seen a = elim (Bool-cases (is_word (codes "map") t)) [
    | inl m ↦ rw (try_map_word c refs seen last t ts e parse m) (
        and_then-Ends_Reads c refs (t ∷ ts) or_reference
          (parse_map parse (at c (t ∷ ts) t last refs)) or_reference-Ends
          (parse_map-Reads c parse refuses bound parses refs t last t ts m len sp))
    | inr m ↦ rw (try_map_other c refs seen last t ts e parse m) (
        unfold or_reference in
        parse_type_reference-Reads c refs t last t ts e b (not_word (codes "array") t a)
          (not_word (codes "map") t m))
  ]

  or_array-Reads :
      (seen : Token)
      → Returns
          (Reads c (t ∷ ts) (ReadsType c refs) IsNil)
          (or_array parse none (at c (t ∷ ts) seen last refs))
  unfolding or_array or_else
  or_array-Reads seen = elim (Bool-cases (is_word (codes "array") t)) [
    | inl a ↦ rw (try_array_word c refs seen last t ts e parse a) (
        and_then-Ends_Reads c refs (t ∷ ts) (or_map parse)
          (parse_array parse (at c (t ∷ ts) t last refs)) (or_map-Ends parse)
          (parse_array-Reads c refs t last t ts parse bound a len sp parses))
    | inr a ↦ rw (try_array_other c refs seen last t ts e parse a) (or_map-Reads t a)
  ]

parse_type-Refuses : (f : ℕ) → Refuses (parse_type (suc f))
unfolding parse_type
parse_type-Refuses f p h = rw h refl

-- A token that ends the file, or none.
nothing_left :
    (c : Context) (f : ℕ) (refs : List UserTypeRef) (seen last : Token) (ts : List Token)
    → is_kind eof (head_token ts) ≡ true
    → Returns (Reads c ts (ReadsType c refs) IsNil) (parse_type (suc f) (at c ts seen last refs))
unfolding parse_type
nothing_left c f refs seen last [] e =
    let r = (or_array-Ends (parse_type f)).refuses in
    unfold try_parse_built_in_type peek_next_token in
    rw (r (at_end c [] eof_token seen last refs) refl) (failed _ _ refl refl)
nothing_left c f refs seen last (t ∷ ts) e =
    let r = (or_array-Ends (parse_type f)).refuses (at_end c (t ∷ ts) t seen last refs) refl in
    rw (try_built_in_end c refs seen last t ts e, r) (failed _ _ refl refl)

module _ (c : Context) (f : ℕ) (parses : ParsesTypes c (suc f) (parse_type (suc f)))
    (refs : List UserTypeRef) (seen last t : Token) (ts : List Token) (e : is_kind eof t ≡ false)
    (len : length ts < suc (suc f)) (sp : All IsSpelled ts) where
  abbrev Whole : Outcome OutOfFuel Parser (Option TypeRef) → Type 0
  Whole = Returns (Reads c (t ∷ ts) (ReadsType c refs) IsNil)

  named_type :
      (found : Option TypeRef)
      → is_kind name t ≡ true
      → built_in_type t.text ≡ found
      → Whole (
          and_then
            (parse_built_in_name t found (at c (t ∷ ts) t last refs))
            (or_array (parse_type (suc f))))
  named_type none n b =
      unfold parse_built_in_name in
      or_array-Reads c (parse_type (suc f)) (parse_type-Refuses f) (suc f) parses refs last t ts e
        len sp (λ _. b) t
  named_type (some found) n b =
      and_then-Ends_Reads c refs (t ∷ ts) (or_array (parse_type (suc f)))
        (parse_built_in_name t (some found) (at c (t ∷ ts) t last refs))
        (or_array-Ends (parse_type (suc f)))
        (parse_built_in_name-Reads c refs t last t found ts n b)

  one_type : Whole (parse_type (suc (suc f)) (at c (t ∷ ts) seen last refs))
  unfolding parse_type
  one_type = elim (Bool-cases (is_kind name t)) [
    | inl n ↦
        rw (try_built_in_name c refs seen last t ts e n) (named_type (built_in_type t.text) n refl)
    | inr n ↦ rw (try_built_in_other c refs seen last t ts e n) (
        or_array-Reads c (parse_type (suc f)) (parse_type-Refuses f) (suc f) parses refs last t ts e
          len sp (λ h. absurd (cc (h, n))) t)
  ]

-- With fuel above the number of tokens, `parseType` gives a type of the grammar and leaves the tokens
-- behind it, or gives nil and raises an error.
pub parse_type-ParsesTypes : (c : Context) (f : ℕ) → ParsesTypes c f (parse_type f)
parse_type-ParsesTypes c zero refs seen last ts len sp = absurd (omega arith)
parse_type-ParsesTypes c (suc f) refs seen last [] len sp = nothing_left c f refs seen last [] refl
parse_type-ParsesTypes c (suc zero) refs seen last (t ∷ ts) len sp = absurd (omega arith)
parse_type-ParsesTypes c (suc (suc f)) refs seen last (t ∷ ts) len sp =
    let parses = parse_type-ParsesTypes c (suc f) in
    elim (Bool-cases (is_kind eof t)) [
      | inl e ↦ nothing_left c (suc f) refs seen last (t ∷ ts) e
      | inr e ↦ one_type c f parses refs seen last t ts e (omega arith) sp.1
    ]
