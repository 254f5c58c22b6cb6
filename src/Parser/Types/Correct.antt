-- ===== src/Parser/Types/Correct.antt =====
-- `parseType`, in both directions.
use fidl.Prelude.{
  ℕ, ◌<◌, ◌≡◌, ◌↔◌, refl, Option, some, List, ◌++◌, length, length-append, All, arith,
}
use mathlib.Core.List.{append_cancel_right}
use mathlib.Core.Option.{some-injective}
use fidl.Prelude.Go.{Outcome}
use fidl.Lexer.Tokens.{Token}
use fidl.Types.{TypeRef, UserTypeRef}
use fidl.Parser.{Parser, OutOfFuel}
use fidl.Parser.Steps.{Context, at, Returns, Reads, failed, read, Leaves}
use fidl.Parser.Integers.Literals.{IsSpelled}
use fidl.Parser.Types.{parse_type}
use fidl.Parser.Types.References.{ReadsType, IsNil}
use fidl.Parser.Types.Sound.{parse_type-ParsesTypes}
use fidl.Parser.Types.Complete.{EndsType}
use fidl.Parser.Types.Trees.{parse_type-IsType}
use fidl.Parser.Grammar.{IsType}

-- From a state without an error, where decimal literals are numerals, `parseType` returns without a panic
-- and within fuel above the number of the tokens left. Either it gives a type and has no error, and the
-- tokens it took, in front of those it left, are that type by the grammar of Parser/Grammar, with the references that the
-- parser has then; or it gives nil and has an error.
pub parse_type-Returns :
    (c : Context) (refs : List UserTypeRef) (seen last : Token) (ts : List Token) (f : ℕ)
    → length ts < f
    → All IsSpelled ts
    → Returns (Reads c ts (ReadsType c refs) IsNil) (parse_type f (at c ts seen last refs))
parse_type-Returns c refs seen last ts f len sp =
    parse_type-ParsesTypes c f refs seen last ts len sp

-- Tokens that are a type by the grammar of Parser/Grammar are read as that type, with its references registered, where the
-- next token is no dot, ampersand, question mark or left angle, and the fuel is above the number of the
-- type's tokens: exactly the tokens behind it are left, and there is no error.
pub parse_type-Leaves :
    (c : Context) (refs refs' : List UserTypeRef) (ts rest : List Token) (type : TypeRef) (f : ℕ)
    (seen last : Token)
    → IsType c.scope refs ts type refs'
    → length ts < f
    → EndsType rest
    → Leaves c rest refs' (some type) (parse_type f (at c (ts ++ rest) seen last refs))
parse_type-Leaves c refs refs' ts rest type f seen last g len ends =
    parse_type-IsType c refs refs' ts type f g len seen last rest ends

module _ (c : Context) (refs refs' : List UserTypeRef) (ts rest : List Token) (type : TypeRef) where
  -- A value that was read where `rest` is left has read `ts`.
  read_all :
      (a : Option TypeRef) (p : Parser)
      → Reads c (ts ++ rest) (ReadsType c refs) IsNil a p
      → a ≡ some type
      → p.input ≡ rest
      → p.type_references ≡ refs'
      → IsType c.scope refs ts type refs'
  read_all a p (failed _ _ nil _) e i r = absurd (cc)
  read_all a p (read _ _ consumed rest' seen last refs'' q split (other, (found, g))) e i r =
      let same_rest : rest' ≡ rest = cc in
      let same_refs : refs'' ≡ refs' = cc in
      let same_type : other ≡ type = some-injective other type (cc) in
      let same_tokens : consumed ≡ ts = append_cancel_right consumed ts rest (cc) in
      rw (same_tokens, same_refs, same_type) at g

  reads_all :
      (o : Outcome OutOfFuel Parser (Option TypeRef))
      → Returns (Reads c (ts ++ rest) (ReadsType c refs) IsNil) o
      → Leaves c rest refs' (some type) o
      → IsType c.scope refs ts type refs'
  reads_all o h (s, l, e) = read_all (some type) _ (rw e at h) refl refl refl

-- Where decimal literals are numerals, the fuel is above the number of tokens, and the token behind `ts` is no dot,
-- ampersand, question mark or left angle, `parseType` takes exactly `ts`, gives the type `type` and registers the
-- references of `refs'` just when `ts` is that type with those references by the grammar of Parser/Grammar.
pub parse_type-decides :
    (c : Context) (refs refs' : List UserTypeRef) (ts rest : List Token) (type : TypeRef) (f : ℕ)
    (seen last : Token)
    → length (ts ++ rest) < f
    → All IsSpelled (ts ++ rest)
    → EndsType rest
    → Leaves c rest refs' (some type) (parse_type f (at c (ts ++ rest) seen last refs))
      ↔ IsType c.scope refs ts type refs'
parse_type-decides c refs refs' ts rest type f seen last len sp ends = (
  reads_all c refs refs' ts rest type _ (parse_type-Returns c refs seen last (ts ++ rest) f len sp),
  (λ g.
      parse_type-Leaves c refs refs' ts rest type f seen last g
        (omega (arith, length-append ts rest)) ends),
)
