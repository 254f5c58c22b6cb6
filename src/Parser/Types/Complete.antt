-- ===== src/Parser/Types/Complete.antt =====
-- `parseType`: every type of the grammar is read.
use fidl.Prelude.{
  ◌<◌, ◌^◌, ◌≡◌, refl, ◌∙◌, ap, Bool, true, false, Option, some, List, ◌∷◌, ◌++◌, arith, inl, inr,
}
use fidl.Prelude.Int.{ℤ, pos}
use fidl.Prelude.Go.{ok, and_then, pure}
use fidl.Lexer.Tokens.{Token, dot, amp, qstn, comma, l_angle, r_angle, eof, int_const_dec}
use fidl.Types.{TypeRef, UserTypeRef, array}
use fidl.Parser.{Act, is_kind, head_token, consume_next_token}
use fidl.Parser.Steps.{
  Context, at, Leaves, and_then-Leaves, try_match_hit, try_match_miss, match_kind_hit,
  is_kind_other,
}
use fidl.Parser.Integers.{parse_positive_integer_literal, to_int32, is_size, finish_integer}
use fidl.Parser.Integers.Values.{number, IsNumeral}
use fidl.Parser.Integers.Literals.{read_integer-at, integer_of_decimal, length_fits, to_int32-pos}
use fidl.Parser.Types.{
  parse_fixed_size, finish_array, new_array_type_ref, parse_array, parse_array_suffix,
  fixed_size_of,
}
use fidl.Parser.Types.Marks.{try_match-IsMark}
use fidl.Parser.Grammar.{IsLength, no_length, fixed_length, IsMark}

-- A token that does not go on with a type: no dot, `&`, `?` or `<`.
abbrev pub EndsType : List Token → Type 0
EndsType ts =
    (is_kind dot (head_token ts) ≡ false)
    × (is_kind amp (head_token ts) ≡ false)
    × (is_kind qstn (head_token ts) ≡ false)
    × (is_kind l_angle (head_token ts) ≡ false)

pub comma-EndsType : (t : Token) (ts : List Token) → is_kind comma t ≡ true → EndsType (t ∷ ts)
comma-EndsType t ts h = (
  is_kind_other comma dot t refl h,
  is_kind_other comma amp t refl h,
  is_kind_other comma qstn t refl h,
  is_kind_other comma l_angle t refl h,
)

pub r_angle-EndsType : (t : Token) (ts : List Token) → is_kind r_angle t ≡ true → EndsType (t ∷ ts)
r_angle-EndsType t ts h = (
  is_kind_other r_angle dot t refl h,
  is_kind_other r_angle amp t refl h,
  is_kind_other r_angle qstn t refl h,
  is_kind_other r_angle l_angle t refl h,
)

length-EndsType :
    (ds : List Token) (size : ℤ) (r : Token) (ts : List Token)
    → IsLength ds size
    → is_kind r_angle r ≡ true
    → EndsType (ds ++ (r ∷ ts))
length-EndsType ds size r ts no_length h = r_angle-EndsType r ts h
length-EndsType ds size r ts (fixed_length t d k _ _ _) h = comma-EndsType t (d ∷ r ∷ ts) k

decimal-Leaves :
    (c : Context) (refs : List UserTypeRef) (seen last : Token) (d : Token) (ts : List Token)
    → is_kind int_const_dec d ≡ true
    → IsNumeral 10 d.text
    → number 10 0 d.text < 2 ^ 31
    → Leaves c ts refs (some (pos (number 10 0 d.text))) (
        and_then
          (parse_positive_integer_literal false false false 32 (at c (d ∷ ts) seen last refs))
          (λ size. pure (fixed_size_of size)))
unfolding parse_positive_integer_literal is_size finish_integer
decimal-Leaves c refs seen last d ts k n h =
    let e =
      read_integer-at c refs seen last false false false 32 d ts
        (is_kind_other int_const_dec eof d refl k) in
    let chosen = integer_of_decimal false false false 32 d (at c ts d d refs) k n refl refl in
    elim (length_fits (number 10 0 d.text)) [
      | inl f ↦
          rw (e, chosen, f.1.0)
            (
              d,
              d,
              ap (λ size. ok (some size) (at c ts d d refs))
                  (ap to_int32 f.1.1.0 ∙ to_int32-pos (number 10 0 d.text) h),
            )
      | inr f ↦ absurd (omega (arith, f.1))
    ]

module _ (c : Context) (refs : List UserTypeRef) (seen last : Token) where
  length-Leaves :
      (ds : List Token) (size : ℤ) (r : Token) (ts : List Token)
      → IsLength ds size
      → is_kind r_angle r ≡ true
      → Leaves c (r ∷ ts) refs (some size) (parse_fixed_size (at c (ds ++ (r ∷ ts)) seen last refs))
  unfolding parse_fixed_size
  length-Leaves ds size r ts no_length h =
      rw (try_match_miss c seen last refs comma (r ∷ ts) (is_kind_other r_angle comma r refl h))
        (r, last, refl)
  length-Leaves ds size r ts (fixed_length t d k i n l) h =
      rw (try_match_hit c seen last refs comma t (d ∷ r ∷ ts) refl k)
        (decimal-Leaves c refs t t d (r ∷ ts) i n l)

  array_end-Leaves :
      (element : TypeRef) (size : ℤ) (r : Token) (qs rest : List Token) (nullable : Bool)
      → is_kind r_angle r ≡ true
      → IsMark qstn qs nullable
      → is_kind qstn (head_token rest) ≡ false
      → Leaves c rest refs
          (some (array nullable size element))
          (finish_array (some element) (some size) (at c (r ∷ (qs ++ rest)) seen last refs))
  unfolding finish_array new_array_type_ref
  array_end-Leaves element size r qs rest nullable h q e =
      rw (match_kind_hit c seen last refs r_angle r (qs ++ rest) refl h) (
        and_then-Leaves c rest rest refs refs nullable (some (array nullable size element)) _ _
          (try_match-IsMark c qstn refl qs rest nullable r r refs q e) (λ s l. (s, l, refl)))

array_suffix-Leaves :
    (c : Context) (refs : List UserTypeRef) (seen last : Token) (element : TypeRef) (size : ℤ)
    (ds : List Token) (r : Token) (qs rest : List Token) (nullable : Bool)
    → IsLength ds size
    → is_kind r_angle r ≡ true
    → IsMark qstn qs nullable
    → is_kind qstn (head_token rest) ≡ false
    → Leaves c rest refs
        (some (array nullable size element))
        (parse_array_suffix (some element) (at c (ds ++ (r ∷ (qs ++ rest))) seen last refs))
unfolding parse_array_suffix
array_suffix-Leaves c refs seen last element size ds r qs rest nullable len h q e =
    and_then-Leaves c (r ∷ (qs ++ rest)) rest refs refs (some size) _ _ _
      (length-Leaves c refs seen last ds size r (qs ++ rest) len h)
      (λ s l. array_end-Leaves c refs s l element size r qs rest nullable h q e)

-- What is left behind a type, where the method for types reads it.
abbrev pub ReadsTree :
    Context
    → Act (Option TypeRef)
    → List UserTypeRef
    → List Token
    → TypeRef
    → List UserTypeRef
    → Type 0
ReadsTree c parse refs ts type refs' =
    (seen last : Token) (rest : List Token)
    → EndsType rest
    → Leaves c rest refs' (some type) (parse (at c (ts ++ rest) seen last refs))

pub array-Leaves :
    (c : Context) (refs refs' : List UserTypeRef) (seen last : Token) (parse : Act (Option TypeRef))
    (t l r : Token) (ts ds qs rest : List Token) (element : TypeRef) (size : ℤ) (nullable : Bool)
    → is_kind l_angle l ≡ true
    → ReadsTree c parse refs ts element refs'
    → IsLength ds size
    → is_kind r_angle r ≡ true
    → IsMark qstn qs nullable
    → is_kind qstn (head_token rest) ≡ false
    → Leaves c rest refs'
        (some (array nullable size element))
        (parse_array parse (at c (t ∷ l ∷ (ts ++ (ds ++ (r ∷ (qs ++ rest))))) seen last refs))
unfolding parse_array consume_next_token
array-Leaves c refs refs' seen last parse t l r ts ds qs rest element size nullable hl reads len hr
      q e =
    let tail = ds ++ (r ∷ (qs ++ rest)) in
    rw (match_kind_hit c seen t refs l_angle l (ts ++ tail) refl hl) (
      and_then-Leaves c tail rest refs' refs' (some element) _ _ _
        (reads l l tail (length-EndsType ds size r (qs ++ rest) len hr))
        (λ s l'. array_suffix-Leaves c refs' s l' element size ds r qs rest nullable len hr q e))
