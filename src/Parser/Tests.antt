-- ===== src/Parser/Tests.antt =====
-- The theorems of the parser at concrete tokens.
use fidl.Prelude.{◌≡◌, ◌↔◌, refl, true, false, Option, none, some, List, [], ◌∷◌, ◌++◌, All, arith}
use fidl.Prelude.Bytes.{Bytes}
use fidl.Prelude.Int.{pos, negsuc}
use fidl.Prelude.Go.{ok, panic}
use fidl.Lexer.Tokens.{
  TokenKind, Token, codes, same_bytes, name, dot, comma, minus, l_angle, r_angle, r_brace, qstn,
  semi, int_const_dec,
}
use fidl.Lexer.Stream.{eof_token}
use fidl.Types.{
  UserTypeRef, new_user_type_ref, array, user_type, simple_int16, simple_uint8, built_in_type,
  find_type,
}
use fidl.Parser.{AssigneeSpec}
use fidl.Parser.Steps.{Context, at, Returns, Reads, Leaves}
use fidl.Parser.Integers.{NumError, digit_value}
use fidl.Parser.Integers.Values.{IsNumeral}
use fidl.Parser.Integers.Literals.{IsSpelled}
use fidl.Parser.Types.{parse_type}
use fidl.Parser.Types.References.{ReadsType, IsNil}
use fidl.Parser.Types.Correct.{parse_type-Returns, parse_type-Leaves, parse_type-decides}
use fidl.Parser.Grammar.{
  IsType, array_of, reference, fixed_length, unmarked, marked, last_name, dotted,
}
use fidl.Parser.Literals.{parse_number_literal, parse_enum_value_initializer, int_value}
use fidl.Parser.Literals.Decimals.{parse_number_literal-decimal}
use fidl.Parser.Literals.Numbers.{literal_of, smallest_type, first_type, in_type}
use fidl.Parser.Literals.Compatible.{
  is_assignment_compatible, is_assignment_compatible-smallest_type,
}
use fidl.Parser.Literals.Initializers.{parse_enum_value_initializer-dot}

abbrev tok : TokenKind → Bytes → Token
tok kind text = record {
  kind = kind;
  text = text;
  source_pos = 0;
  line_pos = 0;
  source_pos_bytes = 0;
  line_pos_bytes = 0;
  line_no = 0;
}

abbrev context : Context
context = record { scope = 7; values = [] }

abbrev word : Bytes → Token
word = tok name

abbrev langle : Token
langle = tok l_angle (codes "<")

abbrev rangle : Token
rangle = tok r_angle (codes ">")

-- foo.Bar?
abbrev bar_tokens : List Token
bar_tokens =
    word (codes "foo") ∷ tok dot (codes ".") ∷ word (codes "Bar") ∷ tok qstn (codes "?") ∷ []

abbrev length_tokens : List Token
length_tokens = tok comma (codes ",") ∷ tok int_const_dec (codes "30") ∷ []

-- array<foo.Bar?, 30>
abbrev array_tokens : List Token
array_tokens = word (codes "array") ∷ langle ∷ (bar_tokens ++ (length_tokens ++ (rangle ∷ [])))

abbrev bar : UserTypeRef
bar = new_user_type_ref (codes "foo.Bar") true false 7 (word (codes "foo"))

thirty-IsNumeral : IsNumeral 10 (codes "30")
unfolding digit_value
thirty-IsNumeral = record { nonempty = λ e. cc; digits = (omega arith, (omega arith, tt)) }

bar-IsType : IsType 7 [] bar_tokens (user_type 0) (bar ∷ [])
unfolding built_in_type find_type same_bytes
bar-IsType =
    reference [] _ [] (tok qstn (codes "?") ∷ []) _ (codes "foo.Bar") false true refl
      (dotted _ _ _ _ refl refl (last_name _ refl)) refl refl refl unmarked (marked _ refl)

array-IsType : IsType 7 [] array_tokens (array false (pos 30) (user_type 0)) (bar ∷ [])
unfolding same_bytes digit_value
array-IsType =
    array_of [] (bar ∷ []) (word (codes "array")) langle rangle bar_tokens length_tokens []
      array_tokens (user_type 0) (pos 30) false refl refl refl bar-IsType
      (fixed_length _ _ refl refl thirty-IsNumeral (omega arith)) refl unmarked

array-IsSpelled : All IsSpelled array_tokens
array-IsSpelled = (
  (λ h. absurd (cc)),
  (
    (λ h. absurd (cc)),
    (
      (λ h. absurd (cc)),
      (
        (λ h. absurd (cc)),
        (
          (λ h. absurd (cc)),
          (
            (λ h. absurd (cc)),
            ((λ h. absurd (cc)), ((λ h. thirty-IsNumeral), ((λ h. absurd (cc)), tt))),
          ),
        ),
      ),
    ),
  ),
)

parse_type-Returns_example :
    Returns
      (Reads context array_tokens (ReadsType context []) IsNil)
      (parse_type 20 (at context array_tokens eof_token eof_token []))
parse_type-Returns_example =
    parse_type-Returns context [] eof_token eof_token array_tokens 20 (omega arith) array-IsSpelled

abbrev end_of_field : List Token
end_of_field = tok semi (codes ";") ∷ []

parse_type-Leaves_example :
    Leaves context end_of_field
      (bar ∷ [])
      (some (array false (pos 30) (user_type 0)))
      (parse_type 20 (at context (array_tokens ++ end_of_field) eof_token eof_token []))
parse_type-Leaves_example =
    parse_type-Leaves context [] (bar ∷ []) array_tokens end_of_field
      (array false (pos 30) (user_type 0)) 20 eof_token eof_token array-IsType (omega arith)
      (refl, refl, refl, refl)

All-append : (xs ys : List Token) → All IsSpelled xs → All IsSpelled ys → All IsSpelled (xs ++ ys)
All-append [] ys h k = k
All-append (x ∷ xs) ys h k = (h.0, All-append xs ys h.1 k)

parse_type-decides_example :
    Leaves context end_of_field
      (bar ∷ [])
      (some (array false (pos 30) (user_type 0)))
      (parse_type 20 (at context (array_tokens ++ end_of_field) eof_token eof_token []))
    ↔ IsType context.scope [] array_tokens (array false (pos 30) (user_type 0)) (bar ∷ [])
parse_type-decides_example =
    parse_type-decides context [] (bar ∷ []) array_tokens end_of_field
      (array false (pos 30) (user_type 0)) 20 eof_token eof_token (omega arith)
      (All-append array_tokens end_of_field array-IsSpelled ((λ h. absurd (cc)), tt))
      (refl, refl, refl, refl)

-- No float is read here.
abbrev no_float : Bytes → Option NumError
no_float text = none

abbrev two_hundred : Token
two_hundred = tok int_const_dec (codes "200")

two_hundred-IsNumeral : IsNumeral 10 (codes "200")
unfolding digit_value
two_hundred-IsNumeral = record {
  nonempty = λ e. cc;
  digits = (omega arith, (omega arith, (omega arith, tt)));
}

-- -200 is of int16.
parse_number_literal-decimal_example :
    parse_number_literal no_float
      (at context (tok minus (codes "-") ∷ two_hundred ∷ []) eof_token eof_token [])
    ≡ ok
        (int_value simple_int16 (negsuc 199) two_hundred)
        (at context [] two_hundred two_hundred [])
unfolding literal_of smallest_type digit_value first_type in_type
parse_number_literal-decimal_example =
    parse_number_literal-decimal no_float context [] two_hundred [] refl two_hundred-IsNumeral
      (tok minus (codes "-") ∷ []) true eof_token eof_token (marked (tok minus (codes "-")) refl)

abbrev assignee : AssigneeSpec
assignee = record { assignee_name = codes "A"; assignee_type = user_type 0 }

-- enum E { A = B. };
parse_enum_value_initializer-dot_example :
    parse_enum_value_initializer no_float assignee (
      at context
        (word (codes "B") ∷ tok dot (codes ".") ∷ tok r_brace (codes "}") ∷ [])
        eof_token
        eof_token
        [])
    ≡ panic
parse_enum_value_initializer-dot_example =
    parse_enum_value_initializer-dot no_float assignee context [] eof_token eof_token
      (tok dot (codes ".")) (word (codes "B") ∷ []) (tok r_brace (codes "}") ∷ []) (codes "B")
      (last_name (word (codes "B")) refl) refl refl

-- 200 may be assigned to an int16.
is_assignment_compatible-smallest_type_example :
    is_assignment_compatible (λ x. true) simple_int16 (int_value simple_uint8 (pos 200) two_hundred)
    ≡ some true
unfolding smallest_type first_type in_type
is_assignment_compatible-smallest_type_example =
    is_assignment_compatible-smallest_type (λ x. true) (pos 200) simple_uint8 simple_int16
      two_hundred refl refl
