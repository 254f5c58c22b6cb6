-- ===== src/Parser/Types/Arrays.antt =====
-- `tryParseArrayType`: what it reads.
use mathlib.Core.Path.{subst}
use mathlib.Core.List.{append_assoc}
use fidl.Prelude.{
  ℕ, suc, ◌<◌, ◌≡◌, refl, ◌∙◌, ap, Bool, true, false, Option, none, some, List, [], ◌∷◌, ◌++◌,
  length, All, arith, if◌then◌else◌,
}
use fidl.Prelude.Int.{ℤ, pos, negsuc}
use fidl.Prelude.Go.{pure, ◌>>=◌}
use fidl.Lexer.Tokens.{Token, comma, l_angle, r_angle, qstn, codes}
use fidl.Types.{TypeRef, UserTypeRef, array}
use fidl.Parser.{Parser, Act, is_kind, consume_next_token}
use fidl.Parser.Steps.{Context, at, Returns, Returns-map, Reads, failed, read, and_then-Reads}
use fidl.Parser.Integers.{IntLiteral, parse_positive_integer_literal, to_int32}
use fidl.Parser.Integers.Literals.{IsSpelled, fixed_length-Reads, ReadsInteger, to_int32-pos}
use fidl.Parser.Integers.Values.{number}
use fidl.Parser.{try_match}
use fidl.Parser.Types.{
  parse_array, parse_array_suffix, parse_fixed_size, fixed_size_of, finish_array,
  new_array_type_ref, is_word,
}
use fidl.Parser.Types.Marks.{ReadsMark, ReadsToken, try_match-Reads, match_kind-Reads}
use fidl.Parser.Types.References.{ReadsType, IsNil}
use fidl.Parser.Grammar.{
  array_of, IsLength, no_length, fixed_length, IsMark, unmarked, marked, IsToken, token,
}

-- What comes behind the tokens that were read is spelled like them.
pub All-rest :
    {ts : List Token} (xs rest : List Token)
    → ts ≡ xs ++ rest
    → All IsSpelled ts
    → All IsSpelled rest
All-rest {ts} xs rest p h = go xs (subst (All IsSpelled) p h)
  where
    go : (xs : List Token) → All IsSpelled (xs ++ rest) → All IsSpelled rest
    go [] h = h
    go (x ∷ xs) h = go xs h.1

abbrev ReadsLength : List UserTypeRef → List Token → Option ℤ → List UserTypeRef → Type 0
ReadsLength refs xs a refs' = (size : ℤ) × ((a ≡ some size) × (IsLength xs size × (refs' ≡ refs)))

length_of :
    (c : Context) (refs refs' : List UserTypeRef) (seen last : Token) (fixed : Bool)
    (xs ts rest : List Token)
    → IsMark comma xs fixed
    → refs' ≡ refs
    → ts ≡ xs ++ rest
    → All IsSpelled rest
    → Returns (Reads c ts (ReadsLength refs) (λ a. a ≡ none)) (
        (if fixed
            then (do
              size ← parse_positive_integer_literal false false false 32
              pure (fixed_size_of size))
            else pure (some (negsuc 0)))
          (at c rest seen last refs'))
length_of c refs refs' seen last fixed xs ts rest unmarked same p sp =
    read _ _ [] rest _ _ refs' refl p (negsuc 0, (refl, (no_length, same)))
length_of c refs refs' seen last fixed xs ts rest (marked t h) same p sp =
    and_then-Reads c rest (ReadsInteger refs') (λ a. a ≡ none) _ _ _
      (fixed_length-Reads c refs' seen last rest sp) (λ a q e bad. rw e (failed _ _ refl bad))
      (λ a ys r s l refs₁ q g. known a ys r s l refs₁ q g)
  where
    known :
        (a : Option IntLiteral) (ys r : List Token) (s l : Token) (refs₁ : List UserTypeRef)
        → rest ≡ ys ++ r
        → ReadsInteger refs' ys a refs₁
        → Reads c ts (ReadsLength refs) (λ a. a ≡ none) (fixed_size_of a) (at c r s l refs₁)
    known a ys r s l refs₁ q g =
        let n = number 10 0 g.0.text in
        rw g.2.1.0 (
          read _ _ (t ∷ ys) r s l refs₁ refl (p ∙ ap (λ u. t ∷ u) q) (
            pos n,
            (
              ap some (ap to_int32 g.3.0 ∙ to_int32-pos n g.3.1),
              (rw g.2.0 (fixed_length t g.0 h g.2.1.1 g.4.0 g.3.1), g.4.1 ∙ same),
            ),
          ))

parse_fixed_size-Reads :
    (c : Context) (refs : List UserTypeRef) (seen last : Token) (ts : List Token)
    → All IsSpelled ts
    → Returns
        (Reads c ts (ReadsLength refs) (λ a. a ≡ none))
        (parse_fixed_size (at c ts seen last refs))
unfolding parse_fixed_size
parse_fixed_size-Reads c refs seen last ts sp =
    and_then-Reads c ts (ReadsMark comma refs) (λ _. ⊥) _ _ _
      (try_match-Reads c comma refl ts seen last refs) (λ _ _ n _. absurd n)
      (λ fixed xs r₁ s₁ l₁ refs₁ p₁ g₁.
        length_of c refs refs₁ s₁ l₁ fixed xs ts r₁ g₁.0 g₁.1 p₁ (All-rest xs r₁ p₁ sp))

-- The end of the array, of which the element and the length have been read.
abbrev ReadsArrayEnd :
    TypeRef → ℤ → List UserTypeRef → List Token → Option TypeRef → List UserTypeRef → Type 0
ReadsArrayEnd element size refs xs a refs' =
    (r : Token) × (qs : List Token) × (nullable : Bool) × ((xs ≡ r ∷ qs)
      × (a ≡ some (array nullable size element)))
    × ((is_kind r_angle r ≡ true) × (IsMark qstn qs nullable × (refs' ≡ refs)))

finish_array-Reads :
    (c : Context) (refs : List UserTypeRef) (seen last : Token) (element : TypeRef) (size : ℤ)
    (ts : List Token)
    → Returns
        (Reads c ts (ReadsArrayEnd element size refs) IsNil)
        (finish_array (some element) (some size) (at c ts seen last refs))
unfolding finish_array new_array_type_ref
finish_array-Reads c refs seen last element size ts =
    and_then-Reads c ts (ReadsToken r_angle refs) (λ b. b ≡ false) _ _ _
      (match_kind-Reads c r_angle refl ts seen last refs) (λ b p n bad. rw n (failed _ _ refl bad))
      (λ closed xs r₁ s₁ l₁ refs₁ p₁ g₁. go closed xs r₁ s₁ l₁ refs₁ p₁ g₁.0 g₁.1)
  where
    go :
        (closed : Bool) (xs r₁ : List Token) (s₁ l₁ : Token) (refs₁ : List UserTypeRef)
        → ts ≡ xs ++ r₁
        → IsToken r_angle xs closed
        → refs₁ ≡ refs
        → Returns (Reads c ts (ReadsArrayEnd element size refs) IsNil) (
            (if closed
                then (do nullable ← try_match qstn; new_array_type_ref nullable size (some element))
                else pure none)
              (at c r₁ s₁ l₁ refs₁))
    go closed xs r₁ s₁ l₁ refs₁ p₁ (token r h) same =
        and_then-Reads c r₁ (ReadsMark qstn refs₁) (λ _. ⊥) _ _ _
          (try_match-Reads c qstn refl r₁ s₁ l₁ refs₁) (λ _ _ n _. absurd n)
          (λ nullable qs r₂ s₂ l₂ refs₂ p₂ g₂.
            read _ _ (r ∷ qs) r₂ s₂ l₂ refs₂ refl (p₁ ∙ ap (λ u. r ∷ u) p₂)
              (r, qs, nullable, (refl, refl), (h, (g₂.0, g₂.1 ∙ same))))

-- A reader of types that are shorter than the bound.
abbrev pub ParsesTypes : Context → ℕ → Act (Option TypeRef) → Type 0
ParsesTypes c bound parse =
    (refs : List UserTypeRef) (seen last : Token) (ts : List Token)
    → length ts < bound
    → All IsSpelled ts
    → Returns (Reads c ts (ReadsType c refs) IsNil) (parse (at c ts seen last refs))

parse_array_suffix-Reads :
    (c : Context) (refs refs' : List UserTypeRef) (seen last t l : Token) (a : Option TypeRef)
    (xs ts : List Token)
    → is_word (codes "array") t ≡ true
    → is_kind l_angle l ≡ true
    → ReadsType c refs xs a refs'
    → All IsSpelled ts
    → Returns
        (Reads c (t ∷ l ∷ (xs ++ ts)) (ReadsType c refs) IsNil)
        (parse_array_suffix a (at c ts seen last refs'))
unfolding parse_array_suffix
parse_array_suffix-Reads c refs refs' seen last t l a xs ts w h g sp =
    and_then-Reads c ts (ReadsLength refs') (λ a. a ≡ none) _ _ _
      (parse_fixed_size-Reads c refs' seen last ts sp)
      (λ b p e bad. unfold finish_array in rw e (failed _ _ refl bad))
      (λ b ds r₁ s₁ l₁ refs₁ p₁ g₁.
        rw (g.1.0, g₁.1.0)
          (Returns-map _ _ (finish_array (some g.0) (some g₁.0) (at c r₁ s₁ l₁ refs₁))
            (λ r p e. whole ds r₁ refs₁ p₁ g₁.0 g₁.1.1.0 g₁.1.1.1 r p e)
            (finish_array-Reads c refs₁ s₁ l₁ g.0 g₁.0 r₁)))
  where
    whole :
        (ds r₁ : List Token) (refs₁ : List UserTypeRef)
        → ts ≡ ds ++ r₁
        → (size : ℤ) → IsLength ds size
        → refs₁ ≡ refs'
        → (r : Option TypeRef) (p : Parser) → Reads c r₁ (ReadsArrayEnd g.0 size refs₁) IsNil r p
        → Reads c (t ∷ l ∷ (xs ++ ts)) (ReadsType c refs) IsNil r p
    whole ds r₁ refs₁ p₁ size len same r p (failed _ _ e bad) = failed r p e bad
    whole ds r₁ refs₁ p₁ size len same r p (read _ _ ys rest s' l' refs₂ q split e) =
        read r p (t ∷ l ∷ (xs ++ (ds ++ ys))) rest s' l' refs₂ q (simp (p₁, split, append_assoc)) (
          array e.2 size g.0,
          (
            e.3.1,
            rw (e.4.1.1 ∙ same, e.3.0)
                (array_of refs refs' t l e.0 xs ds e.1 _ g.0 size e.2 refl w h g.1.1 len e.4.0
                  e.4.1.0),
          ),
        )

-- An array, where the type of its elements is read.
pub parse_array-Reads :
    (c : Context) (refs : List UserTypeRef) (seen last t : Token) (ts : List Token)
    (parse : Act (Option TypeRef)) (bound : ℕ)
    → is_word (codes "array") t ≡ true
    → length ts < suc bound
    → All IsSpelled ts
    → ParsesTypes c bound parse
    → Returns
        (Reads c (t ∷ ts) (ReadsType c refs) IsNil)
        (parse_array parse (at c (t ∷ ts) seen last refs))
unfolding parse_array consume_next_token
parse_array-Reads c refs seen last t ts parse bound w len sp parses =
    and_then-Reads c ts (ReadsToken l_angle refs) (λ b. b ≡ false) _ _ _
      (match_kind-Reads c l_angle refl ts seen t refs) (λ b p n bad. rw n (failed _ _ refl bad))
      (λ opened xs r₁ s₁ l₁ refs₁ p₁ g₁. go opened xs r₁ s₁ l₁ refs₁ p₁ g₁.0 g₁.1)
  where
    go :
        (opened : Bool) (xs r₁ : List Token) (s₁ l₁ : Token) (refs₁ : List UserTypeRef)
        → ts ≡ xs ++ r₁
        → IsToken l_angle xs opened
        → refs₁ ≡ refs
        → Returns (Reads c (t ∷ ts) (ReadsType c refs) IsNil) (
            (if opened then (do element ← parse; parse_array_suffix element) else pure none)
              (at c r₁ s₁ l₁ refs₁))
    go opened xs r₁ s₁ l₁ refs₁ p₁ (token l h) same =
        rw (p₁, same)
          (and_then-Reads c r₁ (ReadsType c refs) IsNil _ _ _
            (parses refs s₁ l₁ r₁ (omega (arith, ap length p₁)) (All-rest (l ∷ []) r₁ p₁ sp))
            (λ a p e bad. unfold parse_array_suffix in rw bad (failed _ _ refl bad))
            (λ a ys r₂ s₂ l₂ refs₂ p₂ g₂. rw p₂ (
              parse_array_suffix-Reads c refs refs₂ s₂ l₂ t l a ys r₂ w h g₂
                (All-rest ys r₂ p₂ (All-rest (l ∷ []) r₁ p₁ sp)))))
