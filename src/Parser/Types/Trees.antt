-- ===== src/Parser/Types/Trees.antt =====
-- `parseType`: a type of the grammar is read as that type, whatever stands behind it.
use mathlib.Core.Path.{subst}
use mathlib.Core.List.{append_assoc}
use fidl.Prelude.{
  ℕ, zero, suc, ◌<◌, ◌≡◌, refl, sym, ap, ap₂, Bool, true, false, Option, none, some, List, [], ◌∷◌,
  ◌++◌, ◌==◌, length, arith, ==→eq, length-append,
}
use fidl.Prelude.Bytes.{Bytes}
use fidl.Prelude.Go.{Outcome, and_then}
use fidl.Lexer.Tokens.{Token, name, amp, qstn, comma, l_angle, r_angle, eof, codes, same_bytes}
use fidl.Types.{
  TypeRef, UserTypeRef, built_in_type, find_type, map_type, user_type, new_user_type_ref,
  mark_used_as_map_key,
}
use fidl.Parser.{Parser, OutOfFuel, Act, is_kind, head_token}
use fidl.Parser.Steps.{Context, at, Leaves, is_kind_other}
use fidl.Parser.Types.{
  parse_type, or_array, or_map, or_reference, or_else, parse_built_in_name, parse_array, parse_map,
  is_word, parse_type_reference,
}
use fidl.Parser.Types.Sound.{
  Ends, or_reference-Ends, or_map-Ends, or_array-Ends, try_built_in_name, try_array_word,
  try_array_other, try_map_word, try_map_other,
}
use fidl.Parser.Types.References.{parse_type_reference-IsIdentifier}
use fidl.Parser.Types.Complete.{EndsType, ReadsTree, array-Leaves}
use fidl.Parser.Types.CompleteMaps.{map-Leaves}
use fidl.Parser.Types.CompleteNames.{built_in-Leaves, IsTypeName-any}
use fidl.Parser.Grammar.{
  IsType, built_in, array_of, map_of, reference, IsIdentifier, IsMark, last_name, dotted,
}

pub same_bytes→eq : (a b : Bytes) → same_bytes a b ≡ true → a ≡ b
unfolding same_bytes
same_bytes→eq [] [] h = refl
same_bytes→eq [] (y ∷ ys) h = absurd (cc)
same_bytes→eq (x ∷ xs) [] h = absurd (cc)
same_bytes→eq (x ∷ xs) (y ∷ ys) h =
    let first : (x == y) ≡ true = ground arith in
    let rest : same_bytes xs ys ≡ true = ground arith in
    ap₂ ◌∷◌ (==→eq x y first) (same_bytes→eq xs ys rest)

is_word-name : (text : Bytes) (t : Token) → is_word text t ≡ true → is_kind name t ≡ true
is_word-name text t w = ground arith

is_word-text : (text : Bytes) (t : Token) → is_word text t ≡ true → text ≡ t.text
is_word-text text t w =
    let same : same_bytes text t.text ≡ true = ground arith in same_bytes→eq text t.text same

array_no_built_in : (t : Token) → is_word (codes "array") t ≡ true → built_in_type t.text ≡ none
unfolding built_in_type find_type same_bytes
array_no_built_in t w = rw (sym (is_word-text (codes "array") t w)) refl

map_no_built_in : (t : Token) → is_word (codes "map") t ≡ true → built_in_type t.text ≡ none
unfolding built_in_type find_type same_bytes
map_no_built_in t w = rw (sym (is_word-text (codes "map") t w)) refl

map_no_array : (t : Token) → is_word (codes "map") t ≡ true → is_word (codes "array") t ≡ false
unfolding same_bytes
map_no_array t w =
    let n = is_word-name (codes "map") t w in rw (n, sym (is_word-text (codes "map") t w)) refl

not_same_word : (text : Bytes) (t : Token) → same_bytes text t.text ≡ false → is_word text t ≡ false
not_same_word text t h = ground (arith, h)

-- What lets a type through leaves what was left.
and_then-Ends-Leaves :
    (c : Context) (rest : List Token) (refs : List UserTypeRef) (type : TypeRef)
    (next : Option TypeRef → Act (Option TypeRef)) (o : Outcome OutOfFuel Parser (Option TypeRef))
    → Ends next
    → Leaves c rest refs (some type) o
    → Leaves c rest refs (some type) (and_then o next)
and_then-Ends-Leaves c rest refs type next o ends (s, l, e) =
    rw e (s, l, ends.passes type (at c rest s l refs))

module _ (c : Context) (refs refs' : List UserTypeRef) (f : ℕ) (seen last t : Token)
    (ts rest : List Token) (type : TypeRef) (n : is_kind name t ≡ true) where
  abbrev WholeLeaves : Type 0
  WholeLeaves = Leaves c rest refs' (some type) (parse_type (suc f) (at c (t ∷ ts) seen last refs))

  -- The three ways from the first token to the method that reads the type.
  by_built_in :
      (any : TypeRef)
      → built_in_type t.text ≡ some any
      → Leaves c rest refs'
          (some type)
          (parse_built_in_name t (some any) (at c (t ∷ ts) t last refs))
      → WholeLeaves
  unfolding parse_type
  by_built_in any b h =
      let e = is_kind_other name eof t refl n in
      rw (try_built_in_name c refs seen last t ts e n, b)
        (and_then-Ends-Leaves c rest refs' type (or_array (parse_type f)) _
          (or_array-Ends (parse_type f)) h)

  by_array :
      is_word (codes "array") t ≡ true
      → Leaves c rest refs' (some type) (parse_array (parse_type f) (at c (t ∷ ts) t last refs))
      → WholeLeaves
  unfolding parse_type or_array or_else parse_built_in_name
  by_array w h =
      let e = is_kind_other name eof t refl n in
      rw
        (
          try_built_in_name c refs seen last t ts e n,
          array_no_built_in t w,
          try_array_word c refs t last t ts e (parse_type f) w,
        )
        (and_then-Ends-Leaves c rest refs' type (or_map (parse_type f)) _
          (or_map-Ends (parse_type f)) h)

  by_map :
      is_word (codes "map") t ≡ true
      → Leaves c rest refs' (some type) (parse_map (parse_type f) (at c (t ∷ ts) t last refs))
      → WholeLeaves
  unfolding parse_type or_array or_map or_else parse_built_in_name
  by_map w h =
      let e = is_kind_other name eof t refl n in
      rw
        (
          try_built_in_name c refs seen last t ts e n,
          map_no_built_in t w,
          try_array_other c refs t last t ts e (parse_type f) (map_no_array t w),
          try_map_word c refs t last t ts e (parse_type f) w,
        )
        (and_then-Ends-Leaves c rest refs' type or_reference _ or_reference-Ends h)

  by_reference :
      built_in_type t.text ≡ none
      → is_word (codes "array") t ≡ false
      → is_word (codes "map") t ≡ false
      → Leaves c rest refs' (some type) (parse_type_reference (at c (t ∷ ts) t last refs))
      → WholeLeaves
  unfolding parse_type or_array or_map or_reference or_else parse_built_in_name
  by_reference b a m h =
      let e = is_kind_other name eof t refl n in
      rw
        (
          try_built_in_name c refs seen last t ts e n,
          b,
          try_array_other c refs t last t ts e (parse_type f) a,
          try_map_other c refs t last t ts e (parse_type f) m,
        )
        h

-- The first token of a type is a name.
IsType-name :
    (scope : ℕ) (refs refs' : List UserTypeRef) (ts : List Token) (type : TypeRef)
    → IsType scope refs ts type refs'
    → (t : Token) × (xs : List Token) × ((ts ≡ t ∷ xs) × (is_kind name t ≡ true))
IsType-name scope refs refs' ts type (built_in _ t xs qs _ _ _ _ w n _ _) = (t, xs ++ qs, (w, n))
IsType-name scope refs refs' ts type (array_of _ _ t l r xs ds qs _ _ _ _ w a _ _ _ _ _) =
    (t, l ∷ (xs ++ (ds ++ (r ∷ qs))), (w, is_word-name (codes "array") t a))
IsType-name scope refs refs' ts type (map_of _ _ _ _ t l d r ks vs qs _ _ _ _ w m _ _ _ _ _ _ _) =
    (t, l ∷ (ks ++ (d ∷ (vs ++ (r ∷ qs)))), (w, is_word-name (codes "map") t m))
IsType-name scope refs refs' ts type (reference _ xs amps qs _ id _ _ w i _ _ _ _ _) = go xs id i w
  where
    go :
        (xs : List Token) (id : Bytes)
        → IsIdentifier xs id
        → ts ≡ xs ++ (amps ++ qs)
        → (t : Token) × (ys : List Token) × ((ts ≡ t ∷ ys) × (is_kind name t ≡ true))
    go xs id (last_name t n) w = (t, amps ++ qs, (w, n))
    go xs id (dotted t d ys _ n m j) w = (t, d ∷ (ys ++ (amps ++ qs)), (w, n))

map-Leaves_any :
    (c : Context) (parse : Act (Option TypeRef)) (refs refs' refs'' marked : List UserTypeRef)
    (seen last t l d r : Token) (ks vs qs rest : List Token) (key val : TypeRef) (nullable : Bool)
    → is_kind l_angle l ≡ true
    → ((k : Token) × (xs : List Token) × ((ks ≡ k ∷ xs) × (is_kind name k ≡ true)))
    → ReadsTree c parse refs ks key refs'
    → is_kind comma d ≡ true
    → ReadsTree c parse refs' vs val refs''
    → is_kind r_angle r ≡ true
    → IsMark qstn qs nullable
    → mark_used_as_map_key key refs'' ≡ (true, marked)
    → is_kind qstn (head_token rest) ≡ false
    → Leaves c rest marked
        (some (map_type nullable key val))
        (parse_map parse (at c (t ∷ l ∷ (ks ++ (d ∷ (vs ++ (r ∷ (qs ++ rest)))))) seen last refs))
map-Leaves_any c parse refs refs' refs'' marked seen last t l d r ks vs qs rest key val nullable hl
      (k, xs, (e, n)) rk m rv h q u end =
    rw e (
      map-Leaves c parse refs refs' refs'' marked seen last t l d r k xs vs qs rest key val nullable
        hl (is_kind_other name eof k refl n)
        (subst (λ ys. ReadsTree c parse refs ys key refs') e rk) m rv h q u end)

reference-Leaves :
    (c : Context) (refs : List UserTypeRef) (f : ℕ) (seen last : Token)
    (xs amps qs rest : List Token) (id : Bytes) (request nullable : Bool)
    → IsIdentifier xs id
    → IsIdentifier xs id
    → built_in_type (head_token xs).text ≡ none
    → same_bytes (codes "array") (head_token xs).text ≡ false
    → same_bytes (codes "map") (head_token xs).text ≡ false
    → IsMark amp amps request
    → IsMark qstn qs nullable
    → EndsType rest
    → Leaves c rest
        (refs ++ new_user_type_ref id nullable request c.scope (head_token xs) ∷ [])
        (some (user_type (length refs)))
        (parse_type (suc f) (at c (xs ++ (amps ++ (qs ++ rest))) seen last refs))
reference-Leaves c refs f seen last xs amps qs rest id request nullable whole (last_name t n) b a m
      as' qs' ends =
    by_reference c refs _ f seen last t (amps ++ (qs ++ rest)) rest _ n b
      (not_same_word (codes "array") t a) (not_same_word (codes "map") t m)
      (parse_type_reference-IsIdentifier c refs t last (t ∷ []) amps qs rest id request nullable
        whole as' qs' ends.0 ends.1 ends.2)
reference-Leaves c refs f seen last xs amps qs rest id request nullable whole
      (dotted t d ys text n k j) b a m as' qs' ends =
    by_reference c refs _ f seen last t (d ∷ (ys ++ (amps ++ (qs ++ rest)))) rest _ n b
      (not_same_word (codes "array") t a) (not_same_word (codes "map") t m)
      (parse_type_reference-IsIdentifier c refs t last (t ∷ d ∷ ys) amps qs rest id request nullable
        whole as' qs' ends.0 ends.1 ends.2)

-- Every type of the grammar is read, with fuel above the number of its tokens, before a token that does
-- not go on with a type.
pub parse_type-IsType :
    (c : Context) (refs refs' : List UserTypeRef) (ts : List Token) (type : TypeRef) (f : ℕ)
    → IsType c.scope refs ts type refs'
    → length ts < f
    → ReadsTree c (parse_type f) refs ts type refs'
parse_type-IsType c refs refs' ts type zero g h seen last rest ends = absurd (omega arith)
parse_type-IsType c refs refs' ts type (suc f) (built_in _ t xs qs _ text found _ w n named null) h
      seen last rest ends =
    let (any, b) = IsTypeName-any t xs text found named in
    rw (w, append_assoc xs qs rest)
      (by_built_in c refs refs f seen last t (xs ++ (qs ++ rest)) rest type n any b
        (built_in-Leaves c refs t last t xs qs rest text any found type b named null ends.2 ends.3))
parse_type-IsType c refs refs' ts type (suc f)
      (array_of _ _ t l r xs ds qs _ element size nullable w a hl g len hr q) h seen last rest
      ends =
    let tail = ds ++ (r ∷ (qs ++ rest)) in
    let split : (xs ++ (ds ++ (r ∷ qs))) ++ rest ≡ xs ++ tail = simp append_assoc in
    let short : length xs < f = omega (arith, ap length w, length-append xs (ds ++ (r ∷ qs))) in
    let reads = parse_type-IsType c refs refs' xs element f g short in
    rw (w, split)
      (by_array c refs refs' f seen last t (l ∷ (xs ++ tail)) rest type
        (is_word-name (codes "array") t a) a
        (array-Leaves c refs refs' t last (parse_type f) t l r xs ds qs rest element size nullable
          hl reads len hr q ends.2))
parse_type-IsType c refs refs' ts type (suc f)
      (map_of _ r₁ r₂ _ t l d r ks vs qs _ key val nullable w m hl g k g' hr q u) h seen last rest
      ends =
    let tail = d ∷ (vs ++ (r ∷ (qs ++ rest))) in
    let split : (ks ++ (d ∷ (vs ++ (r ∷ qs)))) ++ rest ≡ ks ++ tail = simp append_assoc in
    let total = ap length w in
    let inner = length-append vs (r ∷ qs) in
    let outer = length-append ks (d ∷ (vs ++ (r ∷ qs))) in
    let reads = parse_type-IsType c refs r₁ ks key f g (omega (arith, total, outer)) in
    let reads' = parse_type-IsType c r₁ r₂ vs val f g' (omega (arith, total, outer, inner)) in
    rw (w, split)
      (by_map c refs refs' f seen last t (l ∷ (ks ++ tail)) rest type
        (is_word-name (codes "map") t m) m
        (map-Leaves_any c (parse_type f) refs r₁ r₂ refs' t last t l d r ks vs qs rest key val
          nullable hl (IsType-name c.scope refs r₁ ks key g) reads k reads' hr q u ends.2))
parse_type-IsType c refs refs' ts type (suc f)
      (reference _ xs amps qs _ id request nullable w i b a m as' qs') h seen last rest ends =
    let split : (xs ++ (amps ++ qs)) ++ rest ≡ xs ++ (amps ++ (qs ++ rest)) = simp append_assoc in
    rw (w, split)
      (reference-Leaves c refs f seen last xs amps qs rest id request nullable i i b a m as' qs'
        ends)
