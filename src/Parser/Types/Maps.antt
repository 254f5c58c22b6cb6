-- ===== src/Parser/Types/Maps.antt =====
-- `tryParseMapType`: what it reads.
use mathlib.Core.List.{append_assoc}
use fidl.Prelude.{
  ℕ, suc, ◌<◌, ◌≡◌, refl, ◌∙◌, ap, Bool, true, false, Option, none, some, List, [], ◌∷◌, ◌++◌,
  length, All, arith, if◌then◌else◌, length-append, Bool-cases, inl, inr,
}
use fidl.Prelude.Go.{Outcome, ok, and_then, pure, ◌>>=◌}
use fidl.Lexer.Tokens.{TokenKind, Token, comma, l_angle, r_angle, qstn, eof, codes}
use fidl.Types.{TypeRef, UserTypeRef, map_type, mark_used_as_map_key}
use fidl.Parser.{
  Parser, OutOfFuel, Act, try_match, is_kind, is_ok, consume_next_token, peek_next_token,
  match_kind,
}
use fidl.Parser.Steps.{
  Context, at, Returns, Returns-map, Reads, failed, read, and_then-Reads, peek_next_token-at,
  peek_next_token_end, at_end,
}
use fidl.Parser.Integers.Literals.{IsSpelled}
use fidl.Parser.Types.{
  parse_map, parse_key_and_value, parse_after_key, parse_map_value, close_map, finish_map, is_word,
}
use fidl.Parser.Types.Marks.{ReadsMark, ReadsToken, try_match-Reads, match_kind-Reads}
use fidl.Parser.Types.References.{ReadsType, IsNil}
use fidl.Parser.Types.Arrays.{All-rest, ParsesTypes}
use fidl.Parser.Grammar.{IsType, map_of, IsMark, IsToken, token}

-- Nothing is done, and nil is given, after an error.
abbrev Fails : Option TypeRef → Parser → Type 0
Fails a p = (a ≡ none) × (is_ok p ≡ false)

abbrev pub Refuses : Act (Option TypeRef) → Type 0
Refuses parse = (p : Parser) → is_ok p ≡ false → parse p ≡ ok none p

match_kind_failed : (k : TokenKind) (p : Parser) → is_ok p ≡ false → match_kind k p ≡ ok false p
unfolding match_kind
match_kind_failed k p h = rw h refl

close_map_failed :
    (kt : Token) (key val : Option TypeRef) (p : Parser)
    → is_ok p ≡ false
    → Returns Fails (close_map kt key val p)
unfolding close_map
close_map_failed kt key val p h = rw (match_kind_failed r_angle p h) (refl, h)

module _ (parse : Act (Option TypeRef)) (refuses : Refuses parse) (kt : Token) where
  parse_map_value_failed :
      (key : Option TypeRef) (p : Parser)
      → is_ok p ≡ false
      → Returns Fails (parse_map_value parse kt key p)
  unfolding parse_map_value
  parse_map_value_failed key p h = rw (refuses p h) (close_map_failed kt key none p h)

  parse_after_key_failed :
      (key : Option TypeRef) (p : Parser)
      → is_ok p ≡ false
      → Returns Fails (parse_after_key parse kt key p)
  unfolding parse_after_key
  parse_after_key_failed key p h = rw (match_kind_failed comma p h) (parse_map_value_failed key p h)

-- A failure is one of whatever is to be read.
fails :
    (c : Context) (ts : List Token) (G : List Token → Option TypeRef → List UserTypeRef → Type 0)
    (o : Outcome OutOfFuel Parser (Option TypeRef))
    → Returns Fails o
    → Returns (Reads c ts G IsNil) o
fails c ts G o h = Returns-map Fails _ o (λ a p e. failed a p e.0 e.1) h

abbrev ReadsMapEnd :
    TypeRef → TypeRef → List UserTypeRef → List Token → Option TypeRef → List UserTypeRef → Type 0
ReadsMapEnd key val refs xs a refs' =
    (r : Token) × (qs : List Token) × (nullable : Bool) × ((xs ≡ r ∷ qs)
      × (a ≡ some (map_type nullable key val)))
    × ((is_kind r_angle r ≡ true)
        × (IsMark qstn qs nullable × (mark_used_as_map_key key refs ≡ (true, refs'))))

finish_map-Reads :
    (c : Context) (refs : List UserTypeRef) (seen last kt r : Token) (key val : TypeRef)
    (nullable : Bool) (ts qs rest : List Token)
    → is_kind r_angle r ≡ true
    → IsMark qstn qs nullable
    → ts ≡ r ∷ (qs ++ rest)
    → Returns
        (Reads c ts (ReadsMapEnd key val refs) IsNil)
        (finish_map kt nullable (some key) (some val) (at c rest seen last refs))
unfolding finish_map
finish_map-Reads c refs seen last kt r key val nullable ts qs rest h q p =
    go (mark_used_as_map_key key refs) refl
  where
    go :
        (m : Bool × List UserTypeRef)
        → mark_used_as_map_key key refs ≡ m
        → Returns
            (Reads c ts (ReadsMapEnd key val refs) IsNil)
            (finish_map kt nullable (some key) (some val) (at c rest seen last refs))
    go (true, refs') e =
        rw e (
          read _ _ (r ∷ qs) rest seen last refs' refl p
            (r, qs, nullable, (refl, refl), (h, (q, e))))
    go (false, refs') e = rw e (failed _ _ refl refl)

close_map-Reads :
    (c : Context) (refs : List UserTypeRef) (seen last kt : Token) (key val : TypeRef)
    (ts : List Token)
    → Returns
        (Reads c ts (ReadsMapEnd key val refs) IsNil)
        (close_map kt (some key) (some val) (at c ts seen last refs))
unfolding close_map
close_map-Reads c refs seen last kt key val ts =
    and_then-Reads c ts (ReadsToken r_angle refs) (λ b. b ≡ false) _ _ _
      (match_kind-Reads c r_angle refl ts seen last refs) (λ b p n bad. rw n (failed _ _ refl bad))
      (λ closed xs r₁ s₁ l₁ refs₁ p₁ g₁. go closed xs r₁ s₁ l₁ refs₁ p₁ g₁.0 g₁.1)
  where
    go :
        (closed : Bool) (xs r₁ : List Token) (s₁ l₁ : Token) (refs₁ : List UserTypeRef)
        → ts ≡ xs ++ r₁
        → IsToken r_angle xs closed
        → refs₁ ≡ refs
        → Returns (Reads c ts (ReadsMapEnd key val refs) IsNil) (
            (if closed
                then (do nullable ← try_match qstn; finish_map kt nullable (some key) (some val))
                else pure none)
              (at c r₁ s₁ l₁ refs₁))
    go closed xs r₁ s₁ l₁ refs₁ p₁ (token r h) same =
        and_then-Reads c r₁ (ReadsMark qstn refs₁) (λ _. ⊥) _ _ _
          (try_match-Reads c qstn refl r₁ s₁ l₁ refs₁) (λ _ _ n _. absurd n)
          (λ nullable qs r₂ s₂ l₂ refs₂ p₂ g₂. rw (g₂.1 ∙ same) (
            finish_map-Reads c refs s₂ l₂ kt r key val nullable ts qs r₂ h g₂.0
              (p₁ ∙ ap (λ u. r ∷ u) p₂)))

module _ (c : Context) (parse : Act (Option TypeRef)) (refuses : Refuses parse) (bound : ℕ)
    (parses : ParsesTypes c bound parse) where
  -- After the comma: `t l ks d` have been read.
  parse_map_value-Reads :
      (refs refs' : List UserTypeRef) (seen last kt t l d : Token) (key : TypeRef)
      (ks ts : List Token)
      → is_word (codes "map") t ≡ true
      → is_kind l_angle l ≡ true
      → is_kind comma d ≡ true
      → IsType c.scope refs ks key refs'
      → length ts < bound
      → All IsSpelled ts
      → Returns
          (Reads c (t ∷ l ∷ (ks ++ (d ∷ ts))) (ReadsType c refs) IsNil)
          (parse_map_value parse kt (some key) (at c ts seen last refs'))
  unfolding parse_map_value
  parse_map_value-Reads refs refs' seen last kt t l d key ks ts w h m k len sp =
      and_then-Reads c ts (ReadsType c refs') IsNil _ _ _ (parses refs' seen last ts len sp)
        (λ a p e bad.
          fails c _ _ (close_map kt (some key) a p) (close_map_failed kt (some key) a p bad))
        (λ a vs r₁ s₁ l₁ refs₁ p₁ g₁. rw g₁.1.0 (
          Returns-map _ _ (close_map kt (some key) (some g₁.0) (at c r₁ s₁ l₁ refs₁))
            (λ r p e. whole vs r₁ refs₁ p₁ g₁.0 g₁.1.1 r p e)
            (close_map-Reads c refs₁ s₁ l₁ kt key g₁.0 r₁)))
    where
      whole :
          (vs r₁ : List Token) (refs₁ : List UserTypeRef)
          → ts ≡ vs ++ r₁
          → (val : TypeRef) → IsType c.scope refs' vs val refs₁
          → (r : Option TypeRef) (p : Parser) → Reads c r₁ (ReadsMapEnd key val refs₁) IsNil r p
          → Reads c (t ∷ l ∷ (ks ++ (d ∷ ts))) (ReadsType c refs) IsNil r p
      whole vs r₁ refs₁ p₁ val v r p (failed _ _ e bad) = failed r p e bad
      whole vs r₁ refs₁ p₁ val v r p (read _ _ ys rest s' l' refs₂ q split e) =
          read r p (t ∷ l ∷ (ks ++ (d ∷ (vs ++ ys)))) rest s' l' refs₂ q
            (simp (p₁, split, append_assoc))
            (
              map_type e.2 key val,
              (
                e.3.1,
                rw e.3.0 (
                    map_of refs refs' refs₁ refs₂ t l d e.0 ks vs e.1 _ key val e.2 refl w h k m v
                      e.4.0 e.4.1.0 e.4.1.1),
              ),
            )

  parse_after_key-Reads :
      (refs refs' : List UserTypeRef) (seen last kt t l : Token) (key : TypeRef)
      (ks ts : List Token)
      → is_word (codes "map") t ≡ true
      → is_kind l_angle l ≡ true
      → IsType c.scope refs ks key refs'
      → length ts < suc bound
      → All IsSpelled ts
      → Returns
          (Reads c (t ∷ l ∷ (ks ++ ts)) (ReadsType c refs) IsNil)
          (parse_after_key parse kt (some key) (at c ts seen last refs'))
  unfolding parse_after_key
  parse_after_key-Reads refs refs' seen last kt t l key ks ts w h k len sp =
      and_then-Reads c ts (ReadsToken comma refs') (λ b. b ≡ false) _ _ _
        (match_kind-Reads c comma refl ts seen last refs')
        (λ b p n bad.
          fails c _ _ (parse_map_value parse kt (some key) p)
            (parse_map_value_failed parse refuses kt (some key) p bad))
        (λ b xs r₁ s₁ l₁ refs₁ p₁ g₁. go b xs r₁ s₁ l₁ refs₁ p₁ g₁.0 g₁.1)
    where
      go :
          (b : Bool) (xs r₁ : List Token) (s₁ l₁ : Token) (refs₁ : List UserTypeRef)
          → ts ≡ xs ++ r₁
          → IsToken comma xs b
          → refs₁ ≡ refs'
          → Returns
              (Reads c (t ∷ l ∷ (ks ++ ts)) (ReadsType c refs) IsNil)
              (parse_map_value parse kt (some key) (at c r₁ s₁ l₁ refs₁))
      go b xs r₁ s₁ l₁ refs₁ p₁ (token d m) same =
          rw (p₁, same)
            (parse_map_value-Reads refs refs' s₁ l₁ kt t l d key ks r₁ w h m k
              (omega (arith, ap length p₁)) (All-rest (d ∷ []) r₁ p₁ sp))

  key-Reads :
      (refs : List UserTypeRef) (seen last kt t l : Token) (ts : List Token)
      → is_word (codes "map") t ≡ true
      → is_kind l_angle l ≡ true
      → length ts < bound
      → All IsSpelled ts
      → Returns
          (Reads c (t ∷ l ∷ ts) (ReadsType c refs) IsNil)
          (and_then (parse (at c ts seen last refs)) (λ key. parse_after_key parse kt key))
  key-Reads refs seen last kt t l ts w h len sp =
      and_then-Reads c ts (ReadsType c refs) IsNil _ _ _ (parses refs seen last ts len sp)
        (λ a p e bad.
          fails c _ _ (parse_after_key parse kt a p)
            (parse_after_key_failed parse refuses kt a p bad))
        (λ a ks r₁ s₁ l₁ refs₁ p₁ g₁.
          rw (g₁.1.0, p₁)
            (parse_after_key-Reads refs refs₁ s₁ l₁ kt t l g₁.0 ks r₁ w h g₁.1.1
              (omega (arith, ap length p₁, length-append ks r₁)) (All-rest ks r₁ p₁ sp)))

  key_failed :
      (kt : Token) (p : Parser)
      → is_ok p ≡ false
      → Returns Fails (and_then (parse p) (λ key. parse_after_key parse kt key))
  key_failed kt p h = rw (refuses p h) (parse_after_key_failed parse refuses kt none p h)

  parse_key_and_value-Reads :
      (refs : List UserTypeRef) (seen last t l : Token) (ts : List Token)
      → is_word (codes "map") t ≡ true
      → is_kind l_angle l ≡ true
      → length ts < bound
      → All IsSpelled ts
      → Returns
          (Reads c (t ∷ l ∷ ts) (ReadsType c refs) IsNil)
          (parse_key_and_value parse (at c ts seen last refs))
  unfolding parse_key_and_value
  parse_key_and_value-Reads refs seen last t l [] w h len sp =
      unfold peek_next_token in fails c _ _ _ (key_failed _ _ refl)
  parse_key_and_value-Reads refs seen last t l (k ∷ ts) w h len sp =
      elim (Bool-cases (is_kind eof k)) [
        | inl e ↦
            rw (peek_next_token_end c seen last refs k ts e)
              (fails c _ _ _ (key_failed k (at_end c (k ∷ ts) k seen last refs) refl))
        | inr e ↦
            rw (peek_next_token-at c seen last refs k ts e)
              (key-Reads refs k last k t l (k ∷ ts) w h len sp)
      ]

  -- A map, where the types of its keys and its values are read.
  pub parse_map-Reads :
      (refs : List UserTypeRef) (seen last t : Token) (ts : List Token)
      → is_word (codes "map") t ≡ true
      → length ts < suc bound
      → All IsSpelled ts
      → Returns
          (Reads c (t ∷ ts) (ReadsType c refs) IsNil)
          (parse_map parse (at c (t ∷ ts) seen last refs))
  unfolding parse_map consume_next_token
  parse_map-Reads refs seen last t ts w len sp =
      and_then-Reads c ts (ReadsToken l_angle refs) (λ b. b ≡ false) _ _ _
        (match_kind-Reads c l_angle refl ts seen t refs) (λ b p n bad. rw n (failed _ _ refl bad))
        (λ opened xs r₁ s₁ l₁ refs₁ p₁ g₁. go opened xs r₁ s₁ l₁ refs₁ p₁ g₁.0 g₁.1)
    where
      go :
          (opened : Bool) (xs r₁ : List Token) (s₁ l₁ : Token) (refs₁ : List UserTypeRef)
          → ts ≡ xs ++ r₁
          → IsToken l_angle xs opened
          → refs₁ ≡ refs
          → Returns
              (Reads c (t ∷ ts) (ReadsType c refs) IsNil)
              ((if opened then parse_key_and_value parse else pure none) (at c r₁ s₁ l₁ refs₁))
      go opened xs r₁ s₁ l₁ refs₁ p₁ (token l h) same =
          rw (p₁, same)
            (parse_key_and_value-Reads refs s₁ l₁ t l r₁ w h (omega (arith, ap length p₁))
              (All-rest (l ∷ []) r₁ p₁ sp))
