-- ===== src/Parser/Types/CompleteMaps.antt =====
-- `tryParseMapType`: every map of the grammar is read.
use fidl.Prelude.{◌≡◌, refl, Bool, true, false, Option, some, List, ◌∷◌, ◌++◌}
use fidl.Lexer.Tokens.{Token, qstn, comma, l_angle, r_angle, eof}
use fidl.Types.{TypeRef, UserTypeRef, map_type, mark_used_as_map_key}
use fidl.Parser.{Act, is_kind, head_token, consume_next_token}
use fidl.Parser.Steps.{Context, at, Leaves, and_then-Leaves, match_kind_hit, peek_next_token-at}
use fidl.Parser.Types.{
  parse_map, parse_key_and_value, parse_after_key, parse_map_value, close_map, finish_map,
}
use fidl.Parser.Types.Marks.{try_match-IsMark}
use fidl.Parser.Types.Complete.{ReadsTree, comma-EndsType, r_angle-EndsType}
use fidl.Parser.Grammar.{IsMark}

module _ (c : Context) (parse : Act (Option TypeRef)) where
  map_end-Leaves :
      (refs refs' : List UserTypeRef) (seen last kt r : Token) (key val : TypeRef) (nullable : Bool)
      (qs rest : List Token)
      → is_kind r_angle r ≡ true
      → IsMark qstn qs nullable
      → mark_used_as_map_key key refs ≡ (true, refs')
      → is_kind qstn (head_token rest) ≡ false
      → Leaves c rest refs'
          (some (map_type nullable key val))
          (close_map kt (some key) (some val) (at c (r ∷ (qs ++ rest)) seen last refs))
  unfolding close_map
  map_end-Leaves refs refs' seen last kt r key val nullable qs rest h q m e =
      rw (match_kind_hit c seen last refs r_angle r (qs ++ rest) refl h) (
        and_then-Leaves c rest rest refs refs' nullable (some (map_type nullable key val)) _ _
          (try_match-IsMark c qstn refl qs rest nullable r r refs q e)
          (λ s l. unfold finish_map in rw m (s, l, refl)))

  value-Leaves :
      (refs refs' refs'' : List UserTypeRef) (seen last kt d r : Token) (vs qs rest : List Token)
      (key val : TypeRef) (nullable : Bool)
      → is_kind comma d ≡ true
      → ReadsTree c parse refs vs val refs'
      → is_kind r_angle r ≡ true
      → IsMark qstn qs nullable
      → mark_used_as_map_key key refs' ≡ (true, refs'')
      → is_kind qstn (head_token rest) ≡ false
      → Leaves c rest refs'' (some (map_type nullable key val)) (
          parse_after_key parse kt
            (some key)
            (at c (d ∷ (vs ++ (r ∷ (qs ++ rest)))) seen last refs))
  unfolding parse_after_key parse_map_value
  value-Leaves refs refs' refs'' seen last kt d r vs qs rest key val nullable k reads h q m e =
      let tail = r ∷ (qs ++ rest) in
      rw (match_kind_hit c seen last refs comma d (vs ++ tail) refl k) (
        and_then-Leaves c tail rest refs' refs'' (some val) _ _ _
          (reads d d tail (r_angle-EndsType r (qs ++ rest) h))
          (λ s l. map_end-Leaves refs' refs'' s l kt r key val nullable qs rest h q m e))

  -- The peek at the key does not change what the method for types reads.
  key_and_value-Leaves :
      (refs refs' refs'' marked : List UserTypeRef) (seen last d r k : Token)
      (ks vs qs rest : List Token) (key val : TypeRef) (nullable : Bool)
      → is_kind eof k ≡ false
      → ReadsTree c parse refs (k ∷ ks) key refs'
      → is_kind comma d ≡ true
      → ReadsTree c parse refs' vs val refs''
      → is_kind r_angle r ≡ true
      → IsMark qstn qs nullable
      → mark_used_as_map_key key refs'' ≡ (true, marked)
      → is_kind qstn (head_token rest) ≡ false
      → Leaves c rest marked (some (map_type nullable key val)) (
          parse_key_and_value parse
            (at c (k ∷ (ks ++ (d ∷ (vs ++ (r ∷ (qs ++ rest)))))) seen last refs))
  unfolding parse_key_and_value
  key_and_value-Leaves refs refs' refs'' marked seen last d r k ks vs qs rest key val nullable e rk
        m rv h q u n =
      let tail = d ∷ (vs ++ (r ∷ (qs ++ rest))) in
      rw (peek_next_token-at c seen last refs k (ks ++ tail) e) (
        and_then-Leaves c tail rest refs' marked (some key) _ _ _
          (rk k last tail (comma-EndsType d (vs ++ (r ∷ (qs ++ rest))) m))
          (λ s l.
            value-Leaves refs' refs'' marked s l k d r vs qs rest key val nullable m rv h q u n))

  pub map-Leaves :
      (refs refs' refs'' marked : List UserTypeRef) (seen last t l d r k : Token)
      (ks vs qs rest : List Token) (key val : TypeRef) (nullable : Bool)
      → is_kind l_angle l ≡ true
      → is_kind eof k ≡ false
      → ReadsTree c parse refs (k ∷ ks) key refs'
      → is_kind comma d ≡ true
      → ReadsTree c parse refs' vs val refs''
      → is_kind r_angle r ≡ true
      → IsMark qstn qs nullable
      → mark_used_as_map_key key refs'' ≡ (true, marked)
      → is_kind qstn (head_token rest) ≡ false
      → Leaves c rest marked (some (map_type nullable key val)) (
          parse_map parse
            (at c (t ∷ l ∷ (k ∷ (ks ++ (d ∷ (vs ++ (r ∷ (qs ++ rest))))))) seen last refs))
  unfolding parse_map consume_next_token
  map-Leaves refs refs' refs'' marked seen last t l d r k ks vs qs rest key val nullable hl e rk m
        rv h q u n =
      let tail = k ∷ (ks ++ (d ∷ (vs ++ (r ∷ (qs ++ rest))))) in
      rw (match_kind_hit c seen t refs l_angle l tail refl hl) (
        key_and_value-Leaves refs refs' refs'' marked l l d r k ks vs qs rest key val nullable e rk
          m rv h q u n)
