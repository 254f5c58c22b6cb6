-- ===== src/Parser/Steps.antt =====
-- What the reading methods do where nothing has failed yet and no token is discarded.
use fidl.Prelude.{
  ℕ, ◌≡◌, refl, true, false, none, List, [], ◌∷◌, ◌++◌, ◌==◌, arith, Bool-cases, ==→eq, inl, inr,
}
use fidl.Prelude.Go.{Outcome, ok, err, panic, and_then}
use fidl.Lexer.Tokens.{TokenKind, Token, eof, kind_number}
use fidl.Types.{UserTypeRef}
use fidl.Parser.{
  Parser, UserValueRef, OutOfFuel, unexpected_token, eof_error, is_ok, is_kind, head_token,
  parse_error_t, peek_next_token, check_eof, consume_next_token, match_kind, try_match,
  consume_if_kind, try_consume,
}

-- What the parsing of a type or a value leaves as it is.
pub record Context : Type 0 where
  pub scope : ℕ
  pub values : List UserValueRef

-- Where the parser is: the tokens left, the last that were seen and consumed, and the references so far.
abbrev pub at : Context → List Token → Token → Token → List UserTypeRef → Parser
at c ts seen consumed refs = record {
  input = ts;
  discard_remaining = false;
  last_seen = seen;
  last_consumed = consumed;
  error = none;
  current_scope = c.scope;
  type_references = refs;
  value_references = c.values;
}

-- The result without a run-time panic or a lack of fuel, and what holds of it.
abbrev pub Returns : {A : Type 0} → (A → Parser → Type 0) → Outcome OutOfFuel Parser A → Type 0
Returns Q (ok a p) = Q a p
Returns Q (err _ _) = ⊥
Returns Q panic = ⊥

pub and_then-Returns :
    {A B : Type 0} (P : A → Parser → Type 0) (Q : B → Parser → Type 0)
    (o : Outcome OutOfFuel Parser A) (f : A → Parser → Outcome OutOfFuel Parser B)
    → Returns P o
    → ((a : A) (p : Parser) → P a p → Returns Q (f a p))
    → Returns Q (and_then o f)
and_then-Returns P Q (ok a p) f h k = k a p h
and_then-Returns P Q (err _ _) f h k = absurd h
and_then-Returns P Q panic f h k = absurd h

pub Returns-map :
    {A : Type 0} (P Q : A → Parser → Type 0) (o : Outcome OutOfFuel Parser A)
    → ((a : A) (p : Parser) → P a p → Q a p)
    → Returns P o
    → Returns Q o
Returns-map P Q (ok a p) k h = k a p h
Returns-map P Q (err _ _) k h = h
Returns-map P Q panic k h = h

-- What a method reads from `ts` on: it fails, with a value of `N`, or it takes tokens of which, with the
-- value and the references after it, `G` holds.
pub data Reads (c : Context) (ts : List Token) {A : Type 0}
    (G : List Token → A → List UserTypeRef → Type 0) (N : A → Type 0) : A → Parser → Type 0 where
  failed : (a : A) (p : Parser) → N a → is_ok p ≡ false → Reads c ts G N a p
  read :
      (a : A) (p : Parser) (consumed rest : List Token) (seen last : Token)
      (refs : List UserTypeRef)
      → p ≡ at c rest seen last refs
      → ts ≡ consumed ++ rest
      → G consumed a refs
      → Reads c ts G N a p

pub and_then-Reads :
    {A B : Type 0} (c : Context) (ts : List Token) (G : List Token → A → List UserTypeRef → Type 0)
    (N : A → Type 0) (Q : B → Parser → Type 0) (o : Outcome OutOfFuel Parser A)
    (f : A → Parser → Outcome OutOfFuel Parser B)
    → Returns (Reads c ts G N) o
    → ((a : A) (p : Parser) → N a → is_ok p ≡ false → Returns Q (f a p))
    → ((a : A) (consumed rest : List Token) (seen last : Token) (refs : List UserTypeRef)
        → ts ≡ consumed ++ rest
        → G consumed a refs
        → Returns Q (f a (at c rest seen last refs)))
    → Returns Q (and_then o f)
and_then-Reads {A} {B} c ts G N Q o f r bad good = and_then-Returns (Reads c ts G N) Q o f r go
  where
    go : (a : A) (p : Parser) → Reads c ts G N a p → Returns Q (f a p)
    go a p (failed _ _ n e) = bad a p n e
    go a p (read _ _ xs rest seen last refs e split g) =
        rw e (good a xs rest seen last refs split g)

-- The method gives `a` and leaves `rest`; which tokens it saw and consumed last is left open.
abbrev pub Leaves :
    {A : Type 0} → Context → List Token → List UserTypeRef → A → Outcome OutOfFuel Parser A → Type 0
Leaves c rest refs a o = (seen : Token) × (last : Token) × (o ≡ ok a (at c rest seen last refs))

pub and_then-Leaves :
    {A B : Type 0} (c : Context) (r r' : List Token) (refs refs' : List UserTypeRef) (a : A) (b : B)
    (o : Outcome OutOfFuel Parser A) (f : A → Parser → Outcome OutOfFuel Parser B)
    → Leaves c r refs a o
    → ((seen last : Token) → Leaves c r' refs' b (f a (at c r seen last refs)))
    → Leaves c r' refs' b (and_then o f)
and_then-Leaves c r r' refs refs' a b o f (s, l, e) k = rw e (k s l)

-- A kind is not another.
pub is_kind_other :
    (k l : TokenKind) (t : Token)
    → (kind_number k == kind_number l) ≡ false
    → is_kind k t ≡ true
    → is_kind l t ≡ false
is_kind_other k l t ne h = rw (==→eq (kind_number t.kind) (kind_number k) h) ne

-- Peeking at a token that is no end of the file, and at that end.
pub peek_next_token-at :
    (c : Context) (seen last : Token) (refs : List UserTypeRef) (t : Token) (ts : List Token)
    → is_kind eof t ≡ false
    → peek_next_token (at c (t ∷ ts) seen last refs) ≡ ok t (at c (t ∷ ts) t last refs)
unfolding peek_next_token
peek_next_token-at c seen last refs t ts h = rw h refl

abbrev pub at_end : Context → List Token → Token → Token → Token → List UserTypeRef → Parser
at_end c ts t seen last refs = record (parse_error_t eof_error seen (at c ts seen last refs)) {
  last_seen = t;
}

pub peek_next_token_end :
    (c : Context) (seen last : Token) (refs : List UserTypeRef) (t : Token) (ts : List Token)
    → is_kind eof t ≡ true
    → peek_next_token (at c (t ∷ ts) seen last refs) ≡ ok t (at_end c (t ∷ ts) t seen last refs)
unfolding peek_next_token
peek_next_token_end c seen last refs t ts h = rw h refl

module _ (c : Context) (seen last : Token) (refs : List UserTypeRef) where
  pub consume_next_token-at :
      (t : Token) (ts : List Token)
      → consume_next_token (at c (t ∷ ts) seen last refs) ≡ ok tt (at c ts seen t refs)
  unfolding consume_next_token
  consume_next_token-at t ts = refl

  -- The token that is expected.
  pub try_match_hit :
      (k : TokenKind) (t : Token) (ts : List Token)
      → (kind_number k == 3) ≡ false
      → is_kind k t ≡ true
      → try_match k (at c (t ∷ ts) seen last refs) ≡ ok true (at c ts t t refs)
  unfolding try_match try_consume check_eof consume_next_token
  try_match_hit k t ts ne h =
      let e = is_kind_other k eof t ne h in
      ground (arith, e, h, peek_next_token-at c t last refs t ts e)

  -- Another token, or the end.
  pub try_match_miss :
      (k : TokenKind) (ts : List Token)
      → is_kind k (head_token ts) ≡ false
      → try_match k (at c ts seen last refs) ≡ ok false (at c ts (head_token ts) last refs)
  unfolding try_match try_consume check_eof
  try_match_miss k [] h = refl
  try_match_miss k (t ∷ ts) h = elim (Bool-cases (is_kind eof t)) [
    | inl e ↦ rw e refl
    | inr e ↦ ground (arith, e, h, peek_next_token-at c t last refs t ts e)
  ]

  pub match_kind_hit :
      (k : TokenKind) (t : Token) (ts : List Token)
      → (kind_number k == 3) ≡ false
      → is_kind k t ≡ true
      → match_kind k (at c (t ∷ ts) seen last refs) ≡ ok true (at c ts t t refs)
  unfolding match_kind consume_if_kind consume_next_token
  match_kind_hit k t ts ne h =
      let e = is_kind_other k eof t ne h in
      ground (arith, e, h, peek_next_token-at c seen last refs t ts e)

  -- Another token is noted as unexpected.
  pub match_kind_other :
      (k : TokenKind) (t : Token) (ts : List Token)
      → is_kind eof t ≡ false
      → is_kind k t ≡ false
      → match_kind k (at c (t ∷ ts) seen last refs)
        ≡ ok false (parse_error_t unexpected_token t (at c (t ∷ ts) t last refs))
  unfolding match_kind consume_if_kind
  match_kind_other k t ts e h = ground (arith, e, h, peek_next_token-at c seen last refs t ts e)

  match_kind_end :
      (k : TokenKind) (t : Token) (ts : List Token)
      → is_kind eof t ≡ true
      → match_kind k (at c (t ∷ ts) seen last refs) ≡ ok false (at_end c (t ∷ ts) t seen last refs)
  unfolding match_kind peek_next_token
  match_kind_end k t ts e = ground (arith, e)

  -- A method that fails sets the error.
  pub match_kind_miss :
      (k : TokenKind) (ts : List Token)
      → is_kind k (head_token ts) ≡ false
      → Returns (λ b p. (b ≡ false) × (is_ok p ≡ false)) (match_kind k (at c ts seen last refs))
  match_kind_miss k [] h = unfold match_kind peek_next_token in (refl, refl)
  match_kind_miss k (t ∷ ts) h = elim (Bool-cases (is_kind eof t)) [
    | inl e ↦ rw (match_kind_end k t ts e) (refl, refl)
    | inr e ↦ rw (match_kind_other k t ts e h) (refl, refl)
  ]
