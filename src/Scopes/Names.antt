-- ===== src/Scopes/Names.antt =====
-- Registration and lookup: under which name an object is found from where.
use mathlib.Core.List.{append_assoc}
use fidl.Prelude.{
  ◌≡◌, refl, sym, ap, Bool, true, false, Option, none, some, List, [], ◌∷◌, ◌++◌, if◌then◌else◌,
  length, drop, All, arith, ==_refl, inl, inr, ◌≢◌, ◌⊎◌,
}
use fidl.Prelude.Bytes.{Bytes}
use fidl.Prelude.Go.{Outcome, ok, err, panic}
use fidl.Lexer.Tokens.{same_bytes}
use fidl.Scopes.{
  Object, Scope, find_object, build_dotted_name, is_file_module, declare, keep_scope, parent_prefix,
  misplaced, unless_declared, register_object_with_name_prefix, register_object, LookupAccept,
  accepts, lookup_object, accepts_none, search_scopes, ObjectKind, user_type, user_value, method,
  field,
}

-- The name of an object outside the scopes `inner`, the innermost in front: the names of those that are no
-- files, joined by dots.
unfoldable pub qualified : List Scope → Bytes → Bytes
qualified [] name = name
qualified (s ∷ inner) name =
    qualified inner (if is_file_module s.kind then name else s.short_name ++ (b'.' ∷ name))

-- Only the root has no name.
abbrev pub IsNamed : Scope → Type 0
IsNamed s = s.short_name ≢ []

same_bytes_refl : (a : Bytes) → same_bytes a a ≡ true
unfolding same_bytes
same_bytes_refl [] = refl
same_bytes_refl (x ∷ xs) = ground (arith, ==_refl x, same_bytes_refl xs)

parent_prefix-append :
    (s : Scope) (prefix name : Bytes)
    → IsNamed s
    → parent_prefix s prefix ++ name ≡ (
        if is_file_module s.kind then prefix ++ name else s.short_name ++ (b'.' ∷ (prefix ++ name)))
parent_prefix-append s prefix name h = go s.short_name h (is_file_module s.kind)
  where
    go :
        (short : Bytes)
        → short ≢ []
        → (b : Bool)
        → (if b then prefix else build_dotted_name short prefix) ++ name
          ≡ (if b then prefix ++ name else short ++ (b'.' ∷ (prefix ++ name)))
    go short h true = refl
    go [] h false = absurd (h refl)
    go (c ∷ cs) h false = unfold build_dotted_name in append_assoc (c ∷ cs) (b'.' ∷ prefix) name

-- A call without an error has found the name free, and calls for the parent without an error.
abbrev Registered : Object → Bytes → Scope → List Scope → List Scope → Type 0
Registered o prefix s parents scopes' =
    (find_object (prefix ++ o.simple_name) s.declared_objects ≡ none)
    × ((above : List Scope) × ((scopes' ≡ declare (prefix ++ o.simple_name) o s ∷ above)
          × ((parents ≡ [])
              ⊎ (register_object_with_name_prefix o (parent_prefix s prefix) parents
                  ≡ ok tt above))))

scopes_of : Outcome Object (List Scope) (Unit {0}) → List Scope
scopes_of (ok u scopes) = scopes
scopes_of _ = []

ok-injective :
    (a b : List Scope)
    → ◌≡◌ {A = Outcome Object (List Scope) (Unit {0})} (ok tt a) (ok tt b)
    → a ≡ b
unfolding scopes_of
ok-injective a b h = ap scopes_of h

register-Registered :
    (o : Object) (prefix : Bytes) (s : Scope) (parents scopes' : List Scope)
    → register_object_with_name_prefix o prefix (s ∷ parents) ≡ ok tt scopes'
    → Registered o prefix s parents scopes'
unfolding register_object_with_name_prefix
register-Registered o prefix s [] scopes' h =
    go (find_object (prefix ++ o.simple_name) s.declared_objects) refl h
  where
    go :
        (found : Option Object)
        → find_object (prefix ++ o.simple_name) s.declared_objects ≡ found
        → unless_declared found (s ∷ []) (ok tt (declare (prefix ++ o.simple_name) o s ∷ []))
          ≡ ok tt scopes'
        → Registered o prefix s [] scopes'
    go (some e) q h = absurd (cc)
    go none q h = (q, ([], (sym (ok-injective _ scopes' h), inl refl)))
register-Registered o prefix s (p ∷ parents) scopes' h =
    go (find_object (prefix ++ o.simple_name) s.declared_objects) (misplaced s (p ∷ parents))
      (register_object_with_name_prefix o (parent_prefix s prefix) (p ∷ parents)) refl refl h
  where
    go :
        (found : Option Object) (bad : Bool) (r : Outcome Object (List Scope) (Unit {0}))
        → find_object (prefix ++ o.simple_name) s.declared_objects ≡ found
        → register_object_with_name_prefix o (parent_prefix s prefix) (p ∷ parents) ≡ r
        → unless_declared found
            (s ∷ p ∷ parents)
            (if bad then panic else keep_scope (declare (prefix ++ o.simple_name) o s) r)
          ≡ ok tt scopes'
        → Registered o prefix s (p ∷ parents) scopes'
    go (some e) bad r q e' h = absurd (cc)
    go none true r q e' h = absurd (cc)
    go none false (ok u above) q e' h = (q, (above, (sym (ok-injective _ scopes' h), inr e')))
    go none false (err e above) q e' h = absurd (cc)
    go none false panic q e' h = absurd (cc)

append-ne-nil : (xs : List Scope) (s : Scope) (ys : List Scope) → xs ++ (s ∷ ys) ≡ [] → ⊥
append-ne-nil [] s ys h = cc
append-ne-nil (x ∷ xs) s ys h = cc

module _ (o : Object) (s : Scope) (outer : List Scope) where
  -- The scope behind `inner` after the call, and what it has under the name there.
  registered_at :
      (inner : List Scope) (prefix : Bytes) (scopes' : List Scope)
      → All IsNamed inner
      → register_object_with_name_prefix o prefix (inner ++ (s ∷ outer)) ≡ ok tt scopes'
      → (find_object (qualified inner (prefix ++ o.simple_name)) s.declared_objects ≡ none)
        × ((above : List Scope) × (drop (length inner) scopes'
              ≡ declare (qualified inner (prefix ++ o.simple_name)) o s ∷ above))
  unfolding qualified
  registered_at [] prefix scopes' named h =
      let r = register-Registered o prefix s outer scopes' h in (r.0, (r.1.0, r.1.1.0))
  registered_at (a ∷ inner) prefix scopes' named h =
      let r = register-Registered o prefix a (inner ++ (s ∷ outer)) scopes' h in
      let name = parent_prefix-append a prefix o.simple_name named.0 in
      elim r.1.1.1 [
        | inl nil ↦ absurd (append-ne-nil inner s outer nil)
        | inr up ↦
            let rest = registered_at inner (parent_prefix a prefix) r.1.0 named.1 up in
            rw (sym name, r.1.1.0) rest
      ]

accepts-not-none : (f : LookupAccept) (k : ObjectKind) → accepts f k ≡ true → accepts_none f ≡ false
accepts-not-none f user_type h = ground (arith, h)
accepts-not-none f user_value h = ground (arith, h)
accepts-not-none f method h = ground (arith, h)
accepts-not-none f field h = ground (arith, h)

-- An object that is registered without an error from a chain of scopes `inner`, then `s`, then the ancestors
-- `outer`, the scopes of `inner` named, is what a lookup from `s` finds under the names of the scopes between
-- and its own, joined by dots, if the filter accepts its kind.
pub lookup_object-register_object :
    (o : Object) (inner : List Scope) (s : Scope) (outer scopes' : List Scope) (f : LookupAccept)
    → All IsNamed inner
    → register_object o (inner ++ (s ∷ outer)) ≡ ok tt scopes'
    → accepts f o.kind ≡ true
    → lookup_object (qualified inner o.simple_name) f (drop (length inner) scopes') ≡ ok (some o) tt
unfolding register_object lookup_object search_scopes
lookup_object-register_object o inner s outer scopes' f named h a =
    let r = registered_at o s outer inner [] scopes' named h in
    rw (r.1.1, accepts-not-none f o.kind a, same_bytes_refl (qualified inner o.simple_name), a) refl

-- An object is not registered without an error where `s`, behind the named scopes `inner` of the chain, has an
-- object already under the names of the scopes between and the object's own, joined by dots.
pub register_object-refuses :
    (o e : Object) (inner : List Scope) (s : Scope) (outer scopes' : List Scope)
    → All IsNamed inner
    → find_object (qualified inner o.simple_name) s.declared_objects ≡ some e
    → register_object o (inner ++ (s ∷ outer)) ≢ ok tt scopes'
unfolding register_object
register_object-refuses o e inner s outer scopes' named found h =
    let r = registered_at o s outer inner [] scopes' named h in absurd (cc)
