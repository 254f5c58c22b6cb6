-- ===== src/Scopes.antt =====
-- Names in scopes: compiler/src/fidl/compiler/core/scopes.go. The chain of a scope is the list of the scope and
-- its ancestors, the root last, for each scope knows its parent only.
pub mod Names
mod Tests
use fidl.Prelude.{
  ℕ, Bool, true, false, ◌&&◌, ◌||◌, not, Option, none, some, List, [], ◌∷◌, ◌++◌, if◌then◌else◌,
}
use fidl.Prelude.Bytes.{Bytes}
use fidl.Prelude.Go.{Outcome, ok, err, panic}
use fidl.Lexer.Tokens.{same_bytes}

pub data ScopeKind : Type 0 where
  abstract_module file_module interface_scope struct_scope enum_scope : ScopeKind

pub data ObjectKind : Type 0 where
  user_type user_value method field : ObjectKind

-- A declared object, by its name and a number that tells it from the others.
pub record Object : Type 0 where
  pub kind : ObjectKind
  pub simple_name : Bytes
  pub id : ℕ

-- The map `declaredObjects` is the list of its entries, the latest in front.
pub record Scope : Type 0 where
  pub kind : ScopeKind
  pub short_name : Bytes
  pub declared_objects : List (Bytes × Object)

abbrev pub find_object : Bytes → List (Bytes × Object) → Option Object
find_object name [] = none
find_object name ((n, o) ∷ objects) = if same_bytes n name then some o else find_object name objects

-- `buildDottedName`
unfoldable pub build_dotted_name : Bytes → Bytes → Bytes
build_dotted_name [] suffix = suffix
build_dotted_name (c ∷ prefix) suffix = (c ∷ prefix) ++ (b'.' ∷ suffix)

abbrev pub is_file_module : ScopeKind → Bool
is_file_module file_module = true
is_file_module _ = false

abbrev pub is_abstract_module : ScopeKind → Bool
is_abstract_module abstract_module = true
is_abstract_module _ = false

abbrev pub declare : Bytes → Object → Scope → Scope
declare name o s = record s { declared_objects = (name, o) ∷ s.declared_objects }

-- The scope in front of what the call for its parent leaves, whatever that gives.
abbrev pub keep_scope :
    Scope → Outcome Object (List Scope) (Unit {0}) → Outcome Object (List Scope) (Unit {0})
keep_scope s (ok u scopes) = ok u (s ∷ scopes)
keep_scope s (err e scopes) = err e (s ∷ scopes)
keep_scope s panic = panic

-- The prefix in the parent: the file's scope has the name of its parent, so adds nothing.
abbrev pub parent_prefix : Scope → Bytes → Bytes
parent_prefix s prefix =
    if is_file_module s.kind then prefix else build_dotted_name s.short_name prefix

-- A file's scope whose parent is no abstract module panics.
abbrev pub misplaced : Scope → List Scope → Bool
misplaced s [] = false
misplaced s (p ∷ parents) = is_file_module s.kind && not (is_abstract_module p.kind)

-- The error of a name that an object has already.
abbrev pub unless_declared :
    Option Object
    → List Scope
    → Outcome Object (List Scope) (Unit {0})
    → Outcome Object (List Scope) (Unit {0})
unless_declared (some existing) scopes next = err existing scopes
unless_declared none scopes next = next

-- `registerObjectWithNamePrefix`; the error names the object that has the name already. A chain that is
-- empty is a nil scope.
unfoldable pub register_object_with_name_prefix :
    Object → Bytes → List Scope → Outcome Object (List Scope) (Unit {0})
register_object_with_name_prefix o prefix [] = panic
register_object_with_name_prefix o prefix (s ∷ []) =
    let name = prefix ++ o.simple_name in
    unless_declared (find_object name s.declared_objects) (s ∷ []) (ok tt (declare name o s ∷ []))
register_object_with_name_prefix o prefix (s ∷ p ∷ parents) =
    let name = prefix ++ o.simple_name in
    let above = register_object_with_name_prefix o (parent_prefix s prefix) (p ∷ parents) in
    unless_declared (find_object name s.declared_objects) (s ∷ p ∷ parents)
      (if misplaced s (p ∷ parents) then panic else keep_scope (declare name o s) above)

-- `RegisterType`, `RegisterValue`, `RegisterMethod` and `RegisterStructField`
unfoldable pub register_object : Object → List Scope → Outcome Object (List Scope) (Unit {0})
register_object o scopes = register_object_with_name_prefix o [] scopes

-- The bits of `LookupAccept`
pub record LookupAccept : Type 0 where
  pub accept_type : Bool
  pub accept_value : Bool
  pub accept_method : Bool
  pub accept_field : Bool

abbrev pub accepts : LookupAccept → ObjectKind → Bool
accepts f user_type = f.accept_type
accepts f user_value = f.accept_value
accepts f method = f.accept_method
accepts f field = f.accept_field

abbrev accepted : LookupAccept → Option Object → Option Object
accepted f none = none
accepted f (some o) = if accepts f o.kind then some o else none

abbrev or_parent : Option Object → Option Object → Option Object
or_parent (some o) above = some o
or_parent none above = above

-- What `LookupObject` finds in a chain of scopes, up to a scope without a parent.
unfoldable pub search_scopes : Bytes → LookupAccept → List Scope → Option Object
search_scopes name f [] = none
search_scopes name f (s ∷ parents) =
    let above = search_scopes name f parents in
    or_parent (accepted f (find_object name s.declared_objects)) above

-- The test for `LookupAcceptNone`
abbrev pub accepts_none : LookupAccept → Bool
accepts_none f = not (f.accept_type || f.accept_value || f.accept_method || f.accept_field)

-- `LookupObject`; a chain that is empty is a nil scope. There is no error, and nothing is changed.
unfoldable pub lookup_object :
    Bytes → LookupAccept → List Scope → Outcome (Unit {0}) (Unit {0}) (Option Object)
lookup_object name f [] = panic
lookup_object name f (s ∷ parents) =
    if accepts_none f then panic else ok (search_scopes name f (s ∷ parents)) tt
