-- ===== src/Scopes/Tests.antt =====
-- The theorems of the scopes at the chain of an interface `B` in a file of the module `m`.
use fidl.Prelude.{◌≡◌, refl, ◌≢◌, true, false, some, List, [], ◌∷◌}
use fidl.Prelude.Go.{ok}
use fidl.Lexer.Tokens.{same_bytes}
use fidl.Scopes.{
  Object, Scope, LookupAccept, user_type, user_value, abstract_module, file_module, interface_scope,
  register_object, register_object_with_name_prefix, build_dotted_name, lookup_object,
}
use fidl.Scopes.Names.{qualified, lookup_object-register_object, register_object-refuses}

abbrev enum_type : Object
enum_type = record { kind = user_type; simple_name = b'J' ∷ []; id = 1 }

abbrev constant : Object
constant = record { kind = user_value; simple_name = b'J' ∷ []; id = 2 }

abbrev interface : Scope
interface = record { kind = interface_scope; short_name = b'B' ∷ []; declared_objects = [] }

abbrev file : Scope
file = record { kind = file_module; short_name = b'm' ∷ []; declared_objects = [] }

abbrev module_scope : Scope
module_scope = record { kind = abstract_module; short_name = b'm' ∷ []; declared_objects = [] }

abbrev root : Scope
root = record { kind = abstract_module; short_name = []; declared_objects = [] }

-- The root where another object is called `m.B.J`.
abbrev taken_root : Scope
taken_root = record root {
  declared_objects = (b'm' ∷ b'.' ∷ b'B' ∷ b'.' ∷ b'J' ∷ [], constant) ∷ [];
}

abbrev types_only : LookupAccept
types_only = record {
  accept_type = true;
  accept_value = false;
  accept_method = false;
  accept_field = false;
}

abbrev after : List Scope
after =
    record interface { declared_objects = (b'J' ∷ [], enum_type) ∷ [] }
    ∷ record file { declared_objects = (b'B' ∷ b'.' ∷ b'J' ∷ [], enum_type) ∷ [] }
    ∷ record module_scope { declared_objects = (b'B' ∷ b'.' ∷ b'J' ∷ [], enum_type) ∷ [] }
    ∷ record root { declared_objects = (b'm' ∷ b'.' ∷ b'B' ∷ b'.' ∷ b'J' ∷ [], enum_type) ∷ [] }
    ∷ []

test_registers :
    register_object enum_type (interface ∷ file ∷ module_scope ∷ root ∷ []) ≡ ok tt after
unfolding register_object register_object_with_name_prefix build_dotted_name
test_registers = refl

lookup_object-register_object_example :
    lookup_object (b'm' ∷ b'.' ∷ b'B' ∷ b'.' ∷ b'J' ∷ []) types_only (
      record root { declared_objects = (b'm' ∷ b'.' ∷ b'B' ∷ b'.' ∷ b'J' ∷ [], enum_type) ∷ [] }
      ∷ [])
    ≡ ok (some enum_type) tt
unfolding qualified
lookup_object-register_object_example =
    lookup_object-register_object enum_type (interface ∷ file ∷ module_scope ∷ []) root [] after
      types_only (cc, (cc, (cc, tt))) test_registers refl

register_object-refuses_example :
    register_object enum_type (interface ∷ file ∷ module_scope ∷ taken_root ∷ []) ≢ ok tt after
unfolding qualified same_bytes
register_object-refuses_example =
    register_object-refuses enum_type constant (interface ∷ file ∷ module_scope ∷ []) taken_root []
      after (cc, (cc, (cc, tt))) refl
