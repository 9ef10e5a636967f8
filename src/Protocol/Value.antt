-- ===== src/Protocol/Value.antt =====
-- Go values of dynamic type, as package reflect shows them (internal/protocol, internal/redact and
-- internal/resultbuilder walk them). A value inside a container of element type `any` stands under
-- `interface`, and a nil one is `nil_interface`.
use ohinfra_plugins.Base.{ℕ, Text, ℤ, Bool}

-- A float64: a whole number, or any other value by its bits.
pub data Float : Type 0 where
  whole : ℤ → Float
  not_whole : ℕ → Float

-- `map` is a map with string keys, `other_map` one with other keys, by the keys and their values, which
-- has no key if it is nil; a member of a struct has its
-- name, the name in its json tag (empty if there is none), and whether it is exported.
mutual
  pub data Value : Type 0 where
    nil_interface : Value
    interface : Value → Value
    bool : Bool → Value
    int : ℤ → Value
    float : Float → Value
    string : Text → Value
    nil_map : Value
    map : Fields → Value
    other_map : ℕ → Items → Value
    nil_slice : Value
    slice : Items → Value
    array : Items → Value
    nil_pointer : Value
    pointer : Value → Value
    struct : Members → Value

  pub data Items : Type 0 where
    end_items : Items
    item : Value → Items → Items

  pub data Fields : Type 0 where
    end_fields : Fields
    field : Text → Value → Fields → Fields

  pub data Members : Type 0 where
    end_members : Members
    member : Text → Text → Bool → Value → Members → Members

-- The value that an `any` holds, as a type switch sees it.
abbrev pub dynamic : Value → Value
dynamic (interface v) = v
dynamic v = v
