-- ===== src/Protocol/Types.antt =====
-- internal/protocol/types.go: the documents of the protocol. A Go slice or map may be nil, which
-- JSON shows, so it is an `Option`. A string type with constants is a data type with `other` for
-- any other text.
use ohinfra_plugins.Base.{
  ℕ, ℤ, pos, Text, codes, Bool, eq_text, Option, none, some, List, [], if◌then◌else◌,
}
use ohinfra_plugins.Protocol.Value.{Value, Fields, end_fields}

abbrev pub protocol_version : ℤ
protocol_version = pos 1

abbrev pub schema_version : Text
schema_version = codes "1.0"

abbrev pub exit_ok : ℕ
exit_ok = 0

abbrev pub exit_general : ℕ
exit_general = 1

abbrev pub exit_arguments : ℕ
exit_arguments = 2

abbrev pub exit_dependency : ℕ
exit_dependency = 4

abbrev pub exit_cancelled : ℕ
exit_cancelled = 7

abbrev pub exit_timeout : ℕ
exit_timeout = 8

abbrev pub exit_configuration : ℕ
exit_configuration = 10

abbrev pub Slice {ℓ} : Type ℓ → Type ℓ
Slice A = Option (List A)

-- What `range` and `len` see of a slice.
abbrev pub elements {ℓ} : {A : Type ℓ} → Slice A → List A
elements none = []
elements (some xs) = xs

pub data Category : Type 0 where
  diagnostic operational runbook : Category
  other : Text → Category

pub record Argument : Type 0 where
  pub name : Text
  pub description : Text
  pub required : Bool
  pub variadic : Bool

pub record Flag : Type 0 where
  pub name : Text
  pub type : Text
  pub description : Text
  pub default : Value

pub record Command : Type 0 where
  pub path : List Text
  pub usage : Text
  pub short : Text
  pub category : Category
  pub arguments : List Argument
  pub flags : List Flag
  pub requires_root : Bool
  pub requires_force : Bool
  pub supports_dry_run : Bool
  pub requires_confirmation : Bool

pub record Manifest : Type 0 where
  pub version_number : ℤ
  pub name : Text
  pub version : Text
  pub description : Text
  pub commands : List Command

pub record Invocation : Type 0 where
  pub version_number : ℤ
  pub request_id : Text
  pub command_path : List Text
  pub arguments : Slice Text
  pub options : Option Fields
  pub deadline : Text
  pub plan_digest : Text

pub data Status : Type 0 where
  pass info warning critical skipped partial error cancelled : Status
  other : Text → Status

pub data ErrorKind : Type 0 where
  general invalid_arguments insufficient_privileges missing_dependency : ErrorKind
  cancelled timeout configuration : ErrorKind

pub record Tool : Type 0 where
  pub name : Text
  pub version : Text
  pub commit : Text
  pub build_date : Text
  pub go_version : Text
  pub architecture : Text

pub record Check : Type 0 where
  pub id : Text
  pub status : Status
  pub summary : Text
  pub details : Option Fields

pub record Change : Type 0 where
  pub object : Text
  pub action : Text
  pub status : Text
  pub details : Option Fields

pub record StructuredError : Type 0 where
  pub kind : ErrorKind
  pub code : Text
  pub message : Text
  pub dependency : Text
  pub retryable : Bool
  pub details : Option Fields

pub record Plan : Type 0 where
  pub command_id : Text
  pub summary : Text
  pub checks : Slice Check
  pub changes : Slice Change
  pub risks : Slice Text
  pub requires_root : Bool
  pub requires_force : Bool
  pub requires_confirmation : Bool

pub record Result : Type 0 where
  pub schema : Text
  pub command : Text
  pub status : Status
  pub timestamp : Text
  pub duration_ms : ℕ
  pub host : Text
  pub tool : Tool
  pub checks : Slice Check
  pub data_map : Option Fields
  pub changes : Slice Change
  pub errors : Slice StructuredError

abbrev pub or_empty {ℓ} : {A : Type ℓ} → Slice A → Slice A
or_empty none = some []
or_empty (some xs) = some xs

abbrev pub or_empty_map : Option Fields → Option Fields
or_empty_map none = some end_fields
or_empty_map (some fs) = some fs

-- `Normalize`
unfoldable pub normalize : Result → Result
normalize r = record r {
  schema = if eq_text r.schema [] then schema_version else r.schema;
  checks = or_empty r.checks;
  data_map = or_empty_map r.data_map;
  changes = or_empty r.changes;
  errors = or_empty r.errors;
}
