-- ===== src/Capability/Errors.antt =====
-- services/capability_registry/src/forgeai_capability_registry/exceptions.py, with the messages,
-- and what else a capability may raise.
use forge_ai_autonomous_soft.Common.{
  joined, Bool, true, false, List, [], ◌++◌, Text, text_leb, codes, sort,
}
use forge_ai_autonomous_soft.Common.Outcome.{Outcome, returned, raised}
use forge_ai_autonomous_soft.Engine.Errors.{Result, ok, err, invalid_version}

pub data CapabilityError : Type 0 where
  -- The text is pydantic's.
  capability_validation : (reason : Text) → CapabilityError
  invalid_capability_version : (version : Text) → CapabilityError
  invalid_schema : (field reason : Text) → CapabilityError
  capability_already_registered : (capability_id version : Text) → CapabilityError
  capability_not_found : (capability_id version : Text) → CapabilityError
  permission_denied : (capability_id : Text) (missing : List Text) → CapabilityError
  io_validation : (capability_id kind reason : Text) → CapabilityError
  execution_failed : (capability_id reason : Text) → CapabilityError
  -- An exception of any other class, with its name and its text.
  other_exception : (type_name text : Text) → CapabilityError

-- `isinstance(exc, CapabilityRegistryError)`
unfoldable pub is_registry_error : CapabilityError → Bool
is_registry_error (other_exception type_name text) = false
is_registry_error e = true

-- `str(exc)`
unfoldable pub message : CapabilityError → Text
message (capability_validation reason) = reason
message (invalid_capability_version version) =
    codes "'" ++ version ++ codes "' is not a valid version string — expected 'N.N.N'."
message (invalid_schema field reason) =
    codes "'" ++ field ++ codes "' is not a valid JSON Schema object: " ++ reason
message (capability_already_registered capability_id version) =
    codes "Capability '"
    ++ capability_id
    ++ codes "' version '"
    ++ version
    ++ codes
        "' is already registered — capabilities are immutable once registered; register a new version instead."
message (capability_not_found capability_id version) =
    codes "No capability registered for '"
    ++ capability_id
    ++ codes "' version '"
    ++ version
    ++ codes "'."
message (permission_denied capability_id missing) =
    codes "Capability '"
    ++ capability_id
    ++ codes "' requires permissions not granted to this execution context: "
    ++ joined (sort text_leb missing)
    ++ codes "."
message (io_validation capability_id kind reason) =
    codes "Capability '"
    ++ capability_id
    ++ codes "' produced "
    ++ kind
    ++ codes " that does not match its declared "
    ++ kind
    ++ codes "_schema: "
    ++ reason
message (execution_failed capability_id reason) =
    codes "Cannot execute capability '" ++ capability_id ++ codes "': " ++ reason
message (other_exception type_name text) = text

-- What the errors of `parse_version` are in this package: of `int` a plain ValueError.
abbrev pub version_checked : {A : Type 0} → Result A → Outcome CapabilityError A
version_checked (ok a) = returned a
version_checked (err (invalid_version version)) = raised (invalid_capability_version version)
version_checked (err e) = raised (other_exception (codes "ValueError") [])
