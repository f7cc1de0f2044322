-- ===== src/Domain/Errors.antt =====
-- crates/elan-common/src/error.rs
use elan.Common.{◌++◌, ◌∷◌, Text, codes}

-- `tonic::Code`, as far as elan uses it.
pub data Code : Type 0 where
  not_found permission_denied internal unavailable : Code

-- `tonic::Status`
pub record Status : Type 0 where
  pub code : Code
  pub message : Text

-- The payloads of foreign error types are the texts that they print.
pub data ElanError : Type 0 where
  dataset_not_found : Text → Text → ElanError
  access_denied : Text → ElanError
  coordinator_not_found : Text → ElanError
  grpc : Status → ElanError
  transport : Text → ElanError
  serde : Text → ElanError
  uuid : Text → ElanError
  kafka : Text → ElanError
  config : Text → ElanError
  io : Text → ElanError
  other : Text → ElanError

module _ (status_to_string : Status → Text) where
  -- The `#[error(..)]` formats.
  unfoldable pub to_string : ElanError → Text
  to_string (ElanError.dataset_not_found namespace name) =
      codes "dataset not found: " ++ (namespace ++ (b'.' ∷ name))
  to_string (ElanError.access_denied reason) = codes "access denied: " ++ reason
  to_string (ElanError.coordinator_not_found id) = codes "coordinator not found: " ++ id
  to_string (ElanError.grpc s) = codes "gRPC error: " ++ status_to_string s
  to_string (ElanError.transport e) = codes "transport error: " ++ e
  to_string (ElanError.serde e) = codes "serialization error: " ++ e
  to_string (ElanError.uuid e) = codes "uuid parse error: " ++ e
  to_string (ElanError.kafka e) = codes "kafka error: " ++ e
  to_string (ElanError.config e) = codes "config error: " ++ e
  to_string (ElanError.io e) = codes "io error: " ++ e
  to_string (ElanError.other e) = e

  -- `From<ElanError> for tonic::Status`
  unfoldable pub from : ElanError → Status
  from (ElanError.dataset_not_found namespace name) = record {
    code = not_found;
    message = to_string (ElanError.dataset_not_found namespace name);
  }
  from (ElanError.access_denied reason) = record {
    code = permission_denied;
    message = to_string (ElanError.access_denied reason);
  }
  from (ElanError.coordinator_not_found id) = record {
    code = not_found;
    message = to_string (ElanError.coordinator_not_found id);
  }
  from (ElanError.grpc s) = s
  from e = record { code = internal; message = to_string e }
