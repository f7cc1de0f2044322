-- ===== src/Central/Database.antt =====
-- The SQLite database as elan-central uses it. A statement either changes its table or fails on a
-- constraint of the migrations (migrations/*.sql); rows are kept in the order of insertion.
use elan.Common.{Text}
use elan.Domain.Errors.{Status, internal}

pub data DbError : Type 0 where
  unique_violation check_violation foreign_key_violation decode_error : DbError

-- `Status::internal(e.to_string())`
abbrev pub to_status : (DbError → Text) → DbError → Status
to_status text e = record { code = internal; message = text e }
