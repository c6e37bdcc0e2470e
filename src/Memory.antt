-- ===== src/Memory.antt =====
-- The operational context of the memory service (memory/operational.py): the tables that it keeps
-- (memory/storage.py), the commands and answers of shared/protocol/memory.py, and the service itself.
-- `V` is the type of an entry's value as pydantic dumps it; SHA-256 and Unicode normalisation are arguments.
-- Times are microseconds.
pub mod Operational
pub mod Resolution
pub mod Listing
mod Replays
mod Idempotency
mod Revisions
mod Candidates
mod Visible
mod Tests
use nyra.Base.{ℕ, String, Bool, true, false, ◌==◌, Option, none, some, List}

pub data MemoryScope : Type 0 where
  user_scope family_scope system_scope : MemoryScope

pub data OperationalEntryType : Type 0 where
  alias_entry mapping_entry default_entry shortcut_entry : OperationalEntryType

abbrev pub type_value : OperationalEntryType → String
type_value alias_entry = "ALIAS"
type_value mapping_entry = "MAPPING"
type_value default_entry = "DEFAULT"
type_value shortcut_entry = "SHORTCUT"

abbrev pub is_scope : MemoryScope → MemoryScope → Bool
is_scope user_scope user_scope = true
is_scope family_scope family_scope = true
is_scope system_scope system_scope = true
is_scope _ _ = false

-- A command without its `idempotency_key`: what `model_dump(exclude=…)` leaves.
pub record EntryPayload (V : Type 0) : Type 0 where
  pub scope : MemoryScope
  pub owner_user_id : Option String
  pub entry_type : OperationalEntryType
  pub key : String
  pub value : V
  pub enabled : Bool

-- `OperationalEntryCreate`, and `OperationalEntryUpdate`, which adds nothing
pub record OperationalEntryCreate (V : Type 0) : Type 0 where
  pub payload : EntryPayload V
  pub idempotency_key : String

pub record OperationalEntry (V : Type 0) : Type 0 where
  pub entry_id : String
  pub scope : MemoryScope
  pub owner_user_id : Option String
  pub entry_type : OperationalEntryType
  pub key : String
  pub value : V
  pub enabled : Bool
  pub revision : ℕ
  pub created_at : ℕ
  pub updated_at : ℕ

-- A row of `operational_entries`: the entry's columns, and the key that it is looked up by.
pub record EntryRow (V : Type 0) : Type 0 where
  pub entry : OperationalEntry V
  pub normalized_key : String

abbrev pub row_id : {V : Type 0} → EntryRow V → String
row_id row = row.entry.entry_id

-- `response_json`: a saved entry, or the answer to a deletion.
pub data Response (V : Type 0) : Type 0 where
  saved : OperationalEntry V → Response V
  deleted : String → Response V

-- A row of `idempotency_results`, whose answer is of type `R`
pub record IdempotencyRow (R : Type 0) : Type 0 where
  pub idempotency_key : String
  pub operation : String
  pub request_hash : String
  pub response : R
  pub created_at : ℕ

abbrev pub result_key : {R : Type 0} → IdempotencyRow R → String
result_key row = row.idempotency_key

pub record MemoryTables (V : Type 0) : Type 0 where
  pub entries : List (EntryRow V)
  pub results : List (IdempotencyRow (Response V))

pub data MemoryError : Type 0 where
  entry_not_found idempotency_conflict integrity_error validation_error type_error : MemoryError
