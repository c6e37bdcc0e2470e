-- ===== src/Memory/Operational.antt =====
-- The commands of `OperationalContextService`. Each runs in one `BEGIN IMMEDIATE` transaction, so that what
-- raises changes nothing: a command hands back either an error or its result and the tables it leaves.
-- The fresh identifier and the time of the clock are arguments.
use Prim.Native.String.{◌++◌ as text_append}
use nyra.Base.{
  ℕ, suc, String, Bool, true, false, ◌&&◌, not, Option, none, some, List, ◌==◌, nat_eq, count,
  if◌then◌else◌, Result, ok, raise, ◌>>=◌,
}
use nyra.Table.{find, insert, update, delete}
use nyra.Memory.{
  MemoryScope, user_scope, is_scope, EntryPayload, OperationalEntryCreate, OperationalEntry,
  EntryRow, row_id, Response, saved, deleted, IdempotencyRow, result_key, MemoryTables, MemoryError,
  entry_not_found, idempotency_conflict, integrity_error, validation_error, type_error,
}

pub record IdempotentResult (R : Type 0) : Type 0 where
  pub value : R
  pub replayed : Bool

-- A digest of an operation's name and payload (`{}` for a deletion): SHA-256 of sorted JSON
abbrev pub Digest : Type 0 → Type 0
Digest V = String → Option (EntryPayload V) → String

-- `CHECK (scope = 'USER' OR owner_user_id IS NULL)` and its converse
abbrev pub owner_matches : MemoryScope → Option String → Bool
owner_matches scope none = not (is_scope scope user_scope)
owner_matches scope (some owner) = is_scope scope user_scope

abbrev pub create_operation : String
create_operation = "operational.create"

abbrev pub update_operation : String → String
update_operation id = text_append "operational.update:" id

abbrev pub delete_operation : String → String
delete_operation id = text_append "operational.delete:" id

-- `WHERE entry_id = ? AND revision = ?`
abbrev pub at_revision : {V : Type 0} → String → ℕ → EntryRow V → Bool
at_revision id revision row = (row_id row == id) && nat_eq row.entry.revision revision

module _ {R : Type 0} where
  -- `_replay`
  unfoldable pub replay :
      String → String → String → List (IdempotencyRow R) → Result MemoryError (Option R)
  replay key operation hash results = elim (find result_key key results) [
    | none ↦ ok none
    | some row ↦
        if (row.operation == operation) && (row.request_hash == hash)
        then ok (some row.response)
        else raise idempotency_conflict
  ]

  -- The row that `_record_idempotency` inserts
  abbrev pub insert_result :
      String → String → String → R → ℕ → List (IdempotencyRow R) → Option (List (IdempotencyRow R))
  insert_result key operation hash response now results =
      insert result_key
        (record {
          idempotency_key = key;
          operation = operation;
          request_hash = hash;
          response = response;
          created_at = now;
        })
        results

module _ {V : Type 0} where
  -- `_record_idempotency`
  unfoldable pub record_idempotency :
      String
      → String
      → String
      → Response V
      → ℕ
      → MemoryTables V
      → Result MemoryError (MemoryTables V)
  record_idempotency key operation hash response now tables =
      elim (insert_result key operation hash response now tables.results) [
        | none ↦ raise integrity_error
        | some results ↦ ok (record { entries = tables.entries; results = results })
      ]

  -- `OperationalEntry.model_validate(replay)`
  abbrev pub as_entry : Response V → Result MemoryError (OperationalEntry V)
  as_entry (saved entry) = ok entry
  as_entry (deleted id) = raise validation_error

  -- The columns of a new row
  abbrev pub new_entry : EntryPayload V → String → ℕ → OperationalEntry V
  new_entry p id now = record {
    entry_id = id;
    scope = p.scope;
    owner_user_id = p.owner_user_id;
    entry_type = p.entry_type;
    key = p.key;
    value = p.value;
    enabled = p.enabled;
    revision = 1;
    created_at = now;
    updated_at = now;
  }

  -- The `SET` of an update
  abbrev pub revised : (String → String) → EntryPayload V → ℕ → EntryRow V → EntryRow V
  revised normalize_key p now row = record {
    entry = record {
      entry_id = row.entry.entry_id;
      scope = p.scope;
      owner_user_id = p.owner_user_id;
      entry_type = p.entry_type;
      key = p.key;
      value = p.value;
      enabled = p.enabled;
      revision = suc row.entry.revision;
      created_at = row.entry.created_at;
      updated_at = now;
    };
    normalized_key = normalize_key p.key;
  }

  -- The row as it is read back, recorded as the answer of the command.
  unfoldable pub answer :
      String
      → String
      → String
      → String
      → ℕ
      → MemoryTables V
      → Result MemoryError (IdempotentResult (OperationalEntry V) × MemoryTables V)
  answer id key operation hash now tables = elim (find row_id id tables.entries) [
    | none ↦ raise type_error
    | some row ↦ record_idempotency key operation hash (saved row.entry) now tables >>= λ after.
        ok (record { value = row.entry; replayed = false }, after)
  ]

  -- A command whose answer is an entry: a replay where there is one, else the work itself.
  unfoldable pub replay_or :
      Option (Response V)
      → MemoryTables V
      → Result MemoryError (IdempotentResult (OperationalEntry V) × MemoryTables V)
      → Result MemoryError (IdempotentResult (OperationalEntry V) × MemoryTables V)
  replay_or none tables work = work
  replay_or (some response) tables work =
      as_entry response >>= λ entry. ok (record { value = entry; replayed = true }, tables)

  -- The `INSERT` into `operational_entries`
  unfoldable pub insert_entry : EntryRow V → MemoryTables V → Result MemoryError (MemoryTables V)
  insert_entry row tables =
      if owner_matches row.entry.scope row.entry.owner_user_id
      then elim (insert row_id row tables.entries) [
        | none ↦ raise integrity_error
        | some entries ↦ ok (record { entries = entries; results = tables.results })
      ]
      else raise integrity_error

  unfoldable pub create_idempotent :
      Digest V
      → (String → String)
      → OperationalEntryCreate V
      → String
      → ℕ
      → MemoryTables V
      → Result MemoryError (IdempotentResult (OperationalEntry V) × MemoryTables V)
  create_idempotent digest normalize_key command id now tables =
      let hash = digest create_operation (some command.payload) in
      replay command.idempotency_key create_operation hash tables.results >>= λ replayed.
      replay_or replayed tables (
        insert_entry
          (record {
            entry = new_entry command.payload id now;
            normalized_key = normalize_key command.payload.key;
          })
          tables
        >>= λ after. answer id command.idempotency_key create_operation hash now after)

  -- `get`
  unfoldable pub get_entry : String → MemoryTables V → Result MemoryError (OperationalEntry V)
  get_entry id tables = elim (find row_id id tables.entries) [
    | none ↦ raise entry_not_found
    | some row ↦ ok row.entry
  ]

  -- The `UPDATE` at the revision that was read; `rowcount` is the count of the rows that it changes.
  unfoldable pub update_entry :
      (String → String)
      → EntryPayload V
      → String
      → ℕ
      → ℕ
      → MemoryTables V
      → Result MemoryError (MemoryTables V)
  update_entry normalize_key p id revision now tables =
      if owner_matches p.scope p.owner_user_id
      then (if nat_eq (count (at_revision id revision) tables.entries) 1
          then ok (record {
            entries = update (at_revision id revision) (revised normalize_key p now) tables.entries;
            results = tables.results;
          })
          else raise entry_not_found)
      else raise integrity_error

  unfoldable pub update_idempotent :
      Digest V
      → (String → String)
      → String
      → OperationalEntryCreate V
      → ℕ
      → MemoryTables V
      → Result MemoryError (IdempotentResult (OperationalEntry V) × MemoryTables V)
  update_idempotent digest normalize_key id command now tables =
      let hash = digest (update_operation id) (some command.payload) in
      replay command.idempotency_key (update_operation id) hash tables.results >>= λ replayed.
      replay_or replayed tables (
        get_entry id tables >>= λ current.
        update_entry normalize_key command.payload id current.revision now tables >>= λ after.
        answer id command.idempotency_key (update_operation id) hash now after)

  -- The `DELETE` and the answer that is recorded for it
  unfoldable pub delete_entry :
      String
      → String
      → String
      → ℕ
      → MemoryTables V
      → Result MemoryError (IdempotentResult (Response V) × MemoryTables V)
  delete_entry id key hash now tables =
      if nat_eq (count (λ row. row_id row == id) tables.entries) 1
      then (record_idempotency key (delete_operation id) hash (deleted id) now (record {
        entries = delete (λ row. row_id row == id) tables.entries;
        results = tables.results;
      })
          >>= λ after. ok (record { value = deleted id; replayed = false }, after))
      else raise entry_not_found

  unfoldable pub delete_idempotent :
      Digest V
      → String
      → String
      → ℕ
      → MemoryTables V
      → Result MemoryError (IdempotentResult (Response V) × MemoryTables V)
  delete_idempotent digest id key now tables =
      let hash = digest (delete_operation id) none in
      replay key (delete_operation id) hash tables.results >>= λ replayed. elim replayed [
        | some response ↦ ok (record { value = response; replayed = true }, tables)
        | none ↦ delete_entry id key hash now tables
      ]
