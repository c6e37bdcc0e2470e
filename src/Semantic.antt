-- ===== src/Semantic.antt =====
-- Semantic memories (memory/semantic.py): the types of shared/protocol/memory.py, the tables of memory/storage.py, and
-- the reading of a memory. `F` is the type of the floating point numbers of an embedding. Times are microseconds.
mod Commands
mod Changes
mod Search
mod Burials
mod Deletions
mod Stays
mod Found
mod Tests
use nyra.Base.{
  ℕ, String, Bool, true, false, ◌&&◌, ◌==◌, Option, none, some, List, [], Result, ok, raise,
  order_by, filter,
}
use nyra.Table.{find}
use nyra.Memory.{MemoryScope, is_scope, IdempotencyRow, MemoryError}
use nyra.Memory.Resolution.{is_owner}

pub data SemanticMemoryType : Type 0 where
  fact preference note relation : SemanticMemoryType

pub data SemanticMemorySource : Type 0 where
  user_explicit imported from_system : SemanticMemorySource

pub data SemanticMemoryState : Type 0 where
  active_memory superseded_memory deleted_memory : SemanticMemoryState

pub data MemoryAdmission : Type 0 where
  admitted_new admitted_duplicate admitted_supersedes : MemoryAdmission

abbrev pub is_active_memory : SemanticMemoryState → Bool
is_active_memory active_memory = true
is_active_memory _ = false

-- A command without its `idempotency_key`
pub record SemanticPayload : Type 0 where
  pub scope : MemoryScope
  pub owner_user_id : Option String
  pub memory_type : SemanticMemoryType
  pub content : String
  pub source : SemanticMemorySource

pub record SemanticMemory : Type 0 where
  pub memory_id : String
  pub memory_type : SemanticMemoryType
  pub scope : MemoryScope
  pub owner_user_id : Option String
  pub content : String
  pub source : SemanticMemorySource
  pub state : SemanticMemoryState
  pub supersedes_memory_id : Option String
  pub superseded_by_memory_id : Option String
  pub created_at : ℕ
  pub updated_at : ℕ
  pub last_confirmed_at : ℕ
  pub embedding_provider : String
  pub embedding_model : String

pub record SemanticMemoryTombstone : Type 0 where
  pub memory_id : String
  pub deleted_at : ℕ
  pub deletion_trace_id : String

pub record SemanticMutationResult : Type 0 where
  pub admission : MemoryAdmission
  pub memory : SemanticMemory

pub record EmbeddingVector (F : Type 0) : Type 0 where
  pub values : List F
  pub provider : String
  pub model : String

-- A row of `semantic_memories`: the memory's columns, and those that are not part of it
pub record SemanticRow (F : Type 0) : Type 0 where
  pub memory : SemanticMemory
  pub normalized_content : String
  pub content_hash : String
  pub embedding : List F

-- `response_json` of a command on semantic memories
pub data SemanticAnswer : Type 0 where
  mutation_answer : SemanticMutationResult → SemanticAnswer
  memory_answer : SemanticMemory → SemanticAnswer
  tombstone_answer : SemanticMemoryTombstone → SemanticAnswer

pub record SemanticTables (F : Type 0) : Type 0 where
  pub memories : List (SemanticRow F)
  pub tombstones : List SemanticMemoryTombstone
  pub results : List (IdempotencyRow SemanticAnswer)

-- `database_locked` is SQLite's `OperationalError`; `refused` is what the idempotency keys and the tables raise.
pub data SemanticError : Type 0 where
  memory_not_found state_conflict embedding_failed model_mismatch database_locked row_missing :
      SemanticError
  refused : MemoryError → SemanticError

abbrev pub memory_key : {F : Type 0} → SemanticRow F → String
memory_key row = row.memory.memory_id

abbrev pub tombstone_key : SemanticMemoryTombstone → String
tombstone_key t = t.memory_id

-- `SemanticMemory | SemanticMemoryTombstone`
pub data Entry : Type 0 where
  kept : SemanticMemory → Entry
  buried : SemanticMemoryTombstone → Entry

-- `owner_user_id IS ?`
abbrev pub same_owner : Option String → Option String → Bool
same_owner none none = true
same_owner none (some b) = false
same_owner (some a) owner = is_owner a owner

module _ {F : Type 0} where
  -- `get`
  unfoldable pub get_memory : String → SemanticTables F → Result SemanticError Entry
  get_memory id tables = elim (find memory_key id tables.memories) [
    | some row ↦ ok (kept row.memory)
    | none ↦ elim (find tombstone_key id tables.tombstones) [
      | some tombstone ↦ ok (buried tombstone)
      | none ↦ raise memory_not_found
    ]
  ]

  -- The test of `_active_duplicate`
  abbrev pub is_duplicate : SemanticPayload → String → SemanticRow F → Bool
  is_duplicate p hash row =
      is_active_memory row.memory.state
      && is_scope row.memory.scope p.scope
      && same_owner p.owner_user_id row.memory.owner_user_id
      && (row.content_hash == hash)
