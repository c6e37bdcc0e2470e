-- ===== src/Semantic/Changes.antt =====
-- The other commands of `SemanticMemoryService`: `confirm`, `supersede` and `delete_idempotent`.
use Prim.Native.String.{◌++◌ as text_append}
use nyra.Base.{
  ℕ, String, true, false, ◌&&◌, not, Option, none, some, List, ◌==◌, Result, ok, raise_if, ◌>>=◌,
  ◌>>◌,
}
use nyra.Table.{find, insert, update, delete}
use nyra.Memory.{is_scope, integrity_error}
use nyra.Memory.Operational.{IdempotentResult, replay}
use nyra.Semantic.{
  SemanticPayload, SemanticMemory, SemanticMemoryTombstone, SemanticMutationResult,
  admitted_supersedes, EmbeddingVector, SemanticRow, SemanticAnswer, memory_answer,
  tombstone_answer, SemanticTables, SemanticError, memory_not_found, state_conflict,
  embedding_failed, row_missing, refused, memory_key, tombstone_key, same_owner, is_active_memory,
}
use nyra.Semantic.Commands.{
  Tools, refused_or, or_raise, as_memory, as_tombstone, confirmed, superseded, new_row,
  insert_memory, record_answer, answer_mutation, replay_mutation_or,
}

abbrev pub confirm_name : String → String
confirm_name id = text_append "semantic.confirm:" id

abbrev pub supersede_name : String → String
supersede_name id = text_append "semantic.supersede:" id

abbrev pub delete_name : String → String
delete_name id = text_append "semantic.delete:" id

module _ {F : Type 0} where
  -- The row of a memory, where it is there and ACTIVE
  unfoldable pub active_row : String → SemanticTables F → Result SemanticError (SemanticRow F)
  active_row id tables = or_raise (find memory_key id tables.memories) memory_not_found >>= λ row.
      raise_if (not (is_active_memory row.memory.state)) state_conflict >> ok row

  abbrev pub with_rows :
      (SemanticRow F → SemanticRow F) → String → SemanticTables F → SemanticTables F
  with_rows change id tables = record tables {
    memories = update (λ row. memory_key row == id) change tables.memories;
  }

  -- The work of `confirm`
  unfoldable pub confirm_active :
      String
      → String
      → String
      → ℕ
      → SemanticTables F
      → Result SemanticError (SemanticMemory × SemanticTables F)
  confirm_active id key hash now tables = active_row id tables >>= λ row.
      or_raise (find memory_key id (with_rows (confirmed now) id tables).memories) row_missing
      >>= λ written.
          record_answer key (confirm_name id) hash (memory_answer written.memory) now
            (with_rows (confirmed now) id tables)
          >>= λ after. ok (written.memory, after)

  -- The memory that was answered, where the key was used, else the work
  unfoldable pub confirm_or_replay :
      String
      → String
      → String
      → ℕ
      → SemanticTables F
      → Option SemanticAnswer
      → Result SemanticError (SemanticMemory × SemanticTables F)
  confirm_or_replay id key hash now tables (some answer) =
      as_memory answer >>= λ memory. ok (memory, tables)
  confirm_or_replay id key hash now tables none = confirm_active id key hash now tables

  module _ (tools : Tools F) where
    -- `confirm`
    unfoldable pub confirm_memory :
        String
        → String
        → ℕ
        → SemanticTables F
        → Result SemanticError (SemanticMemory × SemanticTables F)
    confirm_memory id key now tables =
        let hash = tools.digest (confirm_name id) none in
        refused_or (replay key (confirm_name id) hash tables.results) >>= λ replayed.
        confirm_or_replay id key hash now tables replayed

    -- `replacement scope or owner differs`
    abbrev pub check_owner : SemanticRow F → SemanticPayload → Result SemanticError (Unit {0})
    check_owner row p =
        raise_if
          (not (
            is_scope row.memory.scope p.scope
            && same_owner row.memory.owner_user_id p.owner_user_id))
          state_conflict

    -- The transaction of `supersede`
    unfoldable pub replace_active :
        String
        → SemanticPayload
        → String
        → String
        → String
        → ℕ
        → EmbeddingVector F
        → SemanticTables F
        → Result SemanticError (IdempotentResult SemanticMutationResult × SemanticTables F)
    replace_active id p key hash new_id now vector u =
        refused_or (replay key (supersede_name id) hash u.results) >>= λ replayed.
        replay_mutation_or replayed u (
          active_row id u >>= λ row.
          or_raise (tools.stored_values vector) embedding_failed >>= λ values.
          insert_memory (new_row tools p (some id) new_id now vector values) u >>= λ inserted.
          answer_mutation admitted_supersedes new_id key (supersede_name id) hash now
            (with_rows (superseded new_id now) id inserted))

    -- `supersede`
    unfoldable pub supersede_memory :
        String
        → SemanticPayload
        → String
        → String
        → ℕ
        → SemanticTables F
        → SemanticTables F
        → Result SemanticError (IdempotentResult SemanticMutationResult × SemanticTables F)
    supersede_memory id p key new_id now t u =
        let hash = tools.digest (supersede_name id) (some p) in
        refused_or (replay key (supersede_name id) hash t.results) >>= λ replayed.
        replay_mutation_or replayed u (
          active_row id t >>= λ row.
          check_owner row p
          >> (or_raise (tools.embed p.content) embedding_failed >>= λ vector.
              replace_active id p key hash new_id now vector u))

abbrev pub tombstone_of : String → ℕ → String → SemanticMemoryTombstone
tombstone_of id now trace = record { memory_id = id; deleted_at = now; deletion_trace_id = trace }

module _ {F : Type 0} where
  abbrev pub without_memory_row :
      String → List SemanticMemoryTombstone → SemanticTables F → SemanticTables F
  without_memory_row id tombstones tables = record tables {
    memories = delete (λ row. memory_key row == id) tables.memories;
    tombstones = tombstones;
  }

  -- The `DELETE`, the tombstone, and the answer that is recorded
  unfoldable pub bury :
      String
      → String
      → String
      → String
      → ℕ
      → SemanticTables F
      → Result SemanticError (IdempotentResult SemanticMemoryTombstone × SemanticTables F)
  bury id key hash trace now tables =
      or_raise (insert tombstone_key (tombstone_of id now trace) tables.tombstones)
        (refused integrity_error)
      >>= λ tombstones.
          record_answer key (delete_name id) hash (tombstone_answer (tombstone_of id now trace)) now
            (without_memory_row id tombstones tables)
          >>= λ after. ok (record { value = tombstone_of id now trace; replayed = false }, after)

  unfoldable pub delete_or_replay :
      String
      → String
      → String
      → String
      → ℕ
      → SemanticTables F
      → Option SemanticAnswer
      → Result SemanticError (IdempotentResult SemanticMemoryTombstone × SemanticTables F)
  delete_or_replay id key hash trace now tables (some answer) = as_tombstone answer >>= λ tombstone.
      ok (record { value = tombstone; replayed = true }, tables)
  delete_or_replay id key hash trace now tables none =
      or_raise (find memory_key id tables.memories) memory_not_found >>= λ row.
      bury id key hash trace now tables

  -- `delete_idempotent`
  unfoldable pub delete_memory :
      Tools F
      → String
      → String
      → String
      → ℕ
      → SemanticTables F
      → Result SemanticError (IdempotentResult SemanticMemoryTombstone × SemanticTables F)
  delete_memory tools id key trace now tables =
      let hash = tools.digest (delete_name id) none in
      refused_or (replay key (delete_name id) hash tables.results) >>= λ replayed.
      delete_or_replay id key hash trace now tables replayed
