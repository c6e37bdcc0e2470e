-- ===== src/Semantic/Commands.antt =====
-- The commands of `SemanticMemoryService`. One that embeds reads the tables first (`t`) and writes in a transaction that
-- begins later (`u`), since other commands may come between. One that raises in its transaction changes nothing. The
-- fresh identifier, the time of the clock, the digests and the embedding are arguments.
use nyra.Base.{
  ℕ, leb, String, Bool, true, false, ◌&&◌, Option, none, some, List, [], ◌∷◌, ◌==◌, if◌then◌else◌,
  Result, ok, raise, ◌>>=◌, order_by, filter,
}
use nyra.Table.{find, insert, update}
use nyra.Memory.{MemoryError, integrity_error, validation_error}
use nyra.Memory.Operational.{IdempotentResult, owner_matches, replay, insert_result}
use nyra.Semantic.{
  SemanticPayload, SemanticMemory, SemanticMemoryTombstone, SemanticMutationResult, MemoryAdmission,
  admitted_new, admitted_duplicate, EmbeddingVector, SemanticRow, SemanticAnswer, mutation_answer,
  memory_answer, tombstone_answer, SemanticTables, SemanticError, state_conflict, embedding_failed,
  database_locked, row_missing, refused, memory_key, is_duplicate, active_memory, superseded_memory,
  is_active_memory,
}

pub record SemanticMemoryCreate : Type 0 where
  pub payload : SemanticPayload
  pub idempotency_key : String

-- What the commands take from outside: the digest of an operation's name and payload (`{}` is `none`), `normalize_content`,
-- `_content_hash`, the embedding of a text, and its values normalised and rounded as they are stored
pub record Tools (F : Type 0) : Type 0 where
  pub digest : String → Option SemanticPayload → String
  pub normalize_content : String → String
  pub content_hash : SemanticPayload → String → String
  pub embed : String → Option (EmbeddingVector F)
  pub stored_values : EmbeddingVector F → Option (List F)

abbrev pub refused_or {ℓ} : {A : Type ℓ} → Result MemoryError A → Result SemanticError A
refused_or (ok a) = ok a
refused_or (raise e) = raise (refused e)

abbrev pub or_raise {ℓ} : {A : Type ℓ} → Option A → SemanticError → Result SemanticError A
or_raise none e = raise e
or_raise (some a) e = ok a

abbrev pub create_name : String
create_name = "semantic.create"

-- `_mutation_from_json`
abbrev pub as_mutation : SemanticAnswer → Result SemanticError SemanticMutationResult
as_mutation (mutation_answer result) = ok result
as_mutation _ = raise (refused validation_error)

abbrev pub as_memory : SemanticAnswer → Result SemanticError SemanticMemory
as_memory (memory_answer memory) = ok memory
as_memory _ = raise (refused validation_error)

abbrev pub as_tombstone : SemanticAnswer → Result SemanticError SemanticMemoryTombstone
as_tombstone (tombstone_answer tombstone) = ok tombstone
as_tombstone _ = raise (refused validation_error)

module _ {F : Type 0} where
  -- `ORDER BY created_at, rowid`
  abbrev pub created_first : SemanticRow F → SemanticRow F → Bool
  created_first a b = leb a.memory.created_at b.memory.created_at

  abbrev pub first_of : List (SemanticRow F) → Option (SemanticRow F)
  first_of [] = none
  first_of (row ∷ rows) = some row

  -- `_active_duplicate`
  unfoldable pub active_duplicate :
      Tools F → SemanticPayload → SemanticTables F → Option (SemanticRow F)
  active_duplicate tools p tables = first_of (
      order_by created_first (
        filter (is_duplicate p (tools.content_hash p (tools.normalize_content p.content)))
          tables.memories))

  -- `last_confirmed_at` and `updated_at`
  abbrev pub confirmed : ℕ → SemanticRow F → SemanticRow F
  confirmed now row = record row {
    memory = record row.memory { last_confirmed_at = now; updated_at = now };
  }

  -- `state = 'SUPERSEDED'` and what goes with it
  abbrev pub superseded : String → ℕ → SemanticRow F → SemanticRow F
  superseded new_id now row = record row {
    memory = record row.memory {
      state = superseded_memory;
      superseded_by_memory_id = some new_id;
      updated_at = now;
    };
  }

  -- The columns of a new row
  abbrev pub new_row :
      Tools F
      → SemanticPayload
      → Option String
      → String
      → ℕ
      → EmbeddingVector F
      → List F
      → SemanticRow F
  new_row tools p supersedes id now vector values = record {
    memory = record {
      memory_id = id;
      memory_type = p.memory_type;
      scope = p.scope;
      owner_user_id = p.owner_user_id;
      content = p.content;
      source = p.source;
      state = active_memory;
      supersedes_memory_id = supersedes;
      superseded_by_memory_id = none;
      created_at = now;
      updated_at = now;
      last_confirmed_at = now;
      embedding_provider = vector.provider;
      embedding_model = vector.model;
    };
    normalized_content = tools.normalize_content p.content;
    content_hash = tools.content_hash p (tools.normalize_content p.content);
    embedding = values;
  }

  -- The `INSERT`, with the table's checks of the owner
  unfoldable pub insert_memory :
      SemanticRow F → SemanticTables F → Result SemanticError (SemanticTables F)
  insert_memory row tables =
      if owner_matches row.memory.scope row.memory.owner_user_id
      then elim (insert memory_key row tables.memories) [
        | none ↦ raise (refused integrity_error)
        | some rows ↦ ok (record tables { memories = rows })
      ]
      else raise (refused integrity_error)

  -- `_record_idempotency`
  unfoldable pub record_answer :
      String
      → String
      → String
      → SemanticAnswer
      → ℕ
      → SemanticTables F
      → Result SemanticError (SemanticTables F)
  record_answer key operation hash answer now tables =
      elim (insert_result key operation hash answer now tables.results) [
        | none ↦ raise (refused integrity_error)
        | some results ↦ ok (record tables { results = results })
      ]

  -- The row as it is read back, recorded as the answer of the mutation
  unfoldable pub answer_mutation :
      MemoryAdmission
      → String
      → String
      → String
      → String
      → ℕ
      → SemanticTables F
      → Result SemanticError (IdempotentResult SemanticMutationResult × SemanticTables F)
  answer_mutation admission id key operation hash now tables =
      elim (find memory_key id tables.memories) [
        | none ↦ raise row_missing
        | some row ↦
            record_answer key operation hash
              (mutation_answer (record { admission = admission; memory = row.memory })) now tables
            >>= λ after. ok (
              record {
                value = record { admission = admission; memory = row.memory };
                replayed = false;
              },
              after,
            )
      ]

  -- A mutation's replay where there is one, else its work
  abbrev pub replay_mutation_or :
      Option SemanticAnswer
      → SemanticTables F
      → Result SemanticError (IdempotentResult SemanticMutationResult × SemanticTables F)
      → Result SemanticError (IdempotentResult SemanticMutationResult × SemanticTables F)
  replay_mutation_or none tables work = work
  replay_mutation_or (some answer) tables work =
      as_mutation answer >>= λ result. ok (record { value = result; replayed = true }, tables)

  module _ (tools : Tools F) (command : SemanticMemoryCreate) where
    abbrev create_hash : String
    create_hash = tools.digest create_name (some command.payload)

    abbrev pub embedded : SemanticPayload → Result SemanticError (EmbeddingVector F)
    embedded p = or_raise (tools.embed p.content) embedding_failed

    abbrev pub Mutated : Type 0
    Mutated = Result SemanticError (IdempotentResult SemanticMutationResult × SemanticTables F)

    -- What the transaction does that began because a duplicate was read. Where the duplicate is gone by then, the call of
    -- `create_idempotent` inside the open transaction embeds the content and cannot begin another one.
    unfoldable pub confirm_found : ℕ → SemanticTables F → Option (SemanticRow F) → Mutated
    confirm_found now u none = embedded command.payload >>= λ vector. raise database_locked
    confirm_found now u (some row) =
        answer_mutation admitted_duplicate (memory_key row) command.idempotency_key create_name
          create_hash now
          (record u {
            memories =
                update (λ r. (memory_key r == memory_key row) && is_active_memory r.memory.state)
                  (confirmed now) u.memories;
          })

    unfoldable pub confirm_duplicate : ℕ → SemanticTables F → Mutated
    confirm_duplicate now u =
        refused_or (replay command.idempotency_key create_name create_hash u.results)
        >>= λ replayed.
            replay_mutation_or replayed u
              (confirm_found now u (active_duplicate tools command.payload u))

    -- What the transaction does that began because none was read
    unfoldable pub insert_unless :
        String → ℕ → EmbeddingVector F → SemanticTables F → Option (SemanticRow F) → Mutated
    insert_unless id now vector u (some row) = raise state_conflict
    insert_unless id now vector u none =
        or_raise (tools.stored_values vector) embedding_failed >>= λ values.
        insert_memory (new_row tools command.payload none id now vector values) u >>= λ after.
        answer_mutation admitted_new id command.idempotency_key create_name create_hash now after

    unfoldable pub create_new : String → ℕ → EmbeddingVector F → SemanticTables F → Mutated
    create_new id now vector u =
        refused_or (replay command.idempotency_key create_name create_hash u.results)
        >>= λ replayed.
            replay_mutation_or replayed u
              (insert_unless id now vector u (active_duplicate tools command.payload u))

    unfoldable pub create_or_confirm :
        String → ℕ → SemanticTables F → Option (SemanticRow F) → Mutated
    create_or_confirm id now u (some row) = confirm_duplicate now u
    create_or_confirm id now u none =
        embedded command.payload >>= λ vector. create_new id now vector u

    -- `create_idempotent`
    unfoldable pub create_semantic : String → ℕ → SemanticTables F → SemanticTables F → Mutated
    create_semantic id now t u =
        refused_or (replay command.idempotency_key create_name create_hash t.results)
        >>= λ replayed.
            replay_mutation_or replayed u
              (create_or_confirm id now u (active_duplicate tools command.payload t))
