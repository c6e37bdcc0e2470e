-- ===== src/Semantic/Burials.antt =====
-- A memory that was deleted stays deleted.
use nyra.Base.{
  ℕ, ◌≡◌, refl, ◌≢◌, String, Bool, Option, none, some, List, [], ◌∷◌, ◌==◌, arith, eq-ne, Result,
  ok, >>=-eq-ok, Option-cases, inl, inr,
}
use mathlib.Core.Path.{subst}
use nyra.Table.{find, update, delete}
use nyra.Table.Laws.{find-append, find-update}
use nyra.Memory.Operational.{IdempotentResult, replay}
use nyra.Semantic.{
  SemanticMemoryTombstone, SemanticMutationResult, MemoryAdmission, SemanticRow, SemanticAnswer,
  mutation_answer, SemanticTables, SemanticError, memory_key, tombstone_key, EmbeddingVector,
}
use nyra.Semantic.Commands.{
  Tools, SemanticMemoryCreate, as_mutation, insert_memory, record_answer, answer_mutation,
  replay_mutation_or, confirm_found, confirm_duplicate, insert_unless, create_new,
  create_or_confirm, create_semantic, confirmed, refused_or, or_raise, embedded,
}

pub find-delete_key {ℓ} :
    {R : Type ℓ} (key : R → String) (j k : String) (rows : List R)
    → find key k rows ≡ none
    → find key k (delete (λ r. key r == j) rows) ≡ none
find-delete_key key j k [] h = refl
find-delete_key key j k (r ∷ rows) h = ground (arith, find-delete_key key j k rows)

pub find-deleted {ℓ} :
    {R : Type ℓ} (key : R → String) (k : String) (rows : List R)
    → find key k (delete (λ r. key r == k) rows) ≡ none
find-deleted key k [] = refl
find-deleted key k (r ∷ rows) = ground (arith, find-deleted key k rows)

module _ {F : Type 0} (id : String) (tombstone : SemanticMemoryTombstone) where
  -- The memory has a tombstone and no row.
  pub record IsBuried (tables : SemanticTables F) : Type 0 where
    pub gone : find memory_key id tables.memories ≡ none
    pub marked : find tombstone_key id tables.tombstones ≡ some tombstone

  abbrev pub Keeps : SemanticTables F → SemanticTables F → Type 0
  Keeps t u = IsBuried t → IsBuried u

  pub insert_memory-Keeps :
      (row : SemanticRow F) (t u : SemanticTables F)
      → memory_key row ≢ id
      → insert_memory row t ≡ ok u
      → Keeps t u
  unfolding insert_memory
  insert_memory-Keeps row t u other e h = record {
    gone =
        let differs = eq-ne (memory_key row) id other in
        ground (arith, h.gone, find-append memory_key id t.memories row);
    marked = ground (arith, h.marked);
  }

  pub record_answer-Keeps :
      (key operation hash : String) (answer : SemanticAnswer) (now : ℕ) (t u : SemanticTables F)
      → record_answer key operation hash answer now t ≡ ok u
      → Keeps t u
  unfolding record_answer
  record_answer-Keeps key operation hash answer now t u e h = record {
    gone = ground (arith, h.gone);
    marked = ground (arith, h.marked);
  }

  pub answer_mutation-Keeps :
      (admission : MemoryAdmission) (x key operation hash : String) (now : ℕ)
      (t u : SemanticTables F) (r : IdempotentResult SemanticMutationResult)
      → answer_mutation admission x key operation hash now t ≡ ok (r, u)
      → Keeps t u
  unfolding answer_mutation
  answer_mutation-Keeps admission x key operation hash now t u r e h =
      elim (Option-cases (find memory_key x t.memories)) [
        | inl f ↦ ground arith
        | inr (row, f) ↦
            record_answer-Keeps key operation hash
              (mutation_answer (record { admission = admission; memory = row.memory })) now t u
              (ground arith) h
      ]

  -- An `UPDATE` that leaves the identifiers alone
  pub update-Keeps :
      (p : SemanticRow F → Bool) (f : SemanticRow F → SemanticRow F) (t : SemanticTables F)
      → ((row : SemanticRow F) → memory_key (f row) ≡ memory_key row)
      → Keeps t (record t { memories = update p f t.memories })
  update-Keeps p f t same h = record {
    gone = ground (arith, h.gone, find-update memory_key p f same id t.memories);
    marked = h.marked;
  }

  pub replay_mutation_or-Keeps :
      (replayed : Option SemanticAnswer) (t u : SemanticTables F)
      (r : IdempotentResult SemanticMutationResult)
      (work : Result SemanticError (IdempotentResult SemanticMutationResult × SemanticTables F))
      → (work ≡ ok (r, u) → Keeps t u)
      → replay_mutation_or replayed t work ≡ ok (r, u)
      → Keeps t u
  replay_mutation_or-Keeps none t u r work worked e = worked e
  replay_mutation_or-Keeps (some answer) t u r work worked e =
      let (result, f, g) = >>=-eq-ok (as_mutation answer) _ e in
      let same : t ≡ u = cc in λ h. subst IsBuried same h

  module _ (tools : Tools F) (command : SemanticMemoryCreate) where
    confirm_found-Keeps :
        (now : ℕ) (t u : SemanticTables F) (found : Option (SemanticRow F))
        (r : IdempotentResult SemanticMutationResult)
        → confirm_found tools command now t found ≡ ok (r, u)
        → Keeps t u
    unfolding confirm_found
    confirm_found-Keeps now t u none r e h =
        let (vector, f, g) = >>=-eq-ok (embedded tools command command.payload) _ e in
        absurd (ground arith)
    confirm_found-Keeps now t u (some row) r e h =
        answer_mutation-Keeps _ _ _ _ _ now _ u r e
          (update-Keeps _ (confirmed now) t (λ row. refl) h)

    confirm_duplicate-Keeps :
        (now : ℕ) (t u : SemanticTables F) (r : IdempotentResult SemanticMutationResult)
        → confirm_duplicate tools command now t ≡ ok (r, u)
        → Keeps t u
    unfolding confirm_duplicate
    confirm_duplicate-Keeps now t u r e =
        let (replayed, f, g) =
          >>=-eq-ok (refused_or (replay command.idempotency_key _ _ t.results)) _ e in
        replay_mutation_or-Keeps replayed t u r _ (confirm_found-Keeps now t u _ r) g

    insert_unless-Keeps :
        (x : String) (now : ℕ) (vector : EmbeddingVector F) (t u : SemanticTables F)
        (found : Option (SemanticRow F)) (r : IdempotentResult SemanticMutationResult)
        → x ≢ id
        → insert_unless tools command x now vector t found ≡ ok (r, u)
        → Keeps t u
    unfolding insert_unless
    insert_unless-Keeps x now vector t u (some row) r other e h = absurd (ground arith)
    insert_unless-Keeps x now vector t u none r other e h =
        let (values, f, g) = >>=-eq-ok (or_raise (tools.stored_values vector) _) _ e in
        let (after, inserted, answered) = >>=-eq-ok (insert_memory _ t) _ g in
        answer_mutation-Keeps _ _ _ _ _ now after u r answered
          (insert_memory-Keeps _ t after other inserted h)

    create_new-Keeps :
        (x : String) (now : ℕ) (vector : EmbeddingVector F) (t u : SemanticTables F)
        (r : IdempotentResult SemanticMutationResult)
        → x ≢ id
        → create_new tools command x now vector t ≡ ok (r, u)
        → Keeps t u
    unfolding create_new
    create_new-Keeps x now vector t u r other e =
        let (replayed, f, g) =
          >>=-eq-ok (refused_or (replay command.idempotency_key _ _ t.results)) _ e in
        replay_mutation_or-Keeps replayed t u r _ (insert_unless-Keeps x now vector t u _ r other) g

    create_or_confirm-Keeps :
        (x : String) (now : ℕ) (t u : SemanticTables F) (found : Option (SemanticRow F))
        (r : IdempotentResult SemanticMutationResult)
        → x ≢ id
        → create_or_confirm tools command x now t found ≡ ok (r, u)
        → Keeps t u
    unfolding create_or_confirm
    create_or_confirm-Keeps x now t u (some row) r other e = confirm_duplicate-Keeps now t u r e
    create_or_confirm-Keeps x now t u none r other e =
        let (vector, f, g) = >>=-eq-ok (embedded tools command command.payload) _ e in
        create_new-Keeps x now vector t u r other g

    pub create_semantic-Keeps :
        (x : String) (now : ℕ) (before t u : SemanticTables F)
        (r : IdempotentResult SemanticMutationResult)
        → x ≢ id
        → create_semantic tools command x now before t ≡ ok (r, u)
        → Keeps t u
    unfolding create_semantic
    create_semantic-Keeps x now before t u r other e =
        let (replayed, f, g) =
          >>=-eq-ok (refused_or (replay command.idempotency_key _ _ before.results)) _ e in
        replay_mutation_or-Keeps replayed t u r _ (create_or_confirm-Keeps x now t u _ r other) g
