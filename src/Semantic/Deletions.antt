-- ===== src/Semantic/Deletions.antt =====
-- A memory that was deleted stays deleted, whatever commands follow.
use mathlib.Core.Path.{subst}
use nyra.Base.{
  ℕ, ◌≡◌, refl, ◌≢◌, String, Option, none, some, [], ◌∷◌, ◌++◌, ◌==◌, arith, ok, >>=-eq-ok,
}
use nyra.Table.{find, insert}
use nyra.Table.Laws.{find-append}
use nyra.Memory.Operational.{IdempotentResult, replay}
use nyra.Semantic.{
  SemanticPayload, SemanticMemory, SemanticMemoryTombstone, SemanticMutationResult, SemanticAnswer,
  SemanticTables, memory_key, tombstone_key, EmbeddingVector,
}
use nyra.Semantic.Commands.{
  Tools, as_memory, as_tombstone, insert_memory, record_answer, confirmed, superseded, refused_or,
  or_raise,
}
use nyra.Semantic.Changes.{
  active_row, with_rows, confirm_active, confirm_or_replay, without_memory_row, delete_or_replay,
  confirm_memory, check_owner, replace_active, supersede_memory, bury, tombstone_of,
}
use nyra.Semantic.Burials.{
  find-delete_key, IsBuried, Keeps, insert_memory-Keeps, record_answer-Keeps, answer_mutation-Keeps,
  update-Keeps, replay_mutation_or-Keeps,
}

module _ {F : Type 0} (id : String) (tombstone : SemanticMemoryTombstone) (tools : Tools F) where
  confirm_active-Keeps :
      (x key hash : String) (now : ℕ) (t u : SemanticTables F) (m : SemanticMemory)
      → confirm_active x key hash now t ≡ ok (m, u)
      → Keeps id tombstone t u
  unfolding confirm_active
  confirm_active-Keeps x key hash now t u m e h =
      let (row, f, g) = >>=-eq-ok (active_row x t) _ e in
      let (written, i, j) =
        >>=-eq-ok (or_raise (find memory_key x (with_rows (confirmed now) x t).memories) _) _ g in
      let (after, k, l) =
        >>=-eq-ok (record_answer _ _ _ _ now (with_rows (confirmed now) x t)) _ j in
      let same : after ≡ u = cc in
      subst (IsBuried id tombstone) same (
        record_answer-Keeps id tombstone _ _ _ _ now _ after k (
          update-Keeps id tombstone (λ row. memory_key row == x) (confirmed now) t (λ row. refl) h))

  confirm_or_replay-Keeps :
      (x key hash : String) (now : ℕ) (t u : SemanticTables F) (m : SemanticMemory)
      (replayed : Option SemanticAnswer)
      → confirm_or_replay x key hash now t replayed ≡ ok (m, u)
      → Keeps id tombstone t u
  unfolding confirm_or_replay
  confirm_or_replay-Keeps x key hash now t u m none e = confirm_active-Keeps x key hash now t u m e
  confirm_or_replay-Keeps x key hash now t u m (some answer) e =
      let (memory, f, g) = >>=-eq-ok (as_memory answer) _ e in
      let same : t ≡ u = cc in subst (IsBuried id tombstone) same

  pub confirm_memory-Keeps :
      (x key : String) (now : ℕ) (t u : SemanticTables F) (m : SemanticMemory)
      → confirm_memory tools x key now t ≡ ok (m, u)
      → Keeps id tombstone t u
  unfolding confirm_memory
  confirm_memory-Keeps x key now t u m e =
      let (replayed, f, g) = >>=-eq-ok (refused_or (replay key _ _ t.results)) _ e in
      confirm_or_replay-Keeps x key _ now t u m replayed g

  replace_active-Keeps :
      (x : String) (p : SemanticPayload) (key hash new_id : String) (now : ℕ)
      (vector : EmbeddingVector F) (t u : SemanticTables F)
      (r : IdempotentResult SemanticMutationResult)
      → new_id ≢ id
      → replace_active tools x p key hash new_id now vector t ≡ ok (r, u)
      → Keeps id tombstone t u
  unfolding replace_active
  replace_active-Keeps x p key hash new_id now vector t u r other e =
      let (replayed, f, g) = >>=-eq-ok (refused_or (replay key _ hash t.results)) _ e in
      replay_mutation_or-Keeps id tombstone replayed t u r _
        (λ worked h.
          let (row, i, j) = >>=-eq-ok (active_row x t) _ worked in
          let (values, k, l) = >>=-eq-ok (or_raise (tools.stored_values vector) _) _ j in
          let (inserted, m, n) = >>=-eq-ok (insert_memory _ t) _ l in
          answer_mutation-Keeps id tombstone _ _ _ _ _ now _ u r n (
            update-Keeps id tombstone _ (superseded new_id now) inserted (λ row. refl)
              (insert_memory-Keeps id tombstone _ t inserted other m h)))
        g

  pub supersede_memory-Keeps :
      (x : String) (p : SemanticPayload) (key new_id : String) (now : ℕ)
      (before t u : SemanticTables F) (r : IdempotentResult SemanticMutationResult)
      → new_id ≢ id
      → supersede_memory tools x p key new_id now before t ≡ ok (r, u)
      → Keeps id tombstone t u
  unfolding supersede_memory
  supersede_memory-Keeps x p key new_id now before t u r other e =
      let (replayed, f, g) = >>=-eq-ok (refused_or (replay key _ _ before.results)) _ e in
      replay_mutation_or-Keeps id tombstone replayed t u r _
        (λ worked.
          let (row, i, j) = >>=-eq-ok (active_row x before) _ worked in
          let (checked, k, l) = >>=-eq-ok (check_owner tools row p) _ j in
          let (vector, m, n) = >>=-eq-ok (or_raise (tools.embed p.content) _) _ l in
          replace_active-Keeps x p key _ new_id now vector t u r other n)
        g

  bury-Keeps :
      (x key hash trace : String) (now : ℕ) (t u : SemanticTables F)
      (r : IdempotentResult SemanticMemoryTombstone)
      → bury x key hash trace now t ≡ ok (r, u)
      → Keeps id tombstone t u
  unfolding bury
  bury-Keeps x key hash trace now t u r e h =
      let (tombstones, f, g) =
        >>=-eq-ok (or_raise (insert tombstone_key (tombstone_of x now trace) t.tombstones) _) _ e in
      let (after, i, j) =
        >>=-eq-ok (record_answer _ _ _ _ now (without_memory_row x tombstones t)) _ g in
      let same : after ≡ u = cc in
      let there : tombstones ≡ t.tombstones ++ tombstone_of x now trace ∷ [] = ground arith in
      subst (IsBuried id tombstone) same (
        record_answer-Keeps id tombstone _ _ _ _ now _ after i (record {
          gone = find-delete_key memory_key x id t.memories h.gone;
          marked = rw there (
              ground (
                arith,
                h.marked,
                find-append tombstone_key id t.tombstones (tombstone_of x now trace),
              ));
        }))

  pub delete_or_replay-Keeps :
      (x key hash trace : String) (now : ℕ) (t u : SemanticTables F)
      (r : IdempotentResult SemanticMemoryTombstone) (replayed : Option SemanticAnswer)
      → delete_or_replay x key hash trace now t replayed ≡ ok (r, u)
      → Keeps id tombstone t u
  unfolding delete_or_replay
  delete_or_replay-Keeps x key hash trace now t u r none e =
      let (row, f, g) = >>=-eq-ok (or_raise (find memory_key x t.memories) _) _ e in
      bury-Keeps x key hash trace now t u r g
  delete_or_replay-Keeps x key hash trace now t u r (some answer) e =
      let (old, f, g) = >>=-eq-ok (as_tombstone answer) _ e in
      let same : t ≡ u = cc in subst (IsBuried id tombstone) same
