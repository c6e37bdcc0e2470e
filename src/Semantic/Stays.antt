-- ===== src/Semantic/Stays.antt =====
-- Sequences of commands on semantic memories after a deletion.
use nyra.Base.{
  ℕ, ◌≡◌, refl, ◌≢◌, String, false, Option, none, some, [], ◌∷◌, ◌++◌, any, arith, eq_self, ok,
  >>=-eq-ok,
}
use nyra.Table.{find, insert, has_key}
use nyra.Table.Laws.{find-append, any-find-none}
use nyra.Memory.Operational.{IdempotentResult, replay}
use nyra.Semantic.{
  SemanticPayload, SemanticMemory, SemanticMemoryTombstone, SemanticMutationResult, SemanticAnswer,
  SemanticTables, memory_key, tombstone_key, buried, get_memory,
}
use nyra.Semantic.Commands.{
  Tools, SemanticMemoryCreate, as_tombstone, record_answer, create_semantic, refused_or, or_raise,
}
use nyra.Semantic.Changes.{
  confirm_memory, supersede_memory, bury, delete_memory, delete_or_replay, tombstone_of,
  without_memory_row,
}
use nyra.Semantic.Burials.{find-deleted, IsBuried, record_answer-Keeps, create_semantic-Keeps}
use nyra.Semantic.Deletions.{confirm_memory-Keeps, supersede_memory-Keeps, delete_or_replay-Keeps}

module _ {F : Type 0} (tools : Tools F) where
  bury-IsBuried :
      (id key hash trace : String) (now : ℕ) (t u : SemanticTables F)
      (r : IdempotentResult SemanticMemoryTombstone)
      → bury id key hash trace now t ≡ ok (r, u)
      → IsBuried id r.value u
  unfolding bury
  bury-IsBuried id key hash trace now t u r e =
      let (tombstones, f, g) =
        >>=-eq-ok (or_raise (insert tombstone_key (tombstone_of id now trace) t.tombstones) _) _
          e in
      let (after, i, j) =
        >>=-eq-ok (record_answer _ _ _ _ now (without_memory_row id tombstones t)) _ g in
      let same : after ≡ u = cc in
      let value_same : tombstone_of id now trace ≡ r.value = cc in
      let fresh : any (has_key tombstone_key id) t.tombstones ≡ false = ground arith in
      let there : tombstones ≡ t.tombstones ++ tombstone_of id now trace ∷ [] = ground arith in
      let absent = any-find-none tombstone_key id t.tombstones fresh in
      rw (← same, ← value_same)
        (record_answer-Keeps id (tombstone_of id now trace) _ _ _ _ now _ after i (record {
          gone = find-deleted memory_key id t.memories;
          marked =
              rw
                (
                  there,
                  find-append tombstone_key id t.tombstones (tombstone_of id now trace),
                  absent,
                  eq_self id,
                )
                refl;
        }))

  delete_or_replay-IsBuried :
      (id key hash trace : String) (now : ℕ) (t u : SemanticTables F)
      (tombstone : SemanticMemoryTombstone) (replayed : Option SemanticAnswer)
      → delete_or_replay id key hash trace now t replayed
        ≡ ok (record { value = tombstone; replayed = false }, u)
      → IsBuried id tombstone u
  unfolding delete_or_replay
  delete_or_replay-IsBuried id key hash trace now t u tombstone none e =
      let (row, f, g) = >>=-eq-ok (or_raise (find memory_key id t.memories) _) _ e in
      bury-IsBuried id key hash trace now t u _ g
  delete_or_replay-IsBuried id key hash trace now t u tombstone (some answer) e =
      let (old, f, g) = >>=-eq-ok (as_tombstone answer) _ e in absurd (ground arith)

  delete_memory-IsBuried :
      (id key trace : String) (now : ℕ) (t u : SemanticTables F)
      (tombstone : SemanticMemoryTombstone)
      → delete_memory tools id key trace now t
        ≡ ok (record { value = tombstone; replayed = false }, u)
      → IsBuried id tombstone u
  unfolding delete_memory
  delete_memory-IsBuried id key trace now t u tombstone e =
      let (replayed, f, g) = >>=-eq-ok (refused_or (replay key _ _ t.results)) _ e in
      delete_or_replay-IsBuried id key _ trace now t u tombstone replayed g

  -- A command that was carried out or replayed. What another task read before the transaction is any table, and the
  -- identifiers that are drawn for new memories are not `id`. A command that raises changes nothing.
  pub data Step (id : String) (t u : SemanticTables F) : Type 0 where
    created :
        (c : SemanticMemoryCreate) (new_id : String) (now : ℕ) (before : SemanticTables F)
        (r : IdempotentResult SemanticMutationResult)
        → new_id ≢ id
        → create_semantic tools c new_id now before t ≡ ok (r, u)
        → Step id t u
    confirmed :
        (x key : String) (now : ℕ) (m : SemanticMemory)
        → confirm_memory tools x key now t ≡ ok (m, u)
        → Step id t u
    replaced :
        (x : String) (p : SemanticPayload) (key new_id : String) (now : ℕ)
        (before : SemanticTables F) (r : IdempotentResult SemanticMutationResult)
        → new_id ≢ id
        → supersede_memory tools x p key new_id now before t ≡ ok (r, u)
        → Step id t u
    removed :
        (x key trace : String) (now : ℕ) (r : IdempotentResult SemanticMemoryTombstone)
        → delete_memory tools x key trace now t ≡ ok (r, u)
        → Step id t u

  pub data Reach (id : String) (t : SemanticTables F) : SemanticTables F → Type 0 where
    here : Reach id t t
    next : {u w : SemanticTables F} → Reach id t u → Step id u w → Reach id t w

  delete_memory-Keeps :
      (id : String) (tombstone : SemanticMemoryTombstone) (x key trace : String) (now : ℕ)
      (t u : SemanticTables F) (r : IdempotentResult SemanticMemoryTombstone)
      → delete_memory tools x key trace now t ≡ ok (r, u)
      → IsBuried id tombstone t
      → IsBuried id tombstone u
  unfolding delete_memory
  delete_memory-Keeps id tombstone x key trace now t u r e =
      let (replayed, f, g) = >>=-eq-ok (refused_or (replay key _ _ t.results)) _ e in
      delete_or_replay-Keeps id tombstone tools x key _ trace now t u r replayed g

  Step-IsBuried :
      (id : String) (tombstone : SemanticMemoryTombstone) (t u : SemanticTables F)
      → Step id t u
      → IsBuried id tombstone t
      → IsBuried id tombstone u
  Step-IsBuried id tombstone t u (created c new_id now before r other e) =
      create_semantic-Keeps id tombstone tools c new_id now before t u r other e
  Step-IsBuried id tombstone t u (confirmed x key now m e) =
      confirm_memory-Keeps id tombstone tools x key now t u m e
  Step-IsBuried id tombstone t u (replaced x p key new_id now before r other e) =
      supersede_memory-Keeps id tombstone tools x p key new_id now before t u r other e
  Step-IsBuried id tombstone t u (removed x key trace now r e) =
      delete_memory-Keeps id tombstone x key trace now t u r e

  Reach-IsBuried :
      (id : String) (tombstone : SemanticMemoryTombstone) (t u : SemanticTables F)
      → Reach id t u
      → IsBuried id tombstone t
      → IsBuried id tombstone u
  Reach-IsBuried id tombstone t u here h = h
  Reach-IsBuried id tombstone t u (next {u = w} steps step) h =
      Step-IsBuried id tombstone w u step (Reach-IsBuried id tombstone t w steps h)

  -- A memory that was deleted is answered with its tombstone, and has no row, after any commands of whatever tasks, as
  -- long as no new memory draws its identifier.
  pub deleted_stays :
      (id key trace : String) (now : ℕ) (t u w : SemanticTables F)
      (tombstone : SemanticMemoryTombstone)
      → delete_memory tools id key trace now t
        ≡ ok (record { value = tombstone; replayed = false }, u)
      → Reach id u w
      → (get_memory id w ≡ ok (buried tombstone)) × (find memory_key id w.memories ≡ none)
  unfolding get_memory
  deleted_stays id key trace now t u w tombstone e steps =
      let kept =
        Reach-IsBuried id tombstone u w steps
          (delete_memory-IsBuried id key trace now t u tombstone e) in
      (rw (get_memory, kept.gone, kept.marked) refl, kept.gone)
