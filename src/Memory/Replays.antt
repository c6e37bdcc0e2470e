-- ===== src/Memory/Replays.antt =====
-- Idempotency keys: an answer that was given stays the answer.
use mathlib.Core.Path.{subst}
use nyra.Base.{
  ℕ, ◌≡◌, refl, ◌≢◌, ◌>>=◌, inl, inr, String, true, false, Option, none, some, List, [], ◌∷◌, ◌++◌,
  ◌==◌, any, arith, eq_self, eq_iff, Result, ok, raise, >>=-eq-ok, Option-cases, ok-injective,
  Result-cases,
}
use nyra.Table.{delete, find, has_key}
use nyra.Table.Laws.{find-append, any-find-none}
use nyra.Memory.{
  EntryPayload, OperationalEntryCreate, OperationalEntry, EntryRow, Response, saved, deleted,
  row_id, IdempotencyRow, result_key, MemoryTables, MemoryError, idempotency_conflict,
}
use nyra.Memory.Operational.{
  IdempotentResult, Digest, replay, record_idempotency, replay_or, answer, insert_entry,
  update_entry, get_entry, create_operation, create_idempotent, update_operation, update_idempotent,
  delete_operation, delete_idempotent, delete_entry,
}

module _ {V : Type 0} where
  -- Every answer that the first table of results gives, the second gives too.
  unfoldable pub Keeps :
      List (IdempotencyRow (Response V)) → List (IdempotencyRow (Response V)) → Type 0
  Keeps before after =
      (k : String) (row : IdempotencyRow (Response V))
      → find result_key k before ≡ some row
      → find result_key k after ≡ some row

  pub Keeps-refl : (results : List (IdempotencyRow (Response V))) → Keeps results results
  unfolding Keeps
  Keeps-refl results k row found = found

  -- The row that an answer is recorded in
  abbrev result_row : String → String → String → Response V → ℕ → IdempotencyRow (Response V)
  result_row key op hash response now = record {
    idempotency_key = key;
    operation = op;
    request_hash = hash;
    response = response;
    created_at = now;
  }

  record_appends :
      (key op hash : String) (response : Response V) (now : ℕ) (t u : MemoryTables V)
      → record_idempotency key op hash response now t ≡ ok u
      → (any (has_key result_key key) t.results ≡ false)
        × (u.results ≡ t.results ++ result_row key op hash response now ∷ [])
  unfolding record_idempotency
  record_appends key op hash response now t u h = ground arith

  record-Keeps :
      (key op hash : String) (response : Response V) (now : ℕ) (t u : MemoryTables V)
      → record_idempotency key op hash response now t ≡ ok u
      → Keeps t.results u.results
  unfolding Keeps
  record-Keeps key op hash response now t u h k row found =
      let (fresh, e) = record_appends key op hash response now t u h in
      rw (e, find-append result_key k t.results (result_row key op hash response now), found) refl

  record-replay :
      (key op hash : String) (response : Response V) (now : ℕ) (t u : MemoryTables V)
      → record_idempotency key op hash response now t ≡ ok u
      → replay key op hash u.results ≡ ok (some response)
  unfolding replay
  record-replay key op hash response now t u h =
      let (fresh, e) = record_appends key op hash response now t u h in
      rw
        (
          e,
          replay,
          find-append result_key key t.results (result_row key op hash response now),
          any-find-none result_key key t.results fresh,
          eq_self key,
          eq_self op,
          eq_self hash,
        )
        refl

  -- An answer is given for as long as the table keeps it.
  pub Keeps-replay :
      (key op hash : String) (response : Response V)
      (before after : List (IdempotencyRow (Response V)))
      → Keeps before after
      → replay key op hash before ≡ ok (some response)
      → replay key op hash after ≡ ok (some response)
  unfolding replay Keeps
  Keeps-replay key op hash response before after keeps h =
      elim (Option-cases (find result_key key before)) [
        | inl e ↦ ground arith
        | inr (row, e) ↦ ground (arith, keeps key row e)
      ]

  -- A key that was used is refused under another digest.
  pub replay-conflict :
      (key op hash other : String) (response : Response V)
      (results : List (IdempotencyRow (Response V)))
      → replay key op hash results ≡ ok (some response)
      → hash ≢ other
      → replay key op other results ≡ raise idempotency_conflict
  unfolding replay
  replay-conflict key op hash other response results h differ =
      elim (Option-cases (find result_key key results)) [
        | inl e ↦ ground arith
        | inr (row, e) ↦
            ground (arith, eq_iff row.request_hash hash, eq_iff row.request_hash other, differ)
      ]

  insert_entry-results :
      (row : EntryRow V) (t u : MemoryTables V) → insert_entry row t ≡ ok u → u.results ≡ t.results
  unfolding insert_entry
  insert_entry-results row t u h = ground arith

  update_entry-results :
      (normalize_key : String → String) (p : EntryPayload V) (id : String) (revision now : ℕ)
      (t u : MemoryTables V)
      → update_entry normalize_key p id revision now t ≡ ok u
      → u.results ≡ t.results
  unfolding update_entry
  update_entry-results normalize_key p id revision now t u h = ground arith

  -- What a command that made its answer leaves in the table of results
  pub record Answered (key op hash : String) (t u : MemoryTables V) (entry : OperationalEntry V)
      : Type 0 where
    pub keeps : Keeps t.results u.results
    pub given : replay key op hash u.results ≡ ok (some (saved entry))

  answer-Answered :
      (id key op hash : String) (now : ℕ) (t u : MemoryTables V)
      (r : IdempotentResult (OperationalEntry V))
      → answer id key op hash now t ≡ ok (r, u)
      → Answered key op hash t u r.value
  unfolding answer
  answer-Answered id key op hash now t u r h = elim (Option-cases (find row_id id t.entries)) [
    | inl e ↦ ground arith
    | inr (row, e) ↦ record {
      keeps = ground (arith, record-Keeps key op hash (saved row.entry) now t u);
      given = ground (arith, record-replay key op hash (saved row.entry) now t u);
    }
  ]

  replay_or-Answered :
      (key op hash : String) (t u : MemoryTables V) (r : IdempotentResult (OperationalEntry V))
      (work : Result MemoryError (IdempotentResult (OperationalEntry V) × MemoryTables V))
      (m : Result MemoryError (Option (Response V)))
      → (work ≡ ok (r, u) → Answered key op hash t u r.value)
      → replay key op hash t.results ≡ m
      → (m >>= λ replayed. replay_or replayed t work) ≡ ok (r, u)
      → Answered key op hash t u r.value
  unfolding replay_or
  replay_or-Answered key op hash t u r work (raise e) worked f h = ground arith
  replay_or-Answered key op hash t u r work (ok none) worked f h = worked h
  replay_or-Answered key op hash t u r work (ok (some (deleted id))) worked f h = ground arith
  replay_or-Answered key op hash t u r work (ok (some (saved entry))) worked f h =
      let same = ok-injective _ _ h in
      record {
        keeps = subst (λ z. Keeps t.results z.1.results) same (Keeps-refl t.results);
        given = subst (λ z. replay key op hash z.1.results ≡ ok (some (saved z.0.value))) same f;
      }

  pub create-Answered :
      (digest : Digest V) (normalize_key : String → String) (c : OperationalEntryCreate V)
      (id : String) (now : ℕ) (t u : MemoryTables V) (r : IdempotentResult (OperationalEntry V))
      → create_idempotent digest normalize_key c id now t ≡ ok (r, u)
      → Answered c.idempotency_key create_operation
          (digest create_operation (some c.payload))
          t
          u
          r.value
  unfolding create_idempotent
  create-Answered digest normalize_key c id now t u r h =
      replay_or-Answered c.idempotency_key create_operation
        (digest create_operation (some c.payload)) t u r _ _
        (λ worked.
          let (after, inserted, answered) = >>=-eq-ok (insert_entry _ t) _ worked in
          let same = insert_entry-results _ t after inserted in
          let done = answer-Answered id _ _ _ now after u r answered in
          record { keeps = subst (λ z. Keeps z u.results) same done.keeps; given = done.given })
        refl h

  pub update-Answered :
      (digest : Digest V) (normalize_key : String → String) (id : String)
      (c : OperationalEntryCreate V) (now : ℕ) (t u : MemoryTables V)
      (r : IdempotentResult (OperationalEntry V))
      → update_idempotent digest normalize_key id c now t ≡ ok (r, u)
      → Answered c.idempotency_key
          (update_operation id)
          (digest (update_operation id) (some c.payload))
          t
          u
          r.value
  unfolding update_idempotent
  update-Answered digest normalize_key id c now t u r h =
      replay_or-Answered c.idempotency_key (update_operation id)
        (digest (update_operation id) (some c.payload)) t u r _ _
        (λ worked.
          let (current, read, written) = >>=-eq-ok (get_entry id t) _ worked in
          let (after, updated, answered) = >>=-eq-ok (update_entry _ _ id _ now t) _ written in
          let same = update_entry-results _ _ id _ now t after updated in
          let done = answer-Answered id _ _ _ now after u r answered in
          record { keeps = subst (λ z. Keeps z u.results) same done.keeps; given = done.given })
        refl h

  abbrev without_entry : String → MemoryTables V → MemoryTables V
  without_entry id t = record {
    entries = delete (λ row. row_id row == id) t.entries;
    results = t.results;
  }

  delete_entry-Keeps :
      (id key hash : String) (now : ℕ) (t u : MemoryTables V) (r : IdempotentResult (Response V))
      → delete_entry id key hash now t ≡ ok (r, u)
      → Keeps t.results u.results
  unfolding delete_entry
  delete_entry-Keeps id key hash now t u r h =
      ground
        (arith, record-Keeps key (delete_operation id) hash (deleted id) now (without_entry id t) u)

  pub delete-Keeps :
      (digest : Digest V) (id key : String) (now : ℕ) (t u : MemoryTables V)
      (r : IdempotentResult (Response V))
      → delete_idempotent digest id key now t ≡ ok (r, u)
      → Keeps t.results u.results
  unfolding delete_idempotent
  delete-Keeps digest id key now t u r h =
      elim (Result-cases
        (replay key (delete_operation id) (digest (delete_operation id) none) t.results)) [
          | inl (e, f) ↦ ground arith
          | inr (none, f) ↦
              delete_entry-Keeps id key (digest (delete_operation id) none) now t u r (ground arith)
          | inr (some response, f) ↦
              subst
                (λ (z : IdempotentResult (Response V) × MemoryTables V).
                  Keeps t.results z.1.results)
                (ok-injective {E = MemoryError} (record { value = response; replayed = true }, t)
                  (r, u) (ground arith))
                (Keeps-refl t.results)
        ]
