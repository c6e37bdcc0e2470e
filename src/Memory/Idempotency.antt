-- ===== src/Memory/Idempotency.antt =====
-- Retries of a command, however many other commands came between.
use nyra.Base.{ℕ, ◌≡◌, refl, ◌≢◌, String, true, some, List, ok, raise}
use nyra.Memory.{
  OperationalEntryCreate, OperationalEntry, Response, saved, IdempotencyRow, MemoryTables,
  idempotency_conflict,
}
use nyra.Memory.Operational.{
  IdempotentResult, Digest, replay_or, create_operation, create_idempotent, update_operation,
  update_idempotent, delete_idempotent,
}
use nyra.Memory.Replays.{
  Keeps, Keeps-refl, Keeps-replay, replay-conflict, create-Answered, update-Answered, delete-Keeps,
}

module _ {V : Type 0} (digest : Digest V) (normalize_key : String → String) where
  -- A command that was carried out or replayed. One that raises changes nothing.
  pub data Step (t u : MemoryTables V) : Type 0 where
    created :
        (c : OperationalEntryCreate V) (id : String) (now : ℕ)
        (r : IdempotentResult (OperationalEntry V))
        → create_idempotent digest normalize_key c id now t ≡ ok (r, u)
        → Step t u
    updated :
        (id : String) (c : OperationalEntryCreate V) (now : ℕ)
        (r : IdempotentResult (OperationalEntry V))
        → update_idempotent digest normalize_key id c now t ≡ ok (r, u)
        → Step t u
    removed :
        (id key : String) (now : ℕ) (r : IdempotentResult (Response V))
        → delete_idempotent digest id key now t ≡ ok (r, u)
        → Step t u

  pub data Reach (t : MemoryTables V) : MemoryTables V → Type 0 where
    here : Reach t t
    next : {u w : MemoryTables V} → Reach t u → Step u w → Reach t w

  Step-Keeps : (t u : MemoryTables V) → Step t u → Keeps t.results u.results
  Step-Keeps t u (created c id now r h) =
      (create-Answered digest normalize_key c id now t u r h).keeps
  Step-Keeps t u (updated id c now r h) =
      (update-Answered digest normalize_key id c now t u r h).keeps
  Step-Keeps t u (removed id key now r h) = delete-Keeps digest id key now t u r h

  Keeps-trans : (a b c : List (IdempotencyRow (Response V))) → Keeps a b → Keeps b c → Keeps a c
  unfolding Keeps
  Keeps-trans a b c f g k row found = g k row (f k row found)

  Reach-Keeps : (t u : MemoryTables V) → Reach t u → Keeps t.results u.results
  Reach-Keeps t u here = Keeps-refl t.results
  Reach-Keeps t u (next {u = w} steps step) =
      Keeps-trans t.results w.results u.results (Reach-Keeps t w steps) (Step-Keeps w u step)

  -- A command to create an entry that was answered is answered with the same entry when it is sent again, at
  -- whatever time and after whatever other commands, and the retry changes nothing.
  pub create_again :
      (c : OperationalEntryCreate V) (id id' : String) (now now' : ℕ) (t u w : MemoryTables V)
      (r : IdempotentResult (OperationalEntry V))
      → create_idempotent digest normalize_key c id now t ≡ ok (r, u)
      → Reach u w
      → create_idempotent digest normalize_key c id' now' w
        ≡ ok (record { value = r.value; replayed = true }, w)
  unfolding create_idempotent replay_or
  create_again c id id' now now' t u w r h steps =
      let hash = digest create_operation (some c.payload) in
      let given = (create-Answered digest normalize_key c id now t u r h).given in
      rw
        (Keeps-replay c.idempotency_key create_operation hash (saved r.value) u.results w.results
          (Reach-Keeps u w steps) given)
        refl

  -- An update that was answered is answered with the same entry when it is sent again, at whatever time and after
  -- whatever other commands, later updates and the deletion of the entry among them, and the retry changes nothing.
  pub update_again :
      (id : String) (c : OperationalEntryCreate V) (now now' : ℕ) (t u w : MemoryTables V)
      (r : IdempotentResult (OperationalEntry V))
      → update_idempotent digest normalize_key id c now t ≡ ok (r, u)
      → Reach u w
      → update_idempotent digest normalize_key id c now' w
        ≡ ok (record { value = r.value; replayed = true }, w)
  unfolding update_idempotent replay_or
  update_again id c now now' t u w r h steps =
      let hash = digest (update_operation id) (some c.payload) in
      let given = (update-Answered digest normalize_key id c now t u r h).given in
      rw
        (Keeps-replay c.idempotency_key (update_operation id) hash (saved r.value) u.results
          w.results (Reach-Keeps u w steps) given)
        refl

  -- Where a key was used to create an entry, a command to create one from a payload with another digest under that
  -- key is refused as a conflict, whatever other commands came between.
  pub reused_key_refused :
      (c d : OperationalEntryCreate V) (id id' : String) (now now' : ℕ) (t u w : MemoryTables V)
      (r : IdempotentResult (OperationalEntry V))
      → create_idempotent digest normalize_key c id now t ≡ ok (r, u)
      → Reach u w
      → d.idempotency_key ≡ c.idempotency_key
      → digest create_operation (some c.payload) ≢ digest create_operation (some d.payload)
      → create_idempotent digest normalize_key d id' now' w ≡ raise idempotency_conflict
  unfolding create_idempotent
  reused_key_refused c d id id' now now' t u w r h steps same differ =
      let hash = digest create_operation (some c.payload) in
      let given = (create-Answered digest normalize_key c id now t u r h).given in
      let kept =
        Keeps-replay c.idempotency_key create_operation hash (saved r.value) u.results w.results
          (Reach-Keeps u w steps) given in
      let refused =
        replay-conflict c.idempotency_key create_operation hash _ (saved r.value) w.results kept
          differ in
      rw (same, refused) refl
