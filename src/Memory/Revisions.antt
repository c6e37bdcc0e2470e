-- ===== src/Memory/Revisions.antt =====
-- What a create and an update that are carried out leave in the table.
use nyra.Base.{
  ℕ, suc, ◌∙◌, ◌≡◌, refl, ◌≢◌, String, true, false, none, some, List, [], ◌∷◌, ◌++◌, nat_eq, any,
  count, arith, eq_self, eq_iff, eq-ne, Result, ok,
}
use nyra.Table.{find, has_key, update}
use nyra.Table.Laws.{HasUniqueKeys, find-append, find-update_key, any-find-none}
use nyra.Memory.{
  Response, EntryPayload, OperationalEntryCreate, OperationalEntry, EntryRow, row_id, saved,
  result_key, MemoryTables, MemoryError, IdempotencyRow,
}
use nyra.Memory.Operational.{
  IdempotentResult, Digest, owner_matches, replay, record_idempotency, replay_or, answer,
  insert_entry, update_entry, get_entry, new_entry, revised, at_revision, create_operation,
  create_idempotent, update_operation, update_idempotent,
}

nat_eq_self : (n : ℕ) → nat_eq n n ≡ true
nat_eq_self n = ground arith

module _ {V : Type 0} where
  -- An answer of which the whole effect on the entries is one entry's
  pub record Saves (id : String) (entry : OperationalEntry V) (t : MemoryTables V)
      (outcome : Result MemoryError (IdempotentResult (OperationalEntry V) × MemoryTables V))
      : Type 0 where
    pub after : MemoryTables V
    pub carried_out : outcome ≡ ok (record { value = entry; replayed = false }, after)
    pub stored : get_entry id after ≡ ok entry
    pub others : (j : String) → j ≢ id → get_entry j after ≡ get_entry j t

  abbrev new_row : (String → String) → OperationalEntryCreate V → String → ℕ → EntryRow V
  new_row normalize_key c id now = record {
    entry = new_entry c.payload id now;
    normalized_key = normalize_key c.payload.key;
  }

  abbrev new_result :
      OperationalEntryCreate V
      → String
      → String
      → OperationalEntry V
      → ℕ
      → IdempotencyRow (Response V)
  new_result c op hash entry now = record {
    idempotency_key = c.idempotency_key;
    operation = op;
    request_hash = hash;
    response = saved entry;
    created_at = now;
  }

  replay-unused :
      (key op hash : String) (results : List (IdempotencyRow (Response V)))
      → any (has_key result_key key) results ≡ false
      → replay key op hash results ≡ ok none
  unfolding replay
  replay-unused key op hash results unused =
      rw (replay, any-find-none result_key key results unused) refl

  answer-unused :
      (id op hash : String) (c : OperationalEntryCreate V) (now : ℕ) (t : MemoryTables V)
      (row : EntryRow V)
      → any (has_key result_key c.idempotency_key) t.results ≡ false
      → find row_id id t.entries ≡ some row
      → answer id c.idempotency_key op hash now t
        ≡ ok (
          record { value = row.entry; replayed = false },
          record {
            entries = t.entries;
            results = t.results ++ new_result c op hash row.entry now ∷ [];
          },
        )
  unfolding answer record_idempotency
  answer-unused id op hash c now t row unused found =
      rw (answer, found, record_idempotency, unused) refl

  insert_entry-fresh :
      (row : EntryRow V) (t : MemoryTables V)
      → any (has_key row_id (row_id row)) t.entries ≡ false
      → owner_matches row.entry.scope row.entry.owner_user_id ≡ true
      → insert_entry row t ≡ ok (record { entries = t.entries ++ row ∷ []; results = t.results })
  unfolding insert_entry
  insert_entry-fresh row t fresh owned = rw (insert_entry, owned, fresh) refl

  find-inserted :
      (row : EntryRow V) (rows : List (EntryRow V))
      → any (has_key row_id (row_id row)) rows ≡ false
      → find row_id (row_id row) (rows ++ row ∷ []) ≡ some row
  find-inserted row rows fresh =
      find-append row_id (row_id row) rows row
      ∙ rw (any-find-none row_id (row_id row) rows fresh, eq_self (row_id row)) refl

  -- A create whose key and identifier are not taken, and whose owner fits its scope, is carried out: the entry has
  -- revision 1, it is read back as it was answered, and no other entry changes.
  pub create_then_get :
      (digest : Digest V) (normalize_key : String → String) (c : OperationalEntryCreate V)
      (id : String) (now : ℕ) (t : MemoryTables V)
      → any (has_key result_key c.idempotency_key) t.results ≡ false
      → any (has_key row_id id) t.entries ≡ false
      → owner_matches c.payload.scope c.payload.owner_user_id ≡ true
      → Saves id
          (record {
            entry_id = id;
            scope = c.payload.scope;
            owner_user_id = c.payload.owner_user_id;
            entry_type = c.payload.entry_type;
            key = c.payload.key;
            value = c.payload.value;
            enabled = c.payload.enabled;
            revision = 1;
            created_at = now;
            updated_at = now;
          })
          t
          (create_idempotent digest normalize_key c id now t)
  unfolding create_idempotent replay replay_or insert_entry answer record_idempotency get_entry
  create_then_get digest normalize_key c id now t unused fresh owned = record {
    after = record {
      entries = t.entries ++ new_row normalize_key c id now ∷ [];
      results =
          t.results
          ++ new_result c create_operation (digest create_operation (some c.payload))
              (new_entry c.payload id now) now
            ∷ [];
    };
    carried_out =
        let row = new_row normalize_key c id now in
        let hash = digest create_operation (some c.payload) in
        rw
          (
            create_idempotent,
            replay-unused c.idempotency_key create_operation hash t.results unused,
            insert_entry-fresh row t fresh owned,
          )
          (answer-unused id create_operation hash c now
            (record { entries = t.entries ++ row ∷ []; results = t.results }) row unused
            (find-inserted row t.entries fresh));
    stored = rw (get_entry, find-inserted (new_row normalize_key c id now) t.entries fresh) refl;
    others = λ j other.
        rw (get_entry, find-append row_id j t.entries (new_row normalize_key c id now))
          (ground (arith, eq_iff id j, other));
  }

  count-absent :
      (id : String) (revision : ℕ) (rows : List (EntryRow V))
      → any (has_key row_id id) rows ≡ false
      → count (at_revision id revision) rows ≡ 0
  count-absent id revision [] h = refl
  count-absent id revision (row ∷ rows) h = ground (arith, count-absent id revision rows)

  count-found :
      (id : String) (rows : List (EntryRow V)) (row : EntryRow V)
      → HasUniqueKeys row_id rows
      → find row_id id rows ≡ some row
      → count (at_revision id row.entry.revision) rows ≡ 1
  count-found id [] row h found = ground arith
  count-found id (other ∷ rows) row h found = ground (
    arith,
    eq_iff (row_id other) id,
    count-absent id row.entry.revision rows,
    count-found id rows row h.1,
  )

  abbrev revised_tables :
      (String → String)
      → OperationalEntryCreate V
      → String
      → String
      → EntryRow V
      → ℕ
      → MemoryTables V
      → MemoryTables V
  revised_tables normalize_key c id hash row now t = record {
    entries =
        update (at_revision id row.entry.revision) (revised normalize_key c.payload now) t.entries;
    results =
        t.results
        ++ new_result c (update_operation id) hash (revised normalize_key c.payload now row).entry
            now
          ∷ [];
  }

  find-revised :
      (normalize_key : String → String) (p : EntryPayload V) (id : String) (now : ℕ)
      (row : EntryRow V) (rows : List (EntryRow V))
      → find row_id id rows ≡ some row
      → find row_id id
          (update (at_revision id row.entry.revision) (revised normalize_key p now) rows)
        ≡ some (revised normalize_key p now row)
  find-revised normalize_key p id now row rows found =
      find-update_key row_id (λ r. nat_eq r.entry.revision row.entry.revision)
        (revised normalize_key p now) (λ r. refl) id id rows
      ∙ rw (eq_self id, found, nat_eq_self row.entry.revision) refl

  -- An update whose key is not taken, of an entry that is there, and whose owner fits its scope, is carried out: the
  -- revision goes up by one, the time of creation stays, the entry is read back as it was answered, and no other entry
  -- changes.
  pub update_then_get :
      (digest : Digest V) (normalize_key : String → String) (id : String)
      (c : OperationalEntryCreate V) (now : ℕ) (t : MemoryTables V) (row : EntryRow V)
      → any (has_key result_key c.idempotency_key) t.results ≡ false
      → HasUniqueKeys row_id t.entries
      → find row_id id t.entries ≡ some row
      → owner_matches c.payload.scope c.payload.owner_user_id ≡ true
      → Saves id
          (record {
            entry_id = row.entry.entry_id;
            scope = c.payload.scope;
            owner_user_id = c.payload.owner_user_id;
            entry_type = c.payload.entry_type;
            key = c.payload.key;
            value = c.payload.value;
            enabled = c.payload.enabled;
            revision = suc row.entry.revision;
            created_at = row.entry.created_at;
            updated_at = now;
          })
          t
          (update_idempotent digest normalize_key id c now t)
  unfolding update_idempotent replay replay_or update_entry answer record_idempotency get_entry
  update_then_get digest normalize_key id c now t row unused unique found owned = record {
    after =
        revised_tables normalize_key c id (digest (update_operation id) (some c.payload)) row now t;
    carried_out =
        let hash = digest (update_operation id) (some c.payload) in
        let entries =
          update (at_revision id row.entry.revision) (revised normalize_key c.payload now)
            t.entries in
        rw
          (
            update_idempotent,
            replay-unused c.idempotency_key (update_operation id) hash t.results unused,
            get_entry,
            found,
            update_entry,
            owned,
            count-found id t.entries row unique found,
          )
          (answer-unused id (update_operation id) hash c now
            (record { entries = entries; results = t.results })
            (revised normalize_key c.payload now row) unused
            (find-revised normalize_key c.payload id now row t.entries found));
    stored = rw (get_entry, find-revised normalize_key c.payload id now row t.entries found) refl;
    others = λ j other.
        rw
          (
            get_entry,
            find-update_key row_id (λ r. nat_eq r.entry.revision row.entry.revision)
                (revised normalize_key c.payload now) (λ r. refl) id j t.entries,
            eq-ne j id other,
          )
          refl;
  }
