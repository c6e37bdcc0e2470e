-- ===== src/Memory/Tests.antt =====
-- Runs at concrete inputs, and the witnesses of the properties. A digest here is the operation's name and the key.
use Prim.Native.String.{◌++◌ as text_append}
use nyra.Base.{
  ◌≡◌, refl, String, true, false, none, some, List, [], ◌∷◌, ◌++◌, ok, raise, arith, eq_iff,
}
use nyra.Memory.{
  user_scope, family_scope, alias_entry, EntryPayload, OperationalEntryCreate, OperationalEntry,
  EntryRow, MemoryTables, saved, deleted, idempotency_conflict,
}
use nyra.Memory.Operational.{
  Digest, new_entry, revised, create_idempotent, update_idempotent, delete_idempotent, replay,
  replay_or, insert_entry, answer, record_idempotency, get_entry, update_entry, delete_entry,
}
use nyra.Memory.Resolution.{OperationalLookup, resolve, resolve_each, settle, first_group, matches}
use nyra.Memory.Listing.{EntryFilter, list_entries, count_entries}
use nyra.Memory.Idempotency.{here, next, removed, create_again, update_again, reused_key_refused}
use nyra.Memory.Revisions.{Saves, create_then_get, update_then_get}
use nyra.Memory.Visible.{AllAllowed, resolve-AllAllowed}

abbrev digest : Digest String
digest op none = op
digest op (some p) = text_append op p.value

abbrev same_key : String → String
same_key k = k

abbrev payload : String → EntryPayload String
payload value = record {
  scope = user_scope;
  owner_user_id = some "ada";
  entry_type = alias_entry;
  key = "lamp";
  value = value;
  enabled = true;
}

abbrev command : String → String → OperationalEntryCreate String
command key value = record { payload = payload value; idempotency_key = key }

abbrev empty : MemoryTables String
empty = record { entries = []; results = [] }

abbrev lamp : OperationalEntry String
lamp = new_entry (payload "light.desk") "memop_1" 5

abbrev lamp_row : EntryRow String
lamp_row = record { entry = lamp; normalized_key = "lamp" }

abbrev with_lamp : MemoryTables String
with_lamp = record { entries = lamp_row ∷ []; results = [] }

abbrev created : MemoryTables String
created = record {
  entries = lamp_row ∷ [];
  results =
      record {
        idempotency_key = "k1";
        operation = "operational.create";
        request_hash = "operational.createlight.desk";
        response = saved lamp;
        created_at = 5;
      }
      ∷ [];
}

abbrev later_lamp : OperationalEntry String
later_lamp = (revised same_key (payload "light.hall") 9 lamp_row).entry

abbrev updated : MemoryTables String
updated = record {
  entries = record { entry = later_lamp; normalized_key = "lamp" } ∷ [];
  results =
      record {
        idempotency_key = "k2";
        operation = "operational.update:memop_1";
        request_hash = "operational.update:memop_1light.hall";
        response = saved later_lamp;
        created_at = 9;
      }
      ∷ [];
}

-- The entry deleted again
abbrev gone : MemoryTables String
gone = record {
  entries = [];
  results =
      created.results
      ++ record {
        idempotency_key = "k3";
        operation = "operational.delete:memop_1";
        request_hash = "operational.delete:memop_1";
        response = deleted "memop_1";
        created_at = 7;
      }
        ∷ [];
}

create_again_example :
    create_idempotent digest same_key (command "k1" "light.desk") "memop_2" 8 gone
    ≡ ok (record { value = lamp; replayed = true }, gone)
unfolding create_idempotent replay replay_or insert_entry answer record_idempotency
    delete_idempotent delete_entry
create_again_example =
    create_again digest same_key (command "k1" "light.desk") "memop_1" "memop_2" 5 8 empty created
      gone (record { value = lamp; replayed = false }) refl
      (next here
        (removed "memop_1" "k3" 7 (record { value = deleted "memop_1"; replayed = false }) refl))

update_again_example :
    update_idempotent digest same_key "memop_1" (command "k2" "light.hall") 12 updated
    ≡ ok (record { value = later_lamp; replayed = true }, updated)
unfolding update_idempotent replay replay_or get_entry update_entry answer record_idempotency
update_again_example =
    update_again digest same_key "memop_1" (command "k2" "light.hall") 9 12 with_lamp updated
      updated (record { value = later_lamp; replayed = false }) refl here

reused_key_refused_example :
    create_idempotent digest same_key (command "k1" "light.hall") "memop_2" 8 created
    ≡ raise idempotency_conflict
unfolding create_idempotent replay replay_or insert_entry answer record_idempotency
reused_key_refused_example =
    reused_key_refused digest same_key (command "k1" "light.desk") (command "k1" "light.hall")
      "memop_1" "memop_2" 5 8 empty created created (record { value = lamp; replayed = false }) refl
      here refl
      (ground (arith, eq_iff "operational.createlight.desk" "operational.createlight.hall"))

create_then_get_example :
    Saves "memop_1" lamp empty
      (create_idempotent digest same_key (command "k1" "light.desk") "memop_1" 5 empty)
create_then_get_example =
    create_then_get digest same_key (command "k1" "light.desk") "memop_1" 5 empty refl refl refl

update_then_get_example :
    Saves "memop_1" later_lamp created
      (update_idempotent digest same_key "memop_1" (command "k2" "light.hall") 9 created)
update_then_get_example =
    update_then_get digest same_key "memop_1" (command "k2" "light.hall") 9 created lamp_row refl
      (refl, tt) refl refl

abbrev family_row : EntryRow String
family_row = record {
  entry = record {
    entry_id = "memop_3";
    scope = family_scope;
    owner_user_id = none;
    entry_type = alias_entry;
    key = "lamp";
    value = "light.kitchen";
    enabled = true;
    revision = 1;
    created_at = 1;
    updated_at = 1;
  };
  normalized_key = "lamp";
}

abbrev rows : List (EntryRow String)
rows = family_row ∷ lamp_row ∷ []

abbrev lookups : List OperationalLookup
lookups = record { entry_type = alias_entry; key = "lamp" } ∷ []

-- The user's own entry comes before the family's; nobody else sees it.
resolve_for_ada :
    (resolve same_key (some "ada") rows lookups).0.applied
    ≡ record { entry_id = "memop_1"; revision = 1 } ∷ []
unfolding resolve resolve_each settle first_group matches
resolve_for_ada = refl

resolve_for_bob :
    (resolve same_key (some "bob") rows lookups).0.applied
    ≡ record { entry_id = "memop_3"; revision = 1 } ∷ []
unfolding resolve resolve_each settle first_group matches
resolve_for_bob = refl

resolve-AllAllowed_example :
    AllAllowed (some "ada") rows lookups (resolve same_key (some "ada") rows lookups).0
resolve-AllAllowed_example = resolve-AllAllowed same_key (some "ada") rows lookups

abbrev every : EntryFilter
every = record { entry_type = none; scope = none; owner_user_id = none; enabled = some true }

abbrev listed : MemoryTables String
listed = record { entries = rows; results = [] }

two_enabled : count_entries every listed ≡ 2
unfolding count_entries list_entries
two_enabled = refl
