-- ===== src/Semantic/Tests.antt =====
-- Runs at concrete inputs, and the witnesses of the properties. Numbers stand for those of an embedding.
use nyra.Base.{
  ℕ, ◌≡◌, refl, ◌≢◌, ◌≤◌, ltb, String, true, false, none, some, [], ◌∷◌, ◌==◌, All, length, arith,
  ok, raise, eq_iff,
}
use nyra.Table.{find}
use nyra.Memory.{user_scope, family_scope}
use nyra.Memory.Operational.{replay}
use nyra.Semantic.{
  SemanticPayload, fact, user_explicit, SemanticMemoryTombstone, admitted_new, SemanticRow,
  SemanticTables, database_locked, mutation_answer, tombstone_answer, buried, get_memory,
  memory_key,
}
use nyra.Semantic.Commands.{
  Tools, SemanticMemoryCreate, create_semantic, active_duplicate, create_or_confirm, create_new,
  insert_unless, confirm_found, confirm_duplicate, insert_memory, answer_mutation, record_answer,
  new_row, create_name,
}
use nyra.Semantic.Changes.{delete_memory, delete_or_replay, bury, delete_name}
use nyra.Semantic.Search.{
  SemanticSearchRequest, SemanticSearchItem, Scoring, search_memories, rank_rows,
}
use nyra.Semantic.Found.{IsHit, search_memories-bounded}
use nyra.Semantic.Stays.{Step, Reach, deleted_stays}

abbrev tools : Tools ℕ
tools = record {
  digest = λ operation payload. operation;
  normalize_content = λ content. content;
  content_hash = λ payload content. content;
  embed = λ content. some (record { values = 1 ∷ []; provider = "local"; model = "small" });
  stored_values = λ vector. some vector.values;
}

abbrev likes : String → SemanticPayload
likes content = record {
  scope = user_scope;
  owner_user_id = some "ada";
  memory_type = fact;
  content = content;
  source = user_explicit;
}

abbrev likes_row : String → String → ℕ → SemanticRow ℕ
likes_row content id now =
    new_row tools (likes content) none id now
      (record { values = 1 ∷ []; provider = "local"; model = "small" }) (1 ∷ [])

abbrev command : String → String → SemanticMemoryCreate
command content key = record { payload = likes content; idempotency_key = key }

abbrev empty : SemanticTables ℕ
empty = record { memories = []; tombstones = []; results = [] }

abbrev with_tea : SemanticTables ℕ
with_tea = record {
  memories = likes_row "tea" "m1" 5 ∷ [];
  tombstones = [];
  results =
      record {
        idempotency_key = "k1";
        operation = create_name;
        request_hash = create_name;
        response =
            mutation_answer
              (record { admission = admitted_new; memory = (likes_row "tea" "m1" 5).memory });
        created_at = 5;
      }
      ∷ [];
}

tea_created :
    create_semantic tools (command "tea" "k1") "m1" 5 empty empty
    ≡ ok (
      record {
        value = record { admission = admitted_new; memory = (likes_row "tea" "m1" 5).memory };
        replayed = false;
      },
      with_tea,
    )
unfolding create_semantic replay active_duplicate create_or_confirm create_new insert_unless
    insert_memory answer_mutation record_answer
tea_created = refl

-- A duplicate that was read and is gone when the transaction begins
tea_locked :
    create_semantic tools (command "tea" "k2") "m2" 6 with_tea empty ≡ raise database_locked
unfolding create_semantic replay active_duplicate create_or_confirm confirm_duplicate confirm_found
tea_locked = refl

abbrev tombstone : SemanticMemoryTombstone
tombstone = record { memory_id = "m1"; deleted_at = 9; deletion_trace_id = "t1" }

abbrev tea_buried : SemanticTables ℕ
tea_buried = record {
  memories = [];
  tombstones = tombstone ∷ [];
  results =
      record {
        idempotency_key = "k1";
        operation = create_name;
        request_hash = create_name;
        response =
            mutation_answer
              (record { admission = admitted_new; memory = (likes_row "tea" "m1" 5).memory });
        created_at = 5;
      }
      ∷ record {
        idempotency_key = "k3";
        operation = delete_name "m1";
        request_hash = delete_name "m1";
        response = tombstone_answer tombstone;
        created_at = 9;
      }
      ∷ [];
}

tea_deleted :
    delete_memory tools "m1" "k3" "t1" 9 with_tea
    ≡ ok (record { value = tombstone; replayed = false }, tea_buried)
unfolding delete_memory delete_or_replay replay bury record_answer
tea_deleted = refl

-- The first command is sent again: it is answered as it was, and brings no row back.
tea_replayed :
    create_semantic tools (command "tea" "k1") "m4" 12 tea_buried tea_buried
    ≡ ok (
      record {
        value = record { admission = admitted_new; memory = (likes_row "tea" "m1" 5).memory };
        replayed = true;
      },
      tea_buried,
    )
unfolding create_semantic replay
tea_replayed = refl

other_id : ◌≢◌ {A = String} "m4" "m1"
other_id h = let same : ("m4" == "m1") ≡ true = (eq_iff "m4" "m1").1 h in absurd (ground arith)

deleted_stays_example :
    (get_memory "m1" tea_buried ≡ ok (buried tombstone))
    × (find memory_key "m1" tea_buried.memories ≡ none)
deleted_stays_example =
    deleted_stays tools "m1" "k3" "t1" 9 with_tea tea_buried tea_buried tombstone tea_deleted (
      Reach.next Reach.here
        (Step.created (command "tea" "k1") "m4" 12 tea_buried _ other_id tea_replayed))

abbrev scoring : Scoring ℕ
scoring = record {
  embed_query = λ query. some (record { values = 1 ∷ []; provider = "local"; model = "small" });
  score = λ xs ys. 1;
  is_below = ltb;
}

abbrev request : SemanticSearchRequest ℕ
request = record {
  query = "drinks";
  scopes = user_scope ∷ family_scope ∷ [];
  owner_user_id = some "ada";
  memory_types = [];
  limit = 1;
  minimum_similarity = 1;
}

abbrev tea_item : SemanticSearchItem ℕ
tea_item = record { memory = (likes_row "tea" "m1" 5).memory; score = 1 }

tea_found : search_memories scoring request with_tea ≡ ok (tea_item ∷ [])
unfolding search_memories rank_rows
tea_found = refl

search_memories-bounded_example :
    (length (tea_item ∷ []) ≤ 1) × All (IsHit scoring request with_tea.memories) (tea_item ∷ [])
search_memories-bounded_example =
    search_memories-bounded scoring request with_tea (tea_item ∷ []) tea_found
