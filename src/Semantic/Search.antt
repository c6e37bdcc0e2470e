-- ===== src/Semantic/Search.antt =====
-- `search` and `list_memories` of `SemanticMemoryService`. The scores are computed in floating point: what is done with
-- them is an argument. A limit and an offset are naturals, since the callers pass no negative ones.
use nyra.Base.{
  ℕ, leb, nat_eq, String, Bool, true, false, ◌&&◌, ◌||◌, not, Option, none, some, List, [], ◌∷◌,
  ◌==◌, any, filter, map, length, order_by, text_le, if◌then◌else◌, Result, ok, raise, ◌>>=◌,
}
use nyra.Memory.{MemoryScope, user_scope, family_scope, system_scope, is_scope}
use nyra.Memory.Resolution.{is_owner}
use nyra.Memory.Listing.{take, drop, given}
use nyra.Semantic.{
  SemanticMemoryType, fact, preference, note, relation, SemanticMemoryState, active_memory,
  superseded_memory, deleted_memory, is_active_memory, SemanticMemory, SemanticMemoryTombstone,
  EmbeddingVector, SemanticRow, SemanticTables, SemanticError, embedding_failed, model_mismatch,
  Entry, kept, buried,
}
use nyra.Semantic.Commands.{created_first, or_raise}

pub record SemanticSearchRequest (F : Type 0) : Type 0 where
  pub query : String
  pub scopes : List MemoryScope
  pub owner_user_id : Option String
  pub memory_types : List SemanticMemoryType
  pub limit : ℕ
  pub minimum_similarity : F

pub record SemanticSearchItem (F : Type 0) : Type 0 where
  pub memory : SemanticMemory
  pub score : F

-- The query's embedding, normalised; the score of two vectors of one length, put between 0 and 1; whether a score is
-- below another
pub record Scoring (F : Type 0) : Type 0 where
  pub embed_query : String → Option (EmbeddingVector F)
  pub score : List F → List F → F
  pub is_below : F → F → Bool

abbrev pub memory_type_value : SemanticMemoryType → String
memory_type_value fact = "FACT"
memory_type_value preference = "PREFERENCE"
memory_type_value note = "NOTE"
memory_type_value relation = "RELATION"

abbrev pub is_type : SemanticMemoryType → SemanticMemoryType → Bool
is_type a b = memory_type_value a == memory_type_value b

-- `owner_user_id = ?`: a comparison with NULL does not hold
abbrev pub equals_owner : Option String → Option String → Bool
equals_owner none owner = false
equals_owner (some wanted) owner = is_owner wanted owner

module _ {F : Type 0} where
  -- The clause of a scope
  abbrev pub is_in : SemanticSearchRequest F → SemanticMemory → MemoryScope → Bool
  is_in request m user_scope =
      is_scope m.scope user_scope && equals_owner request.owner_user_id m.owner_user_id
  is_in request m family_scope = is_scope m.scope family_scope
  is_in request m system_scope = is_scope m.scope system_scope

  -- The `WHERE` of the search
  abbrev pub is_searched : SemanticSearchRequest F → SemanticMemory → Bool
  is_searched request m =
      is_active_memory m.state
      && any (is_in request m) request.scopes
      && (elim request.memory_types [
        | [] ↦ true
        | type ∷ types ↦ any (is_type m.memory_type) (type ∷ types)
      ])

  module _ (scoring : Scoring F) (request : SemanticSearchRequest F) where
    -- Whether the row's embedding can be compared with the query's
    abbrev pub is_comparable : EmbeddingVector F → SemanticRow F → Bool
    is_comparable query row =
        (row.memory.embedding_provider == query.provider)
        && (row.memory.embedding_model == query.model)
        && nat_eq (length row.embedding) (length query.values)

    abbrev pub item_of : EmbeddingVector F → SemanticRow F → SemanticSearchItem F
    item_of query row = record {
      memory = row.memory;
      score = scoring.score row.embedding query.values;
    }

    -- The loop over the rows
    unfoldable pub rank_rows :
        EmbeddingVector F
        → List (SemanticRow F)
        → Result SemanticError (List (SemanticSearchItem F))
    rank_rows query [] = ok []
    rank_rows query (row ∷ rows) = elim (is_comparable query row) [
      | false ↦ raise model_mismatch
      | true ↦ rank_rows query rows >>= λ rest. ok (
          if scoring.is_below (item_of query row).score request.minimum_similarity
          then rest
          else item_of query row ∷ rest)
    ]

    -- `(-item.score, item.memory_id)`
    abbrev pub ranks_before : SemanticSearchItem F → SemanticSearchItem F → Bool
    ranks_before a b =
        scoring.is_below b.score a.score
        || (not (scoring.is_below a.score b.score) && text_le a.memory.memory_id b.memory.memory_id)

    unfoldable pub search_memories :
        SemanticTables F → Result SemanticError (List (SemanticSearchItem F))
    search_memories tables =
        or_raise (scoring.embed_query request.query) embedding_failed >>= λ query.
        rank_rows query (filter (λ row. is_searched request row.memory) tables.memories)
        >>= λ ranked. ok (take request.limit (order_by ranks_before ranked))

-- The arguments that narrow a listing, each where it is given
pub record SemanticFilter : Type 0 where
  pub scope : Option MemoryScope
  pub owner_user_id : Option String
  pub memory_type : Option SemanticMemoryType
  pub state : Option SemanticMemoryState

abbrev pub state_value : SemanticMemoryState → String
state_value active_memory = "ACTIVE"
state_value superseded_memory = "SUPERSEDED"
state_value deleted_memory = "DELETED"

abbrev pub is_listed : SemanticFilter → SemanticMemory → Bool
is_listed f m =
    given (λ scope. is_scope m.scope scope) f.scope
    && given (λ owner. is_owner owner m.owner_user_id) f.owner_user_id
    && given (λ type. is_type m.memory_type type) f.memory_type
    && given (λ state. state_value m.state == state_value state) f.state

abbrev pub wants_deleted : Option SemanticMemoryState → Bool
wants_deleted (some deleted_memory) = true
wants_deleted _ = false

pub record SemanticMemoryPage : Type 0 where
  pub items : List Entry
  pub total : ℕ
  pub limit : ℕ
  pub offset : ℕ

abbrev pub deleted_first : SemanticMemoryTombstone → SemanticMemoryTombstone → Bool
deleted_first a b = leb a.deleted_at b.deleted_at

abbrev pub page_of : List Entry → ℕ → ℕ → SemanticMemoryPage
page_of entries limit offset = record {
  items = take limit (drop offset entries);
  total = length entries;
  limit = limit;
  offset = offset;
}

module _ {F : Type 0} where
  -- All that a listing is a page of, in order
  unfoldable pub listed_entries : SemanticFilter → SemanticTables F → List Entry
  listed_entries f tables =
      if wants_deleted f.state
      then map buried (order_by deleted_first tables.tombstones)
      else map (λ row. kept row.memory)
          (order_by created_first (filter (λ row. is_listed f row.memory) tables.memories))

  unfoldable pub list_memories : SemanticFilter → ℕ → ℕ → SemanticTables F → SemanticMemoryPage
  list_memories f limit offset tables = page_of (listed_entries f tables) limit offset
