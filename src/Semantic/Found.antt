-- ===== src/Semantic/Found.antt =====
-- What a search hands back.
use nyra.Base.{
  ℕ, zero, suc, ◌≤◌, ◌≡◌, refl, ap, ◌∙◌, ◌⊎◌, inl, inr, String, true, false, some, List, [], ◌∷◌,
  All, any, filter, length, eq_iff, Occurs, any-Occurs, List-cases, Option-cases, order_by,
  All-order_by, arith, ok, >>=-eq-ok, ok-injective, Bool-cases, Result-cases,
}
use mathlib.Core.Path.{subst}
use nyra.Memory.{MemoryScope, user_scope}
use nyra.Memory.Listing.{take}
use nyra.Semantic.{
  SemanticMemoryType, fact, preference, note, relation, active_memory, SemanticMemory,
  EmbeddingVector, SemanticRow, SemanticTables, SemanticError,
}
use nyra.Semantic.Commands.{or_raise}
use nyra.Semantic.Search.{
  SemanticSearchRequest, SemanticSearchItem, Scoring, is_in, is_type, is_searched, is_comparable,
  item_of, rank_rows, ranks_before, search_memories,
}

length-take {ℓ} : {A : Type ℓ} (n : ℕ) (xs : List A) → length (take n xs) ≤ n
length-take zero xs = omega arith
length-take (suc n) [] = omega arith
length-take (suc n) (x ∷ xs) = let rest = length-take n xs in omega arith

All-take {ℓ κ} : {A : Type ℓ} (P : A → Type κ) (n : ℕ) (xs : List A) → All P xs → All P (take n xs)
All-take P zero xs h = tt
All-take P (suc n) [] h = tt
All-take P (suc n) (x ∷ xs) (first, h) = (first, All-take P n xs h)

module _ {F : Type 0} where
  -- Some row has this memory.
  abbrev pub Holds : SemanticMemory → List (SemanticRow F) → Type 0
  Holds m [] = ⊥
  Holds m (row ∷ rows) = (row.memory ≡ m) ⊎ Holds m rows

  module _ (scoring : Scoring F) (request : SemanticSearchRequest F) where
    -- What a search may find: a memory that is ACTIVE, in one of the scopes, of one of the types where some are named, and
    -- of the owner of the search where it is a user's
    pub record IsFound (m : SemanticMemory) : Type 0 where
      pub active : m.state ≡ active_memory
      pub scoped : Occurs m.scope request.scopes
      pub owned :
          m.scope ≡ user_scope
          → (user : String) × (request.owner_user_id ≡ some user) × (m.owner_user_id ≡ some user)
      pub typed : (request.memory_types ≡ []) ⊎ Occurs m.memory_type request.memory_types

    -- The memory stands in a row and may be found, and its score reaches the minimum.
    pub record IsHit (rows : List (SemanticRow F)) (item : SemanticSearchItem F) : Type 0 where
      pub stands : Holds item.memory rows
      pub searched : IsFound item.memory
      pub similar : scoring.is_below item.score request.minimum_similarity ≡ false

    is_in-scope :
        (m : SemanticMemory) (scope : MemoryScope) → is_in request m scope ≡ true → scope ≡ m.scope
    is_in-scope m scope h = ground arith

    is_in-owner :
        (m : SemanticMemory)
        → is_in request m user_scope ≡ true
        → (user : String) × (request.owner_user_id ≡ some user) × (m.owner_user_id ≡ some user)
    is_in-owner m h = elim (Option-cases request.owner_user_id) [
      | inl e ↦ absurd (ground arith)
      | inr (user, e) ↦ elim (Option-cases m.owner_user_id) [
        | inl f ↦ absurd (ground arith)
        | inr (owner, f) ↦
            let same : owner ≡ user = ground (arith, eq_iff owner user) in
            (user, e, f ∙ ap some same)
      ]
    ]

    is_type-eq : (a b : SemanticMemoryType) → is_type a b ≡ true → b ≡ a
    is_type-eq fact fact h = refl
    is_type-eq preference preference h = refl
    is_type-eq note note h = refl
    is_type-eq relation relation h = refl
    is_type-eq _ _ h = absurd (ground arith)

    is_searched-types :
        (m : SemanticMemory)
        → is_searched request m ≡ true
        → (request.memory_types ≡ []) ⊎ Occurs m.memory_type request.memory_types
    is_searched-types m h = elim (List-cases request.memory_types) [
      | inl e ↦ inl e
      | inr (type, types, e) ↦
          let some_type : any (is_type m.memory_type) request.memory_types ≡ true = ground arith in
          let (found, occurs, same) = any-Occurs (is_type m.memory_type) _ some_type in
          inr (
            subst (λ t. Occurs t request.memory_types) (is_type-eq m.memory_type found same) occurs)
    ]

    is_searched-IsFound : (m : SemanticMemory) → is_searched request m ≡ true → IsFound m
    is_searched-IsFound m h =
        let (scope, occurs, is_in_it) =
          any-Occurs (is_in request m) request.scopes (ground arith) in
        let same = is_in-scope m scope is_in_it in
        record {
          active = ground arith;
          scoped = subst (λ x. Occurs x request.scopes) same occurs;
          owned = λ u. is_in-owner m (subst (λ x. is_in request m x ≡ true) (same ∙ u) is_in_it);
          typed = is_searched-types m h;
        }

    later-IsHit :
        (row : SemanticRow F) (rows : List (SemanticRow F)) (items : List (SemanticSearchItem F))
        → All (IsHit rows) items
        → All (IsHit (row ∷ rows)) items
    later-IsHit row rows [] h = tt
    later-IsHit row rows (item ∷ items) (first, h) = (
      record { stands = inr first.stands; searched = first.searched; similar = first.similar },
      later-IsHit row rows items h,
    )

    abbrev kept_rows : List (SemanticRow F) → List (SemanticRow F)
    kept_rows rows = filter (λ row. is_searched request row.memory) rows

    rank_rows-IsHit :
        (query : EmbeddingVector F) (rows : List (SemanticRow F))
        (items : List (SemanticSearchItem F))
        → rank_rows scoring request query (kept_rows rows) ≡ ok items
        → All (IsHit rows) items
    unfolding rank_rows
    rank_rows-IsHit query [] items e =
        let same : [] ≡ items = ok-injective {E = SemanticError} [] items e in rw (← same) tt
    rank_rows-IsHit query (row ∷ rows) items e =
        elim (Bool-cases (is_searched request row.memory)) [
          | inr f ↦ later-IsHit row rows items (rank_rows-IsHit query rows items (ground arith))
          | inl f ↦ elim (Bool-cases (is_comparable scoring request query row)) [
            | inr g ↦ ground arith
            | inl g ↦ elim (Result-cases (rank_rows scoring request query (kept_rows rows))) [
              | inl (error, i) ↦ ground arith
              | inr (rest, i) ↦
                  let hits = later-IsHit row rows rest (rank_rows-IsHit query rows rest i) in
                  elim (Bool-cases (
                    scoring.is_below (item_of scoring request query row).score
                      request.minimum_similarity)) [
                        | inl j ↦ let same : rest ≡ items = ground arith in rw (← same) hits
                        | inr j ↦
                            let same : item_of scoring request query row ∷ rest ≡ items =
                              ground arith in
                            rw (← same) (
                              record {
                                stands = inl refl;
                                searched = is_searched-IsFound row.memory f;
                                similar = j;
                              },
                              hits,
                            )
                      ]
            ]
          ]
        ]

  -- A search hands back at most as many items as its limit. Each stands in the table, is ACTIVE, is in one of the scopes
  -- that are searched and of one of the types that are asked for, is of the owner that searches where it is a user's, and
  -- is not below the minimum similarity.
  pub search_memories-bounded :
      (scoring : Scoring F) (request : SemanticSearchRequest F) (tables : SemanticTables F)
      (items : List (SemanticSearchItem F))
      → search_memories scoring request tables ≡ ok items
      → (length items ≤ request.limit) × All (IsHit scoring request tables.memories) items
  unfolding search_memories
  search_memories-bounded scoring request tables items e =
      let (query, f, g) = >>=-eq-ok (or_raise (scoring.embed_query request.query) _) _ e in
      let (ranked, i, j) = >>=-eq-ok (rank_rows scoring request query _) _ g in
      let same : take request.limit (order_by (ranks_before scoring request) ranked) ≡ items =
        ok-injective {E = SemanticError} _ items j in
      let hits = rank_rows-IsHit scoring request query tables.memories ranked i in
      rw (← same) (
        length-take request.limit (order_by (ranks_before scoring request) ranked),
        All-take _ request.limit _ (All-order_by (ranks_before scoring request) _ ranked hits),
      )
