-- ===== src/HomeAssistant/Resolve.antt =====
-- `HomeAssistantCapabilityPort.resolve`: the entities that a reference may mean. `casefold` is an argument.
use Prim.Native.Char.{code}
use Prim.Native.String.{◌++◌ as text_append}
use nyra.Base.{
  ℕ, ◌+◌, nat_eq, leb, ltb, length, String, Bool, true, false, ◌&&◌, ◌||◌, not, Option, none, some,
  is_some, List, [], ◌∷◌, ◌==◌, any, all, order_by, text_le, strip, is_empty, if◌then◌else◌, Result,
  ok, ◌>>=◌,
}
use nyra.Capability.{
  NyraResourceType, resource_type_value, light, switch, cover, climate, media_player, script, scene,
  automation,
}
use nyra.Plans.{ResolveStatus, resolved_one, resolve_ambiguous, resolve_not_found}
use nyra.HomeAssistant.{resource_domain, is_denied}

pub data ResolveCardinality : Type 0 where
  one_resource many_resources : ResolveCardinality

pub record ResourceReference : Type 0 where
  pub reference : String
  pub resource_type : Option NyraResourceType
  pub cardinality : ResolveCardinality

-- One of the states that Home Assistant lists: its entity and friendly name, where they are texts
pub record NativeEntity : Type 0 where
  pub entity_id : Option String
  pub friendly_name : Option String

pub record ResolveCandidate : Type 0 where
  pub resource_id : String
  pub resource_type : NyraResourceType
  pub name : Option String
  pub score : ℕ

-- A character of `[a-z0-9]`
abbrev pub is_token_char : ℕ → Bool
is_token_char c = (leb 97 c && leb c 122) || (leb 48 c && leb c 57)

-- The word that a text begins with, and the words after it
unfoldable pub words_of : String → String × List String
words_of String.[] = ("", [])
words_of (String.◌∷◌ c s) =
    let (word, words) = words_of s in
    if is_token_char (code c)
    then (String.◌∷◌ c word, words)
    else ("", if is_empty word then words else word ∷ words)

abbrev pub has_token : List String → String → Bool
has_token tokens x = any (λ t. t == x) tokens

-- A set from a list
abbrev pub distinct : List String → List String
distinct [] = []
distinct (x ∷ xs) = let rest = distinct xs in if has_token rest x then rest else x ∷ rest

-- `_tokens`
unfoldable pub tokens_of : (String → String) → String → List String
tokens_of casefold value =
    let (word, words) = words_of (casefold value) in
    distinct (if is_empty word then words else word ∷ words)

abbrev pub is_subset : List String → List String → Bool
is_subset xs ys = all (has_token ys) xs

-- What stands before the first dot: `none` where there is none
unfoldable pub domain_of : String → Option String
domain_of String.[] = none
domain_of (String.◌∷◌ c s) =
    let rest = domain_of s in
    if nat_eq (code c) 46
    then some ""
    else elim rest [ none ↦ none | some domain ↦ some (String.◌∷◌ c domain) ]

-- `.replace(".", " ").replace("_", " ")`
unfoldable pub spaced : String → String
spaced String.[] = String.[]
spaced (String.◌∷◌ c s) =
    let rest = spaced s in
    if nat_eq (code c) 46 || nat_eq (code c) 95 then text_append " " rest else String.◌∷◌ c rest

abbrev pub is_none : List String → Bool
is_none [] = true
is_none (x ∷ xs) = false

abbrev pub typed_as : NyraResourceType → String → Bool
typed_as type domain = resource_domain type == domain

abbrev pub first_type : List NyraResourceType → String → Option NyraResourceType
first_type [] domain = none
first_type (type ∷ types) domain =
    let rest = first_type types domain in if typed_as type domain then some type else rest

-- `_DOMAIN_RESOURCE.get`
abbrev pub resource_of_domain : String → Option NyraResourceType
resource_of_domain domain =
    first_type (light ∷ switch ∷ cover ∷ climate ∷ media_player ∷ script ∷ scene ∷ automation ∷ [])
      domain

abbrev pub or_empty_text : Option String → String
or_empty_text none = ""
or_empty_text (some s) = s

abbrev pub fits_type : Option NyraResourceType → NyraResourceType → Bool
fits_type none type = true
fits_type (some wanted) type = resource_type_value type == resource_type_value wanted

abbrev pub is_outside : Option (List String) → String → Bool
is_outside none id = false
is_outside (some ids) id = not (has_token ids id)

module _ (casefold : String → String) (reference : ResourceReference) where
  abbrev pub query_tokens : List String
  query_tokens = tokens_of casefold reference.reference

  abbrev pub is_one_word : Bool
  is_one_word = nat_eq (length query_tokens) 1

  -- `searchable`
  abbrev pub searchable : String → Option String → String
  searchable id name =
      if is_empty (or_empty_text name)
      then spaced id
      else text_append (spaced id) (text_append " " (or_empty_text name))

  abbrev pub searchable_tokens : String → Option String → List String
  searchable_tokens id name = tokens_of casefold (searchable id name)

  -- A query of no tokens, of one word in an area, or whose tokens are all there
  abbrev pub fits_query : Option (List String) → String → Option String → Bool
  fits_query area id name =
      is_none query_tokens
      || (is_some area && is_one_word)
      || is_subset query_tokens (searchable_tokens id name)

  abbrev pub is_exact : Option String → Bool
  is_exact none = false
  is_exact (some name) =
      is_subset (tokens_of casefold name) query_tokens
      && is_subset query_tokens (tokens_of casefold name)

  abbrev pub one_if : Bool → ℕ
  one_if true = 1
  one_if false = 0

  -- The share of the query's tokens that are found, and 1 for the very name. What fits the query has all of its tokens,
  -- or there is one token, or none: the share is 1 or 0.
  abbrev pub score_of : String → Option String → ℕ
  score_of id name =
      one_if (not (is_none query_tokens) && is_subset query_tokens (searchable_tokens id name))
      + one_if (is_exact name)

  -- Whether an entity of a known type is a candidate
  abbrev pub is_candidate :
      Option (List String) → Option (List String) → String → Option String → NyraResourceType → Bool
  is_candidate allowed area id name type =
      fits_type reference.resource_type type
      && not (is_denied allowed id)
      && not (is_outside area id)
      && fits_query area id name

  abbrev pub candidate_for : String → Option String → NyraResourceType → ResolveCandidate
  candidate_for id name type = record {
    resource_id = id;
    resource_type = type;
    name = name;
    score = score_of id name;
  }

  abbrev pub type_of_entity : String → Option NyraResourceType
  type_of_entity id = elim (domain_of id) [ none ↦ none | some domain ↦ resource_of_domain domain ]

  -- The loop over the states
  unfoldable pub candidates_of :
      Option (List String) → Option (List String) → List NativeEntity → List ResolveCandidate
  candidates_of allowed area [] = []
  candidates_of allowed area (native ∷ natives) =
      let rest = candidates_of allowed area natives in
      elim native.entity_id [
        | none ↦ rest
        | some id ↦ elim (type_of_entity id) [
          | none ↦ rest
          | some type ↦
              if is_candidate allowed area id native.friendly_name type
              then candidate_for id native.friendly_name type ∷ rest
              else rest
        ]
      ]

  -- `(-score, name or "", resource_id)`
  abbrev pub ranks_candidate : ResolveCandidate → ResolveCandidate → Bool
  ranks_candidate a b =
      ltb b.score a.score
      || (nat_eq a.score b.score
          && (if or_empty_text a.name == or_empty_text b.name
              then text_le a.resource_id b.resource_id
              else text_le (or_empty_text a.name) (or_empty_text b.name)))

  abbrev pub status_of : List ResolveCandidate → ResolveStatus
  status_of [] = resolve_not_found
  status_of (c ∷ []) = resolved_one
  status_of (c ∷ d ∷ more) = elim reference.cardinality [
    | many_resources ↦ resolved_one
    | one_resource ↦ resolve_ambiguous
  ]

  -- The area that is asked for, where the query is one word of a type
  abbrev pub wanted_area : Option String → Option String
  wanted_area none = none
  wanted_area (some area) =
      if not (is_empty (strip area)) && is_some reference.resource_type && is_one_word
      then some (strip area)
      else none

  abbrev pub area_ids_of :
      (String → Result String (List String)) → Option String → Result String (Option (List String))
  area_ids_of area_entities none = ok none
  area_ids_of area_entities (some area) = area_entities area >>= λ ids. ok (some ids)

  -- `resolve`, with what Home Assistant answers for the states and for an area
  unfoldable pub resolve_reference :
      Result String (List NativeEntity)
      → (String → Result String (List String))
      → Option (List String)
      → Option String
      → Result String (ResolveStatus × List ResolveCandidate)
  resolve_reference states area_entities allowed area = states >>= λ natives.
      area_ids_of area_entities (wanted_area area) >>= λ ids. ok (
        status_of (order_by ranks_candidate (candidates_of allowed ids natives)),
        order_by ranks_candidate (candidates_of allowed ids natives),
      )
