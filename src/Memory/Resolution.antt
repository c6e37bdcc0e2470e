-- ===== src/Memory/Resolution.antt =====
-- `OperationalContextService.resolve`: which entries apply for a request, the most specific scope first.
-- `dumps` is the sorted JSON text of a value, by which values are compared. The lookups' keys are normalised
-- and distinct when they come here (`OperationalResolutionRequest`).
use nyra.Base.{
  ℕ, String, Bool, true, false, ◌&&◌, Option, none, some, List, [], ◌∷◌, ◌++◌, ◌==◌, ltb, leb, map,
  any, filter, length, order_by, if◌then◌else◌,
}
use nyra.Capability.{CommonOutcome, success, ambiguous}
use nyra.Base.Mapping.{Mapping, get, put}
use nyra.Memory.{
  MemoryScope, user_scope, family_scope, system_scope, is_scope, OperationalEntryType, type_value,
  OperationalEntry, EntryRow,
}

pub record OperationalLookup : Type 0 where
  pub entry_type : OperationalEntryType
  pub key : String

pub record AppliedOperationalEntry : Type 0 where
  pub entry_id : String
  pub revision : ℕ

pub record OperationalConflict : Type 0 where
  pub entry_type : OperationalEntryType
  pub key : String
  pub scope : MemoryScope
  pub entry_ids : List String

-- The three lists that the loop fills
pub record Resolution (V : Type 0) : Type 0 where
  pub values : Mapping (Mapping V)
  pub applied : List AppliedOperationalEntry
  pub conflicts : List OperationalConflict

-- `owner_user_id = ?`, which is not true of a missing owner
abbrev pub is_owner : String → Option String → Bool
is_owner user none = false
is_owner user (some owner) = owner == user

-- The scope clause of the query
abbrev pub is_in_scope : Option String → MemoryScope → Option String → Bool
is_in_scope identity family_scope owner = true
is_in_scope identity system_scope owner = true
is_in_scope none user_scope owner = false
is_in_scope (some user) user_scope owner = is_owner user owner

-- `set(…)`, in order of first appearance
abbrev pub distinct : List String → List String
distinct [] = []
distinct (x ∷ xs) = let rest = distinct xs in if any (λ y. y == x) rest then rest else x ∷ rest

abbrev pub precedence : List MemoryScope
precedence = user_scope ∷ family_scope ∷ system_scope ∷ []

module _ {V : Type 0} where
  -- The `WHERE` of the query
  abbrev pub is_match : Option String → OperationalLookup → EntryRow V → Bool
  is_match identity lookup row =
      (type_value row.entry.entry_type == type_value lookup.entry_type)
      && (row.normalized_key == lookup.key)
      && row.entry.enabled
      && is_in_scope identity row.entry.scope row.entry.owner_user_id

  abbrev pub row_entry : EntryRow V → OperationalEntry V
  row_entry row = row.entry

  abbrev pub older : EntryRow V → EntryRow V → Bool
  older a b = leb a.entry.created_at b.entry.created_at

  -- The rows of the query
  unfoldable pub matches :
      Option String → OperationalLookup → List (EntryRow V) → List (OperationalEntry V)
  matches identity lookup rows =
      map row_entry (order_by older (filter (is_match identity lookup) rows))

  abbrev pub in_scope : MemoryScope → OperationalEntry V → Bool
  in_scope scope entry = is_scope entry.scope scope

  -- `candidates`: the loop over the scopes, left at the first that has an entry
  unfoldable pub first_group :
      List MemoryScope → List (OperationalEntry V) → List (OperationalEntry V)
  first_group [] entries = []
  first_group (scope ∷ scopes) entries = elim (filter (in_scope scope) entries) [
    | [] ↦ first_group scopes entries
    | entry ∷ more ↦ entry ∷ more
  ]

  abbrev pub has_several_values : (V → String) → List (OperationalEntry V) → Bool
  has_several_values dumps entries =
      ltb 1 (length (distinct (map (λ entry. dumps entry.value) entries)))

  -- `resolved.setdefault(type, {})[key] = value`
  abbrev pub set_value : String → String → V → Mapping (Mapping V) → Mapping (Mapping V)
  set_value type key value values = elim (get type values) [
    | none ↦ put type (put key value []) values
    | some inner ↦ put type (put key value inner) values
  ]

  abbrev pub apply_entry : OperationalLookup → OperationalEntry V → Resolution V → Resolution V
  apply_entry lookup chosen so_far = record {
    values = set_value (type_value lookup.entry_type) lookup.key chosen.value so_far.values;
    applied =
        so_far.applied ++ record { entry_id = chosen.entry_id; revision = chosen.revision } ∷ [];
    conflicts = so_far.conflicts;
  }

  abbrev pub add_conflict :
      OperationalLookup → MemoryScope → List (OperationalEntry V) → Resolution V → Resolution V
  add_conflict lookup scope candidates so_far = record {
    values = so_far.values;
    applied = so_far.applied;
    conflicts =
        so_far.conflicts
        ++ record {
          entry_type = lookup.entry_type;
          key = lookup.key;
          scope = scope;
          entry_ids = map (λ entry. entry.entry_id) candidates;
        }
          ∷ [];
  }

  -- What one lookup adds, given its candidates
  unfoldable pub settle :
      (V → String) → OperationalLookup → List (OperationalEntry V) → Resolution V → Resolution V
  settle dumps lookup [] so_far = so_far
  settle dumps lookup (chosen ∷ more) so_far =
      if has_several_values dumps (chosen ∷ more)
      then add_conflict lookup chosen.scope (chosen ∷ more) so_far
      else apply_entry lookup chosen so_far

  abbrev pub candidates_for :
      Option String → OperationalLookup → List (EntryRow V) → List (OperationalEntry V)
  candidates_for identity lookup rows = first_group precedence (matches identity lookup rows)

  -- The loop over the lookups
  unfoldable pub resolve_each :
      (V → String)
      → Option String
      → List (EntryRow V)
      → List OperationalLookup
      → Resolution V
      → Resolution V
  resolve_each dumps identity rows [] so_far = so_far
  resolve_each dumps identity rows (lookup ∷ lookups) so_far =
      resolve_each dumps identity rows lookups
        (settle dumps lookup (candidates_for identity lookup rows) so_far)

  -- `resolve`, the outcome being AMBIGUOUS where there are conflicts
  unfoldable pub resolve :
      (V → String)
      → Option String
      → List (EntryRow V)
      → List OperationalLookup
      → Resolution V × CommonOutcome
  resolve dumps identity rows lookups =
      let result =
        resolve_each dumps identity rows lookups
          (record { values = []; applied = []; conflicts = [] }) in
      (result, if ltb 0 (length result.conflicts) then ambiguous else success)
