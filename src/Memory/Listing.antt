-- ===== src/Memory/Listing.antt =====
-- `list_entries` and `count_entries` of `OperationalContextService`. A limit and an offset are naturals: the callers
-- pass no negative ones, which SQLite would read as no limit.
use nyra.Base.{
  ℕ, zero, suc, String, Bool, true, false, ◌&&◌, Option, none, some, List, [], ◌∷◌, ◌==◌, length,
  filter, order_by, map,
}
use nyra.Memory.{
  MemoryScope, is_scope, OperationalEntryType, type_value, OperationalEntry, EntryRow, MemoryTables,
}
use nyra.Memory.Resolution.{is_owner, row_entry, older}

-- The arguments that narrow the listing, each where it is given
pub record EntryFilter : Type 0 where
  pub entry_type : Option OperationalEntryType
  pub scope : Option MemoryScope
  pub owner_user_id : Option String
  pub enabled : Option Bool

abbrev pub same_bool : Bool → Bool → Bool
same_bool true b = b
same_bool false true = false
same_bool false false = true

abbrev pub given {ℓ} : {A : Type ℓ} → (A → Bool) → Option A → Bool
given test none = true
given test (some a) = test a

-- `LIMIT … OFFSET …`
abbrev pub take {ℓ} : {A : Type ℓ} → ℕ → List A → List A
take zero xs = []
take (suc n) [] = []
take (suc n) (x ∷ xs) = x ∷ take n xs

abbrev pub drop {ℓ} : {A : Type ℓ} → ℕ → List A → List A
drop zero xs = xs
drop (suc n) [] = []
drop (suc n) (x ∷ xs) = drop n xs

module _ {V : Type 0} where
  abbrev pub passes : EntryFilter → EntryRow V → Bool
  passes f row =
      given (λ type. type_value row.entry.entry_type == type_value type) f.entry_type
      && given (λ scope. is_scope row.entry.scope scope) f.scope
      && given (λ owner. is_owner owner row.entry.owner_user_id) f.owner_user_id
      && given (λ enabled. same_bool enabled row.entry.enabled) f.enabled

  unfoldable pub list_entries : EntryFilter → ℕ → ℕ → MemoryTables V → List (OperationalEntry V)
  list_entries f limit offset tables =
      map row_entry (take limit (drop offset (order_by older (filter (passes f) tables.entries))))

  -- `count_entries`: the length of a listing with the greatest limit of SQLite's integers here
  unfoldable pub count_entries : EntryFilter → MemoryTables V → ℕ
  unfolding list_entries
  count_entries f tables = length (list_entries f 2147483647 0 tables)
