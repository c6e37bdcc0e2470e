-- ===== src/Memory/Candidates.antt =====
-- What the query of a lookup finds and the loop over the scopes leaves of it.
use mathlib.Core.Path.{subst}
use nyra.Base.{
  sym, ◌∙◌, order_by, ◌⊎◌, ◌≡◌, refl, inl, inr, String, Bool, true, false, ◌&&◌, not, Option, List,
  [], ◌∷◌, ◌==◌, any, any-filter, any-order_by, filter, map, arith,
}
use nyra.Memory.{MemoryScope, user_scope, family_scope, system_scope, OperationalEntry, EntryRow}
use nyra.Memory.Resolution.{
  OperationalLookup, is_in_scope, is_match, row_entry, older, matches, in_scope, first_group,
  precedence,
}

any_weaken {ℓ} :
    {A : Type ℓ} (p q : A → Bool) (xs : List A)
    → ((x : A) → p x ≡ true → q x ≡ true)
    → any p xs ≡ true
    → any q xs ≡ true
any_weaken p q [] f h = h
any_weaken p q (x ∷ xs) f h = ground (arith, f x, any_weaken p q xs f)

filter-any_none {ℓ} :
    {A : Type ℓ} (p : A → Bool) (xs : List A) → filter p xs ≡ [] → any p xs ≡ false
filter-any_none p [] h = refl
filter-any_none p (x ∷ xs) h = ground (arith, filter-any_none p xs)

filter-any_some {ℓ} :
    {A : Type ℓ} (p : A → Bool) (xs ys : List A) (y : A) → filter p xs ≡ y ∷ ys → any p xs ≡ true
filter-any_some p [] ys y h = ground arith
filter-any_some p (x ∷ xs) ys y h = ground (arith, filter-any_some p xs ys y)

from_none : (b : Bool) → false ≡ true → b ≡ true
from_none b h = ground arith

module _ {V : Type 0} where
  abbrev pub is_entry : String → OperationalEntry V → Bool
  is_entry id entry = entry.entry_id == id

  -- No entry of the list is of a scope that comes before this one.
  abbrev pub is_most_specific : List (OperationalEntry V) → MemoryScope → Bool
  is_most_specific entries user_scope = true
  is_most_specific entries family_scope = not (any (in_scope user_scope) entries)
  is_most_specific entries system_scope =
      not (any (in_scope user_scope) entries) && not (any (in_scope family_scope) entries)

  -- The entry stands in an enabled row that the family, the system or the identified user owns.
  abbrev pub is_visible : Option String → String → EntryRow V → Bool
  is_visible identity id row =
      is_entry id row.entry
      && row.entry.enabled
      && is_in_scope identity row.entry.scope row.entry.owner_user_id

  any-map-row_entry :
      (p : OperationalEntry V → Bool) (rows : List (EntryRow V))
      → any p (map row_entry rows) ≡ any (λ row. p row.entry) rows
  any-map-row_entry p [] = refl
  any-map-row_entry p (row ∷ rows) = ground (arith, any-map-row_entry p rows)

  pub matches-visible :
      (identity : Option String) (lookup : OperationalLookup) (rows : List (EntryRow V))
      (id : String)
      → any (is_entry id) (matches identity lookup rows) ≡ true
      → any (is_visible identity id) rows ≡ true
  unfolding matches
  matches-visible identity lookup rows id h =
      any_weaken (λ row. is_entry id row.entry && is_match identity lookup row)
        (is_visible identity id) rows (λ row. ground arith)
        (sym (any-filter (λ row. is_entry id row.entry) (is_match identity lookup) rows)
          ∙ sym (
              any-order_by older (λ row. is_entry id row.entry)
                (filter (is_match identity lookup) rows))
          ∙ sym (
              any-map-row_entry (is_entry id)
                (order_by older (filter (is_match identity lookup) rows)))
          ∙ h)

  first_group-cases :
      (scope : MemoryScope) (scopes : List MemoryScope) (entries : List (OperationalEntry V))
      (found : List (OperationalEntry V))
      → filter (in_scope scope) entries ≡ found
      → ((any (in_scope scope) entries ≡ true)
          × (first_group (scope ∷ scopes) entries ≡ filter (in_scope scope) entries))
        ⊎ ((any (in_scope scope) entries ≡ false)
            × (first_group (scope ∷ scopes) entries ≡ first_group scopes entries))
  unfolding first_group
  first_group-cases scope scopes entries [] h =
      inr (filter-any_none (in_scope scope) entries h, rw (h, first_group) refl)
  first_group-cases scope scopes entries (x ∷ xs) h =
      inl (filter-any_some (in_scope scope) entries xs x h, rw (h, first_group) refl)

  -- The entries of one scope, where none is more specific than it
  group-best :
      (entries : List (OperationalEntry V)) (id : String) (scope : MemoryScope)
      → is_most_specific entries scope ≡ true
      → any (is_entry id) (filter (in_scope scope) entries) ≡ true
      → any (λ entry. is_entry id entry && is_most_specific entries entry.scope) entries ≡ true
  group-best entries id scope first h =
      any_weaken (λ entry. is_entry id entry && in_scope scope entry)
        (λ entry. is_entry id entry && is_most_specific entries entry.scope) entries
        (λ entry. ground arith) (sym (any-filter (is_entry id) (in_scope scope) entries) ∙ h)

  pub first_group-best :
      (entries : List (OperationalEntry V)) (id : String)
      → any (is_entry id) (first_group precedence entries) ≡ true
      → any (λ entry. is_entry id entry && is_most_specific entries entry.scope) entries ≡ true
  unfolding first_group
  first_group-best entries id h =
      elim (first_group-cases user_scope (family_scope ∷ system_scope ∷ []) entries _ refl) [
        | inl (u, e) ↦ group-best entries id user_scope refl (rw (sym e) h)
        | inr (u, e) ↦ elim (first_group-cases family_scope (system_scope ∷ []) entries _ refl) [
          | inl (f, g) ↦
              group-best entries id family_scope (ground arith) (rw (sym g) (rw (sym e) h))
          | inr (f, g) ↦ elim (first_group-cases system_scope [] entries _ refl) [
            | inl (y, i) ↦
                group-best entries id system_scope (ground arith)
                  (rw (sym i) (rw (sym g) (rw (sym e) h)))
            | inr (y, i) ↦
                from_none _
                  (subst (λ xs. any (is_entry id) xs ≡ true) i (rw (sym g) (rw (sym e) h)))
          ]
        ]
      ]

  pub group_in :
      (entries : List (OperationalEntry V)) (id : String)
      → any (is_entry id) (first_group precedence entries) ≡ true
      → any (is_entry id) entries ≡ true
  group_in entries id h =
      any_weaken (λ entry. is_entry id entry && is_most_specific entries entry.scope) (is_entry id)
        entries (λ entry. ground arith) (first_group-best entries id h)
