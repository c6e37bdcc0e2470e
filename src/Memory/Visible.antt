-- ===== src/Memory/Visible.antt =====
-- Whose entries a resolution uses.
use nyra.Base.{
  ◌≡◌, refl, ap, inl, inr, eq_iff, Occurs, any-Occurs, String, Bool, true, ◌&&◌, Option, none, some,
  List, [], ◌∷◌, ◌++◌, any, All, map, arith, eq_self, Bool-cases,
}
use mathlib.Core.Path.{subst}
use nyra.Memory.{user_scope, OperationalEntry, EntryRow}
use nyra.Memory.Resolution.{
  is_in_scope, OperationalLookup, Resolution, matches, has_several_values, candidates_for, settle,
  resolve_each, resolve,
}
use nyra.Memory.Candidates.{
  is_entry, is_most_specific, is_visible, matches-visible, first_group-best, group_in,
}

All-append {ℓ κ} :
    {A : Type ℓ} (P : A → Type κ) (xs ys : List A) → All P xs → All P ys → All P (xs ++ ys)
All-append P [] ys h k = k
All-append P (x ∷ xs) ys h k = (h.0, All-append P xs ys h.1 k)

is_in_scope-owned :
    (identity owner : Option String)
    → is_in_scope identity user_scope owner ≡ true
    → (user : String) × (identity ≡ some user) × (owner ≡ some user)
is_in_scope-owned none owner h = absurd (ground arith)
is_in_scope-owned (some user) none h = absurd (ground arith)
is_in_scope-owned (some user) (some name) h = (user, refl, ap some ((eq_iff name user).0 h))

module _ {V : Type 0} where
  -- The entry is one of the rows' that the query of the lookup finds, and none of those is more specific.
  abbrev is_best : Option String → List (EntryRow V) → String → OperationalLookup → Bool
  is_best identity rows id lookup =
      any
        (λ entry. is_entry id entry && is_most_specific (matches identity lookup rows) entry.scope)
        (matches identity lookup rows)

  -- An enabled row with this identifier, which is the family's, the system's or of the user who is identified
  pub record IsShown (identity : Option String) (rows : List (EntryRow V)) (id : String)
      : Type 0 where
    pub row : EntryRow V
    pub stands : Occurs row rows
    pub named : row.entry.entry_id ≡ id
    pub enabled : row.entry.enabled ≡ true
    pub owned :
        row.entry.scope ≡ user_scope
        → (user : String) × (identity ≡ some user) × (row.entry.owner_user_id ≡ some user)

  is_visible-IsShown :
      (identity : Option String) (rows : List (EntryRow V)) (id : String)
      → any (is_visible identity id) rows ≡ true
      → IsShown identity rows id
  is_visible-IsShown identity rows id h =
      let (row, occurs, visible) = any-Occurs (is_visible identity id) rows h in
      let in_scope : is_in_scope identity row.entry.scope row.entry.owner_user_id ≡ true =
        ground arith in
      record {
        row = row;
        stands = occurs;
        named = ground (arith, eq_iff row.entry.entry_id id);
        enabled = ground arith;
        owned = λ u.
            is_in_scope-owned identity row.entry.owner_user_id
              (subst (λ x. is_in_scope identity x row.entry.owner_user_id ≡ true) u in_scope);
      }

  pub record IsAllowed (identity : Option String) (rows : List (EntryRow V))
      (lookups : List OperationalLookup) (id : String) : Type 0 where
    pub visible : any (is_visible identity id) rows ≡ true
    pub shown : IsShown identity rows id
    pub best : any (is_best identity rows id) lookups ≡ true

  candidate-IsAllowed :
      (identity : Option String) (rows : List (EntryRow V)) (lookups : List OperationalLookup)
      (lookup : OperationalLookup) (id : String)
      → any (is_entry id) (candidates_for identity lookup rows) ≡ true
      → (is_best identity rows id lookup ≡ true → any (is_best identity rows id) lookups ≡ true)
      → IsAllowed identity rows lookups id
  candidate-IsAllowed identity rows lookups lookup id h member = record {
    visible = matches-visible identity lookup rows id (group_in _ id h);
    shown =
        is_visible-IsShown identity rows id
          (matches-visible identity lookup rows id (group_in _ id h));
    best = member (first_group-best (matches identity lookup rows) id h);
  }

  -- What a result names is allowed.
  pub record AllAllowed (identity : Option String) (rows : List (EntryRow V))
      (lookups : List OperationalLookup) (result : Resolution V) : Type 0 where
    pub applied : All (λ a. IsAllowed identity rows lookups a.entry_id) result.applied
    pub conflicts : All (λ c. All (IsAllowed identity rows lookups) c.entry_ids) result.conflicts

  ids-IsAllowed :
      (P : String → Type 0) (entries : List (OperationalEntry V))
      → ((id : String) → any (is_entry id) entries ≡ true → P id)
      → All P (map (λ entry. entry.entry_id) entries)
  ids-IsAllowed P [] f = tt
  ids-IsAllowed P (entry ∷ entries) f = (
    f entry.entry_id (ground (arith, eq_self entry.entry_id)),
    ids-IsAllowed P entries (λ id h. f id (ground arith)),
  )

  settle-AllAllowed :
      (dumps : V → String) (identity : Option String) (rows : List (EntryRow V))
      (lookups : List OperationalLookup) (lookup : OperationalLookup)
      (candidates : List (OperationalEntry V)) (so_far : Resolution V)
      → ((id : String) → any (is_entry id) candidates ≡ true → IsAllowed identity rows lookups id)
      → AllAllowed identity rows lookups so_far
      → AllAllowed identity rows lookups (settle dumps lookup candidates so_far)
  unfolding settle
  settle-AllAllowed dumps identity rows lookups lookup [] so_far f h = h
  settle-AllAllowed dumps identity rows lookups lookup (chosen ∷ more) so_far f h =
      elim (Bool-cases (has_several_values dumps (chosen ∷ more))) [
        | inl e ↦
            rw (e, settle)
              (record {
                applied = h.applied;
                conflicts =
                    All-append _ so_far.conflicts _ h.conflicts
                      (ids-IsAllowed _ (chosen ∷ more) f, tt);
              })
        | inr e ↦
            rw (e, settle)
              (record {
                applied =
                    All-append _ so_far.applied _ h.applied
                      (f chosen.entry_id (ground (arith, eq_self chosen.entry_id)), tt);
                conflicts = h.conflicts;
              })
      ]

  resolve_each-AllAllowed :
      (dumps : V → String) (identity : Option String) (rows : List (EntryRow V))
      (lookups rest : List OperationalLookup) (so_far : Resolution V)
      → ((p : OperationalLookup → Bool) → any p rest ≡ true → any p lookups ≡ true)
      → AllAllowed identity rows lookups so_far
      → AllAllowed identity rows lookups (resolve_each dumps identity rows rest so_far)
  unfolding resolve_each
  resolve_each-AllAllowed dumps identity rows lookups [] so_far among h = h
  resolve_each-AllAllowed dumps identity rows lookups (lookup ∷ rest) so_far among h =
      resolve_each-AllAllowed dumps identity rows lookups rest
        (settle dumps lookup (candidates_for identity lookup rows) so_far)
        (λ p found. among p (ground arith))
        (settle-AllAllowed dumps identity rows lookups lookup (candidates_for identity lookup rows)
          so_far
          (λ id found.
            candidate-IsAllowed identity rows lookups lookup id found
              (λ member. among (is_best identity rows id) (ground arith)))
          h)

  -- Every entry that a resolution applies or names in a conflict stands in an enabled row that the family, the
  -- system or the identified user owns, and for one of the lookups no more specific entry was found.
  pub resolve-AllAllowed :
      (dumps : V → String) (identity : Option String) (rows : List (EntryRow V))
      (lookups : List OperationalLookup)
      → AllAllowed identity rows lookups (resolve dumps identity rows lookups).0
  unfolding resolve
  resolve-AllAllowed dumps identity rows lookups =
      resolve_each-AllAllowed dumps identity rows lookups lookups
        (record { values = []; applied = []; conflicts = [] }) (λ p found. found)
        (record { applied = tt; conflicts = tt })
