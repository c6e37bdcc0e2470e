-- ===== src/Table.antt =====
-- A SQLite table with a text primary key, as the list of its rows in rowid order, and the
-- statements that the stores run against it. SQLite itself is not part of the repository: these are
-- its documented effects.
pub mod Laws
use nyra.Base.{
  ℕ, String, Bool, true, false, ◌&&◌, Option, none, some, List, [], ◌∷◌, ◌++◌, ◌==◌, if◌then◌else◌,
  filter, count, Result, ok, raise, any,
}

module _ {ℓ} {R : Type ℓ} (key : R → String) where
  -- `WHERE key = ?`
  abbrev pub has_key : String → R → Bool
  has_key k r = key r == k

  -- `SELECT * … WHERE key = ?`, with `fetchone`
  abbrev pub find : String → List R → Option R
  find k [] = none
  find k (r ∷ rows) = let rest = find k rows in if key r == k then some r else rest

  -- `INSERT INTO …`: `none` where the primary key is taken (`IntegrityError`)
  abbrev pub insert : R → List R → Option (List R)
  insert r rows = if any (has_key (key r)) rows then none else some (rows ++ r ∷ [])

module _ {ℓ} {R : Type ℓ} where
  -- `SELECT * … WHERE p`, with `fetchone`
  abbrev pub first : (R → Bool) → List R → Option R
  first p [] = none
  first p (r ∷ rows) = let rest = first p rows in if p r then some r else rest

  -- `UPDATE … SET f WHERE p`; the row count is `count p rows`
  abbrev pub update : (R → Bool) → (R → R) → List R → List R
  update p f [] = []
  update p f (r ∷ rows) = (if p r then f r else r) ∷ update p f rows

  -- `DELETE … WHERE p`; the row count is `count p rows`
  abbrev pub delete : (R → Bool) → List R → List R
  delete p rows = filter (λ r. if p r then false else true) rows
