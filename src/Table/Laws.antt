-- ===== src/Table/Laws.antt =====
-- The laws of the statements of a table.
use nyra.Base.{
  String, Bool, true, false, ◌&&◌, Option, none, some, List, [], ◌∷◌, ◌++◌, ◌==◌, ◌≡◌, ◌≤◌,
  any-append, count, refl, arith, eq_iff, if◌then◌else◌, any,
}
use nyra.Table.{has_key, find, update}

-- What `UPDATE` makes of one row.
abbrev pub changed {ℓ} : {R : Type ℓ} → (R → Bool) → (R → R) → Option R → Option R
changed p f none = none
changed p f (some r) = some (if p r then f r else r)

-- No two rows have one key.
abbrev pub HasUniqueKeys {ℓ} : {R : Type ℓ} → (R → String) → List R → Type 0
HasUniqueKeys key [] = Unit
HasUniqueKeys key (r ∷ rows) = (any (has_key key (key r)) rows ≡ false) × HasUniqueKeys key rows

module _ {ℓ} {R : Type ℓ} (key : R → String) where
  -- An update that leaves the keys alone changes each row that is found as it says.
  pub find-update :
      (p : R → Bool) (f : R → R) (same : (r : R) → key (f r) ≡ key r) (k : String) (rows : List R)
      → find key k (update p f rows) ≡ changed p f (find key k rows)
  find-update p f same k [] = refl
  find-update p f same k (r ∷ rows) = ground (arith, same r, find-update p f same k rows)

  -- `UPDATE … WHERE key = ? AND p` changes that one key's row, if it passes the test.
  pub find-update_key :
      (p : R → Bool) (f : R → R) (same : (r : R) → key (f r) ≡ key r) (j k : String) (rows : List R)
      → find key k (update (λ r. (key r == j) && p r) f rows)
        ≡ (if k == j then changed p f (find key k rows) else find key k rows)
  find-update_key p f same j k [] = ground arith
  find-update_key p f same j k (r ∷ rows) = ground (
    arith,
    same r,
    eq_iff k j,
    eq_iff (key r) j,
    eq_iff (key r) k,
    find-update_key p f same j k rows,
  )

  -- `UPDATE … WHERE key = ?` changes that one key's row.
  pub find-update_by_key :
      (f : R → R) (same : (r : R) → key (f r) ≡ key r) (j k : String) (rows : List R)
      → find key k (update (λ r. key r == j) f rows)
        ≡ (if k == j then changed (λ r. true) f (find key k rows) else find key k rows)
  find-update_by_key f same j k [] = ground arith
  find-update_by_key f same j k (r ∷ rows) = ground (
    arith,
    same r,
    eq_iff k j,
    eq_iff (key r) j,
    eq_iff (key r) k,
    find-update_by_key f same j k rows,
  )

  pub find-append :
      (k : String) (rows : List R) (r : R)
      → find key k (rows ++ r ∷ [])
        ≡ (elim (find key k rows) [ some s ↦ some s | none ↦ if key r == k then some r else none ])
  find-append k [] r = refl
  find-append k (s ∷ rows) r = ground (arith, find-append k rows r)

  pub find-key : (k : String) (rows : List R) {r : R} → find key k rows ≡ some r → key r ≡ k
  find-key k [] h = ground arith
  find-key k (s ∷ rows) {r} h = ground (arith, eq_iff (key s) k, find-key k rows {r = r})

  pub any-find-none :
      (k : String) (rows : List R) → any (has_key key k) rows ≡ false → find key k rows ≡ none
  any-find-none k [] h = refl
  any-find-none k (r ∷ rows) h = ground (arith, any-find-none k rows)

  -- A row that is found and passes a test is seen by a search for the test and the key.
  pub any-find :
      (p : R → Bool) (k : String) (rows : List R) {r : R}
      → find key k rows ≡ some r
      → p r ≡ true
      → any (λ s. (key s == k) && p s) rows ≡ true
  any-find p k [] h t = ground arith
  any-find p k (s ∷ rows) {r} h t = ground (arith, any-find p k rows {r = r})

  any-has_key-update :
      (p : R → Bool) (f : R → R) (same : (r : R) → key (f r) ≡ key r) (k : String) (rows : List R)
      → any (has_key key k) (update p f rows) ≡ any (has_key key k) rows
  any-has_key-update p f same k [] = refl
  any-has_key-update p f same k (r ∷ rows) =
      ground (arith, same r, any-has_key-update p f same k rows)

  pub update-HasUniqueKeys :
      (p : R → Bool) (f : R → R) (same : (r : R) → key (f r) ≡ key r) (rows : List R)
      → HasUniqueKeys key rows
      → HasUniqueKeys key (update p f rows)
  update-HasUniqueKeys p f same [] h = tt
  update-HasUniqueKeys p f same (r ∷ rows) h = ground (
    arith,
    same r,
    any-has_key-update p f same (key r) rows,
    any-has_key-update p f same (key (f r)) rows,
    update-HasUniqueKeys p f same rows h.1,
  )

  pub append-HasUniqueKeys :
      (rows : List R) (r : R)
      → HasUniqueKeys key rows
      → any (has_key key (key r)) rows ≡ false
      → HasUniqueKeys key (rows ++ r ∷ [])
  append-HasUniqueKeys [] r h n = (refl, tt)
  append-HasUniqueKeys (s ∷ rows) r h n = ground (
    arith,
    eq_iff (key s) (key r),
    eq_iff (key r) (key s),
    any-append (has_key key (key s)) rows (r ∷ []),
    append-HasUniqueKeys rows r h.1,
  )

  -- An update of a key that is not there changes nothing.
  pub update_absent :
      (f : R → R) (k : String) (rows : List R)
      → any (has_key key k) rows ≡ false
      → update (λ r. key r == k) f rows ≡ rows
  update_absent f k [] h = refl
  update_absent f k (r ∷ rows) h = ground (arith, update_absent f k rows)

  -- Under unique keys an update by key changes the one row that is found, so a test that its new content
  -- passes only if the old one did is not passed by more rows.
  pub count-update_by_key :
      (p : R → Bool) (f : R → R) (k : String) (rows : List R) (old : R)
      → HasUniqueKeys key rows
      → find key k rows ≡ some old
      → (p (f old) ≡ true → p old ≡ true)
      → count p (update (λ r. key r == k) f rows) ≤ count p rows
  count-update_by_key p f k [] old u h w = ground arith
  count-update_by_key p f k (r ∷ rows) old u h w =
      ground
        (arith, eq_iff (key r) k, update_absent f k rows, count-update_by_key p f k rows old u.1)
