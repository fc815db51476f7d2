-- ===== src/Storage/Table.antt =====
-- The rows of the table of alerts, and what the statements do to the active ones.
use server_watch.Base.{
  ℕ, ◌≡◌, refl, Bool, true, false, not, ◌&&◌, Option, none, some, List, [], ◌∷◌, ◌++◌, str_eq,
  str_eq_iff, ◌==◌, if◌then◌else◌, arith, Bool-cases, inl, inr, subst,
}
use server_watch.Model.{Time, AlertType}
use server_watch.Storage.{AlertRow}

module _ {F : Type 0} where
  -- `type = :type AND resolved = FALSE`
  abbrev pub is_active_row : AlertType → AlertRow F → Bool
  is_active_row t r = str_eq r.kind t && not r.resolved

  -- The first row that a query for the active alert of a type finds.
  abbrev pub find_active : AlertType → List (AlertRow F) → Option (AlertRow F)
  find_active t [] = none
  find_active t (r ∷ rows) =
      let later = find_active t rows in if is_active_row t r then some r else later

  -- The effect of the update.
  abbrev pub resolve_row : ℕ → Time → AlertRow F → AlertRow F
  resolve_row id at r =
      if r.id == id then record r { resolved = true; resolved_ts = some at } else r

  abbrev pub resolve_rows : ℕ → Time → List (AlertRow F) → List (AlertRow F)
  resolve_rows id at [] = []
  resolve_rows id at (r ∷ rows) = resolve_row id at r ∷ resolve_rows id at rows

  -- No row has this id.
  abbrev pub IsNewId : ℕ → List (AlertRow F) → Type 0
  IsNewId id [] = Unit {0}
  IsNewId id (r ∷ rows) = ((r.id == id) ≡ false) × IsNewId id rows

  -- The ids are unique.
  abbrev pub HasUniqueIds : List (AlertRow F) → Type 0
  HasUniqueIds [] = Unit {0}
  HasUniqueIds (r ∷ rows) = IsNewId r.id rows × HasUniqueIds rows

  -- A type has at most one active row.
  abbrev pub HasOneActive : AlertType → List (AlertRow F) → Type 0
  HasOneActive t [] = Unit {0}
  HasOneActive t (r ∷ rows) =
      (is_active_row t r ≡ true → find_active t rows ≡ none) × HasOneActive t rows

  pub find_active-append :
      (t : AlertType) (r : AlertRow F) (rows : List (AlertRow F))
      → find_active t (rows ++ r ∷ []) ≡ elim (find_active t rows) as (λ _. Option (AlertRow F)) [
        | some a ↦ some a
        | none ↦ if is_active_row t r then some r else none
      ]
  find_active-append t r [] = refl
  find_active-append t r (q ∷ rows) = ground (arith, find_active-append t r rows)

  pub append-HasOneActive :
      (t : AlertType) (r : AlertRow F) (rows : List (AlertRow F))
      → HasOneActive t rows
      → (is_active_row t r ≡ true → find_active t rows ≡ none)
      → HasOneActive t (rows ++ r ∷ [])
  append-HasOneActive t r [] one quiet = ((λ _. refl), tt)
  append-HasOneActive t r (q ∷ rows) one quiet =
      ground (arith, append-HasOneActive t r rows one.1, find_active-append t r rows)

  append-IsNewId :
      (id : ℕ) (r : AlertRow F) (rows : List (AlertRow F))
      → IsNewId id rows
      → (r.id == id) ≡ false
      → IsNewId id (rows ++ r ∷ [])
  append-IsNewId id r [] new ne = (ne, tt)
  append-IsNewId id r (q ∷ rows) new ne = (new.0, append-IsNewId id r rows new.1 ne)

  pub append-HasUniqueIds :
      (r : AlertRow F) (rows : List (AlertRow F))
      → HasUniqueIds rows
      → IsNewId r.id rows
      → HasUniqueIds (rows ++ r ∷ [])
  append-HasUniqueIds r [] u new = (tt, tt)
  append-HasUniqueIds r (q ∷ rows) u new =
      (append-IsNewId q.id r rows u.0 (ground arith), append-HasUniqueIds r rows u.1 new.1)

  -- Updating an id that no row has changes nothing.
  pub resolve_rows_new :
      (id : ℕ) (at : Time) (rows : List (AlertRow F))
      → IsNewId id rows
      → resolve_rows id at rows ≡ rows
  resolve_rows_new id at [] new = refl
  resolve_rows_new id at (r ∷ rows) new = ground (arith, resolve_rows_new id at rows new.1)

  find_active_id :
      (t : AlertType) (a : AlertRow F) (id : ℕ) (rows : List (AlertRow F))
      → IsNewId id rows
      → find_active t rows ≡ some a
      → (a.id == id) ≡ false
  find_active_id t a id [] new found = cc
  find_active_id t a id (r ∷ rows) new found = elim (Bool-cases (is_active_row t r)) [
    | inl here ↦ ground arith
    | inr later ↦ ground (arith, find_active_id t a id rows new.1)
  ]

  resolve_head :
      (t u : AlertType) (r : AlertRow F) (at : Time) (rows : List (AlertRow F))
      → IsNewId r.id rows
      → is_active_row t r ≡ true
      → find_active t rows ≡ none
      → find_active u (resolve_rows r.id at (r ∷ rows))
        ≡ (if str_eq u t then none else find_active u (r ∷ rows))
  resolve_head t u r at rows new here alone = ground (
    arith,
    resolve_rows_new r.id at rows new,
    str_eq_iff r.kind t,
    str_eq_iff r.kind u,
    str_eq_iff u t,
  )

  -- Resolving the active row of a type leaves the type with none, and the others as they are.
  pub find_active-resolve :
      (t u : AlertType) (a : AlertRow F) (at : Time) (rows : List (AlertRow F))
      → HasUniqueIds rows
      → HasOneActive t rows
      → find_active t rows ≡ some a
      → find_active u (resolve_rows a.id at rows)
        ≡ (if str_eq u t then none else find_active u rows)
  find_active-resolve t u a at [] uniq one found = cc
  find_active-resolve t u a at (r ∷ rows) uniq one found = elim (Bool-cases (is_active_row t r)) [
    | inl here ↦
        let same : r ≡ a = ground arith in
        subst
          (λ (x : AlertRow F).
            find_active u (resolve_rows x.id at (r ∷ rows))
            ≡ (if str_eq u t then none else find_active u (r ∷ rows)))
          same (resolve_head t u r at rows uniq.0 here (one.0 here))
    | inr later ↦ ground (
      arith,
      find_active_id t a r.id rows uniq.0,
      find_active-resolve t u a at rows uniq.1 one.1,
      str_eq_iff u t,
    )
  ]

  -- Neither the ids nor the number of active rows of a type is disturbed.
  resolve-IsNewId :
      (id k : ℕ) (at : Time) (rows : List (AlertRow F))
      → IsNewId id rows
      → IsNewId id (resolve_rows k at rows)
  resolve-IsNewId id k at [] new = tt
  resolve-IsNewId id k at (r ∷ rows) new = (ground arith, resolve-IsNewId id k at rows new.1)

  resolve_row_id : (k : ℕ) (at : Time) (r : AlertRow F) → (resolve_row k at r).id ≡ r.id
  resolve_row_id k at r = ground arith

  pub resolve-HasUniqueIds :
      (k : ℕ) (at : Time) (rows : List (AlertRow F))
      → HasUniqueIds rows
      → HasUniqueIds (resolve_rows k at rows)
  resolve-HasUniqueIds k at [] u = tt
  resolve-HasUniqueIds k at (r ∷ rows) u = (
    rw (resolve_row_id k at r) (resolve-IsNewId r.id k at rows u.0),
    resolve-HasUniqueIds k at rows u.1,
  )

  resolve_none :
      (t : AlertType) (k : ℕ) (at : Time) (rows : List (AlertRow F))
      → find_active t rows ≡ none
      → find_active t (resolve_rows k at rows) ≡ none
  resolve_none t k at [] h = refl
  resolve_none t k at (r ∷ rows) h = ground (arith, resolve_none t k at rows)

  pub resolve-HasOneActive :
      (t : AlertType) (k : ℕ) (at : Time) (rows : List (AlertRow F))
      → HasOneActive t rows
      → HasOneActive t (resolve_rows k at rows)
  resolve-HasOneActive t k at [] one = tt
  resolve-HasOneActive t k at (r ∷ rows) one =
      (λ h. resolve_none t k at rows (one.0 (ground arith)), resolve-HasOneActive t k at rows one.1)
