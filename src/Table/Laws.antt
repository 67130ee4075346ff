-- ===== src/Table/Laws.antt =====
-- What a query sees after each statement, and the uniqueness of the primary key (store.py).
use feishu_dify_gateway.Base.{
  ◌+◌, ◌≡◌, refl, Bool, true, false, not, Option, none, some, List, [], ◌∷◌, ◌++◌, arith,
  if◌then◌else◌, is_some, option_map, or_else, length, Bool-cases, inl, inr,
}
use mathlib.Core.Path.{subst}
use feishu_dify_gateway.Text.{Text, same, same_iff}
use feishu_dify_gateway.Table.{find, update, insert_or_ignore, upsert, delete_where, count_where}

-- A row passes when the deletion spares it.
abbrev pub spared {ℓ} : {V : Type ℓ} → (V → Bool) → Option V → Option V
spared p none = none
spared p (some v) = if p v then none else some v

module _ {ℓ} {V : Type ℓ} (key : V → Text) where
  -- The primary key: no two rows have the same key.
  abbrev pub HasUniqueKeys : List V → Type ℓ
  HasUniqueKeys [] = Unit
  HasUniqueKeys (v ∷ t) = (find key (key v) t ≡ none) × HasUniqueKeys t

  pub find-append :
      (k : Text) (t : List V) (v : V)
      → find key k (t ++ v ∷ []) ≡ or_else (find key k t) (if same (key v) k then some v else none)
  unfolding find
  find-append k [] v = refl
  find-append k (u ∷ t) v = ground (arith, find-append k t v)

  pub find-update :
      (k j : Text) (f : V → V) (t : List V)
      → ((v : V) → key (f v) ≡ key v)
      → find key j (update key k f t)
        ≡ (if same k j then option_map f (find key j t) else find key j t)
  unfolding find update
  find-update k j f [] keeps = ground arith
  find-update k j f (v ∷ t) keeps = ground (
    arith,
    keeps v,
    find-update k j f t keeps,
    same_iff (key v) k,
    same_iff (key v) j,
    same_iff k j,
  )

  pub find-insert_or_ignore :
      (j : Text) (v : V) (t : List V)
      → find key j (insert_or_ignore key v t).0
        ≡ or_else (find key j t) (if same (key v) j then some v else none)
  unfolding insert_or_ignore
  find-insert_or_ignore j v t = ground (arith, find-append j t v, same_iff (key v) j)

  pub insert_or_ignore-inserted :
      (v : V) (t : List V) → (insert_or_ignore key v t).1 ≡ not (is_some (find key (key v) t))
  unfolding insert_or_ignore
  insert_or_ignore-inserted v t = ground arith

  pub find-upsert :
      (j : Text) (v : V) (f : V → V) (t : List V)
      → ((u : V) → key (f u) ≡ key u)
      → find key j (upsert key v f t)
        ≡ (if same (key v) j then or_else (option_map f (find key j t)) (some v) else find key j t)
  unfolding upsert
  find-upsert j v f t keeps =
      ground (arith, find-append j t v, find-update (key v) j f t keeps, same_iff (key v) j)

module _ {ℓ} {V : Type ℓ} (key : V → Text) where
  pub find-key : (k : Text) (t : List V) (v : V) → find key k t ≡ some v → key v ≡ k
  unfolding find
  find-key k [] v h = ground arith
  find-key k (u ∷ t) v h = ground (arith, find-key k t v, same_iff (key u) k)

  pub update-HasUniqueKeys :
      (k : Text) (f : V → V) (t : List V)
      → ((v : V) → key (f v) ≡ key v)
      → HasUniqueKeys key t
      → HasUniqueKeys key (update key k f t)
  unfolding update
  update-HasUniqueKeys k f [] keeps h = tt
  update-HasUniqueKeys k f (v ∷ t) keeps h =
      ground
        (arith, keeps v, find-update key k (key v) f t keeps, update-HasUniqueKeys k f t keeps h.1)

  pub append-HasUniqueKeys :
      (v : V) (t : List V)
      → find key (key v) t ≡ none
      → HasUniqueKeys key t
      → HasUniqueKeys key (t ++ v ∷ [])
  unfolding find
  append-HasUniqueKeys v [] e h = (refl, tt)
  append-HasUniqueKeys v (u ∷ t) e h = ground (
    arith,
    find-append key (key u) t v,
    append-HasUniqueKeys v t,
    same_iff (key u) (key v),
    same_iff (key v) (key u),
  )

  pub insert_or_ignore-HasUniqueKeys :
      (v : V) (t : List V) → HasUniqueKeys key t → HasUniqueKeys key (insert_or_ignore key v t).0
  unfolding insert_or_ignore
  insert_or_ignore-HasUniqueKeys v t h = ground (arith, append-HasUniqueKeys v t)

  pub upsert-HasUniqueKeys :
      (v : V) (f : V → V) (t : List V)
      → ((u : V) → key (f u) ≡ key u)
      → HasUniqueKeys key t
      → HasUniqueKeys key (upsert key v f t)
  unfolding upsert
  upsert-HasUniqueKeys v f t keeps h =
      ground (arith, append-HasUniqueKeys v t, update-HasUniqueKeys (key v) f t keeps h)

  -- Where the keys are unique, a deletion spares or removes each row by its own columns.
  pub find-delete_where :
      (k : Text) (p : V → Bool) (t : List V)
      → HasUniqueKeys key t
      → find key k (delete_where p t) ≡ spared p (find key k t)
  unfolding find delete_where
  find-delete_where k p [] h = refl
  find-delete_where k p (v ∷ t) h = ground (arith, find-delete_where k p t h.1, same_iff (key v) k)

  pub delete_where-HasUniqueKeys :
      (p : V → Bool) (t : List V) → HasUniqueKeys key t → HasUniqueKeys key (delete_where p t)
  unfolding delete_where
  delete_where-HasUniqueKeys p [] h = tt
  delete_where-HasUniqueKeys p (v ∷ t) h =
      ground (arith, delete_where-HasUniqueKeys p t h.1, find-delete_where (key v) p t h.1)

module _ {ℓ} {V : Type ℓ} where
  -- The row count of a deletion is the number of rows that are gone.
  pub length-delete_where :
      (p : V → Bool) (t : List V) → length (delete_where p t) + count_where p t ≡ length t
  unfolding delete_where count_where
  length-delete_where p [] = omega arith
  length-delete_where p (v ∷ t) = ground (arith, length-delete_where p t)

-- `P` holds of every row.
abbrev pub AllRows {ℓ κ} : {V : Type ℓ} → (V → Type κ) → List V → Type κ
AllRows P [] = Unit
AllRows P (v ∷ t) = P v × AllRows P t

module _ {ℓ κ} {V : Type ℓ} (P : V → Type κ) where
  pub append-AllRows : (v : V) (t : List V) → P v → AllRows P t → AllRows P (t ++ v ∷ [])
  append-AllRows v [] hv h = (hv, tt)
  append-AllRows v (u ∷ t) hv h = (h.0, append-AllRows v t hv h.1)

  pub delete_where-AllRows :
      (p : V → Bool) (t : List V) → AllRows P t → AllRows P (delete_where p t)
  unfolding delete_where
  delete_where-AllRows p [] h = tt
  delete_where-AllRows p (v ∷ t) h = keep (p v) (delete_where p t) (delete_where-AllRows p t h.1)
    where
      keep : (b : Bool) (rest : List V) → AllRows P rest → AllRows P (if b then rest else v ∷ rest)
      keep true rest r = r
      keep false rest r = (h.0, r)

module _ {ℓ κ} {V : Type ℓ} (key : V → Text) (P : V → Type κ) where
  pub update-AllRows :
      (k : Text) (f : V → V) (t : List V)
      → ((v : V) → P v → P (f v))
      → AllRows P t
      → AllRows P (update key k f t)
  unfolding update
  update-AllRows k f [] keeps h = tt
  update-AllRows k f (v ∷ t) keeps h = (choose (same (key v) k), update-AllRows k f t keeps h.1)
    where
      choose : (b : Bool) → P (if b then f v else v)
      choose true = keeps v h.0
      choose false = h.0

  pub insert_or_ignore-AllRows :
      (v : V) (t : List V) → P v → AllRows P t → AllRows P (insert_or_ignore key v t).0
  unfolding insert_or_ignore
  insert_or_ignore-AllRows v t hv h = choose (is_some (find key (key v) t))
    where
      choose :
          (b : Bool)
          → AllRows P (let r : List V × Bool = if b then (t, false) else (t ++ v ∷ [], true) in r.0)
      choose true = h
      choose false = append-AllRows P v t hv h

  pub upsert-AllRows :
      (v : V) (f : V → V) (t : List V)
      → P v
      → ((u : V) → P u → P (f u))
      → AllRows P t
      → AllRows P (upsert key v f t)
  unfolding upsert
  upsert-AllRows v f t hv keeps h = choose (is_some (find key (key v) t))
    where
      choose : (b : Bool) → AllRows P (if b then update key (key v) f t else t ++ v ∷ [])
      choose true = update-AllRows (key v) f t keeps h
      choose false = append-AllRows P v t hv h

  -- A row that a query finds has what every row has.
  pub find-AllRows : (k : Text) (t : List V) (v : V) → AllRows P t → find key k t ≡ some v → P v
  unfolding find
  find-AllRows k [] v h e = cc
  find-AllRows k (u ∷ t) v h e = elim (Bool-cases (same (key u) k)) [
    | inl hit ↦ let q : u ≡ v = ground arith in subst P q h.0
    | inr miss ↦ find-AllRows k t v h.1 (rw miss at e)
  ]
