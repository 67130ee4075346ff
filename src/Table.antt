-- ===== src/Table.antt =====
-- An SQLite table with a TEXT primary key: its rows in order of insertion, and the statements
-- that store.py executes on them.
pub mod Laws
use feishu_dify_gateway.Base.{
  ℕ, ◌+◌, Bool, true, false, Option, none, some, List, [], ◌∷◌, ◌++◌, if◌then◌else◌, is_some,
}
use feishu_dify_gateway.Text.{Text, same}

module _ {ℓ} {V : Type ℓ} (key : V → Text) where
  -- `SELECT * FROM t WHERE key = ?`, `fetchone()`.
  unfoldable pub find : Text → List V → Option V
  find k [] = none
  find k (v ∷ t) = if same (key v) k then some v else find k t

  -- `UPDATE t SET ... WHERE key = ?`.
  unfoldable pub update : Text → (V → V) → List V → List V
  update k f [] = []
  update k f (v ∷ t) = (if same (key v) k then f v else v) ∷ update k f t

  -- `INSERT OR IGNORE INTO t VALUES ...`, with `rowcount == 1`.
  unfoldable pub insert_or_ignore : V → List V → List V × Bool
  unfolding find
  insert_or_ignore v t = if is_some (find (key v) t) then (t, false) else (t ++ v ∷ [], true)

  -- `INSERT INTO t VALUES ... ON CONFLICT(key) DO UPDATE SET ...`.
  unfoldable pub upsert : V → (V → V) → List V → List V
  unfolding find update
  upsert v f t = if is_some (find (key v) t) then update (key v) f t else t ++ v ∷ []

module _ {ℓ} {V : Type ℓ} where
  -- `DELETE FROM t WHERE ...`.
  unfoldable pub delete_where : (V → Bool) → List V → List V
  delete_where p [] = []
  delete_where p (v ∷ t) = let rest = delete_where p t in if p v then rest else v ∷ rest

  -- The `rowcount` of that statement.
  unfoldable pub count_where : (V → Bool) → List V → ℕ
  count_where p [] = 0
  count_where p (v ∷ t) = (if p v then 1 else 0) + count_where p t
