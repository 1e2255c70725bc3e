-- ===== src/Base/Raise.antt =====
-- Calls that may raise: the exceptions of the modelled code, and what a call comes back with.

-- `AlertStoreError`, `ValueError`, `sqlite3.IntegrityError` and `StoreError`.
pub data Error : Type 0 where
  alert_store value integrity store_error : Error

-- Either the value that a call returns, or the exception that it raises.
pub data Result {ℓ} (A : Type ℓ) : Type ℓ where
  ok : A → Result A
  err : Error → Result A
