-- ===== src/FieldNode/Coordinator/Redis.antt =====
-- `_set_txn_state`: what a write of the transaction's state does.
use ds_practice_court.Base.{
  ℕ, ◌≡◌, ◌≢◌, ◌⊎◌, inl, inr, some, List, ok, err, Exn, fault, redis_error, Result-cases, arith,
}
use ds_practice_court.Base.Text.{Text}
use ds_practice_court.Shared.Schemas.{TwoPcTransactionState}
use ds_practice_court.Services.{Services, IsLawful, Value, document}
use ds_practice_court.FieldNode.Coordinator.{txn_key, txn_ttl_s, set_txn_state}

abbrev pub txn_value : TwoPcTransactionState → List ℕ → Value
txn_value state is = document (record { state = state; utility_booking_ids = is })

module _ (S : Services) (L : IsLawful S) (fid : ℕ) (state : TwoPcTransactionState) (is : List ℕ)
    (w : S.World) where
  open L use {tables, broker}

  pub set_txn_state-tables : tables (set_txn_state S fid state is w).1 ≡ tables w
  unfolding set_txn_state
  set_txn_state-tables = L.set-tables (txn_key fid) (txn_value state is) txn_ttl_s w

  pub set_txn_state_ok :
      (set_txn_state S fid state is w).0 ≡ ok tt
      → (broker (set_txn_state S fid state is w).1).stored (txn_key fid) ≡ some (txn_value state is)
  unfolding set_txn_state
  set_txn_state_ok h = L.set-ok (txn_key fid) (txn_value state is) txn_ttl_s w h

  pub set_txn_state_err :
      {e : Exn} → (set_txn_state S fid state is w).0 ≡ err e → e ≡ fault redis_error
  unfolding set_txn_state
  set_txn_state_err h = L.set-err (txn_key fid) (txn_value state is) txn_ttl_s w h

  pub set_txn_state_ne :
      (j : Text)
      → j ≢ txn_key fid
      → (broker (set_txn_state S fid state is w).1).stored j ≡ (broker w).stored j
  unfolding set_txn_state
  set_txn_state_ne j h = L.set-ne (txn_key fid) (txn_value state is) txn_ttl_s w j h

  pub set_txn_state_outcome :
      ((set_txn_state S fid state is w).0 ≡ err (fault redis_error))
      ⊎ (((set_txn_state S fid state is w).0 ≡ ok tt)
          × ((broker (set_txn_state S fid state is w).1).stored (txn_key fid)
              ≡ some (txn_value state is)))
  set_txn_state_outcome = elim (Result-cases (set_txn_state S fid state is w).0) [
    | inl (d, e) ↦ inr (e, set_txn_state_ok e)
    | inr (x, e) ↦ inl (ground (arith, e, set_txn_state_err e))
  ]
