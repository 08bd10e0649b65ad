-- ===== src/FieldNode/Recovery/Run.antt =====
-- A whole run of the recovery job, while the services are up.
use ds_practice_court.Base.{
  subst, Bool, ℕ, suc, ◌≡◌, ◌≢◌, refl, sym, ap, ◌∙◌, inl, inr, true, false, some, List, [], ◌∷◌,
  Option, map, ok, arith, All, All-mono, Bool-cases, ◌==◌, ==_iff, Result,
}
use ds_practice_court.Shared.Schemas.{prepared, committed}
use ds_practice_court.Services.{Services, IsLawful, IsUp}
use ds_practice_court.FieldNode.Coordinator.{txn_key, txn_key_prefix}
use ds_practice_court.FieldNode.Coordinator.Redis.{txn_value}
use ds_practice_court.FieldNode.Recovery.{
  recover_value, recover_one, recover_keys, scan_loop, run_recovery, count_if,
}
use ds_practice_court.FieldNode.Recovery.Outcome.{recover_value-txn_key}
use ds_practice_court.FieldNode.Recovery.Visit.{
  Known, Settles, after-Kept, after_stored, after-HasOne, after-HaveOne, after-Finished,
}
use ds_practice_court.FieldNode.Recovery.Along.{
  doc_inj, same_state, not_both, Along, same-Along, trans-Along, Settles-later, Settles-Along,
}

module _ (S : Services) (L : IsLawful S) (U : IsUp S L) where
  open L use {tables, broker}

  abbrev Visits : ℕ → S.World → S.World → Type 0
  Visits fid w v = Settles S L U fid w v × Along S L U w v

  -- A visit that does nothing.
  passes :
      (fid : ℕ) (w v : S.World)
      → v ≡ w
      → ((is : List ℕ) → (broker w).stored (txn_key fid) ≢ some (txn_value prepared is))
      → Visits fid w v
  passes fid w v e other =
      rw e (λ is p. absurd (other is p), ((λ j c. c, λ j c. c), λ j. inl refl, λ j k. k))

  recovers :
      (fid : ℕ) (is : List ℕ) (w : S.World)
      → Known S L U fid w
      → (broker w).stored (txn_key fid) ≡ some (txn_value prepared is)
      → Visits fid w (recover_one S fid is w).1
  recovers fid is w known p =
      let (one, named) = known.1 is p in
      let v = (recover_one S fid is w).1 in
      let finished = after-Finished S L U fid is w one named in
      let other : (j : ℕ) → fid == j ≡ false → j ≢ fid = λ j d e. ground (arith, d, e) in
      (
        λ js q. rw (← doc_inj (sym p ∙ q)) finished,
        (
          after-Kept S L U fid is w one named,
          λ j. elim (Bool-cases (fid == j)) [
            | inl own ↦ rw (← (==_iff fid j).0 own) (inr (is, p, finished))
            | inr d ↦ inl (after_stored S L U fid is w one named j (other j d))
          ],
          λ j k. elim (Bool-cases (fid == j)) [
            | inl own ↦
                rw (← (==_iff fid j).0 own)
                  (inr (committed, is, finished.0), λ js e. absurd (not_both (sym finished.0 ∙ e)))
            | inr d ↦
                let same = after_stored S L U fid is w one named j (other j d) in
                (
                  rw same k.0,
                  λ js e.
                      let (h, hs) = k.1 js (sym same ∙ e) in
                      (
                        after-HasOne S L U fid is w one named j h,
                        after-HaveOne S L U fid is w one named js hs,
                      ),
                )
          ],
        ),
      )

  -- A visit of a known transaction returns.
  visit :
      (fid : ℕ) (w : S.World)
      → Known S L U fid w
      → let r = recover_value S (txn_key fid) ((broker w).stored (txn_key fid)) w in
        ((b : Bool) × (r.0 ≡ ok b)) × Visits fid w r.1
  unfolding recover_value
  visit fid w known =
      let o = (broker w).stored (txn_key fid) in
      elim known.0 [
        | inl absent ↦
            let run : recover_value S (txn_key fid) o w ≡ (ok false, w) = rw absent in
            ((false, ap (λ r. r.0) run), passes fid w _ (ap (λ r. r.1) run) (λ js p. cc))
        | inr (state, is, stored) ↦ elim (recover_value-txn_key S L fid state is w) [
          | inl (is_prepared, run') ↦
              let run : recover_value S (txn_key fid) o w ≡ (ok true, (recover_one S fid is w).1) =
                rw stored run' in
              let p : o ≡ some (txn_value prepared is) = rw (← is_prepared) stored in
              ((true, ap (λ r. r.0) run), rw (ap (λ r. r.1) run) (recovers fid is w known p))
          | inr (other, run') ↦
              let run : recover_value S (txn_key fid) o w ≡ (ok false, w) = rw stored run' in
              (
                (false, ap (λ r. r.0) run),
                passes fid w _ (ap (λ r. r.1) run) (λ js p. other (same_state (sym stored ∙ p))),
              )
        ]
      ]

  abbrev Ends : List ℕ → S.World → Result ℕ × S.World → Type 0
  Ends fids w r =
      ((m : ℕ) × (r.0 ≡ ok m)) × All (λ fid. Settles S L U fid w r.1) fids × Along S L U w r.1

  -- `for key in keys:` over known transactions returns, and brings each that was PREPARED to its end.
  recover_keys_settles :
      (fids : List ℕ) (n : ℕ) (w : S.World)
      → All (λ fid. Known S L U fid w) fids
      → Ends fids w (recover_keys S (map txn_key fids) n w)
  unfolding recover_keys
  recover_keys_settles [] n w known = ((n, refl), tt, same-Along S L U w w refl refl)
  recover_keys_settles (fid ∷ fids) n w known =
      let key = txn_key fid in
      let w1 = (S.redis_get key w).1 in
      let (o, e) = U.get-up key w in
      let read : o ≡ (broker w1).stored key =
        L.get-ok key w e ∙ ap (λ x. x.stored key) (sym (L.get-broker key w)) in
      let a1 = same-Along S L U w w1 (L.get-tables key w) (L.get-broker key w) in
      let ((b, done), (settles, a2)) = visit fid w1 (a1.2 fid known.0) in
      let w2 = (recover_value S key ((broker w1).stored key) w1).1 in
      let a = trans-Along S L U w w1 w2 a1 a2 in
      let known2 =
        All-mono (λ j. Known S L U j w) (λ j. Known S L U j w2) (λ j k. a.2 j k) fids known.1 in
      let (rest, all, a3) = recover_keys_settles fids (count_if S b n) w2 known2 in
      let v = (recover_keys S (map txn_key fids) (count_if S b n) w2).1 in
      let step : recover_keys S (map txn_key (fid ∷ fids)) n w
          ≡ recover_keys S (map txn_key fids) (count_if S b n) w2 =
        ground (arith, e, read, done) in
      subst (Ends (fid ∷ fids) w) (sym step) (
        rest,
        (
          Settles-later S L U fid w w1 v a1 (trans-Along S L U w1 w2 v a2 a3)
              (Settles-Along S L U fid w1 w2 v settles a3),
          All-mono (λ j. Settles S L U j w2 v) (λ j. Settles S L U j w v)
              (λ j s. Settles-later S L U j w w2 v a a3 s) fids all,
        ),
        trans-Along S L U w w2 v a a3,
      )

  -- If the first call of SCAN names all keys, each of a known transaction, then a run while the
  -- services are up returns, and every named transaction that was PREPARED is at its end: its
  -- field booking and the utility bookings of its document are CONFIRMED, and Redis holds COMMITTED
  -- with their ids.
  pub run_recovery-Settles :
      (fids : List ℕ) (fuel : ℕ) (w : S.World)
      → (S.redis_scan 0 txn_key_prefix w).0 ≡ ok (0, map txn_key fids)
      → All (λ fid. Known S L U fid w) fids
      → ((m : ℕ) × ((run_recovery S (suc fuel) w).0 ≡ ok (some m)))
        × All (λ fid. Settles S L U fid w (run_recovery S (suc fuel) w).1) fids
  unfolding run_recovery scan_loop
  run_recovery-Settles fids fuel w scanned known =
      let w1 = (S.redis_scan 0 txn_key_prefix w).1 in
      let a =
        same-Along S L U w w1 (L.scan-tables 0 txn_key_prefix w)
          (L.scan-broker 0 txn_key_prefix w) in
      let known1 =
        All-mono (λ j. Known S L U j w) (λ j. Known S L U j w1) (λ j k. a.2 j k) fids known in
      let ((m, done), all, b) = recover_keys_settles fids 0 w1 known1 in
      let v = (recover_keys S (map txn_key fids) 0 w1).1 in
      let step : run_recovery S (suc fuel) w ≡ (ok (some m), v) = ground (arith, scanned, done) in
      subst
        (λ (r : Result (Option ℕ) × S.World).
          ((m : ℕ) × (r.0 ≡ ok (some m))) × All (λ fid. Settles S L U fid w r.1) fids)
        (sym step)
        (
          (m, refl),
          All-mono (λ j. Settles S L U j w1 v) (λ j. Settles S L U j w v)
              (λ j s. Settles-later S L U j w w1 v a b s) fids all,
        )
