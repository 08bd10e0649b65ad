-- ===== src/FieldNode/Coordinator/Prepare.antt =====
-- Phase 1: what the votes that `prepare_all` gathers say about the participant's table.
use ds_practice_court.Base.{
  Bool-cases, ℕ, suc, ◌≡◌, refl, ap, ◌⊎◌, inl, inr, Bool, true, false, Option, none, some, List, [],
  ◌∷◌, ◌++◌, ok, arith, find?, bind_ok, bind_cases, Result, find?-append_some, find?-append_none,
  length,
}
use mathlib.Core.List.{append-nil, append_assoc}
use ds_practice_court.Shared.Schemas.{
  BookingStatus, pending, PrepareRequest, PrepareResponse, init, prepared,
}
use ds_practice_court.Shared.Models.{Tables, UtilityBooking}
use ds_practice_court.Services.{
  Services, IsLawful, put_utility_bookings, Posted, lost, unheard, served, failed,
}
use ds_practice_court.UtilityNode.UtilityBookingRepository.{is_utility_booking, new_utility_booking}
use ds_practice_court.UtilityNode.Endpoints.{internal_prepare}
use ds_practice_court.UtilityNode.Endpoints.Votes.{
  AddsPending, VoteMeans, internal_prepare_outcome, internal_prepare_adds, internal_prepare-broker,
}
use ds_practice_court.FieldNode.Coordinator.{
  booked_id, except_httpx, ask, prepare_loop, prepare_all, set_txn_state, txn_key,
}
use ds_practice_court.FieldNode.Coordinator.Redis.{
  txn_value, set_txn_state-tables, set_txn_state_ok,
}

-- The rows that stand for a transaction: one for each utility that has answered, in order.
abbrev pub Booked : ℕ → BookingStatus → List UtilityBooking → List ℕ → List ℕ → Type 0
Booked fid status rows us [] = Unit
Booked fid status rows [] (i ∷ is) = ⊥
Booked fid status rows (u ∷ us) (i ∷ is) =
    (find? (is_utility_booking i) rows
      ≡ some (record { id = i; utility_id = u; booking_id = fid; status = status }))
    × Booked fid status rows us is

-- Only the participant's table has changed, and every row that was there is found as before.
abbrev pub OnlyAdds : Tables → Tables → Type 0
OnlyAdds t t' =
    (t' ≡ put_utility_bookings t'.utility_bookings t)
    × ((j : ℕ) (row : UtilityBooking)
        → find? (is_utility_booking j) t.utility_bookings ≡ some row
        → find? (is_utility_booking j) t'.utility_bookings ≡ some row)

pub OnlyAdds-same : (t t' : Tables) → t' ≡ t → OnlyAdds t t'
OnlyAdds-same t t' e = (ground (arith, e), λ j row h. ground (arith, e, h))

pub OnlyAdds-trans : (t t' t'' : Tables) → OnlyAdds t t' → OnlyAdds t' t'' → OnlyAdds t t''
OnlyAdds-trans t t' t'' a b = (ground (arith, a.0, b.0), λ j row h. b.1 j row (a.1 j row h))

pub AddsPending-OnlyAdds :
    (req : PrepareRequest) (i : ℕ) (t t' : Tables) → AddsPending req i t t' → OnlyAdds t t'
AddsPending-OnlyAdds req i t t' h = (
  ground (arith, h),
  λ j row found. ground (
    arith,
    h,
    find?-append_some (is_utility_booking j) t.utility_bookings
        (new_utility_booking req.utility_id req.field_booking_id i 0 ∷ []) {r = row} found,
  ),
)

pub AddsPending-find? :
    (req : PrepareRequest) (i : ℕ) (t t' : Tables)
    → AddsPending req i t t'
    → find? (is_utility_booking i) t'.utility_bookings
      ≡ some (new_utility_booking req.utility_id req.field_booking_id i 0)
AddsPending-find? req i t t' h = ground (
  arith,
  h,
  find?-append_none (is_utility_booking i) t.utility_bookings
      (new_utility_booking req.utility_id req.field_booking_id i 0 ∷ []) h.0,
)

Booked-OnlyAdds :
    (fid : ℕ) (status : BookingStatus) (us is : List ℕ) (t t' : Tables)
    → OnlyAdds t t'
    → Booked fid status t.utility_bookings us is
    → Booked fid status t'.utility_bookings us is
Booked-OnlyAdds fid status us [] t t' o b = tt
Booked-OnlyAdds fid status [] (i ∷ is) t t' o b = b
Booked-OnlyAdds fid status (u ∷ us) (i ∷ is) t t' o b =
    (o.1 i _ b.0, Booked-OnlyAdds fid status us is t t' o b.1)

-- At most one row is added.
abbrev pub Grows : PrepareRequest → Tables → Tables → Type 0
Grows req t t' = (t' ≡ t) ⊎ ((i : ℕ) × AddsPending req i t t')

pub Grows-OnlyAdds : (req : PrepareRequest) (t t' : Tables) → Grows req t t' → OnlyAdds t t'
Grows-OnlyAdds req t t' (inl e) = OnlyAdds-same t t' e
Grows-OnlyAdds req t t' (inr (i, a)) = AddsPending-OnlyAdds req i t t' a

Grows-along :
    (req : PrepareRequest) (t v t' v' : Tables) → v ≡ t → t' ≡ v' → Grows req v v' → Grows req t t'
Grows-along req t v t' v' e e' g = rw (← e, e') g

-- What a round of the loop does, by the id that it returns.
abbrev pub Asked : PrepareRequest → Result (Option ℕ) → Tables → Tables → Type 0
Asked req r t t' =
    ((i : ℕ) × (r ≡ ok (some i)) × AddsPending req i t t') ⊎ ((r ≡ ok none) × Grows req t t')

Asked-VoteMeans :
    (req : PrepareRequest) (a : PrepareResponse) (r : Result (Option ℕ)) (t v t' v' : Tables)
    → r ≡ ok (booked_id a)
    → v ≡ t
    → t' ≡ v'
    → VoteMeans req a v v'
    → Asked req r t t'
unfolding booked_id
Asked-VoteMeans req a r t v t' v' er e e' (inl (i, u, vote, _, _, adds)) =
    inl (i, ground (arith, er, vote), rw (← e, e') adds)
Asked-VoteMeans req a r t v t' v' er e e' (inr (vote, g)) =
    inr (ground (arith, er, vote), rw (← e, e') g)

module _ (S : Services) (L : IsLawful S) where
  open L use {tables, broker}

  -- A round of the loop never raises. It leaves Redis alone and adds at most one row; an id that it
  -- returns is that row's.
  pub ask_outcome :
      (fid u : ℕ) (w : S.World)
      → let req : PrepareRequest = record { field_booking_id = fid; utility_id = u } in
        (broker (ask S fid u w).1 ≡ broker w)
        × Asked req (ask S fid u w).0 (tables w) (tables (ask S fid u w).1)
  unfolding ask except_httpx
  ask_outcome fid u w = go (L.post_lem (internal_prepare S req) w)
    where
      req : PrepareRequest
      req = record { field_booking_id = fid; utility_id = u }

      go :
          Posted S.World PrepareResponse
            (λ a b. (tables b ≡ tables a) × (broker b ≡ broker a))
            (internal_prepare S req)
            w
            (S.post (internal_prepare S req) w)
          → (broker (ask S fid u w).1 ≡ broker w)
            × Asked req (ask S fid u w).0 (tables w) (tables (ask S fid u w).1)
      go (lost e r s) = (ground (arith, r, s), inr (ground (arith, r), inl (ground (arith, r, s))))
      go (unheard e v r s s') = (
        ground (arith, r, s, s', internal_prepare-broker S L req v),
        inr (
          ground (arith, r),
          Grows-along req (tables w) (tables v) (tables (ask S fid u w).1)
              (tables (internal_prepare S req v).1) s.0 (ground (arith, r, s'))
              (internal_prepare_adds S L req v),
        ),
      )
      go (served a v r s h s') = (
        ground (arith, r, s, s', internal_prepare-broker S L req v),
        Asked-VoteMeans req a (ask S fid u w).0 (tables w) (tables v) (tables (ask S fid u w).1)
            (tables (internal_prepare S req v).1) (ground (arith, r)) s.0 (ground (arith, r, s'))
            (internal_prepare_outcome S L req v h),
      )
      go (failed x v r s h s') = (
        ground (arith, r, s, s', internal_prepare-broker S L req v),
        inr (
          ground (arith, r),
          Grows-along req (tables w) (tables v) (tables (ask S fid u w).1)
              (tables (internal_prepare S req v).1) s.0 (ground (arith, r, s'))
              (internal_prepare_adds S L req v),
        ),
      )

  ask-OnlyAdds : (fid u : ℕ) (w : S.World) → OnlyAdds (tables w) (tables (ask S fid u w).1)
  ask-OnlyAdds fid u w = go (ask_outcome fid u w).1
    where
      req : PrepareRequest
      req = record { field_booking_id = fid; utility_id = u }

      go :
          Asked req (ask S fid u w).0 (tables w) (tables (ask S fid u w).1)
          → OnlyAdds (tables w) (tables (ask S fid u w).1)
      go (inl (i, _, a)) = AddsPending-OnlyAdds req i (tables w) (tables (ask S fid u w).1) a
      go (inr (_, g)) = Grows-OnlyAdds req (tables w) (tables (ask S fid u w).1) g

  pub prepare_loop-some :
      (fid u : ℕ) (us acc : List ℕ) (w : S.World) {i : ℕ}
      → (ask S fid u w).0 ≡ ok (some i)
      → prepare_loop S fid (u ∷ us) acc w ≡ prepare_loop S fid us (acc ++ i ∷ []) (ask S fid u w).1
  unfolding prepare_loop
  prepare_loop-some fid u us acc w e = rw e

  pub prepare_loop-none :
      (fid u : ℕ) (us acc : List ℕ) (w : S.World)
      → (ask S fid u w).0 ≡ ok none
      → prepare_loop S fid (u ∷ us) acc w ≡ (ok (false, acc), (ask S fid u w).1)
  unfolding prepare_loop
  prepare_loop-none fid u us acc w e = rw e

  -- Whatever happens in the loop, rows are only added, and only to the participant's table.
  pub prepare_loop-OnlyAdds :
      (fid : ℕ) (us acc : List ℕ) (w : S.World)
      → OnlyAdds (tables w) (tables (prepare_loop S fid us acc w).1)
  unfolding prepare_loop
  prepare_loop-OnlyAdds fid [] acc w =
      OnlyAdds-same (tables w) (tables (prepare_loop S fid [] acc w).1)
        (ground (arith, set_txn_state-tables S L fid prepared acc w))
  prepare_loop-OnlyAdds fid (u ∷ us) acc w = elim (ask_outcome fid u w).1 [
    | inl (i, e, a) ↦ rw (prepare_loop-some fid u us acc w e) (
        OnlyAdds-trans (tables w) (tables (ask S fid u w).1)
          (tables (prepare_loop S fid us (acc ++ i ∷ []) (ask S fid u w).1).1)
          (ask-OnlyAdds fid u w) (prepare_loop-OnlyAdds fid us (acc ++ i ∷ []) (ask S fid u w).1))
    | inr (e, g) ↦ rw (prepare_loop-none fid u us acc w e) (ask-OnlyAdds fid u w)
  ]

  -- The rounds of the loop, from a world on: every YES adds its id, and the first NO is the last
  -- round and makes the result False.
  abbrev pub Collects : ℕ → List ℕ → S.World → Bool → List ℕ → Type 0
  Collects fid [] w b is = (b ≡ true) × (is ≡ [])
  Collects fid (u ∷ us) w b is =
      (((ask S fid u w).0 ≡ ok none) × (b ≡ false) × (is ≡ []))
      ⊎ ((i : ℕ) × (js : List ℕ) × ((ask S fid u w).0 ≡ ok (some i))
          × (is ≡ i ∷ js)
          × Collects fid us (ask S fid u w).1 b js)

  -- What the loop has achieved when it returns: see `prepare_loop_ok`.
  abbrev pub Prepared : ℕ → List ℕ → List ℕ → Bool → List ℕ → S.World → S.World → Type 0
  Prepared fid us acc b out w w' =
      (is : List ℕ) × (out ≡ acc ++ is)
      × Booked fid pending (tables w').utility_bookings us is
      × Collects fid us w b is
      × (b ≡ true
          → (length is ≡ length us)
            × ((broker w').stored (txn_key fid) ≡ some (txn_value prepared out)))

  prepare_loop_end :
      (fid : ℕ) (acc : List ℕ) (w : S.World) {b : Bool} {out : List ℕ}
      → (prepare_loop S fid [] acc w).0 ≡ ok (b, out)
      → Prepared fid [] acc b out w (prepare_loop S fid [] acc w).1
  unfolding prepare_loop
  prepare_loop_end fid acc w {b} {out} h =
      let (d, e, step) = bind_ok (set_txn_state S fid prepared acc) _ w h in
      let same : out ≡ acc = ground (arith, h, step) in
      (
        [],
        rw (append-nil, same),
        tt,
        (ground (arith, h, step), refl),
        λ _. (refl, rw (step, same) (set_txn_state_ok S L fid prepared acc w e)),
      )

  -- If the loop returns, each id that it has collected is that of a PENDING row of the transaction,
  -- in the order of the utilities; if all voted YES, there is one for each, and Redis says PREPARED.
  pub prepare_loop_ok :
      (fid : ℕ) (us acc : List ℕ) (w : S.World) {b : Bool} {out : List ℕ}
      → (prepare_loop S fid us acc w).0 ≡ ok (b, out)
      → Prepared fid us acc b out w (prepare_loop S fid us acc w).1
  prepare_loop_ok fid [] acc w h = prepare_loop_end fid acc w h
  prepare_loop_ok fid (u ∷ us) acc w {b} {out} h = elim (ask_outcome fid u w).1 [
    | inl (i, e, a) ↦
        let w1 = (ask S fid u w).1 in
        let req : PrepareRequest = record { field_booking_id = fid; utility_id = u } in
        let step = prepare_loop-some fid u us acc w e in
        let (is, grown, booked, gathered, full) =
          prepare_loop_ok fid us (acc ++ i ∷ []) w1 (rw step at h) in
        let kept = prepare_loop-OnlyAdds fid us (acc ++ i ∷ []) w1 in
        rw step (
          i ∷ is,
          rw (grown, append_assoc),
          (kept.1 i _ (AddsPending-find? req i (tables w) (tables w1) a), booked),
          inr (i, is, e, refl, gathered),
          λ yes_all. (ap suc (full yes_all).0, (full yes_all).1),
        )
    | inr (e, g) ↦
        let step = prepare_loop-none fid u us acc w e in
        rw step (
          [],
          rw append-nil (ground (arith, h, step)),
          tt,
          inl (e, ground (arith, h, step), refl),
          λ yes_all. ground (arith, h, step, yes_all),
        )
  ]

  -- `prepare_all` as a whole.
  pub prepare_all-OnlyAdds :
      (fid : ℕ) (us : List ℕ) (w : S.World)
      → OnlyAdds (tables w) (tables (prepare_all S fid us w).1)
  unfolding prepare_all
  prepare_all-OnlyAdds fid us w =
      elim (bind_cases (set_txn_state S fid init []) (λ _. prepare_loop S fid us []) w) [
        | inl (x, e, step) ↦ rw step (
            OnlyAdds-same (tables w) (tables (set_txn_state S fid init [] w).1)
              (set_txn_state-tables S L fid init [] w))
        | inr (d, e, step) ↦
            rw (step, ← set_txn_state-tables S L fid init [] w)
              (prepare_loop-OnlyAdds fid us [] (set_txn_state S fid init [] w).1)
      ]

  prepare_all_ok_if :
      (fid : ℕ) (us : List ℕ) (w : S.World) {b : Bool} {is : List ℕ}
      → (prepare_all S fid us w).0 ≡ ok (b, is)
      → Prepared fid us [] b is (set_txn_state S fid init [] w).1 (prepare_all S fid us w).1
  unfolding prepare_all
  prepare_all_ok_if fid us w {b} {is} h =
      let (d, e, step) = bind_ok (set_txn_state S fid init []) _ w h in
      rw step (prepare_loop_ok fid us [] (set_txn_state S fid init [] w).1 (rw step at h))

  -- If `prepare_all` returns, it hands on the ids that the participant has answered with, one for
  -- each utility in order, up to the first NO, and each is that of a PENDING row of the
  -- transaction. It returns False if there was a NO. Otherwise it returns True, there is one for
  -- every utility and Redis holds the state PREPARED with these ids.
  pub prepare_all_ok :
      (fid : ℕ) (us : List ℕ) (w : S.World) {b : Bool} {is : List ℕ}
      → (prepare_all S fid us w).0 ≡ ok (b, is)
      → let w' = (prepare_all S fid us w).1 in
        Booked fid pending (tables w').utility_bookings us is
        × Collects fid us (set_txn_state S fid init [] w).1 b is
        × ((b ≡ false)
            ⊎ ((length is ≡ length us)
                × ((broker w').stored (txn_key fid) ≡ some (txn_value prepared is))))
  prepare_all_ok fid us w {b} {is} h =
      let (js, same, booked, gathered, full) = prepare_all_ok_if fid us w h in
      (
        rw same booked,
        rw same gathered,
        elim (Bool-cases b) [
          | inl all_yes ↦ inr (ground (arith, same, full all_yes), (full all_yes).1)
          | inr some_no ↦ inl some_no
        ],
      )
