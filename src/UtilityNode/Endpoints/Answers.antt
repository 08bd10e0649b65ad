-- ===== src/UtilityNode/Endpoints/Answers.antt =====
-- The participant while the services are up: its votes, and its commit and rollback.
use ds_practice_court.Base.{
  All-mono, find?-append_none, fault, multiple_results, ℕ, ◌≡◌, refl, ◌⊎◌, inl, inr, Bool, true,
  false, Option, some, List, [], ◌∷◌, ok, err, Exn, arith, Bool-cases, find?, where_rows,
  change_where, All, HasOne, HasOne-change_where, ==_refl,
}
use ds_practice_court.Shared.Schemas.{BookingStatus, PrepareRequest}
use ds_practice_court.Shared.Models.{Utility, UtilityBooking}
use ds_practice_court.Services.{put_utilities, Services, IsLawful, IsUp, put_utility_bookings}
use ds_practice_court.Services.Facts.{one_of, lookup_up}
use ds_practice_court.UtilityNode.UtilityRepository
use ds_practice_court.UtilityNode.UtilityRepository.{is_utility}
use ds_practice_court.UtilityNode.UtilityBookingRepository
use ds_practice_court.UtilityNode.UtilityBookingRepository.{
  is_utility_booking, new_utility_booking, set_status,
}
use ds_practice_court.UtilityNode.Endpoints.{
  vote_no, vote_yes, is_bookable, book_utility, internal_prepare, update_all,
}
use ds_practice_court.UtilityNode.Endpoints.Updates.{update_status_changes}
use ds_practice_court.UtilityNode.Endpoints.Votes.{AddsPending, get_by_id-tables, create_ok}

-- The participant can book a utility: it has one row, which is active.
abbrev pub can_book : List Utility → ℕ → Bool
can_book us u = only_active (where_rows (is_utility u) us)
  where
    only_active : List Utility → Bool
    only_active [] = false
    only_active (r ∷ []) = r.is_active
    only_active (r ∷ q ∷ rs) = false

module _ (S : Services) (L : IsLawful S) (U : IsUp S L) where
  open L use {tables, broker}
  open U use {utilities_up, utility_bookings_up}

  get_by_id_up :
      (u : ℕ) (w : S.World)
      → (UtilityRepository.get_by_id S u w).0
        ≡ one_of (where_rows (is_utility u) (tables w).utilities)
  unfolding UtilityRepository.get_by_id
  get_by_id_up u w =
      lookup_up S L S.utilities (λ r. r.id) (λ t. t.utilities) put_utilities L.utilities_lawful
        utilities_up (is_utility u) w

  create_up :
      (u fid : ℕ) (w : S.World)
      → (q : UtilityBooking) × ((UtilityBookingRepository.create S u fid w).0 ≡ ok q)
  unfolding UtilityBookingRepository.create
  create_up u fid w =
      let (r, e) = utility_bookings_up.add-up (new_utility_booking u fid) w in
      let (i, now, made, fresh, after) =
        L.utility_bookings_lawful.add-ok (new_utility_booking u fid) w e in
      let w1 = (S.utility_bookings.add_commit (new_utility_booking u fid) w).1 in
      let found : find? (is_utility_booking r.id) (tables w1).utility_bookings ≡ some r = ground (
        arith,
        after,
        made,
        find?-append_none (is_utility_booking i) (tables w).utility_bookings (r ∷ []) fresh,
        ==_refl i,
      ) in
      (r, ground (arith, e, utility_bookings_up.refresh-up r r w1 found))

  -- A utility that can be booked is booked, and another one is refused.
  pub internal_prepare_up :
      (req : PrepareRequest) (w : S.World)
      → let t = tables w in
        let t' = tables (internal_prepare S req w).1 in
        ((can_book t.utilities req.utility_id ≡ true)
          × ((i : ℕ) × ((internal_prepare S req w).0 ≡ ok (vote_yes i)) × AddsPending req i t t'))
        ⊎ ((can_book t.utilities req.utility_id ≡ false)
            × (t' ≡ t)
            × (((internal_prepare S req w).0 ≡ ok vote_no)
                ⊎ ((x : Exn) × ((internal_prepare S req w).0 ≡ err x))))
  unfolding internal_prepare is_bookable book_utility
  internal_prepare_up req w = go (where_rows (is_utility req.utility_id) (tables w).utilities) refl
    where
      u : ℕ
      u = req.utility_id

      w1 : S.World
      w1 = (UtilityRepository.get_by_id S u w).1

      Goal : Type 0
      Goal =
          ((can_book (tables w).utilities u ≡ true)
            × ((i : ℕ) × ((internal_prepare S req w).0 ≡ ok (vote_yes i))
                × AddsPending req i (tables w) (tables (internal_prepare S req w).1)))
          ⊎ ((can_book (tables w).utilities u ≡ false)
              × (tables (internal_prepare S req w).1 ≡ tables w)
              × (((internal_prepare S req w).0 ≡ ok vote_no)
                  ⊎ ((x : Exn) × ((internal_prepare S req w).0 ≡ err x))))

      booked :
          (r : Utility)
          → where_rows (is_utility u) (tables w).utilities ≡ r ∷ []
          → r.is_active ≡ true
          → Goal
      booked r e active =
          let found = get_by_id_up u w in
          let same = get_by_id-tables S L u w in
          let (q, made) = create_up u req.field_booking_id w1 in
          let (i, now, is_q, fresh, after) = create_ok S L u req.field_booking_id w1 made in
          inl (
            ground (arith, e, active),
            (
              i,
              ground (arith, found, e, active, made, is_q),
              (
                ground (arith, fresh, same),
                ground (arith, found, e, active, made, is_q, after, same),
              ),
            ),
          )

      go : (rs : List Utility) → where_rows (is_utility u) (tables w).utilities ≡ rs → Goal
      go [] e =
          let found = get_by_id_up u w in
          let same = get_by_id-tables S L u w in
          inr (ground (arith, e), ground (arith, found, e, same), inl (ground (arith, found, e)))
      go (r ∷ []) e = elim (Bool-cases r.is_active) [
        | inl active ↦ booked r e active
        | inr idle ↦
            let found = get_by_id_up u w in
            let same = get_by_id-tables S L u w in
            inr (
              ground (arith, e, idle),
              ground (arith, found, e, idle, same),
              inl (ground (arith, found, e, idle)),
            )
      ]
      go (r ∷ q ∷ rs) e =
          let found = get_by_id_up u w in
          let same = get_by_id-tables S L u w in
          inr (
            ground (arith, e),
            ground (arith, found, e, same),
            inr (fault multiple_results, ground (arith, found, e)),
          )

  update_status_up :
      (i : ℕ) (status : BookingStatus) (w : S.World)
      → HasOne (λ r. r.id) i (tables w).utility_bookings
      → (o : Option UtilityBooking) × ((UtilityBookingRepository.update_status S i status w).0
          ≡ ok o)
  unfolding UtilityBookingRepository.update_status
  update_status_up i status w (r, one) =
      let (n, e) = utility_bookings_up.update-up (is_utility_booking i) (set_status status) w in
      let w1 = (S.utility_bookings.update (is_utility_booking i) (set_status status) w).1 in
      let (count, changed) =
        L.utility_bookings_lawful.update-ok (is_utility_booking i) (set_status status) w e in
      let (q, still) =
        HasOne-change_where (λ r. r.id) (set_status status) (λ r. refl) i i
          (tables w).utility_bookings (r, one) in
      let found =
        lookup_up S L S.utility_bookings (λ r. r.id) (λ t. t.utility_bookings) put_utility_bookings
          L.utility_bookings_lawful utility_bookings_up (is_utility_booking i) w1 in
      (some q, ground (arith, e, count, one, found, changed, still))

  -- Each of the ids has one row.
  abbrev pub HaveOne : List ℕ → S.World → Type 0
  HaveOne is w = All (λ i. HasOne (λ r. r.id) i (tables w).utility_bookings) is

  update_status-HaveOne :
      (i : ℕ) (status : BookingStatus) (is : List ℕ) (w : S.World)
      → HasOne (λ r. r.id) i (tables w).utility_bookings
      → HaveOne is w
      → HaveOne is (UtilityBookingRepository.update_status S i status w).1
  update_status-HaveOne i status is w one h =
      let (o, e) = update_status_up i status w one in
      rw (update_status_changes S L i status w e) (
        All-mono (λ j. HasOne (λ r. r.id) j (tables w).utility_bookings)
          (λ j.
            HasOne (λ r. r.id) j
              (change_where (is_utility_booking i) (set_status status) (tables w).utility_bookings))
          (λ j k.
            HasOne-change_where (λ r. r.id) (set_status status) (λ r. refl) i j
              (tables w).utility_bookings k)
          is h)

  -- The loop over ids that each have one row returns, and leaves every id its row.
  pub update_all_up :
      (status : BookingStatus) (is : List ℕ) (w : S.World)
      → HaveOne is w
      → (update_all S status is w).0 ≡ ok tt
  unfolding update_all
  update_all_up status [] w h = refl
  update_all_up status (i ∷ is) w h =
      let (o, e) = update_status_up i status w h.0 in
      let w1 = (UtilityBookingRepository.update_status S i status w).1 in
      ground (arith, e, update_all_up status is w1 (update_status-HaveOne i status is w h.0 h.1))

  pub update_all-HaveOne :
      (status : BookingStatus) (is js : List ℕ) (w : S.World)
      → HaveOne is w
      → HaveOne js w
      → HaveOne js (update_all S status is w).1
  unfolding update_all
  update_all-HaveOne status [] js w h k = k
  update_all-HaveOne status (i ∷ is) js w h k =
      let (o, e) = update_status_up i status w h.0 in
      let w1 = (UtilityBookingRepository.update_status S i status w).1 in
      let rest =
        update_all-HaveOne status is js w1 (update_status-HaveOne i status is w h.0 h.1)
          (update_status-HaveOne i status js w h.0 k) in
      let step : update_all S status (i ∷ is) w ≡ update_all S status is w1 = ground (arith, e) in
      rw step rest
