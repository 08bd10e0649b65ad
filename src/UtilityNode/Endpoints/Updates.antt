-- ===== src/UtilityNode/Endpoints/Updates.antt =====
-- `/internal/commit` and `/internal/rollback`: what the loop over the ids does to the table.
use mathlib.Core.Option
use ds_practice_court.Base.{
  ℕ, ◌≡◌, refl, ◌⊎◌, inl, inr, true, Option, List, [], ◌∷◌, ok, arith, if◌then◌else◌, find?,
  change_where, contains, find?-change_where, bind_ok, bind_cases, Result-cases,
}
use ds_practice_court.Shared.Schemas.{BookingStatus}
use ds_practice_court.Shared.Models.{Tables, UtilityBooking}
use ds_practice_court.Services.{Services, IsLawful, put_utility_bookings}
use ds_practice_court.UtilityNode.UtilityBookingRepository.{
  is_utility_booking, set_status, update_status,
}
use ds_practice_court.UtilityNode.Endpoints.{update_all}

-- Rows named by the ids may have taken the status; nothing else differs.
abbrev pub Touched : BookingStatus → List ℕ → Tables → Tables → Type 0
Touched status is t t' =
    (t' ≡ put_utility_bookings t'.utility_bookings t)
    × ((j : ℕ)
        → (find? (is_utility_booking j) t'.utility_bookings
            ≡ find? (is_utility_booking j) t.utility_bookings)
          ⊎ ((contains j is ≡ true)
              × (find? (is_utility_booking j) t'.utility_bookings
                  ≡ Option.map (set_status status)
                      (find? (is_utility_booking j) t.utility_bookings))))

Touched-trans :
    (status : BookingStatus) (i : ℕ) (is : List ℕ) (t t' t'' : Tables)
    → Touched status (i ∷ is) t t'
    → Touched status is t' t''
    → Touched status (i ∷ is) t t''
Touched-trans status i is t t' t'' a b =
    (ground (arith, a.0, b.0), λ j. ground (arith, a.1 j, b.1 j))

module _ (S : Services) (L : IsLawful S) where
  open L use {tables, broker, utility_bookings_lawful}

  -- An update that returns has changed the one row, and nothing else.
  pub update_status_changes :
      (i : ℕ) (status : BookingStatus) (w : S.World) {o : Option UtilityBooking}
      → (update_status S i status w).0 ≡ ok o
      → tables (update_status S i status w).1
        ≡ put_utility_bookings
            (change_where (is_utility_booking i) (set_status status) (tables w).utility_bookings)
            (tables w)
  unfolding update_status
  update_status_changes i status w h = grind (
    arith,
    utility_bookings_lawful.update-ok (is_utility_booking i) (set_status status) w,
    utility_bookings_lawful.select-tables,
  )

  pub update_status-broker :
      (i : ℕ) (status : BookingStatus) (w : S.World)
      → broker (update_status S i status w).1 ≡ broker w
  unfolding update_status
  update_status-broker i status w = grind (
    arith,
    utility_bookings_lawful.update-broker (is_utility_booking i) (set_status status) w,
    utility_bookings_lawful.select-broker,
  )

  pub update_all-broker :
      (status : BookingStatus) (is : List ℕ) (w : S.World)
      → broker (update_all S status is w).1 ≡ broker w
  unfolding update_all
  update_all-broker status [] w = refl
  update_all-broker status (i ∷ is) w = ground (
    arith,
    update_status-broker i status w,
    update_all-broker status is (update_status S i status w).1,
  )

  -- The loop of `internal_commit` and `internal_rollback`, if it ends, has given the status to every
  -- row that it names, and to no other row; the other three tables stand as before.
  pub update_all_changes :
      (status : BookingStatus) (is : List ℕ) (w : S.World)
      → (update_all S status is w).0 ≡ ok tt
      → let t = tables w in
        let t' = tables (update_all S status is w).1 in
        (t' ≡ put_utility_bookings t'.utility_bookings t)
        × ((j : ℕ)
            → find? (is_utility_booking j) t'.utility_bookings ≡ (
                if contains j is
                then Option.map
                    (set_status status)
                    (find? (is_utility_booking j) t.utility_bookings)
                else find? (is_utility_booking j) t.utility_bookings))
  unfolding update_all
  update_all_changes status [] w h = (refl, λ j. refl)
  update_all_changes status (i ∷ is) w h =
      let (o, e, step) = bind_ok (update_status S i status) (λ _. update_all S status is) w h in
      let w1 = (update_status S i status w).1 in
      let (rest, found) = update_all_changes status is w1 (rw step at h) in
      rw step (
        ground (arith, rest, update_status_changes i status w e),
        λ j. ground (
          arith,
          found j,
          update_status_changes i status w e,
          find?-change_where (λ r. r.id) (set_status status) (λ r. refl) i j
              (tables w).utility_bookings,
        ),
      )

  update_status_partial :
      (i : ℕ) (status : BookingStatus) (w : S.World)
      → let t' = tables (update_status S i status w).1 in
        (t' ≡ tables w)
        ⊎ (t'
            ≡ put_utility_bookings
                (change_where
                  (is_utility_booking i)
                  (set_status status)
                  (tables w).utility_bookings)
                (tables w))
  unfolding update_status
  update_status_partial i status w =
      elim (Result-cases
        (S.utility_bookings.update (is_utility_booking i) (set_status status) w).0) [
          | inl (n, e) ↦ inr (
              grind (
                arith,
                utility_bookings_lawful.update-ok (is_utility_booking i) (set_status status) w e,
                utility_bookings_lawful.select-tables,
              ))
          | inr (x, e) ↦ inl (
              ground (
                arith,
                utility_bookings_lawful.update-err (is_utility_booking i) (set_status status) w e,
              ))
        ]

  Touched-one :
      (i : ℕ) (is : List ℕ) (status : BookingStatus) (w : S.World)
      → Touched status (i ∷ is) (tables w) (tables (update_status S i status w).1)
  Touched-one i is status w = elim (update_status_partial i status w) [
    | inl same ↦ (ground (arith, same), λ j. inl (ground (arith, same)))
    | inr changed ↦ (
      ground (arith, changed),
      λ j. ground (
        arith,
        changed,
        find?-change_where (λ r. r.id) (set_status status) (λ r. refl) i j
            (tables w).utility_bookings,
      ),
    )
  ]

  -- However the loop ends, only rows that it names have changed, and only by taking the status.
  pub update_all-Touched :
      (status : BookingStatus) (is : List ℕ) (w : S.World)
      → Touched status is (tables w) (tables (update_all S status is w).1)
  unfolding update_all
  update_all-Touched status [] w = (refl, λ j. inl refl)
  update_all-Touched status (i ∷ is) w =
      elim (bind_cases (update_status S i status) (λ _. update_all S status is) w) [
        | inl (x, e, step) ↦ rw step (Touched-one i is status w)
        | inr (o, e, step) ↦ rw step (
            Touched-trans status i is (tables w) (tables (update_status S i status w).1)
              (tables (update_all S status is (update_status S i status w).1).1)
              (Touched-one i is status w)
              (update_all-Touched status is (update_status S i status w).1))
      ]
