-- ===== src/FieldNode/FieldBookingRepository/Calls.antt =====
-- What the calls of the repository do to the table of field bookings.
use ds_practice_court.Base.{
  Action, pure, ◌>>=◌, Option-cases, ==_iff, find?-holds, change_where_absent, ℕ, ◌≡◌, refl, ◌⊎◌,
  inl, inr, ◌++◌, Bool, Option, none, some, [], ◌∷◌, ok, err, Exn, fault, database, arith, find?,
  change_where, bind_ok, bind_cases, lift_result, Result-cases,
}
use ds_practice_court.Base.Text.{Text}
use ds_practice_court.Shared.Schemas.{BookingStatus}
use ds_practice_court.Shared.Models.{Tables, FieldBooking}
use ds_practice_court.Services.{Services, IsLawful, put_field_bookings}
use ds_practice_court.Services.Facts.{one_or_none-find?, insert-broker, insert_ok, insert_err}
use ds_practice_court.FieldNode.FieldBookingRepository.{
  is_booking, blocks, is_none, new_booking, with_status, get_by_id, check_availability,
  create_pending, update_status,
}

-- What `update_status` may do to the tables.
abbrev pub StatusSet : ℕ → BookingStatus → Tables → Tables → Type 0
StatusSet i status t t' =
    t' ≡ put_field_bookings (change_where (is_booking i) (with_status status) t.field_bookings) t

module _ (S : Services) (L : IsLawful S) where
  open L use {tables, broker, field_bookings_lawful}

  pub get_by_id-tables : (i : ℕ) (w : S.World) → tables (get_by_id S i w).1 ≡ tables w
  unfolding get_by_id
  get_by_id-tables i w = ground (arith, field_bookings_lawful.select-tables (is_booking i) w)

  pub get_by_id-broker : (i : ℕ) (w : S.World) → broker (get_by_id S i w).1 ≡ broker w
  unfolding get_by_id
  get_by_id-broker i w = ground (arith, field_bookings_lawful.select-broker (is_booking i) w)

  pub get_by_id_finds :
      (i : ℕ) (w : S.World) {o : Option FieldBooking}
      → (get_by_id S i w).0 ≡ ok o
      → o ≡ find? (is_booking i) (tables w).field_bookings
  unfolding get_by_id
  get_by_id_finds i w h =
      let (rs, e, step) =
        bind_ok (S.field_bookings.select (is_booking i))
          (λ rs. lift_result (S.scalar_one_or_none rs)) w h in
      one_or_none-find? S L (is_booking i) (tables w).field_bookings rs
        (field_bookings_lawful.select-ok (is_booking i) w e) (rw step at h)

  pub check_availability-tables :
      (f st en : ℕ) (w : S.World) → tables (check_availability S f st en w).1 ≡ tables w
  unfolding check_availability
  check_availability-tables f st en w =
      ground (arith, field_bookings_lawful.select-tables (blocks f st en) w)

  pub check_availability-broker :
      (f st en : ℕ) (w : S.World) → broker (check_availability S f st en w).1 ≡ broker w
  unfolding check_availability
  check_availability-broker f st en w =
      ground (arith, field_bookings_lawful.select-broker (blocks f st en) w)

  -- If `check_availability` returns, it says exactly whether no active booking of the field overlaps
  -- the interval.
  pub check_availability_answer :
      (f st en : ℕ) (w : S.World) {b : Bool}
      → (check_availability S f st en w).0 ≡ ok b
      → b ≡ is_none (find? (blocks f st en) (tables w).field_bookings)
  unfolding check_availability
  check_availability_answer f st en w h =
      let (rs, e, step) = bind_ok (S.field_bookings.select (blocks f st en)) _ w h in
      let w1 = (S.field_bookings.select (blocks f st en) w).1 in
      let (o, e', step') = bind_ok (lift_result (S.scalar_one_or_none rs)) _ w1 (rw step at h) in
      let found =
        one_or_none-find? S L (blocks f st en) (tables w).field_bookings rs
          (field_bookings_lawful.select-ok (blocks f st en) w e) e' in
      ground (arith, h, step, step', found)

  pub create_pending-broker :
      (f : ℕ) (user : Text) (st en : ℕ) (w : S.World)
      → broker (create_pending S f user st en w).1 ≡ broker w
  unfolding create_pending
  create_pending-broker f user st en w =
      insert-broker S.field_bookings (λ r. r.id) tables broker (λ t. t.field_bookings)
        put_field_bookings field_bookings_lawful (λ rs x. refl) (new_booking f user st en)
        (λ i now. refl) w

  -- A new PENDING row with a new id stands behind the table.
  pub create_pending_ok :
      (f : ℕ) (user : Text) (st en : ℕ) (w : S.World) {q : FieldBooking}
      → (create_pending S f user st en w).0 ≡ ok q
      → (i : ℕ) × (now : ℕ) × (q ≡ new_booking f user st en i now)
        × (find? (is_booking i) (tables w).field_bookings ≡ none)
        × (tables (create_pending S f user st en w).1
            ≡ put_field_bookings ((tables w).field_bookings ++ q ∷ []) (tables w))
  unfolding create_pending
  create_pending_ok f user st en w h =
      insert_ok S.field_bookings (λ r. r.id) tables broker (λ t. t.field_bookings)
        put_field_bookings field_bookings_lawful (λ rs x. refl) (new_booking f user st en)
        (λ i now. refl) w h

  pub create_pending_err :
      (f : ℕ) (user : Text) (st en : ℕ) (w : S.World) {e : Exn}
      → (create_pending S f user st en w).0 ≡ err e
      → (e ≡ fault database)
        × ((tables (create_pending S f user st en w).1 ≡ tables w)
            ⊎ ((i : ℕ) × (now : ℕ) × (find? (is_booking i) (tables w).field_bookings ≡ none)
                × (tables (create_pending S f user st en w).1
                    ≡ put_field_bookings
                        ((tables w).field_bookings ++ new_booking f user st en i now ∷ [])
                        (tables w))))
  unfolding create_pending
  create_pending_err f user st en w h =
      insert_err S.field_bookings (λ r. r.id) tables broker (λ t. t.field_bookings)
        put_field_bookings field_bookings_lawful (λ rs x. refl) (new_booking f user st en)
        (λ i now. refl) w h

  pub update_status-broker :
      (i : ℕ) (status : BookingStatus) (w : S.World)
      → broker (update_status S i status w).1 ≡ broker w
  unfolding update_status
  update_status-broker i status w = grind (
    arith, field_bookings_lawful.select-broker, field_bookings_lawful.update-broker,
    field_bookings_lawful.refresh-broker,
  )

  update_found :
      (i : ℕ) (status : BookingStatus) (w : S.World) (b : FieldBooking)
      → find? (is_booking i) (tables w).field_bookings ≡ some b
      → b.id ≡ i
  update_found i status w b found =
      (==_iff b.id i).0 (find?-holds (is_booking i) (tables w).field_bookings found)

  -- If it returns, the rows with the id have the status and nothing else differs.
  pub update_status_ok :
      (i : ℕ) (status : BookingStatus) (w : S.World) {o : Option FieldBooking}
      → (update_status S i status w).0 ≡ ok o
      → StatusSet i status (tables w) (tables (update_status S i status w).1)
  unfolding update_status
  update_status_ok i status w h =
      let (found, e, step) = bind_ok (get_by_id S i) _ w h in
      let w1 = (get_by_id S i w).1 in
      let there = get_by_id_finds i w e in
      elim (Option-cases found) [
        | inl absent ↦ ground (
          arith,
          step,
          absent,
          there,
          get_by_id-tables i w,
          change_where_absent (is_booking i) (with_status status) (tables w).field_bookings,
        )
        | inr (b, is_b) ↦
            let same = update_found i status w b (ground (arith, there, is_b)) in
            grind (
              arith,
              step,
              is_b,
              same,
              get_by_id-tables i w,
              field_bookings_lawful.update-ok (is_booking b.id) (with_status status) w1,
              field_bookings_lawful.refresh-tables,
            )
      ]

  -- However it ends, it has done that or nothing.
  pub update_status_either :
      (i : ℕ) (status : BookingStatus) (w : S.World)
      → (tables (update_status S i status w).1 ≡ tables w)
        ⊎ StatusSet i status (tables w) (tables (update_status S i status w).1)
  unfolding update_status
  update_status_either i status w = elim (bind_cases (get_by_id S i) after w) [
    | inl (x, e, step) ↦ inl (ground (arith, step, get_by_id-tables i w))
    | inr (found, e, step) ↦ elim (Option-cases found) [
      | inl absent ↦ inl (ground (arith, step, absent, get_by_id-tables i w))
      | inr (b, is_b) ↦
          let w1 = (get_by_id S i w).1 in
          let same = update_found i status w b (ground (arith, get_by_id_finds i w e, is_b)) in
          elim (Result-cases
            (S.field_bookings.update (is_booking b.id) (with_status status) w1).0) [
              | inl (n, e') ↦ inr (
                  grind (
                    arith,
                    step,
                    is_b,
                    same,
                    get_by_id-tables i w,
                    field_bookings_lawful.update-ok (is_booking b.id) (with_status status) w1 e',
                    field_bookings_lawful.refresh-tables,
                  ))
              | inr (x, e') ↦ inl (
                  ground (
                    arith,
                    step,
                    is_b,
                    e',
                    get_by_id-tables i w,
                    field_bookings_lawful.update-err (is_booking b.id) (with_status status) w1 e',
                  ))
            ]
    ]
  ]
    where
      after : Option FieldBooking → Action S.World (Option FieldBooking)
      after found = elim found [
        | none ↦ pure none
        | some booking ↦ (do
          _ ← S.field_bookings.update (is_booking booking.id) (with_status status)
          refreshed ← S.field_bookings.refresh booking
          pure (some refreshed))
      ]
