-- ===== src/UtilityNode/Endpoints/Votes.antt =====
-- `/internal/prepare`: what a vote says about the tables.
use ds_practice_court.Base.{
  ℕ, ◌≡◌, refl, ◌⊎◌, inl, inr, true, false, Bool-cases, Option, none, some, [], ◌∷◌, ◌++◌, ok, err,
  arith, find?, bind_ok, Result-cases, Exn, fault, database, lift_result,
}
use ds_practice_court.Shared.Schemas.{PrepareRequest, PrepareResponse}
use ds_practice_court.Shared.Models.{Tables, Utility, UtilityBooking}
use ds_practice_court.Services.{Services, IsLawful, put_utility_bookings}
use ds_practice_court.Services.Facts.{one_or_none-find?, insert-broker, insert_ok, insert_err}
use ds_practice_court.UtilityNode.UtilityRepository
use ds_practice_court.UtilityNode.UtilityRepository.{is_utility}
use ds_practice_court.UtilityNode.UtilityBookingRepository
use ds_practice_court.UtilityNode.UtilityBookingRepository.{is_utility_booking, new_utility_booking}
use ds_practice_court.UtilityNode.Endpoints.{
  vote_no, vote_yes, is_bookable, book_utility, internal_prepare,
}

-- The table with the PENDING row `i` of a request behind it, where no row had that id.
abbrev pub AddsPending : PrepareRequest → ℕ → Tables → Tables → Type 0
AddsPending req i t t' =
    (find? (is_utility_booking i) t.utility_bookings ≡ none)
    × (t'
        ≡ put_utility_bookings
            (t.utility_bookings ++ new_utility_booking req.utility_id req.field_booking_id i 0 ∷ [])
            t)

-- What each answer says.
abbrev pub VoteMeans : PrepareRequest → PrepareResponse → Tables → Tables → Type 0
VoteMeans req r t t' =
    ((i : ℕ) × (u : Utility) × (r ≡ vote_yes i)
      × (find? (is_utility req.utility_id) t.utilities ≡ some u)
      × (u.is_active ≡ true)
      × AddsPending req i t t')
    ⊎ ((r ≡ vote_no) × ((t' ≡ t) ⊎ ((i : ℕ) × AddsPending req i t t')))

bookable_cases :
    (o : Option Utility)
    → ((u : Utility) × (o ≡ some u) × (u.is_active ≡ true)) ⊎ (is_bookable o ≡ false)
unfolding is_bookable
bookable_cases none = inr refl
bookable_cases (some u) = elim (Bool-cases u.is_active) [
  | inl active ↦ inl (u, refl, active)
  | inr idle ↦ inr idle
]

module _ (S : Services) (L : IsLawful S) where
  open L use {tables, broker, utilities_lawful, utility_bookings_lawful}

  pub get_by_id-tables :
      (i : ℕ) (w : S.World) → tables (UtilityRepository.get_by_id S i w).1 ≡ tables w
  unfolding UtilityRepository.get_by_id
  get_by_id-tables i w = grind (arith, utilities_lawful.select-tables (is_utility i) w)

  pub get_by_id-broker :
      (i : ℕ) (w : S.World) → broker (UtilityRepository.get_by_id S i w).1 ≡ broker w
  unfolding UtilityRepository.get_by_id
  get_by_id-broker i w = grind (arith, utilities_lawful.select-broker (is_utility i) w)

  pub get_by_id_finds :
      (i : ℕ) (w : S.World) {o : Option Utility}
      → (UtilityRepository.get_by_id S i w).0 ≡ ok o
      → o ≡ find? (is_utility i) (tables w).utilities
  unfolding UtilityRepository.get_by_id
  get_by_id_finds i w {o} h =
      let (rs, e, step) =
        bind_ok (S.utilities.select (is_utility i)) (λ rs. lift_result (S.scalar_one_or_none rs)) w
          h in
      one_or_none-find? S L (is_utility i) (tables w).utilities rs
        (utilities_lawful.select-ok (is_utility i) w e) (rw step at h)

  pub create-broker :
      (u fid : ℕ) (w : S.World) → broker (UtilityBookingRepository.create S u fid w).1 ≡ broker w
  unfolding UtilityBookingRepository.create
  create-broker u fid w =
      insert-broker S.utility_bookings (λ r. r.id) tables broker (λ t. t.utility_bookings)
        put_utility_bookings utility_bookings_lawful (λ rs x. refl) (new_utility_booking u fid)
        (λ i now. refl) w

  pub create_ok :
      (u fid : ℕ) (w : S.World) {q : UtilityBooking}
      → (UtilityBookingRepository.create S u fid w).0 ≡ ok q
      → (i : ℕ) × (now : ℕ) × (q ≡ new_utility_booking u fid i now)
        × (find? (is_utility_booking i) (tables w).utility_bookings ≡ none)
        × (tables (UtilityBookingRepository.create S u fid w).1
            ≡ put_utility_bookings ((tables w).utility_bookings ++ q ∷ []) (tables w))
  unfolding UtilityBookingRepository.create
  create_ok u fid w h =
      insert_ok S.utility_bookings (λ r. r.id) tables broker (λ t. t.utility_bookings)
        put_utility_bookings utility_bookings_lawful (λ rs x. refl) (new_utility_booking u fid)
        (λ i now. refl) w h

  pub create_err :
      (u fid : ℕ) (w : S.World) {e : Exn}
      → (UtilityBookingRepository.create S u fid w).0 ≡ err e
      → (e ≡ fault database)
        × ((tables (UtilityBookingRepository.create S u fid w).1 ≡ tables w)
            ⊎ ((i : ℕ) × (now : ℕ) × (find? (is_utility_booking i) (tables w).utility_bookings
                  ≡ none)
                × (tables (UtilityBookingRepository.create S u fid w).1
                    ≡ put_utility_bookings
                        ((tables w).utility_bookings ++ new_utility_booking u fid i now ∷ [])
                        (tables w))))
  unfolding UtilityBookingRepository.create
  create_err u fid w h =
      insert_err S.utility_bookings (λ r. r.id) tables broker (λ t. t.utility_bookings)
        put_utility_bookings utility_bookings_lawful (λ rs x. refl) (new_utility_booking u fid)
        (λ i now. refl) w h

  book_utility-broker :
      (req : PrepareRequest) (w : S.World) → broker (book_utility S req w).1 ≡ broker w
  unfolding book_utility
  book_utility-broker req w = ground (arith, create-broker req.utility_id req.field_booking_id w)

  pub internal_prepare-broker :
      (req : PrepareRequest) (w : S.World) → broker (internal_prepare S req w).1 ≡ broker w
  unfolding internal_prepare
  internal_prepare-broker req w = ground (
    arith,
    get_by_id-broker req.utility_id w,
    book_utility-broker req (UtilityRepository.get_by_id S req.utility_id w).1,
  )

  book_utility_outcome :
      (req : PrepareRequest) (w : S.World)
      → let t = tables w in
        let t' = tables (book_utility S req w).1 in
        ((i : ℕ) × ((book_utility S req w).0 ≡ ok (vote_yes i)) × AddsPending req i t t')
        ⊎ (((book_utility S req w).0 ≡ ok vote_no)
            × ((t' ≡ t) ⊎ ((i : ℕ) × AddsPending req i t t')))
  unfolding book_utility
  book_utility_outcome req w =
      let m = UtilityBookingRepository.create S req.utility_id req.field_booking_id w in
      elim (Result-cases m.0) [
        | inl (q, e) ↦
            let (i, now, made, fresh, after) = create_ok req.utility_id req.field_booking_id w e in
            inl (i, ground (arith, e, made), (fresh, ground (arith, e, made, after)))
        | inr (x, e) ↦ inr (
          ground (arith, e),
          elim (create_err req.utility_id req.field_booking_id w e).1 [
            | inl same ↦ inl (ground (arith, e, same))
            | inr (i, now, fresh, after) ↦ inr (i, (fresh, ground (arith, e, after)))
          ],
        )
      ]

  pub internal_prepare_outcome :
      (req : PrepareRequest) (w : S.World) {r : PrepareResponse}
      → (internal_prepare S req w).0 ≡ ok r
      → VoteMeans req r (tables w) (tables (internal_prepare S req w).1)
  unfolding internal_prepare is_bookable
  internal_prepare_outcome req w {r} h =
      let (o, e, step) = bind_ok (UtilityRepository.get_by_id S req.utility_id) _ w h in
      let w1 = (UtilityRepository.get_by_id S req.utility_id w).1 in
      let same = get_by_id-tables req.utility_id w in
      let found = get_by_id_finds req.utility_id w e in
      elim (bookable_cases o) [
        | inl (u, is_u, active) ↦ elim (book_utility_outcome req w1) [
          | inl (i, voted, adds) ↦ inl (
            i,
            u,
            ground (arith, step, is_u, active, voted),
            ground (arith, found, is_u),
            active,
            (ground (arith, adds, same), ground (arith, step, is_u, active, adds, same)),
          )
          | inr (voted, inl kept) ↦ inr (
            ground (arith, step, is_u, active, voted),
            inl (ground (arith, step, is_u, active, kept, same)),
          )
          | inr (voted, inr (i, adds)) ↦ inr (
            ground (arith, step, is_u, active, voted),
            inr (i, (ground (arith, adds, same), ground (arith, step, is_u, active, adds, same))),
          )
        ]
        | inr unbookable ↦
            inr (ground (arith, step, unbookable), inl (ground (arith, step, unbookable, same)))
      ]

  internal_prepare_err :
      (req : PrepareRequest) (w : S.World) {x : Exn}
      → (internal_prepare S req w).0 ≡ err x
      → tables (internal_prepare S req w).1 ≡ tables w
  unfolding internal_prepare
  internal_prepare_err req w {x} h = ground (
    arith,
    get_by_id-tables req.utility_id w,
    book_utility_outcome req (UtilityRepository.get_by_id S req.utility_id w).1,
  )

  -- However a request ends, it adds at most one PENDING row, with a new id.
  pub internal_prepare_adds :
      (req : PrepareRequest) (w : S.World)
      → let t = tables w in
        let t' = tables (internal_prepare S req w).1 in
        (t' ≡ t) ⊎ ((i : ℕ) × AddsPending req i t t')
  internal_prepare_adds req w = elim (Result-cases (internal_prepare S req w).0) [
    | inl (r, e) ↦ elim (internal_prepare_outcome req w e) [
      | inl (i, u, _, _, _, adds) ↦ inr (i, adds)
      | inr (_, added) ↦ added
    ]
    | inr (x, e) ↦ inl (internal_prepare_err req w e)
  ]
