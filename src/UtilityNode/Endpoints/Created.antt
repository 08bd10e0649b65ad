-- ===== src/UtilityNode/Endpoints/Created.antt =====
-- A utility that `/utilities` has created, as the endpoints show it afterwards.
use ds_practice_court.Base.{
  ◌≡◌, ◌⊎◌, inl, inr, true, [], ◌∷◌, ◌++◌, ok, err, fault, database, arith, where_rows,
  where_rows_all, Result-cases, refl, ◌∙◌,
}
use ds_practice_court.Shared.Schemas.{UtilityBase}
use ds_practice_court.Shared.Models.{Utility}
use ds_practice_court.Services.{Services, IsLawful, put_utilities}
use ds_practice_court.Services.Facts.{inserted}
use ds_practice_court.UtilityNode.UtilityRepository
use ds_practice_court.UtilityNode.UtilityRepository.{is_utility}
use ds_practice_court.UtilityNode.Endpoints.{create_utility_booking, get_utility, list_utilities}

-- The utility has the name that the client has asked for, and the type and the price as their columns
-- store them. It is active, and its price is by the hour.
abbrev pub IsHourlyAsAsked : Services → UtilityBase → Utility → Type 0
IsHourlyAsAsked S body u =
    (u.name ≡ body.name)
    × (u.utility_type ≡ S.utility_type_column body.utility_type)
    × (u.price_per_hour ≡ S.price_column body.price_per_hour)
    × (u.is_active ≡ true)
    × (u.is_hourly ≡ true)

module _ (S : Services) (L : IsLawful S) (body : UtilityBase) (w : S.World) {q : Utility} where
  open L use {tables, broker, utilities_lawful}

  created :
      (create_utility_booking S body w).0 ≡ ok q
      → let v = tables (create_utility_booking S body w).1 in
        IsHourlyAsAsked S body q
        × (where_rows (is_utility q.id) v.utilities ≡ q ∷ [])
        × (v.utilities ≡ (tables w).utilities ++ q ∷ [])
  unfolding create_utility_booking UtilityRepository.create
  created h =
      let (i, now, made, one, behind) =
        inserted S.utilities (λ r. r.id) tables broker (λ t. t.utilities) put_utilities
          utilities_lawful (λ rs x. refl)
          (λ i now. record {
            id = i;
            name = body.name;
            utility_type = S.utility_type_column body.utility_type;
            price_per_hour = S.price_column body.price_per_hour;
            is_hourly = true;
            is_active = true;
          })
          (λ i now. refl) w h in
      (rw made (refl, refl, refl, refl, refl), one, behind)

  -- If `create_utility_booking`, the endpoint that creates a utility, returns one, it has the name that
  -- was asked for, and the type and the price as their columns store what was asked for. It is active
  -- and hourly, whatever `is_hourly` was; the description is not kept. In the state that it leaves,
  -- `get_utility` finds it under its id, and `list_utilities` shows it after those that were there
  -- before, unless the database raises.
  pub create_utility_booking-get_utility :
      (create_utility_booking S body w).0 ≡ ok q
      → let v = (create_utility_booking S body w).1 in
        IsHourlyAsAsked S body q
        × (((get_utility S q.id v).0 ≡ ok q) ⊎ ((get_utility S q.id v).0 ≡ err (fault database)))
        × (((list_utilities S v).0 ≡ ok ((tables w).utilities ++ q ∷ []))
            ⊎ ((list_utilities S v).0 ≡ err (fault database)))
  unfolding get_utility list_utilities UtilityRepository.get_by_id UtilityRepository.get_all
  create_utility_booking-get_utility h =
      let (asked, one, behind) = created h in
      let v = (create_utility_booking S body w).1 in
      (
        asked,
        elim (Result-cases (S.utilities.select (is_utility q.id) v).0) [
          | inl (rs, e) ↦
              let found : rs ≡ q ∷ [] = utilities_lawful.select-ok (is_utility q.id) v e ∙ one in
              inl (ground (arith, e, found, L.one_or_none-one q))
          | inr (x, e) ↦ inr (ground (arith, e, utilities_lawful.select-err (is_utility q.id) v e))
        ],
        elim (Result-cases (S.utilities.select (λ _. true) v).0) [
          | inl (rs, e) ↦
              let all = utilities_lawful.select-ok (λ _. true) v e in
              inl (ground (arith, e, all, behind, where_rows_all ((tables w).utilities ++ q ∷ [])))
          | inr (x, e) ↦ inr (ground (arith, e, utilities_lawful.select-err (λ _. true) v e))
        ],
      )
