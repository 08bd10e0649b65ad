-- ===== src/UtilityNode/UtilityRepository.antt =====
-- utility_node/app/repositories/utility_repository.py
use ds_practice_court.Base.{ℕ, ◌==◌, Bool, true, Option, List, Action, ◌>>=◌, lift_result}
use ds_practice_court.Base.Text.{Text}
use ds_practice_court.Shared.Models.{Utility}
use ds_practice_court.Services.{Services}

abbrev pub is_utility : ℕ → Utility → Bool
is_utility utility_id u = u.id == utility_id

module _ (S : Services) where
  unfoldable pub get_all : Action S.World (List Utility)
  get_all = S.utilities.select (λ _. true)

  unfoldable pub get_by_id : ℕ → Action S.World (Option Utility)
  get_by_id utility_id = do
    result ← S.utilities.select (is_utility utility_id)
    lift_result (S.scalar_one_or_none result)

  -- The new row is written as its columns store it. `is_hourly` is not passed on and takes the
  -- column's default.
  unfoldable pub create : Text → Text → ℕ → Bool → Action S.World Utility
  create name utility_type price_per_hour is_active = do
    utility ← S.utilities.add_commit (λ i now. record {
      id = i;
      name = name;
      utility_type = S.utility_type_column utility_type;
      price_per_hour = S.price_column price_per_hour;
      is_hourly = true;
      is_active = is_active;
    })
    S.utilities.refresh utility
