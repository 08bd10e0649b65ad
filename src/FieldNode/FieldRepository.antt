-- ===== src/FieldNode/FieldRepository.antt =====
-- field_node/app/repositories/field_repository.py
pub mod Calls
use ds_practice_court.Base.{ℕ, ◌==◌, Bool, true, Option, List, Action, ◌>>=◌, lift_result}
use ds_practice_court.Base.Text.{Text}
use ds_practice_court.Shared.Models.{Field}
use ds_practice_court.Services.{Services}

abbrev pub is_field : ℕ → Field → Bool
is_field field_id f = f.id == field_id

module _ (S : Services) where
  unfoldable pub get_all : Action S.World (List Field)
  get_all = S.fields.select (λ _. true)

  unfoldable pub get_by_id : ℕ → Action S.World (Option Field)
  get_by_id field_id = do
    result ← S.fields.select (is_field field_id)
    lift_result (S.scalar_one_or_none result)

  -- The new row is written as its columns store it; a value that an ENUM does not have, or a text
  -- that is too long, makes the INSERT raise.
  unfoldable pub create : Text → Text → Text → ℕ → Bool → Action S.World Field
  create name location sport_type price_per_hour is_active = do
    field ← S.fields.add_commit (λ i now. record {
      id = i;
      name = name;
      location = location;
      sport_type = S.sport_column sport_type;
      price_per_hour = S.price_column price_per_hour;
      is_active = is_active;
      created_at = now;
    })
    S.fields.refresh field
