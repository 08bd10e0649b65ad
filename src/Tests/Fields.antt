-- ===== src/Tests/Fields.antt =====
-- A new field and a new utility.
use ds_practice_court.Base.{
  ℕ, ◌≡◌, ◌⊎◌, refl, true, false, none, [], ◌∷◌, ◌++◌, List, Exn, ok, err, fault, database,
}
use ds_practice_court.Base.Text.{codes, text_eq}
use ds_practice_court.Shared.Schemas.{FieldBase, UtilityBase, field_base_accepts}
use ds_practice_court.Shared.Responses.{field_response}
use ds_practice_court.FieldNode.Bookings.Shown.{IsShown, AnswersWith, create_field-IsShown}
use ds_practice_court.Shared.Models.{Field, Utility}
use ds_practice_court.Services.Memory.{
  memory, memory_lawful, memory_table, next_id, sport_of, lower,
}
use ds_practice_court.FieldNode.FieldRepository
use ds_practice_court.FieldNode.Bookings.{create_field, get_field, list_fields}
use ds_practice_court.FieldNode.Bookings.Fields.{AsAsked, create_field-get_field}
use ds_practice_court.UtilityNode.UtilityRepository
use ds_practice_court.UtilityNode.Endpoints.{create_utility_booking, get_utility, list_utilities}
use ds_practice_court.UtilityNode.Endpoints.Created.{
  IsHourlyAsAsked, create_utility_booking-get_utility,
}
use ds_practice_court.Tests.Worlds.{quiet_world}
open memory_lawful use {tables}

abbrev asked_court : FieldBase
asked_court = record {
  name = codes "Court P";
  location = codes "Zone P";
  sport_type = codes "Football";
  price_per_hour = 120050;
}

abbrev new_court : Field
new_court = record {
  id = 3;
  name = codes "Court P";
  location = codes "Zone P";
  sport_type = codes "football";
  price_per_hour = 120000;
  is_active = true;
  created_at = 7;
}

new_created : (create_field memory asked_court quiet_world).0 ≡ ok new_court
unfolding create_field FieldRepository.create memory_table next_id sport_of lower text_eq
new_created = refl

create_field-get_field_example :
    let v = (create_field memory asked_court quiet_world).1 in
    AsAsked memory asked_court new_court
    × (((get_field memory 3 v).0 ≡ ok new_court)
        ⊎ ((get_field memory 3 v).0 ≡ err (fault database)))
    × (((list_fields memory v).0 ≡ ok ((tables quiet_world).fields ++ new_court ∷ []))
        ⊎ ((list_fields memory v).0 ≡ err (fault database)))
create_field-get_field_example =
    create_field-get_field memory memory_lawful asked_court quiet_world new_created

-- A price is a natural number here, and shown as it is.
abbrev as_is : ℕ → ℕ
as_is n = n

quiet-IsShown : IsShown as_is (tables quiet_world).fields
unfolding field_response field_base_accepts memory_lawful
quiet-IsShown = ((_, refl), ((_, refl), tt))

asked_accepted : field_base_accepts asked_court ≡ true
unfolding field_base_accepts
asked_accepted = refl

create_field-IsShown_example :
    let r = create_field memory asked_court quiet_world in
    IsShown as_is (tables r.1).fields
    × (((e : Exn) × (r.0 ≡ err e))
        ⊎ ((q : Field) × (r.0 ≡ ok q) × AnswersWith memory memory_lawful as_is asked_court q))
    × (((list_fields memory r.1).0 ≡ err (fault database))
        ⊎ ((fs : List Field) × ((list_fields memory r.1).0 ≡ ok fs) × IsShown as_is fs))
create_field-IsShown_example =
    create_field-IsShown memory memory_lawful as_is asked_court quiet_world asked_accepted
      quiet-IsShown

-- Asked for as not hourly, and stored as hourly.
abbrev ball_machine : UtilityBase
ball_machine = record {
  name = codes "Ball machine";
  description = none;
  price_per_hour = 90000;
  utility_type = codes "Equipment_rental";
  is_hourly = false;
}

abbrev hourly_machine : Utility
hourly_machine = record {
  id = 6;
  name = codes "Ball machine";
  utility_type = codes "equipment_rental";
  price_per_hour = 90000;
  is_hourly = true;
  is_active = true;
}

machine_created : (create_utility_booking memory ball_machine quiet_world).0 ≡ ok hourly_machine
unfolding create_utility_booking UtilityRepository.create memory_table next_id lower
machine_created = refl

create_utility_booking-get_utility_example :
    let v = (create_utility_booking memory ball_machine quiet_world).1 in
    IsHourlyAsAsked memory ball_machine hourly_machine
    × (((get_utility memory 6 v).0 ≡ ok hourly_machine)
        ⊎ ((get_utility memory 6 v).0 ≡ err (fault database)))
    × (((list_utilities memory v).0 ≡ ok ((tables quiet_world).utilities ++ hourly_machine ∷ []))
        ⊎ ((list_utilities memory v).0 ≡ err (fault database)))
create_utility_booking-get_utility_example =
    create_utility_booking-get_utility memory memory_lawful ball_machine quiet_world machine_created
