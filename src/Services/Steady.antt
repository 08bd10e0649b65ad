-- ===== src/Services/Steady.antt =====
-- The services in memory over a network that loses nothing: they are up.
use ds_practice_court.Base.{ℕ, ◌≡◌, refl, inl, inr, Bool, ok, Result-cases, Action, arith}
use ds_practice_court.Base.Text.{Text}
use ds_practice_court.Shared.Models.{Field, FieldBooking, Utility, UtilityBooking}
use ds_practice_court.Services.Defs.{Value, Services}
use ds_practice_court.Services.Laws.{
  IsLawful, put_fields, put_field_bookings, put_utilities, put_utility_bookings,
}
use ds_practice_court.Services.Up.{Answered, IsUp}
use ds_practice_court.Services.Memory.{
  before_last, Memory, Alike, in_memory, in_memory_lawful, heard, heard-Posted, memory_set_nx,
  is_free, memory_table-IsTableUp, known_names, listed,
}

abbrev pub steady : Services
steady = in_memory (λ A h w. heard (h w)) known_names

unfoldable pub steady_lawful : IsLawful steady
unfolding in_memory_lawful
steady_lawful =
    in_memory_lawful (λ A h w. heard (h w)) known_names (λ A h w. heard-Posted h w w (refl, refl))

memory_set_nx_up :
    (k : Text) (v : Value) (n : ℕ) (w : Memory) → (b : Bool) × ((memory_set_nx k v n w).0 ≡ ok b)
unfolding memory_set_nx
memory_set_nx_up k v n w = (is_free (w.broker.stored k), ground arith)

heard-Answered :
    {A : Type 0} (h : Action Memory A) (w : Memory) → Answered Memory A Alike h w (heard (h w))
heard-Answered h w = elim (Result-cases (h w).0) [
  | inl (a, e) ↦ record {
    before = w;
    arrived = (refl, refl);
    returned = ground (arith, e);
    answer = inl (a, e, ground (arith, e));
  }
  | inr (x, e) ↦ record {
    before = w;
    arrived = (refl, refl);
    returned = ground (arith, e);
    answer = inr (x, e, ground (arith, e));
  }
]

pub steady-IsUp : IsUp steady steady_lawful
unfolding steady_lawful in_memory_lawful
steady-IsUp = record {
  fields_up = memory_table-IsTableUp Field (λ r. r.id) (λ t. t.fields) put_fields;
  field_bookings_up =
      memory_table-IsTableUp FieldBooking (λ r. r.id) (λ t. t.field_bookings) put_field_bookings;
  utilities_up = memory_table-IsTableUp Utility (λ r. r.id) (λ t. t.utilities) put_utilities;
  utility_bookings_up =
      memory_table-IsTableUp UtilityBooking (λ r. r.id) (λ t. t.utility_bookings)
        put_utility_bookings;
  enter-up = λ w. refl;
  get-up = λ k w. (w.broker.stored k, refl);
  keys-up = λ k w. (listed known_names (before_last k) w.broker.stored, refl);
  set-up = λ k v n w. refl;
  delete-up = λ k w. refl;
  publish-up = λ m w. refl;
  set_nx-up = memory_set_nx_up;
  eval-up = λ f w. ((f w).0, refl);
  post-up = λ {A} h w. heard-Answered h w;
}
