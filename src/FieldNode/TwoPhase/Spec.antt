-- ===== src/FieldNode/TwoPhase/Spec.antt =====
-- What a booking with utilities promises, apart from how it is brought about: a verdict that the
-- database and the lock of the slot decide, and what each verdict does to the database.
use ds_practice_court.Base.{
  ℕ, ◌≡◌, Bool, true, false, Option, none, some, List, [], ◌∷◌, ◌++◌, Result, ok, err, Exn,
  http_exception, fault, multiple_results, field_not_found, field_not_available, slot_locked,
  slot_booked, internal_error, aborted as txn_aborted, if◌then◌else◌, find?, where_rows,
}
use ds_practice_court.Shared.Schemas.{failed, cancelled, aborted, FieldBookingRequest}
use ds_practice_court.Shared.Models.{Tables, Field, FieldBooking}
use ds_practice_court.Services.{Services, IsLawful, Value}
use ds_practice_court.FieldNode.FieldRepository.{is_field}
use ds_practice_court.FieldNode.FieldBookingRepository.{
  is_booking, blocks, new_booking, with_status,
}
use ds_practice_court.FieldNode.Coordinator.{txn_key}
use ds_practice_court.FieldNode.Coordinator.Redis.{txn_value}
use ds_practice_court.FieldNode.Coordinator.Prepare.{Booked}
use ds_practice_court.FieldNode.Coordinator.Answers.{all_can_book, Elsewhere}
use ds_practice_court.FieldNode.TwoPhase.Success.{BookingStands}

-- The request is refused with an exception, or booked, or undone after a NO.
pub data Verdict : Type 0 where
  refused : Exn → Verdict
  booked undone : Verdict

abbrev pub is_taken : Option Value → Bool
is_taken none = false
is_taken (some v) = true

-- By the rows of the field: the key of a table allows one.
abbrev pub field_verdict : List Field → Verdict → Verdict
field_verdict [] slot = refused (http_exception 404 field_not_found)
field_verdict (f ∷ []) slot =
    if f.is_active then slot else refused (http_exception 409 field_not_available)
field_verdict (f ∷ g ∷ fs) slot = refused (fault multiple_results)

-- By the lock of the slot, the active bookings in the way, and whether the utilities can be booked.
abbrev pub slot_verdict : Bool → List FieldBooking → Bool → Verdict
slot_verdict true bs able = refused (http_exception 409 slot_locked)
slot_verdict false [] able = if able then booked else undone
slot_verdict false (b ∷ []) able = refused (http_exception 409 slot_booked)
slot_verdict false (b ∷ c ∷ bs) able = refused (http_exception 500 internal_error)

abbrev pub verdict : FieldBookingRequest → Tables → Option Value → Verdict
verdict body t lock = field_verdict (where_rows (is_field body.field_id) t.fields) (
    slot_verdict (is_taken lock)
      (where_rows (blocks body.field_id body.start_time body.end_time) t.field_bookings)
      (all_can_book t.utilities body.utility_ids))

module _ (S : Services) (L : IsLawful S) (body : FieldBookingRequest) where
  open L use {tables, broker}

  -- What an undone booking leaves behind: the new field booking is FAILED, the utility bookings made
  -- for it are CANCELLED, and every other row is as it was. Redis holds ABORTED with their ids.
  abbrev pub Undone : S.World → S.World → Type 0
  Undone w w' =
      (fid : ℕ) × (now : ℕ) × (is : List ℕ) × (find? (is_booking fid) (tables w).field_bookings
        ≡ none)
      × ((tables w').fields ≡ (tables w).fields)
      × ((tables w').utilities ≡ (tables w).utilities)
      × ((tables w').field_bookings
          ≡ (tables w).field_bookings
            ++ with_status failed
                (new_booking body.field_id body.user_id body.start_time body.end_time fid now)
              ∷ [])
      × Booked fid cancelled (tables w').utility_bookings body.utility_ids is
      × Elsewhere is (tables w) (tables w')
      × ((broker w').stored (txn_key fid) ≡ some (txn_value aborted is))

  -- A run keeps a verdict.
  abbrev pub Keeps : Verdict → S.World → Result (Option FieldBooking) × S.World → Type 0
  Keeps (refused e) w r = (r.0 ≡ err e) × (tables r.1 ≡ tables w)
  Keeps booked w r = (o : Option FieldBooking) × (r.0 ≡ ok o) × BookingStands S L body w o r.1
  Keeps undone w r = (r.0 ≡ err (http_exception 409 txn_aborted)) × Undone w r.1
