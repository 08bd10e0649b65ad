-- ===== src/UtilityNode/Endpoints.antt =====
-- utility_node/app/main.py: the endpoints of the participant.
pub mod Updates
pub mod Votes
pub mod Answers
pub mod Created
use ds_practice_court.Base.{
  ℕ, Bool, true, false, Option, none, some, List, [], ◌∷◌, Action, Done, pure, raise, ◌>>=◌, ◌>>◌,
  try_except, http_exception, utility_not_found,
}
use ds_practice_court.Base.Text.{Text, codes}
use ds_practice_court.Shared.Schemas.{
  BookingStatus, confirmed, cancelled, yes_vote, no_vote, UtilityBase, PrepareRequest,
  PrepareResponse, CommitRollbackRequest, CommitRollbackResponse, HealthResponse,
}
use ds_practice_court.Shared.Models.{Utility, UtilityBooking}
use ds_practice_court.Services.{Services}
use ds_practice_court.UtilityNode.UtilityRepository
use ds_practice_court.UtilityNode.UtilityBookingRepository

abbrev pub vote_no : PrepareResponse
vote_no = record { vote = no_vote; utility_booking_id = none }

abbrev pub vote_yes : ℕ → PrepareResponse
vote_yes i = record { vote = yes_vote; utility_booking_id = some i }

-- `utility and utility.is_active`
unfoldable pub is_bookable : Option Utility → Bool
is_bookable none = false
is_bookable (some u) = u.is_active

module _ (S : Services) where
  unfoldable pub list_utilities : Action S.World (List Utility)
  list_utilities = UtilityRepository.get_all S

  unfoldable pub get_utility : ℕ → Action S.World Utility
  get_utility utility_id = do
    utility ← UtilityRepository.get_by_id S utility_id
    elim utility [ none ↦ raise (http_exception 404 utility_not_found) | some u ↦ pure u ]

  unfoldable pub create_utility_booking : UtilityBase → Action S.World Utility
  create_utility_booking body =
      UtilityRepository.create S body.name body.utility_type body.price_per_hour true

  unfoldable pub list_utility_bookings : Action S.World (List UtilityBooking)
  list_utility_bookings = UtilityBookingRepository.get_all S

  unfoldable pub get_by_field_booking : ℕ → Action S.World (List UtilityBooking)
  get_by_field_booking = UtilityBookingRepository.get_by_field_booking S

  -- The `try` of `internal_prepare`: any exception is a NO.
  unfoldable pub book_utility : PrepareRequest → Action S.World PrepareResponse
  book_utility req =
      try_except
        (do
          booking ← UtilityBookingRepository.create S req.utility_id req.field_booking_id
          pure (vote_yes booking.id))
        (λ _. pure vote_no)

  unfoldable pub internal_prepare : PrepareRequest → Action S.World PrepareResponse
  unfolding book_utility is_bookable
  internal_prepare req = do
    utility ← UtilityRepository.get_by_id S req.utility_id
    elim (is_bookable utility) [ true ↦ book_utility req | false ↦ pure vote_no ]

  -- `for ub_id in req.utility_booking_ids: await update_status(db, ub_id, status)`
  unfoldable pub update_all : BookingStatus → List ℕ → Action S.World Done
  update_all status [] = pure tt
  update_all status (ub_id ∷ ub_ids) = do
    _ ← UtilityBookingRepository.update_status S ub_id status
    update_all status ub_ids

  unfoldable pub internal_commit : CommitRollbackRequest → Action S.World CommitRollbackResponse
  unfolding update_all
  internal_commit req = do
    update_all confirmed req.utility_booking_ids
    pure (record { is_ok = true })

  unfoldable pub internal_rollback : CommitRollbackRequest → Action S.World CommitRollbackResponse
  unfolding update_all
  internal_rollback req = do
    update_all cancelled req.utility_booking_ids
    pure (record { is_ok = true })

-- `node_id` of the settings
unfoldable pub health : Text → HealthResponse
health node_id = record { status = codes "ok"; service = node_id }
