-- ===== src/FieldNode/FieldBookingRepository/Instants.antt =====
-- The WHERE of `check_availability`, and what it stands for: an instant that two intervals share.
use ds_practice_court.Base.{ℕ, ◌≤◌, ◌<◌}
use ds_practice_court.Shared.Models.{FieldBooking}

-- An instant of both half-open intervals.
abbrev pub Shares : ℕ → ℕ → FieldBooking → Type 0
Shares st en b = (t : ℕ) × (st ≤ t) × (t < en) × (b.start_time ≤ t) × (t < b.end_time)
