-- ===== src/Tests/Listing.antt =====
-- The holds that a page lists after a message of the web socket.
use ds_practice_court.Base.{◌≡◌, refl, [], ◌∷◌, ok}
use ds_practice_court.Base.Text.{Text, codes, text_eq, decimal, strip_prefix}
use ds_practice_court.Services.{plain}
use ds_practice_court.Services.Memory.{Memory, listed, before_last}
use ds_practice_court.Services.Steady.{steady, steady_lawful}
use ds_practice_court.FieldNode.Holds.{
  holder, hold_slots, hold_each, get_active_holds, collect_holds, put_hold, after_colons, is_empty,
}
use ds_practice_court.Tests.Worlds.{quiet_world}
use ds_practice_court.Tests.Holds.{two_slots}
open steady_lawful use {tables, broker}

-- Anna holds two slots.
abbrev held_world : Memory
held_world = (hold_slots steady 1 two_slots quiet_world).1

abbrev first_of_june : Text
first_of_june = codes "2025-06-01"

both_listed :
    (get_active_holds steady 1 first_of_june held_world).0
    ≡ ok ((codes "10:00", plain (codes "anna")) ∷ (codes "11:00", plain (codes "anna")) ∷ [])
unfolding hold_slots hold_each get_active_holds collect_holds put_hold after_colons holder is_empty
    listed before_last text_eq decimal strip_prefix
both_listed = refl
