-- ===== src/FieldNode/FieldBookingRepository/Overlap.antt =====
-- No two active bookings of a field overlap: what the calls of the repository do to that.
use ds_practice_court.Base.{
  if◌then◌else◌, All-append, ℕ, ◌≡◌, refl, inl, inr, ◌==◌, ◌&&◌, ◌++◌, ltb, Bool, true, false, none,
  List, [], ◌∷◌, arith, find?, change_where, All, Bool-cases, Result-cases,
}
use ds_practice_court.Base.Text.{Text}
use ds_practice_court.Shared.Schemas.{BookingStatus, is_active_status}
use ds_practice_court.Shared.Models.{FieldBooking}
use ds_practice_court.Services.{Services, IsLawful}
use ds_practice_court.FieldNode.FieldBookingRepository.{
  is_booking, blocks, new_booking, with_status, create_pending, update_status,
}
use ds_practice_court.FieldNode.FieldBookingRepository.Calls.{
  create_pending_ok, create_pending_err, update_status_either,
}

-- Two bookings that must not both be there.
abbrev pub clash : FieldBooking → FieldBooking → Bool
clash b c =
    (b.field_id == c.field_id)
    && is_active_status b.status
    && is_active_status c.status
    && ltb b.start_time c.end_time
    && ltb c.start_time b.end_time

abbrev pub NoOverlap : List FieldBooking → Type 0
NoOverlap [] = Unit
NoOverlap (b ∷ bs) = All (λ c. clash b c ≡ false) bs × NoOverlap bs

clash-free :
    (f : ℕ) (user : Text) (st en i now : ℕ) (b : FieldBooking)
    → blocks f st en b ≡ false
    → clash b (new_booking f user st en i now) ≡ false
unfolding blocks
clash-free f user st en i now b h = ground (arith, h)

All-clash-append :
    (b c : FieldBooking) (bs : List FieldBooking)
    → All (λ x. clash b x ≡ false) bs
    → clash b c ≡ false
    → All (λ x. clash b x ≡ false) (bs ++ c ∷ [])
All-clash-append b c [] h k = (k, tt)
All-clash-append b c (x ∷ bs) h k = (h.0, All-clash-append b c bs h.1 k)

-- A booking for an interval that nothing blocks overlaps nothing.
pub NoOverlap-append :
    (f : ℕ) (user : Text) (st en i now : ℕ) (bs : List FieldBooking)
    → find? (blocks f st en) bs ≡ none
    → NoOverlap bs
    → NoOverlap (bs ++ new_booking f user st en i now ∷ [])
NoOverlap-append f user st en i now [] h n = (tt, tt)
NoOverlap-append f user st en i now (b ∷ bs) h n = (
  All-clash-append b (new_booking f user st en i now) bs n.0
      (clash-free f user st en i now b (ground (arith, h))),
  NoOverlap-append f user st en i now bs (ground (arith, h)) n.1,
)

-- `c` stands for the same slot as `b` and is active only if `b` is.
abbrev IsQuieter : FieldBooking → FieldBooking → Type 0
IsQuieter b c =
    (c.field_id ≡ b.field_id)
    × (c.start_time ≡ b.start_time)
    × (c.end_time ≡ b.end_time)
    × ((is_active_status c.status ≡ true) → is_active_status b.status ≡ true)

clash-IsQuieter :
    (b c b' c' : FieldBooking)
    → IsQuieter b b'
    → IsQuieter c c'
    → clash b c ≡ false
    → clash b' c' ≡ false
clash-IsQuieter b c b' c' p q h = ground (arith, p, q, h)

-- A status that wakes this row not up: it is inactive, or the row that takes it is active already.
abbrev WakesNot : ℕ → BookingStatus → FieldBooking → Type 0
WakesNot i status b =
    is_booking i b ≡ true → is_active_status status ≡ true → is_active_status b.status ≡ true

abbrev pub WakesNone : ℕ → BookingStatus → List FieldBooking → Type 0
WakesNone i status bs = All (WakesNot i status) bs

abbrev restatus : ℕ → BookingStatus → FieldBooking → FieldBooking
restatus i status b = if is_booking i b then with_status status b else b

restatus-IsQuieter :
    (i : ℕ) (status : BookingStatus) (b : FieldBooking)
    → WakesNot i status b
    → IsQuieter b (restatus i status b)
restatus-IsQuieter i status b k = elim (Bool-cases (is_booking i b)) [
  | inl it ↦ rw it (refl, refl, refl, λ a. k it a)
  | inr other ↦ rw other (refl, refl, refl, λ a. a)
]

All-clash-change :
    (i : ℕ) (status : BookingStatus) (b b' : FieldBooking) (bs : List FieldBooking)
    → IsQuieter b b'
    → WakesNone i status bs
    → All (λ x. clash b x ≡ false) bs
    → All (λ x. clash b' x ≡ false) (change_where (is_booking i) (with_status status) bs)
All-clash-change i status b b' [] q k h = tt
All-clash-change i status b b' (c ∷ bs) q k h = (
  clash-IsQuieter b c b' (restatus i status c) q (restatus-IsQuieter i status c k.0) h.0,
  All-clash-change i status b b' bs q k.1 h.1,
)

pub NoOverlap-change_where :
    (i : ℕ) (status : BookingStatus) (bs : List FieldBooking)
    → WakesNone i status bs
    → NoOverlap bs
    → NoOverlap (change_where (is_booking i) (with_status status) bs)
NoOverlap-change_where i status [] k n = tt
NoOverlap-change_where i status (b ∷ bs) k n = (
  All-clash-change i status b (restatus i status b) bs (restatus-IsQuieter i status b k.0) k.1 n.0,
  NoOverlap-change_where i status bs k.1 n.1,
)

-- A status that blocks no slot wakes no row up.
pub WakesNone-inactive :
    (i : ℕ) (status : BookingStatus) (bs : List FieldBooking)
    → is_active_status status ≡ false
    → WakesNone i status bs
WakesNone-inactive i status [] h = tt
WakesNone-inactive i status (b ∷ bs) h = (λ it a. cc, WakesNone-inactive i status bs h)

-- Nor does any status of an id that no row has, or that only an active last row has.
WakesNone-absent :
    (i : ℕ) (status : BookingStatus) (bs : List FieldBooking)
    → find? (is_booking i) bs ≡ none
    → WakesNone i status bs
WakesNone-absent i status [] h = tt
WakesNone-absent i status (b ∷ bs) h =
    (λ it a. ground (arith, h, it), WakesNone-absent i status bs (ground (arith, h)))

pub WakesNone-last :
    (i : ℕ) (status : BookingStatus) (bs : List FieldBooking) (b : FieldBooking)
    → find? (is_booking i) bs ≡ none
    → is_active_status b.status ≡ true
    → WakesNone i status (bs ++ b ∷ [])
WakesNone-last i status bs b h active =
    All-append (WakesNot i status) bs (WakesNone-absent i status bs h) (λ it a. active)

module _ (S : Services) (L : IsLawful S) where
  open L use {tables}

  -- However an update ends, it keeps the slots apart if its status wakes no row up.
  pub update_status-NoOverlap :
      (i : ℕ) (status : BookingStatus) (w : S.World)
      → WakesNone i status (tables w).field_bookings
      → NoOverlap (tables w).field_bookings
      → NoOverlap (tables (update_status S i status w).1).field_bookings
  update_status-NoOverlap i status w k n = elim (update_status_either S L i status w) [
    | inl same ↦ rw same n
    | inr set ↦ rw set (NoOverlap-change_where i status (tables w).field_bookings k n)
  ]

  -- However an insert into a free slot ends, it keeps the slots apart.
  pub create_pending-NoOverlap :
      (f : ℕ) (user : Text) (st en : ℕ) (w : S.World)
      → find? (blocks f st en) (tables w).field_bookings ≡ none
      → NoOverlap (tables w).field_bookings
      → NoOverlap (tables (create_pending S f user st en w).1).field_bookings
  create_pending-NoOverlap f user st en w free n =
      elim (Result-cases (create_pending S f user st en w).0) [
        | inl (q, e) ↦
            let (i, now, made, fresh, after) = create_pending_ok S L f user st en w e in
            rw (after, made) (NoOverlap-append f user st en i now (tables w).field_bookings free n)
        | inr (x, e) ↦ elim (create_pending_err S L f user st en w e).1 [
          | inl same ↦ rw same n
          | inr (i, now, fresh, after) ↦
              rw after (NoOverlap-append f user st en i now (tables w).field_bookings free n)
        ]
      ]
