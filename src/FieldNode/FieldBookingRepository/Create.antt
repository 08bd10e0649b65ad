-- ===== src/FieldNode/FieldBookingRepository/Create.antt =====
-- `create`, the repository's own booking of a slot under its lock.
use ds_practice_court.Base.{
  ℕ, ◌≡◌, refl, inl, inr, true, Option, none, some, arith, find?, Bool-cases, Option-cases,
  bind_keeps, finally_state, pure,
}
use ds_practice_court.Base.Text.{Text}
use ds_practice_court.Services.{Services, IsLawful}
use ds_practice_court.Locks.{acquire, release}
use ds_practice_court.Locks.Ownership.{acquire-tables, release-tables}
use ds_practice_court.FieldNode.FieldBookingRepository.{
  blocks, is_none, slot_lock_key, lock_ttl_ms, check_availability, create_pending,
  insert_if_available, release_quietly, create,
}
use ds_practice_court.FieldNode.FieldBookingRepository.Calls.{
  check_availability_answer, check_availability-tables,
}
use ds_practice_court.FieldNode.FieldBookingRepository.Overlap.{NoOverlap, create_pending-NoOverlap}

is_none_found : {A : Type 0} (o : Option A) → is_none o ≡ true → o ≡ none
unfolding is_none
is_none_found none h = refl
is_none_found (some a) h = cc

module _ (S : Services) (L : IsLawful S) (f : ℕ) (user : Text) (st en : ℕ) where
  open L use {tables}

  abbrev Apart : S.World → Type 0
  Apart w = NoOverlap (tables w).field_bookings

  insert_if_available-NoOverlap :
      (w : S.World) → Apart w → Apart (insert_if_available S f user st en w).1
  unfolding insert_if_available create_pending
  insert_if_available-NoOverlap w n =
      let w1 = (S.begin w).1 in
      let n1 : Apart w1 = rw (L.begin-tables w) n in
      let w2 = (check_availability S f st en w1).1 in
      let t2 = check_availability-tables S L f st en w1 in
      let n2 : Apart w2 = rw t2 n1 in
      bind_keeps Apart S.begin _ w n1 λ _ _.
        bind_keeps Apart (check_availability S f st en) _ w1 n2 λ b e. elim (Bool-cases b) [
          | inl vacant ↦
              let free =
                is_none_found (find? (blocks f st en) (tables w1).field_bookings)
                  (ground (arith, check_availability_answer S L f st en w1 e, vacant)) in
              let n3 = create_pending-NoOverlap S L f user st en w2 (ground (arith, free, t2)) n2 in
              rw vacant (ground (arith, n3))
          | inr busy ↦ rw busy n2
        ]

  -- If the active bookings of each field do not overlap before a run of `create`, they do not
  -- overlap after it, whether it books, finds the slot taken or raises.
  pub create-NoOverlap :
      (w : S.World)
      → NoOverlap (tables w).field_bookings
      → NoOverlap (tables (create S f user st en w).1).field_bookings
  unfolding create release_quietly
  create-NoOverlap w n =
      let key = slot_lock_key f (S.isoformat st) in
      let w1 = (acquire S key lock_ttl_ms w).1 in
      let n1 : Apart w1 = rw (acquire-tables S L key lock_ttl_ms w) n in
      bind_keeps Apart (acquire S key lock_ttl_ms) _ w n1 λ token _. elim (Option-cases token) [
        | inl busy ↦ rw busy n1
        | inr (t, held) ↦
            let w2 = (insert_if_available S f user st en w1).1 in
            let n2 = insert_if_available-NoOverlap w1 n1 in
            let n3 : Apart (release S key t w2).1 = rw (release-tables S L key t w2) n2 in
            rw
              (
                held,
                finally_state (insert_if_available S f user st en) (release_quietly S key t) w1,
              )
              (bind_keeps Apart (release S key t) (λ _. pure tt) w2 n3 (λ _ _. n3))
      ]
