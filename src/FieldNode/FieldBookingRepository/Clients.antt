-- ===== src/FieldNode/FieldBookingRepository/Clients.antt =====
-- Clients that book slots of one field with one start, under the lock of that start: what they check
-- and what they insert interleave.
use ds_practice_court.Base.{
  ℕ, ◌≤◌, ◌≡◌, ◌⊎◌, inl, Option, none, some, List, [], ◌∷◌, ◌++◌, length, ok, err, true, arith,
  refl, sym, ◌∙◌, find?, All, All-mono, All-at, All-without, All-replace, Exn,
}
use ds_practice_court.Base.Text.{Text}
use ds_practice_court.Shared.Models.{FieldBooking}
use ds_practice_court.Services.{Services, IsLawful}
use ds_practice_court.Locks.{build_key, acquire, release}
use ds_practice_court.Locks.Ownership.{acquire-tables, release-tables}
use ds_practice_court.Locks.Clients.{Step, Bounded, Step-Bounded}
use ds_practice_court.FieldNode.FieldBookingRepository.{
  slot_lock_key, blocks, is_none, check_availability, create_pending,
}
use ds_practice_court.FieldNode.FieldBookingRepository.Calls.{
  check_availability-tables, check_availability-broker, check_availability_answer,
  create_pending-broker,
}
use ds_practice_court.FieldNode.FieldBookingRepository.Overlap.{NoOverlap, create_pending-NoOverlap}

-- A client that is inside, and the end of the interval that it has found free.
pub record Client : Type 0 where
  pub token : Text
  pub cleared : Option ℕ

abbrev pub tokens : List Client → List Text
tokens [] = []
tokens (c ∷ cs) = c.token ∷ tokens cs

tokens-append : (xs ys : List Client) → tokens (xs ++ ys) ≡ tokens xs ++ tokens ys
tokens-append [] ys = refl
tokens-append (x ∷ xs) ys = ground (arith, tokens-append xs ys)

some_inj : {a b : ℕ} → some a ≡ some b → a ≡ b
some_inj e = cc

alone :
    (xs : List Client) (c : Client) (ys : List Client)
    → length (tokens (xs ++ c ∷ ys)) ≤ 1
    → (xs ≡ []) × (ys ≡ [])
alone [] c [] h = (refl, refl)
alone [] c (y ∷ ys) h = absurd (ground (arith, h))
alone (x ∷ []) c ys h = absurd (ground (arith, h))
alone (x ∷ y ∷ xs) c ys h = absurd (ground (arith, h))

module _ (S : Services) (L : IsLawful S) (f st : ℕ) where
  open L use {tables, broker}

  abbrev pub key : Text
  key = slot_lock_key f (S.isoformat st)

  abbrev pub Slots : Type 0
  Slots = S.World × List Client

  -- Whatever else happens leaves the key of the lock alone, keeps the bookings apart, and takes no
  -- interval with this start.
  pub data Turn : Slots → Slots → Type 0 where
    enters :
        (ttl : ℕ) (w : S.World) (cs : List Client) (t : Text)
        → (acquire S key ttl w).0 ≡ ok (some t)
        → Turn (w, cs) ((acquire S key ttl w).1, record { token = t; cleared = none } ∷ cs)
    stays_out :
        (ttl : ℕ) (w : S.World) (cs : List Client)
        → ((acquire S key ttl w).0 ≡ ok none) ⊎ ((e : Exn) × ((acquire S key ttl w).0 ≡ err e))
        → Turn (w, cs) ((acquire S key ttl w).1, cs)
    clears :
        (w : S.World) (xs : List Client) (c : Client) (ys : List Client) (en : ℕ)
        → (check_availability S f st en w).0 ≡ ok true
        → Turn
            (w, xs ++ c ∷ ys)
            ((check_availability S f st en w).1, xs ++ record c { cleared = some en } ∷ ys)
    books :
        (w : S.World) (xs : List Client) (c : Client) (ys : List Client) (en : ℕ) (user : Text)
        → c.cleared ≡ some en
        → Turn
            (w, xs ++ c ∷ ys)
            ((create_pending S f user st en w).1, xs ++ record c { cleared = none } ∷ ys)
    leaves :
        (w : S.World) (xs : List Client) (c : Client) (ys : List Client)
        → Turn (w, xs ++ c ∷ ys) ((release S key c.token w).1, xs ++ ys)
    elsewhere :
        (w v : S.World) (cs : List Client)
        → (broker v).stored (build_key key) ≡ (broker w).stored (build_key key)
        → (NoOverlap (tables w).field_bookings → NoOverlap (tables v).field_bookings)
        → ((en : ℕ)
            → find? (blocks f st en) (tables w).field_bookings ≡ none
            → find? (blocks f st en) (tables v).field_bookings ≡ none)
        → Turn (w, cs) (v, cs)

  pub data Reach (w : S.World) : Slots → Type 0 where
    start : Reach w (w, [])
    later : {s t : Slots} → Reach w s → Turn s t → Reach w t

  abbrev StillFree : List FieldBooking → Client → Type 0
  StillFree bs c = (en : ℕ) → c.cleared ≡ some en → find? (blocks f st en) bs ≡ none

  abbrev Apart : Slots → Type 0
  Apart (w, cs) =
      Bounded S L key 0 (w, tokens cs)
      × NoOverlap (tables w).field_bookings
      × All (StillFree (tables w).field_bookings) cs

  -- What leaves Redis alone and the tokens of the clients in place.
  aside :
      (w v : S.World) (cs : List Client)
      → broker v ≡ broker w
      → Bounded S L key 0 (w, tokens cs)
      → Bounded S L key 0 (v, tokens cs)
  aside w v cs e b = Step-Bounded S L key (Step.elsewhere w v (tokens cs) (ground (arith, e))) b

  same_tokens :
      (w : S.World) (xs : List Client) (c d : Client) (ys : List Client)
      → d.token ≡ c.token
      → Bounded S L key 0 (w, tokens (xs ++ c ∷ ys))
      → Bounded S L key 0 (w, tokens (xs ++ d ∷ ys))
  same_tokens w xs c d ys e b =
      let at_d : tokens (xs ++ d ∷ ys) ≡ tokens (xs ++ c ∷ ys) =
        tokens-append xs (d ∷ ys) ∙ rw e (sym (tokens-append xs (c ∷ ys))) in
      rw at_d b

  free_along :
      (w v : S.World) (cs : List Client)
      → tables v ≡ tables w
      → All (StillFree (tables w).field_bookings) cs
      → All (StillFree (tables v).field_bookings) cs
  free_along w v cs e h =
      All-mono (StillFree (tables w).field_bookings) (StillFree (tables v).field_bookings)
        (λ c p en is. rw e (p en is)) cs h

  Turn-Apart : {s t : Slots} → Turn s t → Apart s → Apart t
  unfolding is_none
  Turn-Apart (enters ttl w cs t h) (b, n, free) = (
    Step-Bounded S L key (Step.enters ttl w (tokens cs) t h) b,
    rw (acquire-tables S L key ttl w) n,
    (λ en e. cc, free_along w (acquire S key ttl w).1 cs (acquire-tables S L key ttl w) free),
  )
  Turn-Apart (stays_out ttl w cs h) (b, n, free) = (
    Step-Bounded S L key (Step.stays_out ttl w (tokens cs) h) b,
    rw (acquire-tables S L key ttl w) n,
    free_along w (acquire S key ttl w).1 cs (acquire-tables S L key ttl w) free,
  )
  Turn-Apart (clears w xs c ys en h) (b, n, free) =
      let same = check_availability-tables S L f st en w in
      let w' = (check_availability S f st en w).1 in
      let c' : Client = record c { cleared = some en } in
      let answer = check_availability_answer S L f st en w h in
      let found : find? (blocks f st en) (tables w).field_bookings ≡ none =
        ground (arith, answer) in
      (
        same_tokens w' xs c c' ys refl
            (aside w w' (xs ++ c ∷ ys) (check_availability-broker S L f st en w) b),
        rw same n,
        free_along w w' (xs ++ c' ∷ ys) same (
            All-replace (StillFree (tables w).field_bookings) xs c c' ys
              (λ en' e. rw (← some_inj e) found) free),
      )
  Turn-Apart (books w xs c ys en user h) (b, n, free) =
      let w' = (create_pending S f user st en w).1 in
      let c' : Client = record c { cleared = none } in
      let (no_xs, no_ys) = alone xs c ys (ground (arith, b)) in
      let slot = All-at (StillFree (tables w).field_bookings) xs c ys free en h in
      (
        same_tokens w' xs c c' ys refl
            (aside w w' (xs ++ c ∷ ys) (create_pending-broker S L f user st en w) b),
        create_pending-NoOverlap S L f user st en w slot n,
        rw (no_xs, no_ys) (λ en' e. cc, tt),
      )
  Turn-Apart (leaves w xs c ys) (b, n, free) = (
    rw (tokens-append xs ys) (
        Step-Bounded S L key (Step.leaves w (tokens xs) c.token (tokens ys))
          (rw (tokens-append xs (c ∷ ys)) at b)),
    rw (release-tables S L key c.token w) n,
    free_along w (release S key c.token w).1 (xs ++ ys) (release-tables S L key c.token w)
        (All-without (StillFree (tables w).field_bookings) xs c ys free),
  )
  Turn-Apart (elsewhere w v cs k n' e) (b, n, free) = (
    Step-Bounded S L key (Step.elsewhere w v (tokens cs) k) b,
    n' n,
    All-mono (StillFree (tables w).field_bookings) (StillFree (tables v).field_bookings)
        (λ c p en is. e en (p en is)) cs free,
  )

  Reach-Apart :
      {w : S.World} {s : Slots} → NoOverlap (tables w).field_bookings → Reach w s → Apart s
  Reach-Apart n start = (inl (omega arith), n, tt)
  Reach-Apart n (later r step) = Turn-Apart step (Reach-Apart n r)

  -- Clients that book slots with one start under its lock keep the bookings apart, however their
  -- calls interleave: an interval that one of them has found free is free until it books.
  pub Reach-NoOverlap :
      {w : S.World} {s : Slots}
      → NoOverlap (tables w).field_bookings
      → Reach w s
      → NoOverlap (tables s.0).field_bookings
  Reach-NoOverlap n r = let (_, apart, _) = Reach-Apart n r in apart
