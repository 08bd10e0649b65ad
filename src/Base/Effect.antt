-- ===== src/Base/Effect.antt =====
-- Coroutines as functions on a state: each returns a value or raises, and hands the state back
-- either way, since what was written before a raise stays written.
use mathlib.Core.Path.{◌≡◌, refl, ap}
use mathlib.Core.Logic.{◌⊎◌, inl, inr}
use Prim.Native.Nat.{ℕ}
use native.Mathlib.Omega.{arith}

-- What an HTTPException says, one constructor for each text of the source.
pub data Detail : Type 0 where
  field_not_found field_not_available booking_not_found utility_not_found : Detail
  slot_not_available booking_conflict slot_locked slot_booked utility_down aborted : Detail
  internal_error holds_error : Detail

-- httpx.HTTPStatusError, httpx.TimeoutException, httpx.RequestError: all of httpx.HTTPError.
pub data HttpxError : Type 0 where
  status_error timeout request_error : HttpxError

-- Any other exception, by where it comes from.
pub data Fault : Type 0 where
  database redis_error value_error type_error attribute_error overflow_error : Fault
  invalid_request multiple_results runtime_error index_error : Fault

pub data Exn : Type 0 where
  http_exception : ℕ → Detail → Exn
  httpx_error : HttpxError → Exn
  fault : Fault → Exn

pub data Result (A : Type 0) : Type 0 where
  ok : A → Result A
  err : Exn → Result A

abbrev pub Action : Type 0 → Type 0 → Type 0
Action S A = S → Result A × S

abbrev pub Done : Type 0
Done = Unit {0}

module _ {S : Type 0} where
  abbrev pub pure : {A : Type 0} → A → Action S A
  pure a s = (ok a, s)

  abbrev pub raise : {A : Type 0} → Exn → Action S A
  raise e s = (err e, s)

  -- How a bind goes on from what its first part has done.
  abbrev pub continue_with : {A B : Type 0} → (A → Action S B) → Result A × S → Result B × S
  continue_with f (ok a, s) = f a s
  continue_with f (err e, s) = (err e, s)

  infixl 5 ◌>>=◌ ◌>>◌
  abbrev pub ◌>>=◌ : {A B : Type 0} → Action S A → (A → Action S B) → Action S B
  ◌>>=◌ m f s = continue_with f (m s)

  abbrev pub ◌>>◌ : {B : Type 0} → Action S Done → Action S B → Action S B
  m >> k = m >>= λ _. k

  abbrev pub handle_with : {A : Type 0} → (Exn → Action S A) → Result A × S → Result A × S
  handle_with h (ok a, s) = (ok a, s)
  handle_with h (err e, s) = h e s

  -- try: m, except Exception as e: h e
  abbrev pub try_except : {A : Type 0} → Action S A → (Exn → Action S A) → Action S A
  try_except m h s = handle_with h (m s)

  -- The result of a `finally`: an exception of the clean-up replaces what came before.
  abbrev pub finish_with : {A : Type 0} → Result A → Result Done × S → Result A × S
  finish_with r (ok _, s) = (r, s)
  finish_with r (err e, s) = (err e, s)

  -- try: m, finally: c
  abbrev pub try_finally : {A : Type 0} → Action S A → Action S Done → Action S A
  try_finally m c s = let (r, s') = m s in finish_with r (c s')

module _ {S : Type 0} where
  -- Inversion of a bind that returned.
  pub bind_ok :
      {A B : Type 0} (m : Action S A) (f : A → Action S B) (s : S) {b : B}
      → ((m >>= f) s).0 ≡ ok b
      → (a : A) × ((m s).0 ≡ ok a) × ((m >>= f) s ≡ f a (m s).1)
  bind_ok {A} {B} m f s {b} h = go (m s) refl h
    where
      go :
          (x : Result A × S)
          → m s ≡ x
          → (continue_with f x).0 ≡ ok b
          → (a : A) × ((m s).0 ≡ ok a) × ((m >>= f) s ≡ f a (m s).1)
      go (ok a, s') e h' = (a, ap (λ x. x.0) e, rw e)
      go (err x, s') e h' = cc

  -- How a bind goes on, by how its first part ended.
  pub bind_cases :
      {A B : Type 0} (m : Action S A) (f : A → Action S B) (s : S)
      → ((e : Exn) × ((m s).0 ≡ err e) × ((m >>= f) s ≡ (err e, (m s).1)))
        ⊎ ((a : A) × ((m s).0 ≡ ok a) × ((m >>= f) s ≡ f a (m s).1))
  bind_cases {A} {B} m f s = go (m s) refl
    where
      go :
          (x : Result A × S)
          → m s ≡ x
          → ((e : Exn) × ((m s).0 ≡ err e) × ((m >>= f) s ≡ (err e, (m s).1)))
            ⊎ ((a : A) × ((m s).0 ≡ ok a) × ((m >>= f) s ≡ f a (m s).1))
      go (ok a, s') e = inr (a, ap (λ x. x.0) e, rw e)
      go (err x, s') e = inl (x, ap (λ x. x.0) e, rw e)

  -- A handler sees an exception, and not a value.
  pub try_cases :
      {A : Type 0} (m : Action S A) (h : Exn → Action S A) (s : S)
      → ((e : Exn) × ((m s).0 ≡ err e) × (try_except m h s ≡ h e (m s).1))
        ⊎ ((a : A) × ((m s).0 ≡ ok a) × (try_except m h s ≡ (ok a, (m s).1)))
  try_cases {A} m h s = go (m s) refl
    where
      go :
          (x : Result A × S)
          → m s ≡ x
          → ((e : Exn) × ((m s).0 ≡ err e) × (try_except m h s ≡ h e (m s).1))
            ⊎ ((a : A) × ((m s).0 ≡ ok a) × (try_except m h s ≡ (ok a, (m s).1)))
      go (ok a, s') e = inr (a, ap (λ x. x.0) e, rw e)
      go (err x, s') e = inl (x, ap (λ x. x.0) e, rw e)

-- A computation that touches no state.
abbrev pub lift_result : {S A : Type 0} → Result A → Action S A
lift_result r s = (r, s)

pub Result-cases : {A : Type 0} (r : Result A) → ((a : A) × (r ≡ ok a)) ⊎ ((e : Exn) × (r ≡ err e))
Result-cases (ok a) = inl (a, refl)
Result-cases (err e) = inr (e, refl)

-- A `finally` that lets a value through has only moved the state on.
pub finally_ok :
    {S A : Type 0} (m : Action S A) (c : Action S Done) (s : S) {a : A}
    → (try_finally m c s).0 ≡ ok a
    → ((m s).0 ≡ ok a) × ((try_finally m c s).1 ≡ (c (m s).1).1)
finally_ok m c s h = ground arith

-- Hoare rules: a predicate of the state that both parts of a bind keep, or a `try` and its handler.
module _ {S : Type 0} (P : S → Type 0) where
  pub bind_keeps :
      {A B : Type 0} (m : Action S A) (f : A → Action S B) (s : S)
      → P (m s).1
      → ((a : A) → (m s).0 ≡ ok a → P (f a (m s).1).1)
      → P ((m >>= f) s).1
  bind_keeps m f s first after = elim (bind_cases m f s) [
    | inl (e, _, step) ↦ rw step first
    | inr (a, done, step) ↦ rw step (after a done)
  ]

  pub try_keeps :
      {A : Type 0} (m : Action S A) (h : Exn → Action S A) (s : S)
      → P (m s).1
      → ((e : Exn) → P (h e (m s).1).1)
      → P (try_except m h s).1
  try_keeps m h s first handled = elim (try_cases m h s) [
    | inl (e, _, step) ↦ rw step (handled e)
    | inr (a, _, step) ↦ rw step first
  ]

-- The state that a `finally` leaves is that of its clean-up.
pub finally_state :
    {S A : Type 0} (m : Action S A) (c : Action S Done) (s : S)
    → (try_finally m c s).1 ≡ (c (m s).1).1
finally_state m c s = ground arith
