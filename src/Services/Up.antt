-- ===== src/Services/Up.antt =====
-- The services at a time when nothing fails: every call returns, and a POST is answered.
use ds_practice_court.Base.{
  ℕ, ◌≡◌, ◌⊎◌, Bool, Option, some, List, Result, ok, err, Exn, httpx_error, status_error, Action,
  find?, has_id,
}
use ds_practice_court.Base.Text.{Text}
use ds_practice_court.Shared.Models.{Field, FieldBooking, Utility, UtilityBooking, Tables}
use ds_practice_court.Services.Defs.{Value, Message, Table, Services}
use ds_practice_court.Services.Laws.{IsLawful}

pub record IsTableUp (W Row : Type 0) (t : Table W Row) (id : Row → ℕ) (tables : W → Tables)
    (rows : Tables → List Row) : Type 0 where
  pub select-up : (p : Row → Bool) (w : W) → (rs : List Row) × ((t.select p w).0 ≡ ok rs)
  pub add-up : (mk : ℕ → ℕ → Row) (w : W) → (r : Row) × ((t.add_commit mk w).0 ≡ ok r)
  pub refresh-up :
      (r q : Row) (w : W)
      → find? (has_id id (id r)) (rows (tables w)) ≡ some q
      → (t.refresh r w).0 ≡ ok q
  pub update-up : (p : Row → Bool) (f : Row → Row) (w : W) → (n : ℕ) × ((t.update p f w).0 ≡ ok n)

-- An answered POST: the endpoint has run once, and its value arrives, or its exception as a 500.
pub record Answered (W A : Type 0) (Same : W → W → Type 0) (h : Action W A) (w : W)
    (r : Result A × W) : Type 0 where
  pub before : W
  pub arrived : Same w before
  pub returned : Same (h before).1 r.1
  pub answer :
      ((a : A) × ((h before).0 ≡ ok a) × (r.0 ≡ ok a))
      ⊎ ((x : Exn) × ((h before).0 ≡ err x) × (r.0 ≡ err (httpx_error status_error)))

pub record IsUp (S : Services) (L : IsLawful S) : Type 1 where
  pub fields_up : IsTableUp S.World Field S.fields (λ r. r.id) (λ w. L.tables w) (λ t. t.fields)
  pub field_bookings_up :
      IsTableUp S.World FieldBooking S.field_bookings
        (λ r. r.id)
        (λ w. L.tables w)
        (λ t. t.field_bookings)
  pub utilities_up :
      IsTableUp S.World Utility S.utilities (λ r. r.id) (λ w. L.tables w) (λ t. t.utilities)
  pub utility_bookings_up :
      IsTableUp S.World UtilityBooking S.utility_bookings
        (λ r. r.id)
        (λ w. L.tables w)
        (λ t. t.utility_bookings)
  pub enter-up : (w : S.World) → (S.session_enter w).0 ≡ ok tt
  pub get-up : (k : Text) (w : S.World) → (o : Option Value) × ((S.redis_get k w).0 ≡ ok o)
  pub keys-up : (k : Text) (w : S.World) → (ks : List Text) × ((S.redis_keys k w).0 ≡ ok ks)
  pub set-up : (k : Text) (v : Value) (n : ℕ) (w : S.World) → (S.redis_set k v n w).0 ≡ ok tt
  pub delete-up : (k : Text) (w : S.World) → (S.redis_delete k w).0 ≡ ok tt
  pub publish-up : (m : Message) (w : S.World) → (S.redis_publish m w).0 ≡ ok tt
  pub set_nx-up :
      (k : Text) (v : Value) (n : ℕ) (w : S.World)
      → (b : Bool) × ((S.redis_set_nx k v n w).0 ≡ ok b)
  pub eval-up : (f : S.World → ℕ × S.World) (w : S.World) → (n : ℕ) × ((S.redis_eval f w).0 ≡ ok n)
  pub post-up :
      {A : Type 0} (h : Action S.World A) (w : S.World)
      → Answered S.World A
          (λ u v. (L.tables v ≡ L.tables u) × (L.broker v ≡ L.broker u))
          h
          w
          (S.post h w)
