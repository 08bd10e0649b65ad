-- ===== src/Services/Laws.antt =====
-- The documented behaviour of the services. What a world holds is seen through three observations:
-- the rows of the database, what Redis holds, and whether the session is inside a transaction.
use ds_practice_court.Base.{
  length, ◌≤◌, ◌==◌, ◌||◌, All, ℕ, ◌≡◌, ◌≢◌, ◌⊎◌, Bool, true, false, Option, none, some, List, [],
  ◌∷◌, ◌++◌,
}
use ds_practice_court.Base.{
  Result, ok, err, Exn, HttpxError, status_error, httpx_error, fault, database, redis_error,
  multiple_results, invalid_request, Action, Done, where_rows, find?, change_where, length, has_id,
  All,
}
use ds_practice_court.Base.Text.{Text, starts_with}
use ds_practice_court.Shared.Models.{Field, FieldBooking, Utility, UtilityBooking, Tables}
use ds_practice_court.Services.Defs.{TxnDocument, document, Value, Message, Table, Services}

-- What Redis holds, and what has been published.
pub record Broker : Type 0 where
  pub stored : Text → Option Value
  pub sent : List Message

-- A statement that raises leaves the rows alone. `add_commit` finds an id that no row has, and
-- `update` returns the number of rows that match.
pub record IsTable (W Row : Type 0) (t : Table W Row) (id : Row → ℕ) (tables : W → Tables)
    (broker : W → Broker) (rows : Tables → List Row) (put : List Row → Tables → Tables)
    : Type 0 where
  pub select-tables : (p : Row → Bool) (w : W) → tables (t.select p w).1 ≡ tables w
  pub select-broker : (p : Row → Bool) (w : W) → broker (t.select p w).1 ≡ broker w
  pub select-ok :
      (p : Row → Bool) (w : W) {rs : List Row}
      → (t.select p w).0 ≡ ok rs
      → rs ≡ where_rows p (rows (tables w))
  pub select-err :
      (p : Row → Bool) (w : W) {e : Exn} → (t.select p w).0 ≡ err e → e ≡ fault database
  pub add-broker : (mk : ℕ → ℕ → Row) (w : W) → broker (t.add_commit mk w).1 ≡ broker w
  pub add-ok :
      (mk : ℕ → ℕ → Row) (w : W) {r : Row}
      → (t.add_commit mk w).0 ≡ ok r
      → (i : ℕ) × (now : ℕ) × (r ≡ mk i now)
        × (find? (has_id id i) (rows (tables w)) ≡ none)
        × (tables (t.add_commit mk w).1 ≡ put (rows (tables w) ++ r ∷ []) (tables w))
  pub add-err :
      (mk : ℕ → ℕ → Row) (w : W) {e : Exn}
      → (t.add_commit mk w).0 ≡ err e
      → (e ≡ fault database) × (tables (t.add_commit mk w).1 ≡ tables w)
  pub refresh-tables : (r : Row) (w : W) → tables (t.refresh r w).1 ≡ tables w
  pub refresh-broker : (r : Row) (w : W) → broker (t.refresh r w).1 ≡ broker w
  pub refresh-ok :
      (r : Row) (w : W) {q : Row}
      → (t.refresh r w).0 ≡ ok q
      → find? (has_id id (id r)) (rows (tables w)) ≡ some q
  pub refresh-err : (r : Row) (w : W) {e : Exn} → (t.refresh r w).0 ≡ err e → e ≡ fault database
  pub update-broker :
      (p : Row → Bool) (f : Row → Row) (w : W) → broker (t.update p f w).1 ≡ broker w
  pub update-ok :
      (p : Row → Bool) (f : Row → Row) (w : W) {n : ℕ}
      → (t.update p f w).0 ≡ ok n
      → (n ≡ length (where_rows p (rows (tables w))))
        × (tables (t.update p f w).1 ≡ put (change_where p f (rows (tables w))) (tables w))
  pub update-err :
      (p : Row → Bool) (f : Row → Row) (w : W) {e : Exn}
      → (t.update p f w).0 ≡ err e
      → (e ≡ fault database) × (tables (t.update p f w).1 ≡ tables w)

-- The four tables in the database.
abbrev pub put_fields : List Field → Tables → Tables
put_fields rs t = record t { fields = rs }

abbrev pub put_field_bookings : List FieldBooking → Tables → Tables
put_field_bookings rs t = record t { field_bookings = rs }

abbrev pub put_utilities : List Utility → Tables → Tables
put_utilities rs t = record t { utilities = rs }

abbrev pub put_utility_bookings : List UtilityBooking → Tables → Tables
put_utility_bookings rs t = record t { utility_bookings = rs }

-- How a POST ends, with `Same` for two worlds that look alike: it is lost on the way, or it is
-- served and the answer is lost, or the answer arrives, or the endpoint raises (status 500).
pub data Posted (W A : Type 0) (Same : W → W → Type 0) (h : Action W A) (w : W) (r : Result A × W)
    : Type 0 where
  lost : (e : HttpxError) → r.0 ≡ err (httpx_error e) → Same w r.1 → Posted W A Same h w r
  unheard :
      (e : HttpxError) (v : W)
      → r.0 ≡ err (httpx_error e)
      → Same w v
      → Same (h v).1 r.1
      → Posted W A Same h w r
  served :
      (a : A) (v : W)
      → r.0 ≡ ok a
      → Same w v
      → (h v).0 ≡ ok a
      → Same (h v).1 r.1
      → Posted W A Same h w r
  failed :
      (x : Exn) (v : W)
      → r.0 ≡ err (httpx_error status_error)
      → Same w v
      → (h v).0 ≡ err x
      → Same (h v).1 r.1
      → Posted W A Same h w r

-- A character of a pattern that may stand for others: `*`, `?`, `[` and the backslash.
abbrev pub is_special : ℕ → Bool
is_special c = c == b'*' || c == b'?' || c == b'[' || c == 92

abbrev pub IsLiteral : Text → Type 0
IsLiteral t = All (λ c. is_special c ≡ false) t

pub record IsLawful (S : Services) : Type 1 where
  pub tables : S.World → Tables
  pub broker : S.World → Broker
  pub in_transaction : S.World → Bool
  pub fields_lawful :
      IsTable S.World Field S.fields (λ r. r.id) tables broker (λ t. t.fields) put_fields
  pub field_bookings_lawful :
      IsTable S.World FieldBooking S.field_bookings
        (λ r. r.id)
        tables
        broker
        (λ t. t.field_bookings)
        put_field_bookings
  pub utilities_lawful :
      IsTable S.World Utility S.utilities (λ r. r.id) tables broker (λ t. t.utilities) put_utilities
  pub utility_bookings_lawful :
      IsTable S.World UtilityBooking S.utility_bookings
        (λ r. r.id)
        tables
        broker
        (λ t. t.utility_bookings)
        put_utility_bookings
  -- The values of the ENUM of sports are not empty, and have no more than 50 characters.
  pub sport_column-fits :
      (t : Text) → (1 ≤ length (S.sport_column t)) × (length (S.sport_column t) ≤ 50)
  pub one_or_none-nil : {A : Type 0} → S.scalar_one_or_none {A = A} [] ≡ ok none
  pub one_or_none-one : {A : Type 0} (a : A) → S.scalar_one_or_none (a ∷ []) ≡ ok (some a)
  pub one_or_none-many :
      {A : Type 0} (a b : A) (as' : List A)
      → S.scalar_one_or_none (a ∷ b ∷ as') ≡ err (fault multiple_results)
  -- A SELECT begins a transaction by itself, and an explicit `begin()` inside one raises.
  pub select-in_transaction :
      (p : Field → Bool) (w : S.World) {rs : List Field}
      → (S.fields.select p w).0 ≡ ok rs
      → in_transaction (S.fields.select p w).1 ≡ true
  pub begin-in_transaction :
      (w : S.World) → in_transaction w ≡ true → (S.begin w).0 ≡ err (fault invalid_request)
  pub begin-tables : (w : S.World) → tables (S.begin w).1 ≡ tables w
  pub begin-broker : (w : S.World) → broker (S.begin w).1 ≡ broker w
  -- The repositories commit what they write, so neither end of a session takes it back.
  pub enter-tables : (w : S.World) → tables (S.session_enter w).1 ≡ tables w
  pub enter-broker : (w : S.World) → broker (S.session_enter w).1 ≡ broker w
  pub rollback-tables : (w : S.World) → tables (S.session_rollback w).1 ≡ tables w
  pub rollback-broker : (w : S.World) → broker (S.session_rollback w).1 ≡ broker w
  pub leave-tables : (w : S.World) → tables (S.session_leave w).1 ≡ tables w
  pub leave-broker : (w : S.World) → broker (S.session_leave w).1 ≡ broker w
  -- json: a document that has been dumped is read back.
  pub json_loads-document : (d : TxnDocument) → S.json_loads (document d) ≡ some d
  -- Redis: a command touches its own key; one that raises may have been carried out or not.
  pub get-tables : (k : Text) (w : S.World) → tables (S.redis_get k w).1 ≡ tables w
  pub get-broker : (k : Text) (w : S.World) → broker (S.redis_get k w).1 ≡ broker w
  pub get-ok :
      (k : Text) (w : S.World) {o : Option Value}
      → (S.redis_get k w).0 ≡ ok o
      → o ≡ (broker w).stored k
  pub set-tables :
      (k : Text) (v : Value) (n : ℕ) (w : S.World) → tables (S.redis_set k v n w).1 ≡ tables w
  pub set-sent :
      (k : Text) (v : Value) (n : ℕ) (w : S.World)
      → (broker (S.redis_set k v n w).1).sent ≡ (broker w).sent
  pub set-ne :
      (k : Text) (v : Value) (n : ℕ) (w : S.World) (j : Text)
      → j ≢ k
      → (broker (S.redis_set k v n w).1).stored j ≡ (broker w).stored j
  pub set-ok :
      (k : Text) (v : Value) (n : ℕ) (w : S.World) {d : Done}
      → (S.redis_set k v n w).0 ≡ ok d
      → (broker (S.redis_set k v n w).1).stored k ≡ some v
  pub set-err :
      (k : Text) (v : Value) (n : ℕ) (w : S.World) {e : Exn}
      → (S.redis_set k v n w).0 ≡ err e
      → e ≡ fault redis_error
  pub set_nx-tables :
      (k : Text) (v : Value) (n : ℕ) (w : S.World) → tables (S.redis_set_nx k v n w).1 ≡ tables w
  pub set_nx-in_transaction :
      (k : Text) (v : Value) (n : ℕ) (w : S.World)
      → in_transaction (S.redis_set_nx k v n w).1 ≡ in_transaction w
  pub set_nx-ne :
      (k : Text) (v : Value) (n : ℕ) (w : S.World) (j : Text)
      → j ≢ k
      → (broker (S.redis_set_nx k v n w).1).stored j ≡ (broker w).stored j
  pub set_nx-true :
      (k : Text) (v : Value) (n : ℕ) (w : S.World)
      → (S.redis_set_nx k v n w).0 ≡ ok true
      → ((broker w).stored k ≡ none) × ((broker (S.redis_set_nx k v n w).1).stored k ≡ some v)
  pub set_nx-false :
      (k : Text) (v : Value) (n : ℕ) (w : S.World)
      → (S.redis_set_nx k v n w).0 ≡ ok false
      → ((broker w).stored k ≢ none) × (broker (S.redis_set_nx k v n w).1 ≡ broker w)
  -- A key that is there stays as it is, also if the command raises.
  pub set_nx-taken :
      (k : Text) (v : Value) (n : ℕ) (w : S.World)
      → (broker w).stored k ≢ none
      → (broker (S.redis_set_nx k v n w).1).stored k ≡ (broker w).stored k
  pub set_nx-err :
      (k : Text) (v : Value) (n : ℕ) (w : S.World) {e : Exn}
      → (S.redis_set_nx k v n w).0 ≡ err e
      → e ≡ fault redis_error
  pub delete-tables : (k : Text) (w : S.World) → tables (S.redis_delete k w).1 ≡ tables w
  pub delete-sent :
      (k : Text) (w : S.World) → (broker (S.redis_delete k w).1).sent ≡ (broker w).sent
  pub delete-ok :
      (k : Text) (w : S.World) {d : Done}
      → (S.redis_delete k w).0 ≡ ok d
      → (broker (S.redis_delete k w).1).stored k ≡ none
  pub delete-ne :
      (k : Text) (w : S.World) (j : Text)
      → j ≢ k
      → (broker (S.redis_delete k w).1).stored j ≡ (broker w).stored j
  -- A script runs as a whole, or the call raises.
  pub eval-tables :
      (f : S.World → ℕ × S.World) (w : S.World) → tables (S.redis_eval f w).1 ≡ tables w
  pub eval-ok :
      (f : S.World → ℕ × S.World) (w : S.World) {n : ℕ}
      → (S.redis_eval f w).0 ≡ ok n
      → (n ≡ (f w).0) × (broker (S.redis_eval f w).1 ≡ broker (f w).1)
  pub eval-err :
      (f : S.World → ℕ × S.World) (w : S.World) {e : Exn}
      → (S.redis_eval f w).0 ≡ err e
      → (e ≡ fault redis_error)
        × ((broker (S.redis_eval f w).1 ≡ broker w)
            ⊎ (broker (S.redis_eval f w).1 ≡ broker (f w).1))
  pub call_get_lem : (k : Text) (w : S.World) → S.call_get k w ≡ (broker w).stored k
  pub call_del-present :
      (k : Text) (w : S.World) → (broker w).stored k ≢ none → (S.call_del k w).0 ≡ 1
  pub call_del-self : (k : Text) (w : S.World) → (broker (S.call_del k w).1).stored k ≡ none
  pub call_del-ne :
      (k : Text) (w : S.World) (j : Text)
      → j ≢ k
      → (broker (S.call_del k w).1).stored j ≡ (broker w).stored j
  -- KEYS and SCAN read, and KEYS names keys with the prefix.
  pub keys-tables : (k : Text) (w : S.World) → tables (S.redis_keys k w).1 ≡ tables w
  pub keys-broker : (k : Text) (w : S.World) → broker (S.redis_keys k w).1 ≡ broker w
  -- A pattern that has no special character but its last `*` matches what begins like it.
  pub keys-ok :
      (k : Text) (w : S.World) {ks : List Text}
      → IsLiteral k
      → (S.redis_keys (k ++ b'*' ∷ []) w).0 ≡ ok ks
      → All (λ j. starts_with k j ≡ true) ks
  pub scan-tables : (c : ℕ) (k : Text) (w : S.World) → tables (S.redis_scan c k w).1 ≡ tables w
  pub scan-broker : (c : ℕ) (k : Text) (w : S.World) → broker (S.redis_scan c k w).1 ≡ broker w
  pub publish-tables : (m : Message) (w : S.World) → tables (S.redis_publish m w).1 ≡ tables w
  pub publish-stored :
      (m : Message) (w : S.World) → (broker (S.redis_publish m w).1).stored ≡ (broker w).stored
  pub publish-ok :
      (m : Message) (w : S.World) {d : Done}
      → (S.redis_publish m w).0 ≡ ok d
      → (broker (S.redis_publish m w).1).sent ≡ (broker w).sent ++ m ∷ []
  pub uuid4-ok : (w : S.World) → (t : Text) × ((S.uuid4 w).0 ≡ ok t)
  pub uuid4-tables : (w : S.World) → tables (S.uuid4 w).1 ≡ tables w
  pub uuid4-broker : (w : S.World) → broker (S.uuid4 w).1 ≡ broker w
  pub uuid4-in_transaction : (w : S.World) → in_transaction (S.uuid4 w).1 ≡ in_transaction w
  pub post_lem :
      {A : Type 0} (h : Action S.World A) (w : S.World)
      → Posted S.World A (λ u v. (tables v ≡ tables u) × (broker v ≡ broker u)) h w (S.post h w)
