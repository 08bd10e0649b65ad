-- ===== src/Services/Memory.antt =====
-- The services in memory: they meet the laws, so the theorems can be applied to concrete requests.
-- The network follows a script, with one entry for each POST.
mod Rows
pub use Rows.{
  Delivery, delivered, request_lost, answer_lost, Memory, memory_table-IsTable,
  memory_table-IsTableUp,
}
unfoldable pub use Rows.{next_id, memory_table}
use ds_practice_court.Services.Up.{IsTableUp}
use ds_practice_court.Base.{
  ◌+◌, ◌/◌, ◌*◌, map, ap, Result-cases, ℕ, suc, ◌≤◌, ◌≡◌, ◌≢◌, refl, inl, inr, Bool, true, false,
  Option, none, some, List, [], ◌∷◌, ◌++◌, ok, err, Result, fault, database, httpx_error, timeout,
  request_error, status_error, multiple_results, invalid_request, Action, Done, arith, subst,
  where_rows, find?, change_where, length, has_id, All, Bool-cases, not, ◌&&◌, leb, if◌then◌else◌,
  Option-cases,
}
use ds_practice_court.Base.Text.{Text, codes, decimal, text_eq, text_eq_iff, starts_with}
use ds_practice_court.Shared.Models.{Field, FieldBooking, Utility, UtilityBooking, Tables}
use ds_practice_court.Services.Defs.{TxnDocument, plain, document, Value, Table, Services}
use ds_practice_court.Services.Laws.{
  Broker, IsTable, IsLawful, Posted, lost, unheard, served, failed, put_fields, put_field_bookings,
  put_utilities, put_utility_bookings,
}

abbrev pub keep : (Text → Option Value) → Memory → Memory
keep f w = record w { broker = record { stored = f; sent = w.broker.sent } }

abbrev pub write : Text → Option Value → (Text → Option Value) → Text → Option Value
write k o f j = if text_eq j k then o else f j

abbrev pub one_or_none : {A : Type 0} → List A → Result (Option A)
one_or_none [] = ok none
one_or_none (a ∷ []) = ok (some a)
one_or_none (a ∷ b ∷ bs) = err (fault multiple_results)

abbrev pub is_free : Option Value → Bool
is_free none = true
is_free (some _) = false

abbrev pub heard : {A : Type 0} → Result A × Memory → Result A × Memory
heard (ok a, w) = (ok a, w)
heard (err x, w) = (err (httpx_error status_error), w)

abbrev pub deliver : {A : Type 0} → List Delivery → Action Memory A → Action Memory A
deliver [] h w = heard (h w)
deliver (delivered ∷ ds) h w = heard (h (record w { network = ds }))
deliver (request_lost ∷ ds) h w = (err (httpx_error request_error), record w { network = ds })
deliver (answer_lost ∷ ds) h w = (err (httpx_error timeout), (h (record w { network = ds })).1)

abbrev pub begin_once : Bool → Action Memory Done
begin_once true w = (err (fault invalid_request), w)
begin_once false w = (ok tt, record w { in_transaction = true })

abbrev pub memory_post : {A : Type 0} → Action Memory A → Action Memory A
memory_post h w = deliver w.network h w

unfoldable pub memory_set_nx : Text → Value → ℕ → Action Memory Bool
memory_set_nx k v n w = elim (is_free (w.broker.stored k)) [
  | true ↦ (ok true, keep (write k (some v) w.broker.stored) w)
  | false ↦ (ok false, w)
]

-- What a POST becomes.
abbrev pub Network : Type 1
Network = (A : Type 0) → Action Memory A → Action Memory A

abbrev pub via : Network → {A : Type 0} → Action Memory A → Action Memory A
via network {A} h = network A h

-- The keys with a prefix that are there, of those that may be.
unfoldable pub listed : List Text → Text → (Text → Option Value) → List Text
listed names k stored = where_rows (λ j. starts_with k j && not (is_free (stored j))) names

abbrev names_of : Result (List Text) → List Text
names_of (ok ks) = ks
names_of (err x) = []

listed_prefix :
    (names : List Text) (k : Text) (stored : Text → Option Value)
    → All (λ j. starts_with k j ≡ true) (listed names k stored)
unfolding listed
listed_prefix [] k stored = tt
listed_prefix (j ∷ names) k stored =
    elim (Bool-cases (starts_with k j && not (is_free (stored j)))) [
      | inl shown ↦ rw shown (ground (arith, shown), listed_prefix names k stored)
      | inr hidden ↦ rw hidden (listed_prefix names k stored)
    ]

unfoldable pub lower : ℕ → ℕ
lower c = if leb b'A' c && leb c b'Z' then c + 32 else c

-- The spelling of the ENUM, for a sport that it has.
unfoldable pub sport_of : Text → Text
unfolding lower
sport_of t =
    if text_eq (map lower t) (codes "tennis")
    then codes "tennis"
    else (if text_eq (map lower t) (codes "basketball")
        then codes "basketball"
        else codes "football")

pub sport_of_fits : (t : Text) → (1 ≤ length (sport_of t)) × (length (sport_of t) ≤ 50)
unfolding sport_of
sport_of_fits t = elim (Bool-cases (text_eq (map lower t) (codes "tennis"))) [
  | inl a ↦ rw a (omega arith, omega arith)
  | inr a ↦ elim (Bool-cases (text_eq (map lower t) (codes "basketball"))) [
    | inl b ↦ rw (a, b) (omega arith, omega arith)
    | inr b ↦ rw (a, b) (omega arith, omega arith)
  ]
]

-- A pattern in memory ends in a star, and has no other special character.
unfoldable pub before_last : Text → Text
before_last [] = []
before_last (c ∷ []) = []
before_last (c ∷ d ∷ t) = c ∷ before_last (d ∷ t)

before_last-append : (t : Text) (c : ℕ) → before_last (t ++ c ∷ []) ≡ t
unfolding before_last
before_last-append [] c = refl
before_last-append (d ∷ []) c = refl
before_last-append (d ∷ e ∷ t) c = ap (λ r. d ∷ r) (before_last-append (e ∷ t) c)

abbrev document_of : Value → Option TxnDocument
document_of (plain t) = none
document_of (document d) = some d

-- Services over a network, with the keys that KEYS and SCAN look through.
abbrev pub in_memory : Network → List Text → Services
in_memory network names = record {
  World = Memory;
  fields = memory_table Field (λ r. r.id) (λ t. t.fields) put_fields;
  field_bookings = memory_table FieldBooking (λ r. r.id) (λ t. t.field_bookings) put_field_bookings;
  utilities = memory_table Utility (λ r. r.id) (λ t. t.utilities) put_utilities;
  utility_bookings =
      memory_table UtilityBooking (λ r. r.id) (λ t. t.utility_bookings) put_utility_bookings;
  sport_column = sport_of;
  utility_type_column = λ t. map lower t;
  price_column = λ n. n / 100 * 100;
  select_newest_first = λ p w. (ok (where_rows p w.tables.field_bookings), w);
  scalar_one_or_none = one_or_none;
  begin = λ w. begin_once w.in_transaction w;
  session_enter = λ w. (ok tt, w);
  session_rollback = λ w. (ok tt, w);
  session_leave = λ w. (ok tt, w);
  json_loads = document_of;
  redis_get = λ k w. (ok (w.broker.stored k), w);
  redis_set = λ k v n w. (ok tt, keep (write k (some v) w.broker.stored) w);
  redis_set_nx = memory_set_nx;
  redis_delete = λ k w. (ok tt, keep (write k none w.broker.stored) w);
  redis_eval = λ f w. (ok (f w).0, record w { broker = (f w).1.broker });
  call_get = λ k w. w.broker.stored k;
  call_del =
      λ k w. (if is_free (w.broker.stored k) then 0 else 1, keep (write k none w.broker.stored) w);
  redis_keys = λ k w. (ok (listed names (before_last k) w.broker.stored), w);
  redis_scan = λ c k w. (ok (0, listed names k w.broker.stored), w);
  redis_publish = λ m w. (
    ok tt,
    record w { broker = record { stored = w.broker.stored; sent = w.broker.sent ++ m ∷ [] } },
  );
  uuid4 = λ w. (ok (decimal w.clock), record w { clock = suc w.clock });
  post = via network;
  isoformat = decimal;
  date_of = decimal;
}

abbrev pub Alike : Memory → Memory → Type 0
Alike u v = (v.tables ≡ u.tables) × (v.broker ≡ u.broker)

pub heard-Posted :
    {A : Type 0} (h : Action Memory A) (w v : Memory)
    → Alike w v
    → Posted Memory A Alike h w (heard (h v))
heard-Posted h w v a = elim (Result-cases (h v).0) [
  | inl (x, e) ↦ served x v (ground (arith, e)) a e (ground (arith, e))
  | inr (x, e) ↦ failed x v (ground (arith, e)) a e (ground (arith, e))
]

pub deliver-Posted :
    {A : Type 0} (ds : List Delivery) (h : Action Memory A) (w : Memory)
    → Posted Memory A Alike h w (deliver ds h w)
deliver-Posted [] h w = heard-Posted h w w (refl, refl)
deliver-Posted (delivered ∷ ds) h w = heard-Posted h w (record w { network = ds }) (refl, refl)
deliver-Posted (request_lost ∷ ds) h w = lost request_error refl (refl, refl)
deliver-Posted (answer_lost ∷ ds) h w =
    unheard timeout (record w { network = ds }) refl (refl, refl) (refl, refl)

pub write_ne :
    (k : Text) (o : Option Value) (f : Text → Option Value) (j : Text) → j ≢ k → write k o f j ≡ f j
write_ne k o f j h = ground (arith, text_eq_iff j k)

pub write_self : (k : Text) (o : Option Value) (f : Text → Option Value) → write k o f k ≡ o
write_self k o f = ground (arith, text_eq_iff k k)

pub set_nx_true :
    (k : Text) (v : Value) (n : ℕ) (w : Memory)
    → (memory_set_nx k v n w).0 ≡ ok true
    → (w.broker.stored k ≡ none) × ((memory_set_nx k v n w).1.broker.stored k ≡ some v)
unfolding memory_set_nx
set_nx_true k v n w h = elim (Option-cases (w.broker.stored k)) [
  | inl free ↦ (free, rw (free, memory_set_nx) (write_self k (some v) w.broker.stored))
  | inr (o, taken) ↦ absurd (ground (arith, h, taken))
]

pub set_nx_false :
    (k : Text) (v : Value) (n : ℕ) (w : Memory)
    → (memory_set_nx k v n w).0 ≡ ok false
    → (w.broker.stored k ≢ none) × ((memory_set_nx k v n w).1.broker ≡ w.broker)
unfolding memory_set_nx
set_nx_false k v n w h = ground (arith, h)

pub set_nx_taken :
    (k : Text) (v : Value) (n : ℕ) (w : Memory)
    → w.broker.stored k ≢ none
    → (memory_set_nx k v n w).1.broker.stored k ≡ w.broker.stored k
unfolding memory_set_nx
set_nx_taken k v n w h = ground (arith, h)

pub set_nx_ne :
    (k : Text) (v : Value) (n : ℕ) (w : Memory) (j : Text)
    → j ≢ k
    → (memory_set_nx k v n w).1.broker.stored j ≡ w.broker.stored j
unfolding memory_set_nx
set_nx_ne k v n w j h = ground (arith, write_ne k (some v) w.broker.stored j h)

abbrev pub IsNetwork : Network → Type 1
IsNetwork network =
    (A : Type 0) (h : Action Memory A) (w : Memory) → Posted Memory A Alike h w (network A h w)

pub listed_ok :
    (names : List Text) (k : Text) (stored : Text → Option Value) {ks : List Text}
    → ok (listed names k stored) ≡ ok ks
    → All (λ j. starts_with k j ≡ true) ks
listed_ok names k stored h =
    subst (λ r. All (λ j. starts_with k j ≡ true) (names_of r)) h (listed_prefix names k stored)

pub keys_listed :
    (names : List Text) (k : Text) (stored : Text → Option Value) {ks : List Text}
    → ok (listed names (before_last (k ++ b'*' ∷ [])) stored) ≡ ok ks
    → All (λ j. starts_with k j ≡ true) ks
keys_listed names k stored h = listed_ok names k stored (rw (before_last-append k b'*') at h)

-- The services in memory meet the laws.
unfoldable pub in_memory_lawful :
    (network : Network) (names : List Text) → IsNetwork network → IsLawful (in_memory network names)
unfolding memory_table memory_set_nx
in_memory_lawful network names posted = record {
  tables = λ w. w.tables;
  broker = λ w. w.broker;
  in_transaction = λ w. w.in_transaction;
  fields_lawful = memory_table-IsTable Field (λ r. r.id) (λ t. t.fields) put_fields;
  field_bookings_lawful =
      memory_table-IsTable FieldBooking (λ r. r.id) (λ t. t.field_bookings) put_field_bookings;
  utilities_lawful = memory_table-IsTable Utility (λ r. r.id) (λ t. t.utilities) put_utilities;
  utility_bookings_lawful =
      memory_table-IsTable UtilityBooking (λ r. r.id) (λ t. t.utility_bookings)
        put_utility_bookings;
  sport_column-fits = sport_of_fits;
  one_or_none-nil = refl;
  one_or_none-one = λ a. refl;
  one_or_none-many = λ a b as'. refl;
  select-in_transaction = λ p w h. refl;
  begin-in_transaction = λ w h. ground (arith, h);
  begin-tables = λ w. ground arith;
  begin-broker = λ w. ground arith;
  enter-tables = λ w. refl;
  enter-broker = λ w. refl;
  rollback-tables = λ w. refl;
  rollback-broker = λ w. refl;
  leave-tables = λ w. refl;
  leave-broker = λ w. refl;
  json_loads-document = λ d. refl;
  get-tables = λ k w. refl;
  get-broker = λ k w. refl;
  get-ok = λ k w h. ground (arith, h);
  set-tables = λ k v n w. refl;
  set-sent = λ k v n w. refl;
  set-ne = λ k v n w j h. write_ne k (some v) w.broker.stored j h;
  set-ok = λ k v n w h. write_self k (some v) w.broker.stored;
  set-err = λ k v n w h. cc;
  set_nx-tables = λ k v n w. ground arith;
  set_nx-in_transaction = λ k v n w. ground arith;
  set_nx-ne = set_nx_ne;
  set_nx-true = set_nx_true;
  set_nx-false = set_nx_false;
  set_nx-taken = set_nx_taken;
  set_nx-err = λ k v n w h. ground (arith, h);
  delete-tables = λ k w. refl;
  delete-sent = λ k w. refl;
  delete-ok = λ k w h. write_self k none w.broker.stored;
  delete-ne = λ k w j h. write_ne k none w.broker.stored j h;
  eval-tables = λ f w. refl;
  eval-ok = λ f w h. (ground (arith, h), refl);
  eval-err = λ f w h. cc;
  call_get_lem = λ k w. refl;
  call_del-present = λ k w h. ground (arith, h);
  call_del-self = λ k w. write_self k none w.broker.stored;
  call_del-ne = λ k w j h. write_ne k none w.broker.stored j h;
  keys-tables = λ k w. refl;
  keys-broker = λ k w. refl;
  keys-ok = λ k w plain_k h. keys_listed names k w.broker.stored h;
  scan-tables = λ c k w. refl;
  scan-broker = λ c k w. refl;
  publish-tables = λ m w. refl;
  publish-stored = λ m w. refl;
  publish-ok = λ m w h. refl;
  uuid4-ok = λ w. (decimal w.clock, refl);
  uuid4-tables = λ w. refl;
  uuid4-broker = λ w. refl;
  uuid4-in_transaction = λ w. refl;
  post_lem = λ {A} h w. posted A h w;
}

-- The keys that the tests write and look for: two transactions and two holds.
abbrev pub known_names : List Text
known_names =
    codes "2pc:txn:8"
    ∷ codes "2pc:txn:9"
    ∷ codes "hold:1:2025-06-01:10:00"
    ∷ codes "hold:1:2025-06-01:11:00"
    ∷ []

-- A network that follows the script of the world.
abbrev pub memory : Services
memory = in_memory (λ A h w. memory_post h w) known_names

unfoldable pub memory_lawful : IsLawful memory
unfolding in_memory_lawful
memory_lawful =
    in_memory_lawful (λ A h w. memory_post h w) known_names (λ A h w. deliver-Posted w.network h w)
