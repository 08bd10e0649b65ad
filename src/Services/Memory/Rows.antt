-- ===== src/Services/Memory/Rows.antt =====
-- A world in memory, and its tables, which meet the laws.
use ds_practice_court.Services.Up.{IsTableUp}
use ds_practice_court.Base.{
  ℕ, suc, ◌≤◌, ◌≡◌, refl, Bool, true, false, none, some, List, [], ◌∷◌, ◌++◌, ok, err, fault,
  database, Action, arith, where_rows, find?, change_where, length, has_id, leb, if◌then◌else◌,
}
use ds_practice_court.Shared.Models.{Tables}
use ds_practice_court.Services.Defs.{Table}
use ds_practice_court.Services.Laws.{Broker, IsTable}

-- What becomes of a POST.
pub data Delivery : Type 0 where
  delivered request_lost answer_lost : Delivery

pub record Memory : Type 0 where
  pub tables : Tables
  pub broker : Broker
  pub in_transaction : Bool
  pub network : List Delivery
  pub clock : ℕ

-- One more than every id in use.
unfoldable pub next_id : {Row : Type 0} → (Row → ℕ) → List Row → ℕ
next_id id [] = 1
next_id id (r ∷ rs) = if leb (next_id id rs) (id r) then suc (id r) else next_id id rs

find?-above :
    {Row : Type 0} (id : Row → ℕ) (n : ℕ) (rs : List Row)
    → next_id id rs ≤ n
    → find? (has_id id n) rs ≡ none
unfolding next_id
find?-above id n [] h = refl
find?-above id n (r ∷ rs) h = ground (arith, find?-above id n rs)

module _ (Row : Type 0) (id : Row → ℕ) (rows : Tables → List Row)
    (put : List Row → Tables → Tables) where
  memory_select : (Row → Bool) → Action Memory (List Row)
  memory_select p w = (ok (where_rows p (rows w.tables)), record w { in_transaction = true })

  memory_add : (ℕ → ℕ → Row) → Action Memory Row
  memory_add mk w =
      let r = mk (next_id id (rows w.tables)) w.clock in
      (ok r, record w { tables = put (rows w.tables ++ r ∷ []) w.tables; in_transaction = false })

  memory_refresh : Row → Action Memory Row
  memory_refresh r w = elim (find? (has_id id (id r)) (rows w.tables)) [
    | none ↦ (err (fault database), w)
    | some q ↦ (ok q, w)
  ]

  memory_update : (Row → Bool) → (Row → Row) → Action Memory ℕ
  memory_update p f w = (
    ok (length (where_rows p (rows w.tables))),
    record w { tables = put (change_where p f (rows w.tables)) w.tables; in_transaction = false },
  )

  unfoldable pub memory_table : Table Memory Row
  unfolding memory_select memory_add memory_refresh memory_update next_id
  memory_table = record {
    select = memory_select;
    add_commit = memory_add;
    refresh = memory_refresh;
    update = memory_update;
  }

  pub memory_table-IsTable :
      IsTable Memory Row memory_table id (λ w. w.tables) (λ w. w.broker) rows put
  unfolding memory_table
  memory_table-IsTable = record {
    select-tables = λ p w. refl;
    select-broker = λ p w. refl;
    select-ok = λ p w h. ground (arith, h);
    select-err = λ p w h. cc;
    add-broker = λ mk w. refl;
    add-ok = λ mk w h. (
      next_id id (rows w.tables),
      w.clock,
      ground (arith, h),
      find?-above id (next_id id (rows w.tables)) (rows w.tables) (omega arith),
      ground (arith, h),
    );
    add-err = λ mk w h. cc;
    refresh-tables = λ r w. ground arith;
    refresh-broker = λ r w. ground arith;
    refresh-ok = λ r w h. ground (arith, h);
    refresh-err = λ r w h. ground (arith, h);
    update-broker = λ p f w. refl;
    update-ok = λ p f w h. (ground (arith, h), refl);
    update-err = λ p f w h. cc;
  }

  pub memory_table-IsTableUp : IsTableUp Memory Row memory_table id (λ w. w.tables) rows
  unfolding memory_table
  memory_table-IsTableUp = record {
    select-up = λ p w. (where_rows p (rows w.tables), refl);
    add-up = λ mk w. (mk (next_id id (rows w.tables)) w.clock, refl);
    refresh-up = λ r q w h. ground (arith, h);
    update-up = λ p f w. (length (where_rows p (rows w.tables)), refl);
  }
