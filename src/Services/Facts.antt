-- ===== src/Services/Facts.antt =====
-- What the laws say of the calls as the repositories make them.
use ds_practice_court.Services.Up.{IsTableUp}
use ds_practice_court.Base.{
  ap, ◌∙◌, where_rows_absent, where_rows-append, ==_refl, Result, lift_result, multiple_results,
  some, ℕ, ◌≡◌, sym, ◌⊎◌, inl, inr, Bool, Option, none, List, [], ◌∷◌, ◌++◌, ok, err, Exn, fault,
  database, ◌>>=◌, where_rows, find?, has_id, find?-where_rows, find?-head, find?-append_none,
  bind_ok, bind_cases, arith,
}
use ds_practice_court.Services.Defs.{Table, Services}
use ds_practice_court.Shared.Models.{Tables}
use ds_practice_court.Services.Laws.{Broker, IsTable, IsLawful}

module _ (S : Services) (L : IsLawful S) where
  -- If `scalar_one_or_none` returns, it returns the first row.
  pub one_or_none-find? :
      {Row : Type 0} (p : Row → Bool) (xs rs : List Row) {o : Option Row}
      → rs ≡ where_rows p xs
      → S.scalar_one_or_none rs ≡ ok o
      → o ≡ find? p xs
  one_or_none-find? {Row} p xs [] e h =
      ground (arith, L.one_or_none-nil {A = Row}, find?-where_rows p xs (sym e))
  one_or_none-find? p xs (r ∷ []) e h = ground (arith, L.one_or_none-one r, find?-head p xs (sym e))
  one_or_none-find? p xs (r ∷ q ∷ rs) e h = ground (arith, L.one_or_none-many r q rs)

-- A new row, added and read back.
module _ {W Row : Type 0} (t : Table W Row) (id : Row → ℕ) (tables : W → Tables)
    (broker : W → Broker) (rows : Tables → List Row) (put : List Row → Tables → Tables)
    (L : IsTable W Row t id tables broker rows put)
    (rows-put : (rs : List Row) (x : Tables) → rows (put rs x) ≡ rs) (mk : ℕ → ℕ → Row)
    (id-mk : (i now : ℕ) → id (mk i now) ≡ i) where
  pub insert-broker : (w : W) → broker ((t.add_commit mk >>= t.refresh) w).1 ≡ broker w
  insert-broker w = elim (bind_cases (t.add_commit mk) t.refresh w) [
    | inl (e, _, step) ↦ rw step (L.add-broker mk w)
    | inr (r, _, step) ↦ rw (step, L.refresh-broker) (L.add-broker mk w)
  ]

  pub insert_ok :
      (w : W) {q : Row}
      → ((t.add_commit mk >>= t.refresh) w).0 ≡ ok q
      → (i : ℕ) × (now : ℕ) × (q ≡ mk i now)
        × (find? (has_id id i) (rows (tables w)) ≡ none)
        × (tables ((t.add_commit mk >>= t.refresh) w).1
            ≡ put (rows (tables w) ++ q ∷ []) (tables w))
  insert_ok w {q} h =
      let (r, e, step) = bind_ok (t.add_commit mk) t.refresh w h in
      let (i, now, made, fresh, after) = L.add-ok mk w e in
      let back = L.refresh-ok r (t.add_commit mk w).1 {q = q} (rw step at h) in
      let id_r : id r ≡ i = rw (made, id-mk) in
      let same : r ≡ q = ground (
        arith,
        back,
        id_r,
        after,
        rows-put (rows (tables w) ++ r ∷ []) (tables w),
        find?-append_none (has_id id i) (rows (tables w)) (r ∷ []) fresh,
      ) in
      (i, now, rw (← same) made, fresh, rw (step, L.refresh-tables) (rw (← same) after))

  -- A new row is the only one with its id, and stands behind the others.
  pub inserted :
      (w : W) {q : Row}
      → ((t.add_commit mk >>= t.refresh) w).0 ≡ ok q
      → let v = ((t.add_commit mk >>= t.refresh) w).1 in
        (i : ℕ) × (now : ℕ) × (q ≡ mk i now)
        × (where_rows (has_id id (id q)) (rows (tables v)) ≡ q ∷ [])
        × (rows (tables v) ≡ rows (tables w) ++ q ∷ [])
  inserted w {q} h =
      let (i, now, made, fresh, after) = insert_ok w h in
      let behind = ap rows after ∙ rows-put (rows (tables w) ++ q ∷ []) (tables w) in
      let is_i : id q ≡ i = rw (made, id-mk) in
      let absent : where_rows (has_id id (id q)) (rows (tables w)) ≡ [] =
        rw is_i (where_rows_absent (has_id id i) (rows (tables w)) fresh) in
      (
        i,
        now,
        made,
        rw (behind, where_rows-append (has_id id (id q)) (rows (tables w)) (q ∷ []), absent)
            (ground (arith, ==_refl (id q))),
        behind,
      )

  -- If it raises, the row may be there all the same.
  pub insert_err :
      (w : W) {e : Exn}
      → ((t.add_commit mk >>= t.refresh) w).0 ≡ err e
      → (e ≡ fault database)
        × ((tables ((t.add_commit mk >>= t.refresh) w).1 ≡ tables w)
            ⊎ ((i : ℕ) × (now : ℕ) × (find? (has_id id i) (rows (tables w)) ≡ none)
                × (tables ((t.add_commit mk >>= t.refresh) w).1
                    ≡ put (rows (tables w) ++ mk i now ∷ []) (tables w))))
  insert_err w {e} h = elim (bind_cases (t.add_commit mk) t.refresh w) [
    | inl (x, raised, step) ↦
        let same : x ≡ e = ground (arith, h, step) in
        let (kind, kept) = L.add-err mk w raised in (rw (← same) kind, inl (rw step kept))
    | inr (r, added, step) ↦
        let (i, now, made, fresh, after) = L.add-ok mk w added in
        (
          L.refresh-err r (t.add_commit mk w).1 (rw step at h),
          inr (i, now, fresh, rw (step, L.refresh-tables) (rw (← made) after)),
        )
  ]

-- `scalar_one_or_none`, by the number of rows.
abbrev pub one_of : {A : Type 0} → List A → Result (Option A)
one_of [] = ok none
one_of (a ∷ []) = ok (some a)
one_of (a ∷ b ∷ as') = err (fault multiple_results)

module _ (S : Services) (L : IsLawful S) where
  pub one_or_none-one_of : {A : Type 0} (rs : List A) → S.scalar_one_or_none rs ≡ one_of rs
  one_or_none-one_of {A} [] = L.one_or_none-nil {A = A}
  one_or_none-one_of (a ∷ []) = L.one_or_none-one a
  one_or_none-one_of (a ∷ b ∷ as') = L.one_or_none-many a b as'

  -- A lookup while the services are up.
  pub lookup_up :
      {Row : Type 0} (t : Table S.World Row) (id : Row → ℕ) (rows : Tables → List Row)
      (put : List Row → Tables → Tables)
      → IsTable S.World Row t id (λ w. L.tables w) (λ w. L.broker w) rows put
      → IsTableUp S.World Row t id (λ w. L.tables w) rows
      → (p : Row → Bool) (w : S.World)
      → ((t.select p >>= λ rs. lift_result (S.scalar_one_or_none rs)) w).0
        ≡ one_of (where_rows p (rows (L.tables w)))
  lookup_up t id rows put T U p w =
      let (rs, e) = U.select-up p w in
      let same = T.select-ok p w e in ground (arith, e, same, one_or_none-one_of rs)
