-- ===== src/Base/Rows.antt =====
-- Lookups by key in a list of rows, under a change of rows and behind a new row.
use Prim.Native.Nat.{ℕ}
use mathlib.Core.Path.{◌≡◌, refl}
use mathlib.Core.Bool.{Bool, true, false, ◌||◌}
use mathlib.Core.Option
use mathlib.Core.Option.{Option, none, some}
use mathlib.Core.List.{List, [], ◌∷◌, ◌++◌}
use native.Mathlib.Omega.{arith}
use mathlib.Core.Logic.{inl, inr}
use ds_practice_court.Base.Tests.{◌==◌, if◌then◌else◌, Bool-cases, ==_iff}
use ds_practice_court.Base.Lists.{find?, where_rows, change_where}

abbrev pub contains : ℕ → List ℕ → Bool
contains i [] = false
contains i (j ∷ js) = j == i || contains i js

abbrev pub has_id : {Row : Type 0} → (Row → ℕ) → ℕ → Row → Bool
has_id id i r = id r == i

module _ {Row : Type 0} where
  pub find?-append_some :
      (p : Row → Bool) (xs ys : List Row) {r : Row}
      → find? p xs ≡ some r
      → find? p (xs ++ ys) ≡ some r
  find?-append_some p [] ys e = ground arith
  find?-append_some p (x ∷ xs) ys {r} e = ground (arith, find?-append_some p xs ys {r = r})

  pub find?-append_none :
      (p : Row → Bool) (xs ys : List Row) → find? p xs ≡ none → find? p (xs ++ ys) ≡ find? p ys
  find?-append_none p [] ys e = refl
  find?-append_none p (x ∷ xs) ys e = ground (arith, find?-append_none p xs ys)

  -- A change that keeps the keys acts on the row that a key finds.
  pub find?-change_where :
      (id : Row → ℕ) (f : Row → Row)
      → ((r : Row) → id (f r) ≡ id r)
      → (i j : ℕ) (xs : List Row)
      → find? (has_id id j) (change_where (has_id id i) f xs)
        ≡ (if i == j then Option.map f (find? (has_id id j) xs) else find? (has_id id j) xs)
  find?-change_where id f keeps i j [] = ground arith
  find?-change_where id f keeps i j (x ∷ xs) =
      ground (arith, keeps x, find?-change_where id f keeps i j xs)

  pub find?-where_rows : (p : Row → Bool) (xs : List Row) → where_rows p xs ≡ [] → find? p xs ≡ none
  find?-where_rows p [] e = refl
  find?-where_rows p (x ∷ xs) e = ground (arith, find?-where_rows p xs)

  pub find?-head :
      (p : Row → Bool) (xs : List Row) {r : Row} {rs : List Row}
      → where_rows p xs ≡ r ∷ rs
      → find? p xs ≡ some r
  find?-head p [] e = ground arith
  find?-head p (x ∷ xs) {r} {rs} e = ground (arith, find?-head p xs {r = r} {rs = rs})

  pub find?-holds : (p : Row → Bool) (xs : List Row) {r : Row} → find? p xs ≡ some r → p r ≡ true
  find?-holds p [] e = ground arith
  find?-holds p (x ∷ xs) {r} e = ground (arith, find?-holds p xs {r = r})

  pub change_where_absent :
      (p : Row → Bool) (f : Row → Row) (xs : List Row)
      → find? p xs ≡ none
      → change_where p f xs ≡ xs
  change_where_absent p f [] e = refl
  change_where_absent p f (x ∷ xs) e = ground (arith, change_where_absent p f xs)

  pub where_rows_absent :
      (p : Row → Bool) (xs : List Row) → find? p xs ≡ none → where_rows p xs ≡ []
  where_rows_absent p [] e = refl
  where_rows_absent p (x ∷ xs) e = ground (arith, where_rows_absent p xs)

  pub where_rows_all : (xs : List Row) → where_rows (λ _. true) xs ≡ xs
  where_rows_all [] = refl
  where_rows_all (x ∷ xs) = ground (arith, where_rows_all xs)

  pub where_rows-append :
      (p : Row → Bool) (xs ys : List Row)
      → where_rows p (xs ++ ys) ≡ where_rows p xs ++ where_rows p ys
  where_rows-append p [] ys = refl
  where_rows-append p (x ∷ xs) ys = ground (arith, where_rows-append p xs ys)

  pub where_rows-change_where :
      (id : Row → ℕ) (f : Row → Row)
      → ((r : Row) → id (f r) ≡ id r)
      → (i j : ℕ) (xs : List Row)
      → where_rows (has_id id j) (change_where (has_id id i) f xs)
        ≡ change_where (has_id id i) f (where_rows (has_id id j) xs)
  where_rows-change_where id f keeps i j [] = refl
  where_rows-change_where id f keeps i j (x ∷ xs) =
      ground (arith, keeps x, where_rows-change_where id f keeps i j xs)

  -- Exactly one row has the key.
  abbrev pub HasOne : (Row → ℕ) → ℕ → List Row → Type 0
  HasOne id i xs = (r : Row) × (where_rows (has_id id i) xs ≡ r ∷ [])

  pub HasOne-change_where :
      (id : Row → ℕ) (f : Row → Row)
      → ((r : Row) → id (f r) ≡ id r)
      → (i j : ℕ) (xs : List Row) → HasOne id j xs
      → HasOne id j (change_where (has_id id i) f xs)
  HasOne-change_where id f keeps i j xs (r, one) =
      (if has_id id i r then f r else r, rw (where_rows-change_where id f keeps i j xs, one) refl)

  pub HasOne-last :
      (id : Row → ℕ) (i : ℕ) (xs : List Row) (r : Row)
      → find? (has_id id i) xs ≡ none
      → id r ≡ i
      → HasOne id i (xs ++ r ∷ [])
  HasOne-last id i xs r absent e = (
    r,
    ground (arith, where_rows-append (has_id id i) xs (r ∷ []), where_rows_absent (has_id id i) xs),
  )

  -- A row with a new key behind the others leaves the other keys theirs.
  pub HasOne-append :
      (id : Row → ℕ) (i j : ℕ) (xs : List Row) (r : Row)
      → find? (has_id id j) xs ≡ none
      → id r ≡ j
      → HasOne id i xs
      → HasOne id i (xs ++ r ∷ [])
  HasOne-append id i j xs r absent e (q, one) = elim (Bool-cases (id r == i)) [
    | inl same ↦ absurd (
        ground (
          arith,
          one,
          same,
          where_rows_absent (has_id id i) xs,
          absent,
          e,
          (==_iff (id r) i).0 same,
        ))
    | inr other ↦ (q, rw (where_rows-append (has_id id i) xs (r ∷ []), one, other) refl)
  ]

  pub HasOne-find? :
      (id : Row → ℕ) (i : ℕ) (xs : List Row) {r : Row}
      → where_rows (has_id id i) xs ≡ r ∷ []
      → find? (has_id id i) xs ≡ some r
  HasOne-find? id i xs {r} e = find?-head (has_id id i) xs {r = r} {rs = []} e

  -- A change of the row that was put behind the others.
  pub change_where_last :
      (id : Row → ℕ) (f : Row → Row) (i : ℕ) (xs : List Row) (r : Row)
      → find? (has_id id i) xs ≡ none
      → id r ≡ i
      → change_where (has_id id i) f (xs ++ r ∷ []) ≡ xs ++ f r ∷ []
  change_where_last id f i [] r absent e = ground (arith, absent, e)
  change_where_last id f i (x ∷ xs) r absent e =
      ground (arith, absent, e, change_where_last id f i xs r)
