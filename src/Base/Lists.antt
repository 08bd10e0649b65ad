-- ===== src/Base/Lists.antt =====
-- Lists measured and searched by Boolean tests, and predicates on them by recursion.
use Prim.Native.Nat.{ℕ, suc}
use mathlib.Core.Bool.{Bool}
use mathlib.Core.Option.{Option, none, some}
use mathlib.Core.List.{List, [], ◌∷◌, ◌++◌}
use ds_practice_court.Base.Tests.{if◌then◌else◌}

module _ {ℓ} {A : Type ℓ} where
  abbrev pub length : List A → ℕ
  length [] = 0
  length (_ ∷ xs) = suc (length xs)

  -- The rows that pass a test, in order.
  abbrev pub where_rows : (A → Bool) → List A → List A
  where_rows p [] = []
  where_rows p (x ∷ xs) = if p x then x ∷ where_rows p xs else where_rows p xs

  -- The first row that passes a test.
  abbrev pub find? : (A → Bool) → List A → Option A
  find? p [] = none
  find? p (x ∷ xs) = if p x then some x else find? p xs

  -- The rows, with those that pass a test changed.
  abbrev pub change_where : (A → Bool) → (A → A) → List A → List A
  change_where p f [] = []
  change_where p f (x ∷ xs) = (if p x then f x else x) ∷ change_where p f xs

  abbrev pub All {κ} : (A → Type κ) → List A → Type κ
  All P [] = Unit
  All P (x ∷ xs) = P x × All P xs

  pub All-append {κ} :
      (P : A → Type κ) (xs : List A) {y : A} → All P xs → P y → All P (xs ++ y ∷ [])
  All-append P [] h hy = (hy, tt)
  All-append P (x ∷ xs) h hy = (h.0, All-append P xs h.1 hy)

  -- An element in the middle: to find it, to leave it out, to put another one in its place.
  pub All-at {κ} : (P : A → Type κ) (xs : List A) (y : A) (ys : List A) → All P (xs ++ y ∷ ys) → P y
  All-at P [] y ys h = h.0
  All-at P (x ∷ xs) y ys h = All-at P xs y ys h.1

  pub All-without {κ} :
      (P : A → Type κ) (xs : List A) (y : A) (ys : List A) → All P (xs ++ y ∷ ys) → All P (xs ++ ys)
  All-without P [] y ys h = h.1
  All-without P (x ∷ xs) y ys h = (h.0, All-without P xs y ys h.1)

  pub All-replace {κ} :
      (P : A → Type κ) (xs : List A) (y z : A) (ys : List A)
      → P z
      → All P (xs ++ y ∷ ys)
      → All P (xs ++ z ∷ ys)
  All-replace P [] y z ys k h = (k, h.1)
  All-replace P (x ∷ xs) y z ys k h = (h.0, All-replace P xs y z ys k h.1)

  pub All-mono {κ} :
      (P Q : A → Type κ) → ((x : A) → P x → Q x) → (xs : List A) → All P xs → All Q xs
  All-mono P Q f [] h = tt
  All-mono P Q f (x ∷ xs) h = (f x h.0, All-mono P Q f xs h.1)
