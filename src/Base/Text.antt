-- ===== src/Base/Text.antt =====
-- Texts as their code points: equality, the decimal form of a number (`str`, `int`), `removeprefix`.
use Prim.Native.Char.{code}
use Prim.Native.String.{String}
use Prim.Native.Nat.{ℕ, zero, suc, ◌+◌, ◌-◌, ◌*◌, ◌/◌, ◌%◌, ◌<◌}
use mathlib.Core.Path.{◌≡◌, refl}
use mathlib.Core.Logic.{◌↔◌, inl, inr}
use mathlib.Core.Bool.{Bool, true, false, ◌&&◌}
use mathlib.Core.Option.{Option, none, some}
use mathlib.Core.List.{List, [], ◌∷◌, ◌++◌}
use native.Mathlib.Omega.{arith}
use ds_practice_court.Base.Lists.{All, All-append}
use ds_practice_court.Base.Tests.{ltb, leb, ◌==◌, if◌then◌else◌, Bool-cases}

abbrev pub Text : Type 0
Text = List ℕ

abbrev pub codes : String → Text
codes String.[] = []
codes (String.◌∷◌ c s) = code c ∷ codes s

unfoldable pub text_eq : Text → Text → Bool
text_eq [] [] = true
text_eq [] (b ∷ t) = false
text_eq (a ∷ s) [] = false
text_eq (a ∷ s) (b ∷ t) = a == b && text_eq s t

pub text_eq_iff : (s t : Text) → (text_eq s t ≡ true) ↔ (s ≡ t)
unfolding text_eq
text_eq_iff [] [] = ground arith
text_eq_iff [] (b ∷ t) = ground arith
text_eq_iff (a ∷ s) [] = ground arith
text_eq_iff (a ∷ s) (b ∷ t) = ground (arith, text_eq_iff s t)

-- The digits of a number, most significant first; `fuel` above the number is enough.
digits : ℕ → ℕ → Text
digits zero n = []
digits (suc fuel) n =
    let more = digits fuel (n / 10) in
    if ltb n 10 then (b'0' + n) ∷ [] else more ++ (b'0' + n % 10) ∷ []

-- `str(n)`
unfoldable pub decimal : ℕ → Text
unfolding digits
decimal n = digits (suc n) n

read_digits : ℕ → Text → Option ℕ
read_digits n [] = some n
read_digits n (c ∷ s) =
    if leb b'0' c && leb c b'9' then read_digits (n * 10 + (c - b'0')) s else none

-- `int(s)` of a run of digits; a ValueError is `none`.
unfoldable pub int_of : Text → Option ℕ
unfolding read_digits
int_of [] = none
int_of (c ∷ s) = read_digits 0 (c ∷ s)

-- The rest of a text behind a prefix.
unfoldable pub strip_prefix : Text → Text → Option Text
strip_prefix [] s = some s
strip_prefix (a ∷ p) [] = none
strip_prefix (a ∷ p) (b ∷ s) = if a == b then strip_prefix p s else none

pub strip_prefix-some : (p s : Text) {rest : Text} → strip_prefix p s ≡ some rest → s ≡ p ++ rest
unfolding strip_prefix
strip_prefix-some [] s h = ground (arith, h)
strip_prefix-some (a ∷ p) [] h = cc
strip_prefix-some (a ∷ p) (b ∷ s) {rest} h = ground (arith, h, strip_prefix-some p s {rest = rest})

pub text_eq-append : (p s t : Text) → text_eq (p ++ s) (p ++ t) ≡ text_eq s t
unfolding text_eq
text_eq-append [] s t = refl
text_eq-append (a ∷ p) s t = ground (arith, text_eq-append p s t)

abbrev pub starts_with : Text → Text → Bool
starts_with p s = elim (strip_prefix p s) [ none ↦ false | some _ ↦ true ]

-- `s.removeprefix(p)`
unfoldable pub remove_prefix : Text → Text → Text
unfolding strip_prefix
remove_prefix p s = elim (strip_prefix p s) [ none ↦ s | some rest ↦ rest ]

strip_prefix-append : (p s : Text) → strip_prefix p (p ++ s) ≡ some s
unfolding strip_prefix
strip_prefix-append [] s = refl
strip_prefix-append (a ∷ p) s = ground (arith, strip_prefix-append p s)

pub remove_prefix-append : (p s : Text) → remove_prefix p (p ++ s) ≡ s
unfolding remove_prefix
remove_prefix-append p s = ground (arith, strip_prefix-append p s)

read_digits-append :
    (n m d : ℕ) (s : Text)
    → d < 10
    → read_digits n s ≡ some m
    → read_digits n (s ++ (b'0' + d) ∷ []) ≡ some (m * 10 + d)
unfolding read_digits
read_digits-append n m d [] h e = ground arith
read_digits-append n m d (c ∷ s) h e =
    ground (arith, read_digits-append (n * 10 + (c - b'0')) m d s h)

read_digits-digits : (fuel n : ℕ) → n < fuel → read_digits 0 (digits fuel n) ≡ some n
unfolding digits read_digits
read_digits-digits zero n h = elim h [ ]
read_digits-digits (suc fuel) n h = elim (Bool-cases (ltb n 10)) [
  | inl small ↦ rw small (ground arith)
  | inr large ↦ rw large (
      ground (
        arith,
        read_digits-append 0 (n / 10) (n % 10) (digits fuel (n / 10)),
        read_digits-digits fuel (n / 10),
      ))
]

digits-ne : (fuel n : ℕ) → n < fuel → (c : ℕ) × (s : Text) × (digits fuel n ≡ c ∷ s)
unfolding digits
digits-ne zero n h = elim h [ ]
digits-ne (suc fuel) n h = elim (Bool-cases (ltb n 10)) [
  | inl small ↦ (b'0' + n, [], rw small)
  | inr large ↦
      let (c, s, e) = digits-ne fuel (n / 10) (ground arith) in
      (c, s ++ (b'0' + n % 10) ∷ [], rw (large, e))
]

-- A number can be read back from its decimal form.
pub int_of-decimal : (n : ℕ) → int_of (decimal n) ≡ some n
unfolding int_of decimal
int_of-decimal n =
    let (c, s, e) = digits-ne (suc n) n (omega arith) in
    rw (e, int_of) (rw e at (read_digits-digits (suc n) n (omega arith)))

digits-All :
    (P : ℕ → Type 0) → ((d : ℕ) → d < 10 → P (b'0' + d)) → (fuel n : ℕ) → All P (digits fuel n)
unfolding digits
digits-All P digit zero n = tt
digits-All P digit (suc fuel) n = elim (Bool-cases (ltb n 10)) [
  | inl small ↦ rw small (digit n (ground (arith, small)), tt)
  | inr large ↦ rw large (
      All-append P (digits fuel (n / 10)) (digits-All P digit fuel (n / 10))
        (digit (n % 10) (omega arith)))
]

-- Every character of a decimal is a digit.
pub decimal-All : (P : ℕ → Type 0) → ((d : ℕ) → d < 10 → P (b'0' + d)) → (n : ℕ) → All P (decimal n)
unfolding decimal
decimal-All P digit n = digits-All P digit (suc n) n
