-- ===== src/Locks/Clients.antt =====
-- Several clients of one lock, whose calls of acquire and release interleave, and whose key may run
-- out while they work.
use ds_practice_court.Base.{
  ℕ, suc, ◌≤◌, ◌≡◌, ◌≢◌, ◌⊎◌, inl, inr, none, some, List, [], ◌∷◌, ◌++◌, length, ok, err, arith,
  refl, sym, ◌∙◌, Bool-cases, Exn,
}
use ds_practice_court.Base.Text.{Text, text_eq, text_eq_iff}
use ds_practice_court.Services.{Services, IsLawful, plain}
use ds_practice_court.Locks.{build_key, acquire, release}
use ds_practice_court.Locks.Ownership.{acquire_outcome, release_keeps, acquire_keeps}

abbrev pub Among : Text → List Text → Type 0
Among t [] = ⊥
Among t (s ∷ ts) = (t ≡ s) ⊎ Among t ts

Among-without :
    (t s : Text) (xs ys : List Text) → t ≢ s → Among t (xs ++ s ∷ ys) → Among t (xs ++ ys)
Among-without t s [] ys ne (inl e) = absurd (ne e)
Among-without t s [] ys ne (inr a) = a
Among-without t s (x ∷ xs) ys ne (inl e) = inl e
Among-without t s (x ∷ xs) ys ne (inr a) = inr (Among-without t s xs ys ne a)

length-without : (s : Text) (xs ys : List Text) → length (xs ++ s ∷ ys) ≡ suc (length (xs ++ ys))
length-without s [] ys = refl
length-without s (x ∷ xs) ys = ground (arith, length-without s xs ys)

plain_inj : {s t : Text} → some (plain s) ≡ some (plain t) → s ≡ t
plain_inj e = cc

module _ (S : Services) (L : IsLawful S) (key : Text) where
  open L use {tables, broker}

  -- The world, and the tokens of the clients that have acquired the lock and not yet released it.
  abbrev pub Shared : Type 0
  Shared = S.World × List Text

  -- A step in which the key does not run out. A client leaves by a release,
  -- whatever that returns or raises; an acquire that gives no token lets no one in.
  pub data Step : Shared → Shared → Type 0 where
    enters :
        (ttl : ℕ) (w : S.World) (ts : List Text) (t : Text)
        → (acquire S key ttl w).0 ≡ ok (some t)
        → Step (w, ts) ((acquire S key ttl w).1, t ∷ ts)
    stays_out :
        (ttl : ℕ) (w : S.World) (ts : List Text)
        → ((acquire S key ttl w).0 ≡ ok none) ⊎ ((e : Exn) × ((acquire S key ttl w).0 ≡ err e))
        → Step (w, ts) ((acquire S key ttl w).1, ts)
    leaves :
        (w : S.World) (xs : List Text) (t : Text) (ys : List Text)
        → Step (w, xs ++ t ∷ ys) ((release S key t w).1, xs ++ ys)
    elsewhere :
        (w v : S.World) (ts : List Text)
        → (broker v).stored (build_key key) ≡ (broker w).stored (build_key key)
        → Step (w, ts) (v, ts)

  -- What is reached, with the number of times that the key has run out on the way.
  pub data Reach (w : S.World) : ℕ → Shared → Type 0 where
    start : Reach w 0 (w, [])
    later : {n : ℕ} {s t : Shared} → Reach w n s → Step s t → Reach w n t
    lapses :
        {n : ℕ} {s : Shared} (v : S.World)
        → Reach w n s
        → (broker v).stored (build_key key) ≡ none
        → Reach w (suc n) (v, s.1)

  -- No more clients are inside than the key has run out, or one more, the one whose token it holds.
  abbrev pub Bounded : ℕ → Shared → Type 0
  Bounded n (w, ts) =
      (length ts ≤ n)
      ⊎ ((t : Text) × ((broker w).stored (build_key key) ≡ some (plain t))
          × Among t ts
          × (length ts ≤ suc n))

  pub Step-Bounded : {n : ℕ} {s t : Shared} → Step s t → Bounded n s → Bounded n t
  Step-Bounded {n} (enters ttl w ts t h) b = elim (acquire_outcome S L key ttl w h) [
    | inl (u, is_u, free, held) ↦
        inr (t, ground (arith, held, is_u), inl refl, ground (arith, b, free))
    | inr (is_none, _, _) ↦ absurd (ground (arith, is_none))
  ]
  Step-Bounded (stays_out ttl w ts h) (inl few) = inl few
  Step-Bounded (stays_out ttl w ts h) (inr (t, held, among, few)) =
      inr (t, acquire_keeps S L key ttl w (λ e. ground (arith, e, held)) ∙ held, among, few)
  Step-Bounded {n} (leaves w xs t ys) (inl few) = inl (ground (arith, few, length-without t xs ys))
  Step-Bounded {n} (leaves w xs t ys) (inr (u, held, among, few)) =
      elim (Bool-cases (text_eq u t)) [
        | inl own ↦ inl (ground (arith, few, length-without t xs ys))
        | inr other ↦
            let differs : u ≢ t = λ e. ground (arith, other, text_eq_iff u t, e) in
            inr (
              u,
              release_keeps S L key t w (λ e. differs (plain_inj (sym held ∙ e))) ∙ held,
              Among-without u t xs ys differs among,
              ground (arith, few, length-without t xs ys),
            )
      ]
  Step-Bounded (elsewhere w v ts h) (inl few) = inl few
  Step-Bounded (elsewhere w v ts h) (inr (t, held, among, few)) = inr (t, h ∙ held, among, few)

  Reach-Bounded : {w : S.World} {n : ℕ} {s : Shared} → Reach w n s → Bounded n s
  Reach-Bounded start = inl (omega arith)
  Reach-Bounded (later r step) = Step-Bounded step (Reach-Bounded r)
  Reach-Bounded (lapses v r h) = ground (arith, Reach-Bounded r)

  -- However the calls of acquire and release of several clients interleave with each other and with
  -- everything else, at most one more client is inside than the key has run out: one at a time if
  -- it never does.
  pub Reach-bounds : {w : S.World} {n : ℕ} {s : Shared} → Reach w n s → length s.1 ≤ suc n
  Reach-bounds r = ground (arith, Reach-Bounded r)
