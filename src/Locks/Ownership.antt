-- ===== src/Locks/Ownership.antt =====
-- Who may take and free the lock.
use ds_practice_court.Base.{
  ℕ, ◌≡◌, ◌≢◌, ◌⊎◌, inl, inr, Bool, true, false, Option, none, some, ok, arith, Bool-cases, bind_ok,
  Result-cases,
}
use ds_practice_court.Base.Text.{Text, text_eq_iff}
use ds_practice_court.Services.{Services, IsLawful, Value, plain, document}
use ds_practice_court.Locks.{build_key, holds_token, acquire, release_script, release}

holds_token_iff : (o : Option Value) (t : Text) → holds_token o t ≡ true → o ≡ some (plain t)
unfolding holds_token
holds_token_iff none t h = cc
holds_token_iff (some (plain s)) t h = ground (arith, text_eq_iff s t)
holds_token_iff (some (document d)) t h = cc

holds_token_self : (t : Text) → holds_token (some (plain t)) t ≡ true
unfolding holds_token
holds_token_self t = ground (arith, text_eq_iff t t)

module _ (S : Services) (L : IsLawful S) where
  open L use {tables, broker}

  pub acquire-tables :
      (key : Text) (ttl : ℕ) (w : S.World) → tables (acquire S key ttl w).1 ≡ tables w
  unfolding acquire
  acquire-tables key ttl w = grind (arith, L.uuid4-tables, L.set_nx-tables)

  pub release-tables :
      (key token : Text) (w : S.World) → tables (release S key token w).1 ≡ tables w
  unfolding release
  release-tables key token w = grind (arith, L.eval-tables)

  -- If `acquire` returns a token, the key was free and now holds the token. If it returns `None`,
  -- the key was taken and is as it was.
  pub acquire_outcome :
      (key : Text) (ttl : ℕ) (w : S.World) {o : Option Text}
      → (acquire S key ttl w).0 ≡ ok o
      → let before = (broker w).stored (build_key key) in
        let after = (broker (acquire S key ttl w).1).stored (build_key key) in
        ((token : Text) × (o ≡ some token) × (before ≡ none) × (after ≡ some (plain token)))
        ⊎ ((o ≡ none) × (before ≢ none) × (after ≡ before))
  unfolding acquire
  acquire_outcome key ttl w {o} h =
      let (t, e, step) = bind_ok S.uuid4 _ w h in
      let w1 = (S.uuid4 w).1 in
      let same = L.uuid4-broker w in
      let (r, e', step') =
        bind_ok (S.redis_set_nx (build_key key) (plain t) ttl) _ w1 (rw step at h) in
      elim (Bool-cases r) [
        | inl set ↦
            let (free, held) =
              L.set_nx-true (build_key key) (plain t) ttl w1 (ground (arith, e', set)) in
            inl (
              t,
              ground (arith, h, step, step', set),
              ground (arith, free, same),
              ground (arith, step, step', held),
            )
        | inr busy ↦
            let (taken, kept) =
              L.set_nx-false (build_key key) (plain t) ttl w1 (ground (arith, e', busy)) in
            inr (
              ground (arith, h, step, step', busy),
              λ absent. taken (ground (arith, absent, same)),
              ground (arith, step, step', kept, same),
            )
      ]

  -- A release that returns True had the token that the key held, and the key is free. One that
  -- returns False had another token, and the key is as it was.
  pub release_outcome :
      (key token : Text) (w : S.World) {b : Bool}
      → (release S key token w).0 ≡ ok b
      → let before = (broker w).stored (build_key key) in
        let after = (broker (release S key token w).1).stored (build_key key) in
        ((before ≡ some (plain token)) × (b ≡ true) × (after ≡ none))
        ⊎ ((before ≢ some (plain token)) × (b ≡ false) × (after ≡ before))
  unfolding release
  release_outcome key token w {b} h =
      let script = release_script S (build_key key) token in
      let (n, e, step) = bind_ok (S.redis_eval script) _ w h in
      let (count, held) = L.eval-ok script w e in
      let read = L.call_get_lem (build_key key) w in
      elim (Bool-cases (holds_token (S.call_get (build_key key) w) token)) [
        | inl mine ↦
            let before : (broker w).stored (build_key key) ≡ some (plain token) =
              ground (arith, read, holds_token_iff (S.call_get (build_key key) w) token mine) in
            let one = L.call_del-present (build_key key) w (λ absent. cc) in
            let gone = L.call_del-self (build_key key) w in
            inl (
              before,
              ground (arith, h, step, count, mine, one),
              ground (arith, step, held, mine, gone),
            )
        | inr other ↦ inr (
          λ same. ground (arith, same, read, other, holds_token_self token),
          ground (arith, h, step, count, other),
          ground (arith, step, held, other),
        )
      ]

  pub release_ne :
      (key token : Text) (w : S.World) (j : Text)
      → j ≢ build_key key
      → (broker (release S key token w).1).stored j ≡ (broker w).stored j
  unfolding release
  release_ne key token w j h =
      let script = release_script S (build_key key) token in
      let kept : (broker (script w).1).stored j ≡ (broker w).stored j =
        ground (arith, L.call_del-ne (build_key key) w j h) in
      elim (Result-cases (S.redis_eval script w).0) [
        | inl (n, e) ↦ ground (arith, e, L.eval-ok script w e, kept)
        | inr (x, e) ↦ ground (arith, e, L.eval-err script w e, kept)
      ]

  -- A release with another token than the key holds leaves the key as it is, also if it raises.
  pub release_keeps :
      (key token : Text) (w : S.World)
      → (broker w).stored (build_key key) ≢ some (plain token)
      → (broker (release S key token w).1).stored (build_key key)
        ≡ (broker w).stored (build_key key)
  unfolding release
  release_keeps key token w other =
      let script = release_script S (build_key key) token in
      let kept : (script w).1 ≡ w =
        elim (Bool-cases (holds_token (S.call_get (build_key key) w) token)) [
          | inl mine ↦ absurd (
              other (
                ground (
                  arith,
                  L.call_get_lem (build_key key) w,
                  holds_token_iff (S.call_get (build_key key) w) token mine,
                )))
          | inr differs ↦ ground (arith, differs)
        ] in
      elim (Result-cases (S.redis_eval script w).0) [
        | inl (n, e) ↦ ground (arith, e, L.eval-ok script w e, kept)
        | inr (x, e) ↦ ground (arith, e, L.eval-err script w e, kept)
      ]

  -- An acquire leaves a key that is taken as it is, also if it raises.
  pub acquire_keeps :
      (key : Text) (ttl : ℕ) (w : S.World)
      → (broker w).stored (build_key key) ≢ none
      → (broker (acquire S key ttl w).1).stored (build_key key) ≡ (broker w).stored (build_key key)
  unfolding acquire
  acquire_keeps key ttl w taken =
      let (t, made) = L.uuid4-ok w in
      let same = L.uuid4-broker w in
      ground (
        arith,
        made,
        same,
        L.set_nx-taken (build_key key) (plain t) ttl (S.uuid4 w).1 (λ e. taken (rw⁻¹ same e)),
      )
