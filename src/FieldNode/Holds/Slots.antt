-- ===== src/FieldNode/Holds/Slots.antt =====
-- What the messages of the web socket do to Redis.
use ds_practice_court.Base.{
  ◌&&◌, ◌||◌, ℕ, ◌≡◌, ◌≢◌, refl, ap, sym, ◌∙◌, none, some, List, [], ◌∷◌, ◌++◌, ok, Exn, arith, All,
  inl, inr, Bool-cases, Option-cases, bind_keeps, try_keeps, bind_ok,
}
use ds_practice_court.Base.Text.{Text, text_eq, text_eq_iff}
use ds_practice_court.Services.{
  Services, IsLawful, Message, plain, slots_event, slots_held, slots_released,
}
use ds_practice_court.Locks.{build_key}
use ds_practice_court.FieldNode.Coordinator.{txn_key}
use ds_practice_court.FieldNode.Holds.{
  asks_hold, asks_release, Payload, SocketText, not_json, not_object, payload, hold_key, hold_ttl_s,
  read_field_id, is_complete, hold_each, release_each, hold_slots, release_slots, perform,
  read_payload, on_message, except_bad_payload, FieldId, missing, not_a_number, infinite, number,
  unlisted, read_unlisted, is_complete_but_slots,
}

first : Text → ℕ
first [] = 0
first (c ∷ t) = c

lock-ne-hold : (key : Text) (f : ℕ) (d slot : Text) → build_key key ≢ hold_key f d slot
unfolding first
lock-ne-hold key f d slot e =
    let codes_differ : 108 ≡ 104 = ap first e in omega (arith, codes_differ)

txn-ne-hold : (fid f : ℕ) (d slot : Text) → txn_key fid ≢ hold_key f d slot
unfolding first
txn-ne-hold fid f d slot e = let codes_differ : 50 ≡ 104 = ap first e in omega (arith, codes_differ)

module _ (S : Services) (L : IsLawful S) where
  open L use {tables, broker}

  hold_each_keeps :
      (f : ℕ) (d u : Text) (slots : List Text) (k : Text) (w : S.World)
      → (hold_each S f d u slots w).0 ≡ ok tt
      → (broker w).stored k ≡ some (plain u)
      → (broker (hold_each S f d u slots w).1).stored k ≡ some (plain u)
  unfolding hold_each
  hold_each_keeps f d u [] k w h held = held
  hold_each_keeps f d u (slot ∷ slots) k w h held =
      let key = hold_key f d slot in
      let (_, e, s) =
        bind_ok (S.redis_set key (plain u) hold_ttl_s) (λ _. hold_each S f d u slots) w h in
      let w1 = (S.redis_set key (plain u) hold_ttl_s w).1 in
      let set = L.set-ok key (plain u) hold_ttl_s w e in
      let held1 : (broker w1).stored k ≡ some (plain u) = elim (Bool-cases (text_eq k key)) [
        | inl same ↦ rw ((text_eq_iff k key).0 same) set
        | inr other ↦
            L.set-ne key (plain u) hold_ttl_s w k
              (λ same. ground (arith, (text_eq_iff k key).1 same, other))
            ∙ held
      ] in
      rw s (hold_each_keeps f d u slots k w1 (ap (λ r. r.0) (sym s) ∙ h) held1)

  hold_each_ok :
      (f : ℕ) (d u : Text) (slots : List Text) (w v : S.World)
      → (hold_each S f d u slots w).0 ≡ ok tt
      → v ≡ (hold_each S f d u slots w).1
      → All (λ slot. (broker v).stored (hold_key f d slot) ≡ some (plain u)) slots
  unfolding hold_each
  hold_each_ok f d u [] w v h end = tt
  hold_each_ok f d u (slot ∷ slots) w v h end =
      let key = hold_key f d slot in
      let (_, e, s) =
        bind_ok (S.redis_set key (plain u) hold_ttl_s) (λ _. hold_each S f d u slots) w h in
      let w1 = (S.redis_set key (plain u) hold_ttl_s w).1 in
      let rest = ap (λ r. r.0) (sym s) ∙ h in
      (
        rw (end, s)
            (hold_each_keeps f d u slots key w1 rest (L.set-ok key (plain u) hold_ttl_s w e)),
        hold_each_ok f d u slots w1 v rest (end ∙ ap (λ r. r.1) s),
      )

  hold_each-sent :
      (f : ℕ) (d u : Text) (slots : List Text) (w : S.World)
      → (broker (hold_each S f d u slots w).1).sent ≡ (broker w).sent
  unfolding hold_each
  hold_each-sent f d u [] w = refl
  hold_each-sent f d u (slot ∷ slots) w =
      let key = hold_key f d slot in
      let w1 = (S.redis_set key (plain u) hold_ttl_s w).1 in
      let same = L.set-sent key (plain u) hold_ttl_s w in
      bind_keeps (λ v. (broker v).sent ≡ (broker w).sent) (S.redis_set key (plain u) hold_ttl_s)
        (λ _. hold_each S f d u slots) w same (λ _ _. hold_each-sent f d u slots w1 ∙ same)

  -- If `hold_slots` returns, every slot of the message is held by its user, whoever held it before,
  -- and the message that says so is the last one published.
  pub hold_slots_ok :
      (f : ℕ) (p : Payload) (w : S.World)
      → (hold_slots S f p w).0 ≡ ok tt
      → let w' = (hold_slots S f p w).1 in
        All (λ slot. (broker w').stored (hold_key f p.date slot) ≡ some (plain p.user_id)) p.slots
        × ((broker w').sent
            ≡ (broker w).sent ++ slots_event slots_held f p.date p.slots p.user_id ∷ [])
  unfolding hold_slots
  hold_slots_ok f p w h =
      let m = slots_event slots_held f p.date p.slots p.user_id in
      let (_, e, s) =
        bind_ok (hold_each S f p.date p.user_id p.slots) (λ _. S.redis_publish m) w h in
      let w1 = (hold_each S f p.date p.user_id p.slots w).1 in
      let sent = L.publish-ok m w1 (ap (λ r. r.0) (sym s) ∙ h) in
      rw (s, L.publish-stored m w1)
        (
          hold_each_ok f p.date p.user_id p.slots w w1 e refl,
          rw (← hold_each-sent f p.date p.user_id p.slots w) sent,
        )

  release_each_keeps :
      (f : ℕ) (d : Text) (slots : List Text) (k : Text) (w : S.World)
      → (release_each S f d slots w).0 ≡ ok tt
      → (broker w).stored k ≡ none
      → (broker (release_each S f d slots w).1).stored k ≡ none
  unfolding release_each
  release_each_keeps f d [] k w h free = free
  release_each_keeps f d (slot ∷ slots) k w h free =
      let key = hold_key f d slot in
      let (_, e, s) = bind_ok (S.redis_delete key) (λ _. release_each S f d slots) w h in
      let w1 = (S.redis_delete key w).1 in
      let gone = L.delete-ok key w e in
      let free1 : (broker w1).stored k ≡ none = elim (Bool-cases (text_eq k key)) [
        | inl same ↦ rw ((text_eq_iff k key).0 same) gone
        | inr other ↦
            L.delete-ne key w k (λ same. ground (arith, (text_eq_iff k key).1 same, other)) ∙ free
      ] in
      rw s (release_each_keeps f d slots k w1 (ap (λ r. r.0) (sym s) ∙ h) free1)

  release_each_ok :
      (f : ℕ) (d : Text) (slots : List Text) (w v : S.World)
      → (release_each S f d slots w).0 ≡ ok tt
      → v ≡ (release_each S f d slots w).1
      → All (λ slot. (broker v).stored (hold_key f d slot) ≡ none) slots
  unfolding release_each
  release_each_ok f d [] w v h end = tt
  release_each_ok f d (slot ∷ slots) w v h end =
      let key = hold_key f d slot in
      let (_, e, s) = bind_ok (S.redis_delete key) (λ _. release_each S f d slots) w h in
      let w1 = (S.redis_delete key w).1 in
      let rest = ap (λ r. r.0) (sym s) ∙ h in
      (
        rw (end, s) (release_each_keeps f d slots key w1 rest (L.delete-ok key w e)),
        release_each_ok f d slots w1 v rest (end ∙ ap (λ r. r.1) s),
      )

  -- If `release_slots` returns, no slot of the message is held, whoever held it before.
  pub release_slots_ok :
      (f : ℕ) (p : Payload) (w : S.World)
      → (release_slots S f p w).0 ≡ ok tt
      → All
          (λ slot. (broker (release_slots S f p w).1).stored (hold_key f p.date slot) ≡ none)
          p.slots
  unfolding release_slots
  release_slots_ok f p w h =
      let m = slots_event slots_released f p.date p.slots p.user_id in
      let (_, e, s) = bind_ok (release_each S f p.date p.slots) (λ _. S.redis_publish m) w h in
      let w1 = (release_each S f p.date p.slots w).1 in
      rw (s, L.publish-stored m w1) (release_each_ok f p.date p.slots w w1 e refl)

  -- A key that is no hold, and what it and the database hold.
  module _ (j : Text) (apart : (f : ℕ) (d slot : Text) → j ≢ hold_key f d slot)
      (start : S.World) where
    abbrev Untouched : S.World → Type 0
    Untouched w = ((broker w).stored j ≡ (broker start).stored j) × (tables w ≡ tables start)

    hold_each-Untouched :
        (f : ℕ) (d u : Text) (slots : List Text) (w : S.World)
        → Untouched w
        → Untouched (hold_each S f d u slots w).1
    unfolding hold_each
    hold_each-Untouched f d u [] w h = h
    hold_each-Untouched f d u (slot ∷ slots) w h =
        let key = hold_key f d slot in
        let h1 : Untouched (S.redis_set key (plain u) hold_ttl_s w).1 = (
          L.set-ne key (plain u) hold_ttl_s w j (apart f d slot) ∙ h.0,
          L.set-tables key (plain u) hold_ttl_s w ∙ h.1,
        ) in
        bind_keeps Untouched (S.redis_set key (plain u) hold_ttl_s) (λ _. hold_each S f d u slots) w
          h1 (λ _ _. hold_each-Untouched f d u slots _ h1)

    release_each-Untouched :
        (f : ℕ) (d : Text) (slots : List Text) (w : S.World)
        → Untouched w
        → Untouched (release_each S f d slots w).1
    unfolding release_each
    release_each-Untouched f d [] w h = h
    release_each-Untouched f d (slot ∷ slots) w h =
        let key = hold_key f d slot in
        let h1 : Untouched (S.redis_delete key w).1 =
          (L.delete-ne key w j (apart f d slot) ∙ h.0, L.delete-tables key w ∙ h.1) in
        bind_keeps Untouched (S.redis_delete key) (λ _. release_each S f d slots) w h1
          (λ _ _. release_each-Untouched f d slots _ h1)

    publish-Untouched :
        (m : Message) (w : S.World) → Untouched w → Untouched (S.redis_publish m w).1
    publish-Untouched m w h =
        (ap (λ f. f j) (L.publish-stored m w) ∙ h.0, L.publish-tables m w ∙ h.1)

    perform-Untouched :
        (f : ℕ) (p : Payload) (w : S.World) → Untouched w → Untouched (perform S f p w).1
    unfolding perform hold_slots release_slots
    perform-Untouched f p w h =
        let h1 = hold_each-Untouched f p.date p.user_id p.slots w h in
        let h2 = release_each-Untouched f p.date p.slots w h in
        let held =
          bind_keeps Untouched (hold_each S f p.date p.user_id p.slots)
            (λ _. S.redis_publish (slots_event slots_held f p.date p.slots p.user_id)) w h1
            (λ _ _. publish-Untouched (slots_event slots_held f p.date p.slots p.user_id) _ h1) in
        let released =
          bind_keeps Untouched (release_each S f p.date p.slots)
            (λ _. S.redis_publish (slots_event slots_released f p.date p.slots p.user_id)) w h2
            (λ _ _.
              publish-Untouched (slots_event slots_released f p.date p.slots p.user_id) _ h2) in
        elim (Bool-cases (asks_hold p)) [
          | inl hold ↦ rw (perform, hold) held
          | inr other ↦ elim (Bool-cases (asks_release p)) [
            | inl let_go ↦ rw (perform, other, let_go) released
            | inr unknown ↦ rw (perform, other, unknown) h
          ]
        ]

    read_field_id-Untouched :
        (i : FieldId) (w : S.World) → Untouched w → Untouched (read_field_id {W = S.World} i w).1
    unfolding read_field_id
    read_field_id-Untouched missing w h = h
    read_field_id-Untouched not_a_number w h = h
    read_field_id-Untouched infinite w h = h
    read_field_id-Untouched (number n) w h = h

    except_bad_payload-Untouched :
        (e : Exn) (w : S.World) → Untouched w → Untouched (except_bad_payload e w).1
    unfolding except_bad_payload
    except_bad_payload-Untouched e w h =
        let same : (except_bad_payload e w).1 ≡ w = ground arith in rw same h

    read_payload-Untouched :
        (p : Payload) (w : S.World) → Untouched w → Untouched (read_payload S p w).1
    unfolding read_payload
    read_payload-Untouched p w h =
        let h1 = read_field_id-Untouched p.field_id w h in
        bind_keeps Untouched (read_field_id p.field_id) _ w h1 λ found _.
          elim (Option-cases found) [
            | inl absent ↦ rw absent h1
            | inr (n, is_n) ↦ elim (Bool-cases (is_complete (some n) p)) [
              | inl complete ↦ rw (is_n, complete) (perform-Untouched n p _ h1)
              | inr partial ↦ rw (is_n, partial) h1
            ]
          ]

    read_unlisted-Untouched :
        (p : Payload) (w : S.World) → Untouched w → Untouched (read_unlisted S p w).1
    unfolding read_unlisted
    read_unlisted-Untouched p w h =
        let h1 = read_field_id-Untouched p.field_id w h in
        bind_keeps Untouched (read_field_id p.field_id) _ w h1 λ found _.
          elim (Option-cases found) [
            | inl absent ↦ rw absent h1
            | inr (n, is_n) ↦
                elim (Bool-cases (is_complete_but_slots n p && (asks_hold p || asks_release p))) [
                  | inl asked ↦ rw (is_n, asked) h1
                  | inr idle ↦ rw (is_n, idle) h1
                ]
          ]

    on_message-Untouched :
        (m : SocketText) (w : S.World) → Untouched w → Untouched (on_message S m w).1
    unfolding on_message except_bad_payload
    on_message-Untouched not_json w h = h
    on_message-Untouched not_object w h = h
    on_message-Untouched (payload p) w h =
        let h1 = read_payload-Untouched p w h in
        try_keeps Untouched (read_payload S p) except_bad_payload w h1
          (λ e. except_bad_payload-Untouched e _ h1)
    on_message-Untouched (unlisted p) w h =
        let h1 = read_unlisted-Untouched p w h in
        try_keeps Untouched (read_unlisted S p) except_bad_payload w h1
          (λ e. except_bad_payload-Untouched e _ h1)

  -- A message of the web socket, well formed or not, touches neither the database nor the lock of a
  -- resource nor the state of a transaction, however its handling ends.
  pub on_message-apart :
      (m : SocketText) (w : S.World) (key : Text) (fid : ℕ)
      → let w' = (on_message S m w).1 in
        (tables w' ≡ tables w)
        × ((broker w').stored (build_key key) ≡ (broker w).stored (build_key key))
        × ((broker w').stored (txn_key fid) ≡ (broker w).stored (txn_key fid))
  on_message-apart m w key fid =
      let lock =
        on_message-Untouched (build_key key) (λ f d slot e. lock-ne-hold key f d slot e) w m w
          (refl, refl) in
      let txn =
        on_message-Untouched (txn_key fid) (λ f d slot e. txn-ne-hold fid f d slot e) w m w
          (refl, refl) in
      (lock.1, lock.0, txn.0)
