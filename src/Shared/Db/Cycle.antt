-- ===== src/Shared/Db/Cycle.antt =====
-- The life of the database manager, and what a session does with the body that runs in it.
use ds_practice_court.Base.{
  ◌≡◌, refl, ◌⊎◌, inl, inr, none, some, Action, Result, ok, err, Exn, fault, runtime_error, arith,
  Option-cases, Result-cases,
}
use ds_practice_court.Shared.Config.{Settings}
use ds_practice_court.Shared.Db.{
  DbManager, Sessions, new_db_manager, init, close, in_session, session,
}

module _ {W E F : Type 0} (D : Sessions W E F) where
  -- A start or an end of the manager, or anything that the node does in between.
  pub data Step : W × DbManager E F → W × DbManager E F → Type 0 where
    inits : (settings : Settings) (w : W) (m : DbManager E F) → Step (w, m) (w, init D settings m)
    closes : (s t : W × DbManager E F) → t ≡ (close D s).1 → Step s t
    serves : (w v : W) (m : DbManager E F) → Step (w, m) (v, m)

  pub data Reach (w : W) : W × DbManager E F → Type 0 where
    start : Reach w (w, new_db_manager D)
    later : {s t : W × DbManager E F} → Reach w s → Step s t → Reach w t

  -- There is neither an engine nor a factory, or the factory is that of the engine.
  abbrev pub IsPaired : DbManager E F → Type 0
  IsPaired m =
      ((m.engine ≡ none) × (m.session_factory ≡ none))
      ⊎ ((e : E) × (m.engine ≡ some e) × (m.session_factory ≡ some (D.async_sessionmaker e)))

  close-IsPaired : (s : W × DbManager E F) → IsPaired s.1 → IsPaired (close D s).1.1
  unfolding close
  close-IsPaired s p = ground (arith, p)

  Step-IsPaired : {s t : W × DbManager E F} → Step s t → IsPaired s.1 → IsPaired t.1
  unfolding init
  Step-IsPaired (inits settings w m) p = inr (D.create_async_engine settings, refl, refl)
  Step-IsPaired (closes s t e) p = rw e (close-IsPaired s p)
  Step-IsPaired (serves w v m) p = p

  -- In every state that starts, ends and work of the node reach, the session factory is that of the
  -- current engine, or both are absent: also after an end that raised.
  pub Reach-IsPaired : {w : W} {s : W × DbManager E F} → Reach w s → IsPaired s.1
  Reach-IsPaired start = inl (refl, refl)
  Reach-IsPaired (later r step) = Step-IsPaired step (Reach-IsPaired r)

  module _ {A : Type 0} (m : DbManager E F) (body : Action W A) (w : W) where
    -- What a session of a factory has done by its end: it has not begun; or it has run its body once
    -- and has left, after a rollback exactly if the body raised. The result is that of the body,
    -- unless the rollback or the end raised.
    abbrev pub Within : F → Result A × W → Type 0
    Within f r =
        let s = D.enter f w in
        let b = body s.1 in
        let undone = D.rollback b.1 in
        ((x : Exn) × (s.0 ≡ err x) × (r ≡ (err x, s.1)))
        ⊎ ((a : A) × (b.0 ≡ ok a)
            × (r.1 ≡ (D.leave b.1).1)
            × ((r.0 ≡ ok a) ⊎ ((y : Exn) × ((D.leave b.1).0 ≡ err y) × (r.0 ≡ err y))))
        ⊎ ((x : Exn) × (b.0 ≡ err x)
            × (r.1 ≡ (D.leave undone.1).1)
            × ((r.0 ≡ err x)
                ⊎ ((y : Exn) × (undone.0 ≡ err y) × (r.0 ≡ err y))
                ⊎ ((y : Exn) × ((D.leave undone.1).0 ≡ err y) × (r.0 ≡ err y))))

    abbrev pub SessionEnds : Result A × W → Type 0
    SessionEnds r =
        ((m.session_factory ≡ none) × (r ≡ (err (fault runtime_error), w)))
        ⊎ ((f : F) × (m.session_factory ≡ some f) × Within f r)

    in_session-Within : (f : F) → Within f (in_session D f body w)
    unfolding in_session
    in_session-Within f = elim (Result-cases (D.enter f w).0) [
      | inr (x, e) ↦ inl (x, e, ground (arith, e))
      | inl (s, e) ↦ elim (Result-cases (body (D.enter f w).1).0) [
        | inl (a, b) ↦ inr (
            inl (
              a,
              b,
              ground (arith, e, b),
              elim (Result-cases (D.leave (body (D.enter f w).1).1).0) [
                | inl (u, l) ↦ inl (ground (arith, e, b, l))
                | inr (y, l) ↦ inr (y, l, ground (arith, e, b, l))
              ],
            ))
        | inr (x, b) ↦ inr (
            inr (
              x,
              b,
              ground (arith, e, b),
              elim (Result-cases (D.leave (D.rollback (body (D.enter f w).1).1).1).0) [
                | inr (y, l) ↦ inr (inr (y, l, ground (arith, e, b, l)))
                | inl (u, l) ↦ elim (Result-cases (D.rollback (body (D.enter f w).1).1).0) [
                  | inl (v, k) ↦ inl (ground (arith, e, b, l, k))
                  | inr (y, k) ↦ inr (inl (y, k, ground (arith, e, b, l, k)))
                ]
              ],
            ))
      ]
    ]

    -- A session without a factory raises and does nothing. With one it runs its body once and then
    -- leaves, after a rollback exactly if the body raised; its result is that of the body, unless
    -- the calls of SQLAlchemy raise.
    pub session_outcome : SessionEnds (session D m body w)
    unfolding session
    session_outcome = elim (Option-cases m.session_factory) [
      | inl absent ↦ inl (absent, ground (arith, absent))
      | inr (f, is_f) ↦ inr (f, is_f, rw is_f (in_session-Within f))
    ]
