-- ===== src/Shared/Db.antt =====
-- shared/db.py: the manager of the engine and of its sessions. The engine and the sessions are
-- SQLAlchemy's, so their types and calls are parameters.
pub mod Cycle
use ds_practice_court.Base.{
  ℕ, ◌≡◌, refl, ap, ◌⊎◌, inl, inr, Bool, true, false, Option, none, some, Action, Done, Result, ok,
  err, Exn, fault, runtime_error, pure, raise, ◌>>=◌, ◌>>◌, try_except, try_finally, arith,
  Option-cases,
}
use ds_practice_court.Shared.Config.{Settings}

pub record DbManager (E F : Type 0) : Type 0 where
  pub engine : Option E
  pub session_factory : Option F

-- SQLAlchemy: how an engine is made and disposed of, and what a session does at its start, at a
-- rollback and at its end.
pub record Sessions (W E F : Type 0) : Type 0 where
  pub create_async_engine : Settings → E
  pub async_sessionmaker : E → F
  pub dispose : E → Action W Done
  pub enter : F → Action W Done
  pub rollback : Action W Done
  pub leave : Action W Done

module _ {W E F : Type 0} (D : Sessions W E F) where
  -- `DatabaseSessionManager()`
  abbrev pub new_db_manager : DbManager E F
  new_db_manager = record { engine = none; session_factory = none }

  -- The settings are those that `get_settings` keeps since main.py was imported.
  unfoldable pub init : Settings → DbManager E F → DbManager E F
  init settings m =
      let engine = D.create_async_engine settings in
      record { engine = some engine; session_factory = some (D.async_sessionmaker engine) }

  -- A `dispose` that raises leaves the fields as they are.
  after_dispose : DbManager E F → Result Done × W → Result Done × (W × DbManager E F)
  after_dispose m (ok _, w) = (ok tt, (w, new_db_manager))
  after_dispose m (err e, w) = (err e, (w, m))

  unfoldable pub close : Action (W × DbManager E F) Done
  unfolding after_dispose
  close (w, m) = elim m.engine [
    | none ↦ (ok tt, (w, m))
    | some engine ↦ after_dispose m (D.dispose engine w)
  ]

  -- The block of `async with`: an exception of the body is raised again after a rollback.
  unfoldable pub in_session : {A : Type 0} → F → Action W A → Action W A
  in_session factory body = do
    D.enter factory
    try_finally (try_except body (λ e. do D.rollback; raise e)) D.leave

  -- `session`, with the block of the caller as an argument; `get_session` is the same block.
  unfoldable pub session : {A : Type 0} → DbManager E F → Action W A → Action W A
  unfolding in_session
  session m body = elim m.session_factory [
    | none ↦ raise (fault runtime_error)
    | some factory ↦ in_session factory body
  ]

  -- `get_db` takes the session by `async for`, which hands no exception of the request to
  -- `get_session`: the generator stays where it is, and the event loop ends it at a later time.
  unfoldable pub get_db : {A : Type 0} → DbManager E F → Action W A → Action W A
  get_db m body = elim m.session_factory [
    | none ↦ raise (fault runtime_error)
    | some factory ↦ do D.enter factory; a ← body; D.leave; pure a
  ]
