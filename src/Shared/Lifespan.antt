-- ===== src/Shared/Lifespan.antt =====
-- field_node/app/main.py and utility_node/app/main.py: `lifespan`, which starts the two managers of
-- a node, lets it serve, and closes them. asyncio's calls on the task of the recovery loop are
-- parameters.
use ds_practice_court.Base.{◌≡◌, Action, Done, ok, Exn, pure, raise, ◌>>=◌, ◌>>◌, arith}
use ds_practice_court.Shared.Config.{Settings}
use ds_practice_court.Shared.Db
use ds_practice_court.Shared.Db.{DbManager, Sessions}
use ds_practice_court.Shared.RedisClient
use ds_practice_court.Shared.RedisClient.{RedisManager, Connections}

-- How an `await` of a task ends.
pub data Awaited : Type 0 where
  ended cancelled_error : Awaited
  raised : Exn → Awaited

pub record Tasks (W : Type 0) : Type 0 where
  pub create_task : W → W
  pub cancel : W → W
  pub await_task : W → Awaited × W

module _ {W E F P C : Type 0} (D : Sessions W E F) (R : Connections W P C) where
  abbrev pub Node : Type 0
  Node = W × (DbManager E F × RedisManager P)

  abbrev pub new_node : W → Node
  new_node w = (w, (Db.new_db_manager D, RedisClient.new_redis_manager R))

  abbrev on_world : (W → W) → Action Node Done
  on_world f (w, m) = (ok tt, (f w, m))

  -- `db_manager.init()` and `redis_manager.init()`
  unfoldable pub init_managers : Settings → Action Node Done
  init_managers s (w, (d, r)) = (ok tt, (w, (Db.init D s d, RedisClient.init R s r)))

  unfoldable pub close_db : Action Node Done
  close_db (w, (d, r)) = let c = Db.close D (w, d) in (c.0, (c.1.0, (c.1.1, r)))

  unfoldable pub close_redis : Action Node Done
  close_redis (w, (d, r)) = let c = RedisClient.close R (w, r) in (c.0, (c.1.0, (d, c.1.1)))

  -- `lifespan` of the utility node; `serve` is what the node does at the `yield`.
  unfoldable pub utility_lifespan : Settings → (W → W) → Action Node Done
  utility_lifespan settings serve = do init_managers settings; on_world serve; close_db; close_redis

  -- `except asyncio.CancelledError: pass`
  unfoldable pub except_cancelled : Awaited → Action Node Done
  except_cancelled ended = pure tt
  except_cancelled cancelled_error = pure tt
  except_cancelled (raised e) = raise e

  await_node : Tasks W → Action Node Awaited
  await_node T (w, m) = let (a, w') = T.await_task w in (ok a, (w', m))

  -- `lifespan` of the field node, with the task of the recovery loop.
  unfoldable pub field_lifespan : Tasks W → Settings → (W → W) → Action Node Done
  unfolding await_node except_cancelled
  field_lifespan T settings serve = do
    init_managers settings
    on_world T.create_task
    on_world serve
    on_world T.cancel
    a ← await_node T
    except_cancelled a
    close_db
    close_redis

  -- The managers are as new.
  abbrev pub IsClosed : Node → Type 0
  IsClosed n = n.1 ≡ (new_node n.0).1

  closes_both :
      (settings : Settings) (w : W) (d : DbManager E F) (r : RedisManager P)
      → ((do close_db; close_redis) (w, (Db.init D settings d, RedisClient.init R settings r))).0
        ≡ ok tt
      → IsClosed
          ((do close_db; close_redis) (w, (Db.init D settings d, RedisClient.init R settings r))).1
  unfolding close_db close_redis Db.init Db.close RedisClient.init RedisClient.close
  closes_both settings w d r h = ground (arith, h)

  closes_after :
      (a : Awaited) (settings : Settings) (w : W) (d : DbManager E F) (r : RedisManager P)
      → let rest : Action Node Done = (do except_cancelled a; close_db; close_redis) in
        let n : Node = (w, (Db.init D settings d, RedisClient.init R settings r)) in
        (rest n).0 ≡ ok tt → IsClosed (rest n).1
  unfolding except_cancelled
  closes_after ended settings w d r h = closes_both settings w d r h
  closes_after cancelled_error settings w d r h = closes_both settings w d r h
  closes_after (raised e) settings w d r h = cc

  -- If `lifespan` returns, on either node, then no engine, no session factory and no pool is left,
  -- whatever the managers were and whatever the node did in between.
  pub lifespan-IsClosed :
      (T : Tasks W) (settings : Settings) (serve : W → W) (n : Node)
      → ((utility_lifespan settings serve n).0 ≡ ok tt
          → IsClosed (utility_lifespan settings serve n).1)
        × ((field_lifespan T settings serve n).0 ≡ ok tt
            → IsClosed (field_lifespan T settings serve n).1)
  unfolding utility_lifespan field_lifespan init_managers
  lifespan-IsClosed T settings serve (w, (d, r)) = (
    λ h. closes_both settings (serve w) d r h,
    λ h.
        let t = T.await_task (T.cancel (serve (T.create_task w))) in
        closes_after t.0 settings t.1 d r h,
  )
