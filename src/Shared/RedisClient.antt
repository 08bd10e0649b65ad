-- ===== src/Shared/RedisClient.antt =====
-- shared/redis_client.py: the manager of the connection pool. A client is a connection of its own,
-- made from the URL, and not from the pool.
use ds_practice_court.Base.{Option, none, some, Action, Done, Result, ok, err, fault, runtime_error}
use ds_practice_court.Base.Text.{Text}
use ds_practice_court.Shared.Config.{Settings, redis_url}

pub record RedisManager (P : Type 0) : Type 0 where
  pub pool : Option P

pub record Connections (W P C : Type 0) : Type 0 where
  pub pool_from_url : Text → P
  pub disconnect : P → Action W Done
  pub client_from_url : Text → C

module _ {W P C : Type 0} (R : Connections W P C) where
  abbrev pub new_redis_manager : RedisManager P
  new_redis_manager = record { pool = none }

  -- The settings are those that `get_settings` keeps since main.py was imported.
  unfoldable pub init : Settings → RedisManager P → RedisManager P
  unfolding redis_url
  init settings m = record { pool = some (R.pool_from_url (redis_url settings)) }

  after_disconnect : RedisManager P → Result Done × W → Result Done × (W × RedisManager P)
  after_disconnect m (ok _, w) = (ok tt, (w, new_redis_manager))
  after_disconnect m (err e, w) = (err e, (w, m))

  unfoldable pub close : Action (W × RedisManager P) Done
  unfolding after_disconnect
  close (w, m) = elim m.pool [
    | none ↦ (ok tt, (w, m))
    | some pool ↦ after_disconnect m (R.disconnect pool w)
  ]

  -- The clients of the two calls are alike: neither takes a connection of the pool.
  unfoldable pub get_client : Settings → RedisManager P → Result C
  unfolding redis_url
  get_client settings m = elim m.pool [
    | none ↦ err (fault runtime_error)
    | some pool ↦ ok (R.client_from_url (redis_url settings))
  ]

  unfoldable pub create_pubsub_client : Settings → RedisManager P → Result C
  unfolding redis_url
  create_pubsub_client settings m = elim m.pool [
    | none ↦ err (fault runtime_error)
    | some pool ↦ ok (R.client_from_url (redis_url settings))
  ]

  -- `get_redis`, the dependency of the endpoints
  unfoldable pub get_redis : Settings → RedisManager P → Result C
  unfolding get_client
  get_redis settings m = get_client settings m
