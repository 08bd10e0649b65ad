-- ===== src/Tests/Managers.antt =====
-- The managers and the settings over a world that is the list of the calls made so far.
use ds_practice_court.Base.{ℕ, ◌≡◌, refl, false, List, [], ◌∷◌, ok, err, fault, value_error, raise}
use ds_practice_court.Base.Text.{codes, decimal}
use ds_practice_court.Shared.Config.{Settings, redis_url}
use ds_practice_court.Shared.Db.{Sessions, new_db_manager, init, close, session}
use ds_practice_court.Shared.RedisClient
use ds_practice_court.Shared.RedisClient.{Connections}
use ds_practice_court.Shared.Lifespan.{
  Tasks, cancelled_error, new_node, utility_lifespan, field_lifespan, init_managers, close_db,
  close_redis, except_cancelled, IsClosed, lifespan-IsClosed,
}
use ds_practice_court.Shared.Db.Cycle.{
  start, later, inits, closes, serves, IsPaired, Reach-IsPaired, SessionEnds, session_outcome,
}

abbrev pub local : Settings
local = record {
  db_host = codes "db";
  db_port = 3306;
  db_name = codes "practicecourt";
  db_user = codes "court";
  db_password = codes "secret";
  redis_host = codes "redis";
  redis_port = 6379;
  node_id = codes "field";
  debug = false;
  utility_node_url = codes "http://practicecourt_utility:8002";
}

redis_of_local : redis_url local ≡ codes "redis://redis:6379"
unfolding redis_url decimal
redis_of_local = refl

-- Engines and factories are numbers; an entry of the log is 1 for a start, 2 for a rollback, 3 for an
-- end and 4 for a dispose.
abbrev logged : Sessions (List ℕ) ℕ ℕ
logged = record {
  create_async_engine = λ s. s.db_port;
  async_sessionmaker = λ e. e;
  dispose = λ e w. (ok tt, 4 ∷ w);
  enter = λ f w. (ok tt, 1 ∷ w);
  rollback = λ w. (ok tt, 2 ∷ w);
  leave = λ w. (ok tt, 3 ∷ w);
}

Reach-IsPaired_example :
    IsPaired logged (close logged (5 ∷ [], init logged local (new_db_manager logged))).1.1
Reach-IsPaired_example = Reach-IsPaired logged (
    later
      (later (later start (inits local [] (new_db_manager logged)))
        (serves [] (5 ∷ []) (init logged local (new_db_manager logged))))
      (closes (5 ∷ [], init logged local (new_db_manager logged))
        (close logged (5 ∷ [], init logged local (new_db_manager logged))).1 refl))

rolled_back :
    session logged
      (init logged local (new_db_manager logged))
      (raise {A = ℕ} (fault value_error))
      []
    ≡ (err (fault value_error), 3 ∷ 2 ∷ 1 ∷ [])
unfolding session init
rolled_back = refl

session_outcome_example :
    SessionEnds logged
      (init logged local (new_db_manager logged))
      (raise {A = ℕ} (fault value_error))
      []
      (session logged
        (init logged local (new_db_manager logged))
        (raise {A = ℕ} (fault value_error))
        [])
session_outcome_example =
    session_outcome logged (init logged local (new_db_manager logged))
      (raise {A = ℕ} (fault value_error)) []

abbrev pooled : Connections (List ℕ) ℕ ℕ
pooled = record {
  pool_from_url = λ t. 20;
  disconnect = λ p w. (ok tt, 6 ∷ w);
  client_from_url = λ t. 0;
}

-- The task of the recovery loop: 7 when it is made, 8 when it is cancelled.
abbrev one_task : Tasks (List ℕ)
one_task = record {
  create_task = λ w. 7 ∷ w;
  cancel = λ w. 8 ∷ w;
  await_task = λ w. (cancelled_error, w);
}

field_node_ends :
    field_lifespan logged pooled one_task local (λ w. 9 ∷ w) (new_node logged pooled [])
    ≡ (ok tt, new_node logged pooled (6 ∷ 4 ∷ 8 ∷ 9 ∷ 7 ∷ []))
unfolding field_lifespan init_managers close_db close_redis init close RedisClient.init
    RedisClient.close except_cancelled
field_node_ends = refl

lifespan-IsClosed_example :
    ((utility_lifespan logged pooled local (λ w. 9 ∷ w) (new_node logged pooled [])).0 ≡ ok tt
      → IsClosed logged pooled
          (utility_lifespan logged pooled local (λ w. 9 ∷ w) (new_node logged pooled [])).1)
    × ((field_lifespan logged pooled one_task local (λ w. 9 ∷ w) (new_node logged pooled [])).0
          ≡ ok tt
        → IsClosed logged pooled
            (field_lifespan logged pooled one_task local
              (λ w. 9 ∷ w)
              (new_node logged pooled [])).1)
lifespan-IsClosed_example =
    lifespan-IsClosed logged pooled one_task local (λ w. 9 ∷ w) (new_node logged pooled [])
