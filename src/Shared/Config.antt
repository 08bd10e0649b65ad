-- ===== src/Shared/Config.antt =====
-- shared/config.py: the settings that a node reads from its environment, and the URLs made of them.
-- `get_settings` hands out the same ones from its first call on, so the settings are an argument.
use ds_practice_court.Base.{ℕ, Bool, ◌++◌, ◌∷◌}
use ds_practice_court.Base.Text.{Text, codes, decimal}

pub record Settings : Type 0 where
  pub db_host : Text
  pub db_port : ℕ
  pub db_name : Text
  pub db_user : Text
  pub db_password : Text
  pub redis_host : Text
  pub redis_port : ℕ
  pub node_id : Text
  pub debug : Bool
  pub utility_node_url : Text

unfoldable pub database_url : Settings → Text
database_url s =
    codes "mysql+aiomysql://"
    ++ (s.db_user
        ++ b':'
          ∷ (s.db_password ++ b'@' ∷ (s.db_host ++ b':' ∷ (decimal s.db_port ++ b'/' ∷ s.db_name))))

unfoldable pub redis_url : Settings → Text
redis_url s = codes "redis://" ++ (s.redis_host ++ b':' ∷ decimal s.redis_port)
