-- ===== src/Locks.antt =====
-- shared/locks.py: the lock on a resource, a Redis key that is set if absent and carries the token
-- of its holder.
pub mod Ownership
pub mod Clients
use ds_practice_court.Base.{
  ℕ, ◌++◌, ◌==◌, Bool, false, not, Option, none, some, Action, pure, ◌>>=◌, if◌then◌else◌,
}
use ds_practice_court.Base.Text.{Text, codes, text_eq}
use ds_practice_court.Services.{Services, Value, plain, document}

-- `lock:{key}`
abbrev pub build_key : Text → Text
build_key key = codes "lock:" ++ key

-- `redis.call('get', KEYS[1]) == ARGV[1]`
unfoldable pub holds_token : Option Value → Text → Bool
holds_token (some (plain t)) token = text_eq t token
holds_token (some (document d)) token = false
holds_token none token = false

module _ (S : Services) where
  unfoldable pub acquire : Text → ℕ → Action S.World (Option Text)
  acquire key ttl_ms = do
    token ← S.uuid4
    result ← S.redis_set_nx (build_key key) (plain token) ttl_ms
    pure (if result then some token else none)

  -- `_LUA_RELEASE_SCRIPT`: delete the key only if it holds the caller's token.
  unfoldable pub release_script : Text → Text → S.World → ℕ × S.World
  release_script key token w =
      if holds_token (S.call_get key w) token then S.call_del key w else (0, w)

  unfoldable pub release : Text → Text → Action S.World Bool
  unfolding release_script
  release key token = do
    result ← S.redis_eval (release_script (build_key key) token)
    pure (not (result == 0))
