-- ===== src/Middleware/Lock.antt =====
-- internal/middleware/redis/redis.go: the lock. The client is set; a time to live is in milliseconds.
pub mod Exclusive
mod Tests
use go_video.Prelude.{false, ℕ, Bool, Option, none, some, Act, pure, ◌>>=◌, ◌>>◌, if◌then◌else◌}
use go_video.Prelude.Text.{Text, text_eq}
use go_video.Services.Redis.{Key, Strings, put_string}
use go_video.Services.Platform.{Platform}
use go_video.Entities.Schemas.{Cache}

abbrev pub holds : Option Text → Text → Bool
holds none token = false
holds (some v) token = text_eq v token

-- unlockScript: the entry is deleted if it is the given token.
abbrev pub unlock_script : Key → Text → Strings → ℕ × Strings
unlock_script k token f = if holds (f k) token then (1, put_string k none f) else (0, f)

module _ {W : Type 0} (p : Platform W) where
  -- randToken
  abbrev pub rand_token : ℕ → Act W Text
  rand_token n = p.rand_read n

  unfoldable pub lock : Cache p.view → Key → ℕ → Act W (Text × Bool)
  lock cache key ttl = do
    token ← rand_token 16
    done ← cache.set_nx key token ttl
    pure (token, done)

  unfoldable pub unlock : Cache p.view → Key → Text → Act W (Unit {0})
  unlock cache key token = do cache.eval (unlock_script key token); pure tt
