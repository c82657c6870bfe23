-- ===== src/Middleware/Lock/Tests.antt =====
-- The lock in memory.
use go_video.Prelude.{[], false, ◌≡◌, ◌≢◌, ◌⊎◌, refl, true, none, some, ok, err, Error, ◌>>=◌}
use go_video.Prelude.Text.{lit, text_eq}
use go_video.Services.Redis.{video_detail_lock}
use go_video.Simulation.World.{World, state_of}
use go_video.Simulation.Services.{empty_state}
use go_video.Simulation.Cache.{memory_cache, cached_platform}
use go_video.Middleware.Lock.{lock, unlock}
use go_video.Middleware.Lock.Exclusive.{elapse, lock_exclusive}

abbrev free : World
free = (empty_state, [])

locks : (lock cached_platform memory_cache (video_detail_lock 7) 2000 free).0 ≡ ok (lit "4f", true)
unfolding lock ◌>>=◌
locks = refl

abbrev locked : World
locked = (lock cached_platform memory_cache (video_detail_lock 7) 2000 free).1

other_token : text_eq (lit "4f") (lit "a") ≡ false
unfolding text_eq
other_token = refl

-- After 1500 of its 2000 milliseconds.
abbrev later : World
later = (elapse 1500 (state_of locked), [])

later_held : (state_of later).strings (video_detail_lock 7) ≡ some (lit "4f")
unfolding lock ◌>>=◌
later_held = refl

expires : (elapse 2000 (state_of locked)).strings (video_detail_lock 7) ≡ none
unfolding lock ◌>>=◌
expires = refl

lock_exclusive_example :
    ((state_of free).strings (video_detail_lock 7) ≡ none)
    × ((elapse 1500 (state_of locked)).strings (video_detail_lock 7) ≡ some (lit "4f"))
    × ((lock cached_platform memory_cache (video_detail_lock 7) 2000 later).0 ≢ ok (lit "4f", true))
    × ((state_of
            (unlock cached_platform memory_cache (video_detail_lock 7) (lit "a") later).1).strings
          (video_detail_lock 7)
        ≡ some (lit "4f"))
    × (((state_of
              (unlock cached_platform memory_cache
                (video_detail_lock 7)
                (lit "4f")
                later).1).strings
            (video_detail_lock 7)
          ≡ none)
        ⊎ ((x : Error) × ((unlock cached_platform memory_cache
                (video_detail_lock 7)
                (lit "4f")
                later).0
              ≡ err x)))
lock_exclusive_example =
    lock_exclusive cached_platform memory_cache (video_detail_lock 7) 2000 (lit "4f") (lit "a")
      (lit "4f") free later 1500 locks other_token later_held
