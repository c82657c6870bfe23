-- ===== src/Api/Like/Outcomes.antt =====
-- What LikeService promises when Like or Unlike reports success, and what the two keep whatever
-- fails.
use go_video.Prelude.{Act, ℕ, none, some, Option, Bool, true, false}
use go_video.Services.Keeps.{
  Keeps-bind, Keeps-if, Keeps-attempt, Keeps-time_now, Keeps-count_rows, Keeps-pure, Keeps,
  keeps_rules,
}
use go_video.Prelude.Int.{ℤ}
use go_video.Services.Platform.{Platform}
use go_video.Entities.{State, Like}
use go_video.Middleware.Rabbitmq.Facts.{
  IsRowFact, IsCacheFree, Keeps-mq_like, Keeps-mq_unlike, Keeps-mq_update_popularity,
}
use go_video.Api.Video.Facts.{Keeps-is_exist, Keeps-update_popularity_cache}
use go_video.Api.Like.{
  LikeService, like, unlike, enqueue, fallback, check_video, is_liked, like_now,
}
use go_video.Api.Like.Counted.Rows.{LikesCounted}
use go_video.Api.Like.Counted.{like_transaction-LikesCounted, unlike_transaction-LikesCounted}
use go_video.Api.Like.{unlike_now}

module _ {W : Type 0} {P : State → Type 0} (p : Platform W) where
  pub Keeps-enqueue :
      (b : Bool) (m : Act W (Unit {0})) → Keeps p.view P m → Keeps p.view P (enqueue p b m)
  unfolding enqueue
  Keeps-enqueue false m h = Keeps-pure false
  Keeps-enqueue true m h = search (keeps_rules, Keeps-attempt m h)

  pub Keeps-check_video : (b : Bool) (id : ℕ) → Keeps p.view P (check_video p b id)
  unfolding check_video
  Keeps-check_video false id = Keeps-pure tt
  Keeps-check_video true id = search (keeps_rules, Keeps-is_exist p)

  pub Keeps-is_liked : (v a : ℕ) → Keeps p.view P (is_liked p v a)
  unfolding is_liked
  Keeps-is_liked v a = search (keeps_rules, Keeps-count_rows p.likes)

LikesCounted-IsRowFact : IsRowFact LikesCounted
LikesCounted-IsRowFact = record {
  like_sent = λ s x h. h;
  comment_sent = λ s x h. h;
  social_sent = λ s x h. h;
}

LikesCounted-IsCacheFree : IsCacheFree LikesCounted
LikesCounted-IsCacheFree = record {
  popularity_sent = λ s x h. h;
  strings_set = λ s x h. h;
  sets_set = λ s x h. h;
}

ruleset service_rules = (
  keeps_rules, Keeps-check_video, Keeps-is_liked, Keeps-time_now, Keeps-enqueue, Keeps-mq_like,
  Keeps-mq_unlike, Keeps-mq_update_popularity, Keeps-update_popularity_cache,
  LikesCounted-IsRowFact, LikesCounted-IsCacheFree, like_transaction-LikesCounted,
  unlike_transaction-LikesCounted,
)

module _ {W : Type 0} (p : Platform W) where
  Keeps-fallback :
      (mysql_enqueued redis_enqueued : Bool) (body : Act W (Unit {0})) (video : ℕ) (change : ℤ)
      → Keeps p.view LikesCounted (p.transactions.transaction body)
      → Keeps p.view LikesCounted (fallback p mysql_enqueued redis_enqueued body video change)
  unfolding fallback
  Keeps-fallback mysql_enqueued redis_enqueued body video change h =
      Keeps-bind _ _ (Keeps-if mysql_enqueued _ _ (Keeps-pure tt) h) (λ _.
        Keeps-if redis_enqueued _ _ (Keeps-pure tt)
          (Keeps-update_popularity_cache p LikesCounted LikesCounted-IsCacheFree video change))

  Keeps-like_now : (s : LikeService) (l : Like) → Keeps p.view LikesCounted (like_now p s l)
  unfolding like_now
  Keeps-like_now s l = search (service_rules, Keeps-fallback) depth 8

  Keeps-unlike_now : (s : LikeService) (l : Like) → Keeps p.view LikesCounted (unlike_now p s l)
  unfolding unlike_now
  Keeps-unlike_now s l = search (service_rules, Keeps-fallback) depth 8

  Keeps-like : (s : LikeService) (l : Option Like) → Keeps p.view LikesCounted (like p s l)
  unfolding like
  Keeps-like s none = search (keeps_rules)
  Keeps-like s (some l) = search (service_rules, Keeps-like_now) depth 8

  Keeps-unlike : (s : LikeService) (l : Option Like) → Keeps p.view LikesCounted (unlike p s l)
  unfolding unlike
  Keeps-unlike s none = search (keeps_rules)
  Keeps-unlike s (some l) = search (service_rules, Keeps-unlike_now) depth 8

  -- Like and Unlike, whatever fails on the way, keep the counter of every video equal to the number
  -- of its rows in the likes table.
  pub like-LikesCounted :
      (s : LikeService) (l : Option Like) (w : W)
      → LikesCounted (p.view w)
      → LikesCounted (p.view (like p s l w).1) × LikesCounted (p.view (unlike p s l w).1)
  like-LikesCounted s l w h = ((Keeps-like s l).at w h, (Keeps-unlike s l).at w h)
