-- ===== src/Middleware/Rabbitmq/Facts.antt =====
-- The producers keep every fact about the tables.
use go_video.Prelude.{Bool, true, false, ◌⊎◌, inl, inr, sym, subst, ℕ, List}
use go_video.Services.Redis.{Strings, SortedSets}
use go_video.Prelude.Int.{ℤ}
use go_video.Services.Keeps.{Keeps, Keeps-performs}
use go_video.Services.Ensures.{IfDone}
use go_video.Services.Platform.{Platform}
use go_video.Entities.{State, Sent, LikeEvent, CommentEvent, SocialEvent, PopularityEvent}
use go_video.Middleware.Rabbitmq.{mq_like, mq_unlike, mq_update_popularity}
use go_video.Middleware.Rabbitmq.Laws.{
  mq_like-performs, mq_unlike-performs, mq_update_popularity-performs,
}

-- What the messages about rows do not touch.
pub record IsRowFact (P : State → Type 0) : Type 0 where
  pub like_sent :
      (s : State) (x : List (Sent LikeEvent)) → P s → P (record s { like_publications = x })
  pub comment_sent :
      (s : State) (x : List (Sent CommentEvent)) → P s → P (record s { comment_publications = x })
  pub social_sent :
      (s : State) (x : List (Sent SocialEvent)) → P s → P (record s { social_publications = x })

-- What the messages about popularity and the entries of redis do not touch.
pub record IsCacheFree (P : State → Type 0) : Type 0 where
  pub popularity_sent :
      (s : State) (x : List (Sent PopularityEvent))
      → P s
      → P (record s { popularity_publications = x })
  pub strings_set : (s : State) (x : Strings) → P s → P (record s { strings = x })
  pub sets_set : (s : State) (x : SortedSets) → P s → P (record s { sorted_sets = x })

module _ {Q : State → Type 0} (free : IsCacheFree Q) where
  pub IfDone-IsCacheFree : (b : Bool) → IsCacheFree (IfDone Q b)
  IfDone-IsCacheFree true = free
  IfDone-IsCacheFree false = record {
    popularity_sent = λ s x h. h;
    strings_set = λ s x h. h;
    sets_set = λ s x h. h;
  }

  pub either-IsCacheFree : {R : State → Type 0} → IsCacheFree R → IsCacheFree (λ s. Q s ⊎ R s)
  either-IsCacheFree other = record {
    popularity_sent = λ s x h. elim h [
      | inl q ↦ inl (free.popularity_sent s x q)
      | inr r ↦ inr (other.popularity_sent s x r)
    ];
    strings_set = λ s x h. elim h [
      | inl q ↦ inl (free.strings_set s x q)
      | inr r ↦ inr (other.strings_set s x r)
    ];
    sets_set =
        λ s x h. elim h [ inl q ↦ inl (free.sets_set s x q) | inr r ↦ inr (other.sets_set s x r) ];
  }

module _ {W : Type 0} (p : Platform W) (P : State → Type 0) (fact : IsRowFact P) where
  pub Keeps-mq_like : (user video : ℕ) → Keeps p.view P (mq_like p user video)
  Keeps-mq_like user video =
      Keeps-performs _ _ (mq_like-performs p user video)
        (λ w a s h (id, t, sent). subst P (sym sent) (fact.like_sent _ _ h))

  pub Keeps-mq_unlike : (user video : ℕ) → Keeps p.view P (mq_unlike p user video)
  Keeps-mq_unlike user video =
      Keeps-performs _ _ (mq_unlike-performs p user video)
        (λ w a s h (id, t, sent). subst P (sym sent) (fact.like_sent _ _ h))

module _ {W : Type 0} (p : Platform W) (P : State → Type 0) (fact : IsCacheFree P) where
  pub Keeps-mq_update_popularity :
      (video : ℕ) (change : ℤ) → Keeps p.view P (mq_update_popularity p video change)
  Keeps-mq_update_popularity video change =
      Keeps-performs _ _ (mq_update_popularity-performs p video change)
        (λ w a s h (id, t, sent). subst P (sym sent) (fact.popularity_sent _ _ h))
