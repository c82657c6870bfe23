-- ===== src/Worker/Social/Effects.antt =====
-- What a delivery of a social event does to the socials table.
use go_video.Prelude.{
  Error, message, record_not_found, unauthorized, validation, redis_nil, fault, if◌then◌else◌,
  ◌>>=◌, ◌≡◌, ◌≢◌, refl, inl, inr, sym, ◌∙◌, Bool, true, false, ◌||◌, Option, some, List, [], ◌∷◌,
  ok, err, Result, is_dup_key, duplicate_key, any, arith, ◌==◌,
}
use go_video.Prelude.Text.{Text, lit, text_eq}
use go_video.Services.Keeps.{
  Keeps, Keeps-pure, Keeps-raise, Keeps-bind, Keeps-if, Keeps-if_known, Keeps-attempt,
}
use go_video.Services.Ensures.{
  Ensures, ensures_bind, ensures_attempt, ensures_pure, ensures_raise, ensures_if,
}
use go_video.Services.Platform.{Platform}
use go_video.Entities.{Social, SocialEvent, State}
use go_video.Entities.Schemas.{social_schema}
use go_video.Api.Social.{same_follow, insert_follow}
use go_video.Api.Social.Facts.{NoSelfFollow, asks_self, Keeps-insert_follow, Keeps-delete_follow}
use go_video.Api.Social.Recorded.{IsFollowing, insert_follow-IsFollowing, delete_follow-IsFollowing}
use go_video.Worker.Social.{
  follow_of, apply_follow, apply_unfollow, ignore_duplicate, consume, process,
}

any-clash :
    (s : Social) (rs : List Social)
    → any (social_schema.clash s) rs ≡ any (same_follow s.follower_id s.vlogger_id) rs
any-clash s [] = refl
any-clash s (r ∷ rs) = ground (arith, any-clash s rs)

is_dup_key_only : (e : Error) → is_dup_key e ≡ true → e ≡ duplicate_key
is_dup_key_only (message s) h = absurd (cc h)
is_dup_key_only duplicate_key h = refl
is_dup_key_only record_not_found h = absurd (cc h)
is_dup_key_only unauthorized h = absurd (cc h)
is_dup_key_only validation h = absurd (cc h)
is_dup_key_only redis_nil h = absurd (cc h)
is_dup_key_only (fault n) h = absurd (cc h)

module _ {W : Type 0} (p : Platform W) where
  Keeps-ignore_duplicate :
      (r : Result (Unit {0})) → Keeps p.view NoSelfFollow (ignore_duplicate p r)
  unfolding ignore_duplicate
  Keeps-ignore_duplicate (ok _) = Keeps-pure tt
  Keeps-ignore_duplicate (err e) = Keeps-if (is_dup_key e) _ _ (Keeps-pure tt) (Keeps-raise e)

  Keeps-consume :
      (evt : SocialEvent)
      → asks_self ([], [], evt) ≡ false
      → Keeps p.view NoSelfFollow (consume p (some evt))
  unfolding consume apply_follow apply_unfollow
  Keeps-consume evt proper =
      Keeps-if (evt.follower_id == 0 || evt.vlogger_id == 0) _ _ (Keeps-pure tt) (
        Keeps-if_known (text_eq evt.action (lit "follow")) _ _
          (λ e.
            Keeps-bind _ _ (Keeps-attempt _ (Keeps-insert_follow p (follow_of evt) (ground arith)))
              Keeps-ignore_duplicate)
          (λ _.
            Keeps-if (text_eq evt.action (lit "unfollow")) _ _
              (Keeps-delete_follow p (follow_of evt)) (Keeps-pure tt)))

  -- Processing an event that does not ask to follow oneself, whatever fails, keeps that nobody
  -- follows themselves and that no publication that the client took asks for it.
  pub process-NoSelfFollow :
      (decode : Text → Option SocialEvent) (body : Text) (evt : SocialEvent) (w : W)
      → decode body ≡ some evt
      → asks_self ([], [], evt) ≡ false
      → NoSelfFollow (p.view w)
      → NoSelfFollow (p.view (process p decode body w).1)
  unfolding process
  process-NoSelfFollow decode body evt w decoded proper h =
      rw decoded ((Keeps-consume evt proper).at w h)

  -- The row is there, or the INSERT said so.
  abbrev Inserted : Social → Result (Unit {0}) → State → Type 0
  Inserted s (ok _) st = IsFollowing true s st
  Inserted s (err e) st = is_dup_key e ≡ true → IsFollowing true s st

  inserted :
      (s : Social) (w : W) → Inserted s (insert_follow p s w).0 (p.view (insert_follow p s w).1)
  unfolding insert_follow ◌>>=◌
  inserted s w = elim (p.socials.create_lem s w) [
    | inl (k, e, _, _, _, _) ↦
        let stored = (insert_follow-IsFollowing p s).at w tt tt (rw e refl) in rw e (rw e at stored)
    | inr (inl (e, clash, same)) ↦
        rw e (λ _. rw same (sym (any-clash s (p.view w).socials) ∙ clash))
    | inr (inr (x, e, new, same)) ↦ rw e (λ dup. absurd (new (is_dup_key_only x dup)))
  ]

  settled :
      (s : Social) (r : Result (Unit {0}))
      → Ensures p.view (Inserted s r) (ignore_duplicate p r) (λ _. IsFollowing true s)
  unfolding ignore_duplicate
  settled s (ok _) = ensures_pure tt (λ st h. h)
  settled s (err e) =
      ensures_if (is_dup_key e) _ _ (λ dup. ensures_pure tt (λ st h. h dup)) (λ _. ensures_raise e)

  consume-IsFollowing :
      (evt : SocialEvent) (followed : Bool)
      → evt.action ≡ (if followed then lit "follow" else lit "unfollow")
      → evt.follower_id ≢ 0
      → evt.vlogger_id ≢ 0
      → Ensures p.view
          (λ _. Unit {0})
          (consume p (some evt))
          (λ _. IsFollowing followed (follow_of evt))
  unfolding consume apply_follow apply_unfollow text_eq
  consume-IsFollowing evt true action nf nv =
      ensures_if (evt.follower_id == 0 || evt.vlogger_id == 0) _ _ (λ e. absurd (ground arith))
        (λ _. rw action (
          ensures_bind (Inserted (follow_of evt)) _ _
            (ensures_attempt _ (λ w x. inserted (follow_of evt) w)) (settled (follow_of evt))))
  consume-IsFollowing evt false action nf nv =
      ensures_if (evt.follower_id == 0 || evt.vlogger_id == 0) _ _ (λ e. absurd (ground arith))
        (λ _. rw action (delete_follow-IsFollowing p (follow_of evt)))

  -- An event with both ids that is processed without an error has its effect, also when it is
  -- delivered again: after a follow the row is in the table, after an unfollow it is gone.
  pub process-IsFollowing :
      (decode : Text → Option SocialEvent) (body : Text) (evt : SocialEvent) (followed : Bool)
      (w : W)
      → decode body ≡ some evt
      → evt.action ≡ (if followed then lit "follow" else lit "unfollow")
      → evt.follower_id ≢ 0
      → evt.vlogger_id ≢ 0
      → (process p decode body w).0 ≡ ok tt
      → IsFollowing followed (follow_of evt) (p.view (process p decode body w).1)
  unfolding process
  process-IsFollowing decode body evt followed w decoded action nf nv done =
      rw decoded ((consume-IsFollowing evt followed action nf nv).at w tt tt (rw decoded at done))
