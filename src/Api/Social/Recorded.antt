-- ===== src/Api/Social/Recorded.antt =====
-- Follow and Unfollow report success only when the change is stored or asked for.
use go_video.Prelude.{
  ℕ, ◌≡◌, ◌⊎◌, inl, inr, refl, sym, subst, Bool, true, false, ◌&&◌, not, [], ◌∷◌, ◌++◌, ok, is_ok,
  Act, any, any-append, arith, ◌==◌, ==_iff,
}
use go_video.Prelude.Text.{Text, lit, text_eq, text_eq_self}
use go_video.Services.Sql.{none-delete_rows}
use go_video.Services.Ensures.{
  Ensures, ensures_bind, ensures_performs, ensures_pure, ensures_raise, ensures_if, ensures_try,
  ensures_weaken, IfDone, ensures_any,
}
use go_video.Services.Platform.{Platform}
use go_video.Entities.{Social, SocialEvent, Sent, State}
use go_video.Middleware.Rabbitmq.{social_exchange, mq_follow, mq_unfollow}
use go_video.Middleware.Rabbitmq.Laws.{mq_follow-performs, mq_unfollow-performs, social_event}
use go_video.Api.Social.{same_follow, insert_follow, delete_follow, queue_or, follow, unfollow}

abbrev pub asks : Text → Social → Sent SocialEvent → Bool
asks action s (exchange, key, evt) =
    text_eq exchange social_exchange
    && text_eq key (lit "social." ++ action)
    && text_eq evt.action action
    && evt.follower_id == s.follower_id
    && evt.vlogger_id == s.vlogger_id

abbrev pub IsAsked : Text → Social → State → Type 0
IsAsked action s st = any (asks action s) st.social_publications ≡ true

-- Whether the follower's row for the vlogger is in the table.
abbrev pub IsFollowing : Bool → Social → State → Type 0
IsFollowing following s st = any (same_follow s.follower_id s.vlogger_id) st.socials ≡ following

module _ {W : Type 0} (p : Platform W) (s : Social) where
  asked :
      (action id : Text) (t : ℕ) (st : State)
      → IsAsked action s (record st {
        social_publications =
            st.social_publications
            ++ (
              social_exchange,
              lit "social." ++ action,
              social_event p action s.follower_id s.vlogger_id id t,
            )
              ∷ [];
      })
  asked action id t st = ground (
    arith,
    any-append (asks action s) st.social_publications (
        (
          social_exchange,
          lit "social." ++ action,
          social_event p action s.follower_id s.vlogger_id id t,
        )
        ∷ []),
    text_eq_self social_exchange,
    text_eq_self (lit "social." ++ action),
    text_eq_self action,
    (==_iff s.follower_id s.follower_id).1 refl,
    (==_iff s.vlogger_id s.vlogger_id).1 refl,
  )

  mq_follow-IsAsked :
      Ensures p.view
        (λ _. Unit {0})
        (mq_follow p s.follower_id s.vlogger_id)
        (λ _. IsAsked (lit "follow") s)
  mq_follow-IsAsked =
      ensures_performs _ _ (mq_follow-performs p s.follower_id s.vlogger_id)
        (λ w a t h (id, now, sent).
          subst (IsAsked (lit "follow") s) (sym sent) (asked (lit "follow") id now (p.view w)))

  mq_unfollow-IsAsked :
      Ensures p.view
        (λ _. Unit {0})
        (mq_unfollow p s.follower_id s.vlogger_id)
        (λ _. IsAsked (lit "unfollow") s)
  mq_unfollow-IsAsked =
      ensures_performs _ _ (mq_unfollow-performs p s.follower_id s.vlogger_id)
        (λ w a t h (id, now, sent).
          subst (IsAsked (lit "unfollow") s) (sym sent) (asked (lit "unfollow") id now (p.view w)))

  pub insert_follow-IsFollowing :
      Ensures p.view (λ _. Unit {0}) (insert_follow p s) (λ _. IsFollowing true s)
  unfolding insert_follow
  insert_follow-IsFollowing =
      ensures_bind (λ _. IsFollowing true s) _ _
        (record {
          at = λ w h k done. elim (p.socials.create_lem s w) [
            | inl (i, e, _, _, _, same) ↦ rw same (
                ground (
                  arith,
                  any-append (same_follow s.follower_id s.vlogger_id) (p.view w).socials
                      (record s { id = i } ∷ []),
                  (==_iff s.follower_id s.follower_id).1 refl,
                  (==_iff s.vlogger_id s.vlogger_id).1 refl,
                ))
            | inr (inl (e, _, _)) ↦ absurd (cc (e, done))
            | inr (inr (x, e, _, _)) ↦ absurd (cc (e, done))
          ];
        })
        (λ k. ensures_pure tt (λ st h. h))

  pub delete_follow-IsFollowing :
      Ensures p.view (λ _. Unit {0}) (delete_follow p s) (λ _. IsFollowing false s)
  unfolding delete_follow
  delete_follow-IsFollowing =
      ensures_bind (λ _. IsFollowing false s) _ _
        (ensures_performs _ _ (p.socials.delete_lem _) (λ w n st h post.
          subst (IsFollowing false s) (sym post.1)
            (none-delete_rows (same_follow s.follower_id s.vlogger_id) (p.view w).socials)))
        (λ n. ensures_pure tt (λ st h. h))

  ensures_queue_or :
      (b : Bool) (send write : Act W (Unit {0})) (Q R : State → Type 0)
      → Ensures p.view (λ _. Unit {0}) send (λ _. R)
      → Ensures p.view (λ _. Unit {0}) write (λ _. Q)
      → Ensures p.view (λ _. Unit {0}) (queue_or p b send write) (λ _ st. Q st ⊎ R st)
  unfolding queue_or
  ensures_queue_or false send write Q R hs hw = ensures_weaken _ (λ st x. x) (λ a st x. inl x) hw
  ensures_queue_or true send write Q R hs hw =
      ensures_bind (λ r. IfDone R (is_ok r)) _ _ (ensures_try send hs)
        (λ r.
          ensures_if (is_ok r) _ _
            (λ e. ensures_pure tt (λ st x. inr (subst (λ c. IfDone R c st) e x)))
            (λ e. ensures_weaken _ (λ st x. tt) (λ a st x. inl x) hw))

  -- When Follow reports success, the row is in the table, or the client took a publication that asks
  -- for it, on the social exchange and under the routing key of a follow. Without confirms this does
  -- not say that the broker has it.
  pub follow_recorded :
      (b : Bool) (w : W)
      → ((follow p b s w).0 ≡ ok tt)
      → IsFollowing true s (p.view (follow p b s w).1)
        ⊎ IsAsked (lit "follow") s (p.view (follow p b s w).1)
  unfolding follow
  follow_recorded b w done =
      (ensures_bind {P = λ _. Unit {0}} (λ _ _. Unit {0}) _ _ (ensures_any _)
          (λ _.
            ensures_bind (λ _ _. Unit {0}) _ _ (ensures_any _)
              (λ _.
                ensures_if (s.follower_id == s.vlogger_id) _ _ (λ _. ensures_raise _)
                  (λ _.
                    ensures_bind (λ _ _. Unit {0}) _ _ (ensures_any _)
                      (λ followed.
                        ensures_if followed _ _ (λ _. ensures_raise _)
                          (λ _.
                            ensures_queue_or b _ _ _ _ mq_follow-IsAsked
                              insert_follow-IsFollowing)))))).at
        w tt tt done

  -- When Unfollow reports success, the row is gone from the table, or the client took a publication
  -- that asks for its removal.
  pub unfollow_recorded :
      (b : Bool) (w : W)
      → ((unfollow p b s w).0 ≡ ok tt)
      → IsFollowing false s (p.view (unfollow p b s w).1)
        ⊎ IsAsked (lit "unfollow") s (p.view (unfollow p b s w).1)
  unfolding unfollow
  unfollow_recorded b w done =
      (ensures_bind {P = λ _. Unit {0}} (λ _ _. Unit {0}) _ _ (ensures_any _)
          (λ _.
            ensures_bind (λ _ _. Unit {0}) _ _ (ensures_any _)
              (λ _.
                ensures_bind (λ _ _. Unit {0}) _ _ (ensures_any _)
                  (λ followed.
                    ensures_if (not followed) _ _ (λ _. ensures_raise _)
                      (λ _.
                        ensures_queue_or b _ _ _ _ mq_unfollow-IsAsked
                          delete_follow-IsFollowing))))).at
        w tt tt done
