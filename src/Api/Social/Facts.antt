-- ===== src/Api/Social/Facts.antt =====
-- What SocialService keeps, and what it promises when it reports success.
use go_video.Prelude.{
  is_ok, ℕ, ◌≡◌, inl, inr, refl, sym, subst, Bool, true, false, ◌&&◌, not, [], ◌∷◌, Act, All,
  All-append, arith, ◌==◌,
}
use go_video.Prelude.Text.{lit, text_eq}
use go_video.Services.Sql.{All-delete_rows}
use go_video.Services.Keeps.{
  Keeps, keeps_rules, Keeps-performs, Keeps-bind, Keeps-if, Keeps-if_known, Keeps-pure, Keeps-raise,
  Keeps-attempt, Keeps-first, Keeps-count_rows,
}
use go_video.Services.Platform.{Platform}
use go_video.Entities.{Social, SocialEvent, Sent, State}
use go_video.Middleware.Rabbitmq.{mq_follow, mq_unfollow}
use go_video.Middleware.Rabbitmq.Laws.{mq_follow-performs, mq_unfollow-performs}
use go_video.Api.Social.{is_followed, insert_follow, delete_follow, queue_or, follow, unfollow}

-- A publication that asks to follow oneself.
abbrev pub asks_self : Sent SocialEvent → Bool
asks_self (exchange, key, evt) =
    text_eq evt.action (lit "follow") && evt.follower_id == evt.vlogger_id

-- Nobody follows themselves, and no publication that the client took asks for it.
abbrev pub NoSelfFollow : State → Type 0
NoSelfFollow s =
    All (λ r. (r.follower_id == r.vlogger_id) ≡ false) s.socials
    × All (λ m. asks_self m ≡ false) s.social_publications

module _ {W : Type 0} (p : Platform W) where
  pub Keeps-insert_follow :
      (s : Social)
      → (s.follower_id == s.vlogger_id) ≡ false
      → Keeps p.view NoSelfFollow (insert_follow p s)
  unfolding insert_follow
  Keeps-insert_follow s apart =
      Keeps-bind _ _
        (record {
          at = λ w h. elim (p.socials.create_lem s w) [
            | inl (k, e, _, _, _, same) ↦
                subst NoSelfFollow (sym same)
                  (All-append _ (p.view w).socials (record s { id = k } ∷ []) h.0 (apart, tt), h.1)
            | inr (inl (e, _, same)) ↦ subst NoSelfFollow (sym same) h
            | inr (inr (x, e, _, same)) ↦ subst NoSelfFollow (sym same) h
          ];
        })
        (λ k. Keeps-pure tt)

  pub Keeps-delete_follow : (s : Social) → Keeps p.view NoSelfFollow (delete_follow p s)
  unfolding delete_follow
  Keeps-delete_follow s =
      Keeps-bind _ _
        (Keeps-performs _ _ (p.socials.delete_lem _) (λ w n t h post.
          subst NoSelfFollow (sym post.1) (All-delete_rows _ _ (p.view w).socials h.0, h.1)))
        (λ n. Keeps-pure tt)

  Keeps-mq_follow :
      (follower vlogger : ℕ)
      → (follower == vlogger) ≡ false
      → Keeps p.view NoSelfFollow (mq_follow p follower vlogger)
  Keeps-mq_follow follower vlogger apart =
      Keeps-performs _ _ (mq_follow-performs p follower vlogger) (λ w a s h (id, t, sent).
        subst NoSelfFollow (sym sent)
          (h.0, All-append _ (p.view w).social_publications _ h.1 (ground arith, tt)))

  Keeps-mq_unfollow :
      (follower vlogger : ℕ) → Keeps p.view NoSelfFollow (mq_unfollow p follower vlogger)
  unfolding text_eq
  Keeps-mq_unfollow follower vlogger =
      Keeps-performs _ _ (mq_unfollow-performs p follower vlogger) (λ w a s h (id, t, sent).
        subst NoSelfFollow (sym sent)
          (h.0, All-append _ (p.view w).social_publications _ h.1 (refl, tt)))

  Keeps-queue_or :
      (b : Bool) (send write : Act W (Unit {0}))
      → Keeps p.view NoSelfFollow send
      → Keeps p.view NoSelfFollow write
      → Keeps p.view NoSelfFollow (queue_or p b send write)
  unfolding queue_or
  Keeps-queue_or false send write hs hw = hw
  Keeps-queue_or true send write hs hw =
      Keeps-bind _ _ (Keeps-attempt _ hs) (λ r. Keeps-if (is_ok r) _ _ (Keeps-pure tt) hw)

  Keeps-is_followed : (s : Social) → Keeps p.view NoSelfFollow (is_followed p s)
  unfolding is_followed
  Keeps-is_followed s = search (keeps_rules, Keeps-count_rows p.socials)

  Keeps-follow : (b : Bool) (s : Social) → Keeps p.view NoSelfFollow (follow p b s)
  unfolding follow
  Keeps-follow b s = Keeps-bind _ _ (Keeps-first p.accounts _) (λ _.
      Keeps-bind _ _ (Keeps-first p.accounts _) (λ _.
        Keeps-if_known _ _ _ (λ _. Keeps-raise _)
          (λ apart. Keeps-bind _ _ (Keeps-is_followed s) (λ followed.
            Keeps-if followed _ _ (Keeps-raise _)
              (Keeps-queue_or b _ _ (Keeps-mq_follow _ _ apart) (Keeps-insert_follow s apart))))))

  Keeps-unfollow : (b : Bool) (s : Social) → Keeps p.view NoSelfFollow (unfollow p b s)
  unfolding unfollow
  Keeps-unfollow b s = Keeps-bind _ _ (Keeps-first p.accounts _) (λ _.
      Keeps-bind _ _ (Keeps-first p.accounts _) (λ _.
        Keeps-bind _ _ (Keeps-is_followed s) (λ followed.
          Keeps-if (not followed) _ _ (Keeps-raise _)
            (Keeps-queue_or b _ _ (Keeps-mq_unfollow _ _) (Keeps-delete_follow s)))))

  -- Follow and Unfollow, whatever fails on the way, keep that nobody follows themselves and that no
  -- publication that the client took asks for it.
  pub follow-NoSelfFollow :
      (b : Bool) (s : Social) (w : W)
      → NoSelfFollow (p.view w)
      → NoSelfFollow (p.view (follow p b s w).1) × NoSelfFollow (p.view (unfollow p b s w).1)
  follow-NoSelfFollow b s w h = ((Keeps-follow b s).at w h, (Keeps-unfollow b s).at w h)
