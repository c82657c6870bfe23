-- ===== src/Worker/Timeline/Bounded.antt =====
-- The length of the time line.
use go_video.Prelude.{
  false, length-drop, ℕ, ◌-◌, ◌≤◌, ◌≡◌, ◌∙◌, sym, subst, ap, ◌⊎◌, inl, inr, Option, some, ok, err,
  Error, length, length-drop, drop, ◌==◌, arith, ◌>>=◌,
}
use go_video.Prelude.Int.{negsuc}
use go_video.Prelude.Text.{Text}
use mathlib.Core.List.{Perm}
use go_video.Services.Sql.{Ordered, answered, refused}
use go_video.Services.Redis.{Timeline, add_member, by_score, remove_ranks}
use go_video.Services.Platform.{Platform}
use go_video.Entities.{TimelineEvent, State}
use go_video.Entities.Schemas.{Cache}
use go_video.Worker.Timeline.{consume, process}

drop_bounded : (n : ℕ) (l : Timeline) → length (drop (length l - n) l) ≤ n
drop_bounded n l = omega (arith, length-drop (length l - n) l)

thousand_left : (l : Timeline) → remove_ranks 0 (negsuc 1000) l ≡ drop (length l - 1000) l
thousand_left l = ap (λ n. drop n l) (omega arith)

-- The set after a new member: in the order of the scores, of which the highest thousand are left.
abbrev pub IsTrimmed : TimelineEvent → Timeline → Timeline → Type 0
IsTrimmed evt before after =
    (whole : Timeline) × Perm whole (add_member (evt.create_time, evt.video_id) before)
    × Ordered by_score whole
    × (after ≡ drop (length whole - 1000) whole)
    × (length after ≤ 1000)

-- When the worker has handled an event with a video and a time, the time line is the old one with
-- that video at that time, less all but the thousand newest; or redis refused to trim it.
pub process_trims :
    {W : Type 0} (p : Platform W) (cache : Cache p.view) (decode : Text → Option TimelineEvent)
    (body : Text) (evt : TimelineEvent) (w : W)
    → decode body ≡ some evt
    → ((evt.video_id == 0) ≡ false)
    → ((evt.create_time == 0) ≡ false)
    → (process p cache decode body w).0 ≡ ok tt
    → IsTrimmed evt (p.view w).timeline (p.view (process p cache decode body w).1).timeline
      ⊎ ((e : Error) × ((cache.zremrangebyrank 0
              (negsuc 1000)
              (cache.zadd (evt.create_time, evt.video_id) w).1).0
            ≡ err e))
unfolding process consume ◌>>=◌
process_trims p cache decode body evt w decoded video time done = rw decoded (
    rw (video, time)
      (elim (cache.zadd_lem (evt.create_time, evt.video_id) w) [
        | refused e failed _ ↦ absurd (cc (rw decoded at done))
        | answered a added (whole, same, sorted, set) ↦
            elim (cache.zremrangebyrank_lem 0 (negsuc 1000)
              (cache.zadd (evt.create_time, evt.video_id) w).1) [
                | refused e failed _ ↦ inr (e, failed)
                | answered b trimmed set' ↦
                    let after =
                      ap (λ (s : State). s.timeline) set'
                      ∙ ap (λ (s : State). remove_ranks 0 (negsuc 1000) s.timeline) set
                      ∙ thousand_left whole in
                    rw added (
                      inl (
                        whole,
                        same,
                        sorted,
                        after,
                        subst (λ (l : Timeline). length l ≤ 1000) (sym after)
                            (drop_bounded 1000 whole),
                      ))
              ]
      ]))
