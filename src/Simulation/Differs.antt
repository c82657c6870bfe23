-- ===== src/Simulation/Differs.antt =====
-- When an UPDATE changed a row, for the tables in memory.
use go_video.Prelude.{
  if◌then◌else◌, ◌≡◌, ◌≢◌, refl, subst, Bool, true, false, ◌||◌, not, arith, ◌==◌,
}
use go_video.Prelude.Int.{ℤ, pos, negsuc}
use go_video.Prelude.Text.{text_eq, text_eq_self}
use go_video.Entities.{
  Video, OutboxMsg, Notification, OutboxStatus, Account, pending, processing, published, failed,
}
use go_video.Worker.Outbox.{same_status}

-- No row of the kind is ever updated.
abbrev pub no_update : {Row : Type 0} → Row → Row → Bool
no_update r s = false

pub no_update_sound : {Row : Type 0} (r s : Row) → no_update r s ≡ true → s ≢ r
no_update_sound r s h = absurd (cc h)

abbrev pub same_ℤ : ℤ → ℤ → Bool
same_ℤ (pos a) (pos b) = a == b
same_ℤ (negsuc a) (negsuc b) = a == b
same_ℤ _ _ = false

same_ℤ_self : (a : ℤ) → same_ℤ a a ≡ true
same_ℤ_self (pos a) = ground arith
same_ℤ_self (negsuc a) = ground arith

abbrev pub video_differs : Video → Video → Bool
video_differs v u =
    not (same_ℤ v.likes_count u.likes_count) || not (same_ℤ v.popularity u.popularity)

pub video_differs_sound : (v u : Video) → video_differs v u ≡ true → u ≢ v
video_differs_sound v u h e =
    cc (
      subst (λ x. video_differs v x ≡ true) e h,
      same_ℤ_self v.likes_count,
      same_ℤ_self v.popularity,
    )

same_status_self : (x : OutboxStatus) → same_status x x ≡ true
same_status_self pending = refl
same_status_self processing = refl
same_status_self published = refl
same_status_self failed = refl

abbrev pub outbox_differs : OutboxMsg → OutboxMsg → Bool
outbox_differs m n = not (same_status m.status n.status)

pub outbox_differs_sound : (m n : OutboxMsg) → outbox_differs m n ≡ true → n ≢ m
outbox_differs_sound m n h e =
    cc (subst (λ x. outbox_differs m x ≡ true) e h, same_status_self m.status)

abbrev pub account_differs : Account → Account → Bool
account_differs a b =
    not (text_eq a.username b.username)
    || not (text_eq a.password b.password)
    || not (text_eq a.token b.token)
    || not (text_eq a.refresh_token b.refresh_token)

pub account_differs_sound : (a b : Account) → account_differs a b ≡ true → b ≢ a
account_differs_sound a b h e = cc (
  subst (λ x. account_differs a x ≡ true) e h,
  text_eq_self a.username,
  text_eq_self a.password,
  text_eq_self a.token,
  text_eq_self a.refresh_token,
)

abbrev pub notification_differs : Notification → Notification → Bool
notification_differs m n = if m.is_read then not n.is_read else n.is_read

pub notification_differs_sound : (m n : Notification) → notification_differs m n ≡ true → n ≢ m
notification_differs_sound m n h e =
    self m.is_read (subst (λ x. notification_differs m x ≡ true) e h)
  where
    self : (b : Bool) → (if b then not b else b) ≢ true
    self true k = cc k
    self false k = cc k
