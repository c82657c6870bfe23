-- ===== src/Api/Notification/Inbox.antt =====
-- internal/api/notification/handler.go: the requests of a user, and the check that they pass. An
-- error that a handler answers is the action's; MarkReadHandler and UnreadCountHandler drop theirs.
use go_video.Prelude.{
  ℕ, ◌≡◌, refl, ap, ◌⊎◌, inl, inr, Bool, Bool-cases, true, ◌&&◌, not, Option, none, some, List, [],
  ◌∷◌, Result, ok, err, Error, message, Act, pure, raise, attempt, ◌>>=◌, ◌>>◌, ◌==◌, leb, ltb,
  keep, count, take, drop, length, arith, if◌then◌else◌, or_else,
}
use go_video.Prelude.Text.{Text, lit, text_eq, is_empty}
use go_video.Services.Sql.{update_rows, answered, refused}
use go_video.Services.Platform.{Platform}
use go_video.Services.Credentials.{Claims}
use go_video.Entities.{Notification}
use go_video.Auth.{parse_token}

-- The token of a header, with or without the scheme in front.
abbrev pub header_token : Text → Text
header_token header =
    if ltb 7 (length header) && text_eq (take 7 header) (lit "Bearer ")
    then drop 7 header
    else header

abbrev pub token_of_request : Text → Text → Text
token_of_request query header = if is_empty query then header_token header else query

-- What a request to mark as read is about: one notification of the user, or all of them.
abbrev pub is_meant : ℕ → Option ℕ → Notification → Bool
is_meant user none n = n.recipient_id == user
is_meant user (some id) n = n.id == id && n.recipient_id == user

abbrev pub read_now : Notification → Notification
read_now n = record n { is_read = true }

module _ {W : Type 0} (p : Platform W) where
  by_claims : Result Claims → Act W ℕ
  by_claims (err e) = raise (message "invalid token")
  by_claims (ok claims) = pure claims.account_id

  -- SSERequireAuth: the account id that the handlers get to know, or the error of a 401.
  abbrev pub sse_require_auth : Text → Text → Act W ℕ
  unfolding by_claims
  sse_require_auth query header =
      if is_empty (token_of_request query header)
      then raise (message "missing token")
      else do claims ← attempt (parse_token p (token_of_request query header)); by_claims claims

  -- ListHandler
  abbrev pub list_handler : ℕ → Act W (List Notification)
  list_handler user =
      p.notifications.find_ordered (λ n. n.recipient_id == user)
        (λ m n. leb n.created_at m.created_at) 50

  -- MarkReadHandler
  unfoldable pub mark_read : ℕ → Option ℕ → Act W (Unit {0})
  mark_read user id = do attempt (p.notifications.update (is_meant user id) read_now); pure tt

  -- UnreadCountHandler
  abbrev pub unread_count : ℕ → Act W ℕ
  unread_count user = do
    n ← attempt (p.notifications.count_rows (λ n. n.recipient_id == user && not n.is_read))
    pure (or_else 0 n)

-- The rows of other users are untouched.
abbrev pub KeepsOthers : ℕ → List Notification → List Notification → Type 0
KeepsOthers user before after =
    keep (λ n. not (n.recipient_id == user)) after ≡ keep (λ n. not (n.recipient_id == user)) before

others_kept :
    (user : ℕ) (id : Option ℕ) (rows : List Notification)
    → KeepsOthers user rows (update_rows (is_meant user id) read_now rows)
others_kept user id [] = refl
others_kept user none (n ∷ ns) = elim (Bool-cases (n.recipient_id == user)) [
  | inl e ↦ rw (e, e) (others_kept user none ns)
  | inr e ↦ rw (e, e) (ap (λ l. n ∷ l) (others_kept user none ns))
]
others_kept user (some i) (n ∷ ns) = elim (Bool-cases (n.recipient_id == user)) [
  | inl e ↦ elim (Bool-cases (n.id == i)) [
    | inl f ↦ rw (f, e, e) (others_kept user (some i) ns)
    | inr f ↦ rw (f, e) (others_kept user (some i) ns)
  ]
  | inr e ↦ elim (Bool-cases (n.id == i)) [
    | inl f ↦ rw (f, e, e) (ap (λ l. n ∷ l) (others_kept user (some i) ns))
    | inr f ↦ rw (f, e) (ap (λ l. n ∷ l) (others_kept user (some i) ns))
  ]
]

none_unread :
    (user : ℕ) (id : Option ℕ) (rows : List Notification)
    → count
        (λ n. is_meant user id n && not n.is_read)
        (update_rows (is_meant user id) read_now rows)
      ≡ 0
none_unread user id [] = refl
none_unread user none (n ∷ ns) = elim (Bool-cases (n.recipient_id == user)) [
  | inl e ↦ rw (e, e) (none_unread user none ns)
  | inr e ↦ rw (e, e) (none_unread user none ns)
]
none_unread user (some i) (n ∷ ns) = elim (Bool-cases (n.id == i && n.recipient_id == user)) [
  | inl e ↦ rw e (ground (arith, e, none_unread user (some i) ns))
  | inr e ↦ rw e (ground (arith, e, none_unread user (some i) ns))
]

-- Marking one notification of a user, or all of them, as read changes no row of another user, and
-- no unread row that was meant is left; or the table refused the change.
pub mark_read_done :
    {W : Type 0} (p : Platform W) (user : ℕ) (id : Option ℕ) (w : W)
    → KeepsOthers user (p.view w).notifications (p.view (mark_read p user id w).1).notifications
      × ((count
              (λ n. is_meant user id n && not n.is_read)
              (p.view (mark_read p user id w).1).notifications
            ≡ 0)
          ⊎ ((e : Error) × ((p.notifications.update (is_meant user id) read_now w).0 ≡ err e)))
unfolding mark_read ◌>>=◌
mark_read_done p user id w = elim (p.notifications.update_lem (is_meant user id) read_now w) [
  | answered n e (_, set) ↦ rw set (
    others_kept user id (p.view w).notifications,
    inl (none_unread user id (p.view w).notifications),
  )
  | refused x e same ↦ rw same (refl, inr (x, e))
]
