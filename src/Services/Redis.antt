-- ===== src/Services/Redis.antt =====
-- Redis through go-redis. A key is the text that a format of the program makes from its arguments;
-- no two formats make the same text, so each format is a constructor. An entry that has expired is
-- not there. The time to live of a lock, an entry of SETNX, is kept in the state and runs down as time
-- passes; no other call writes such a key but the script that deletes it. The time to live of the
-- other entries, which are copies of rows, is handed over and not modelled further.
use go_video.Prelude.{
  ℕ, ◌+◌, ◌-◌, ◌≡◌, ◌⊎◌, Bool, false, not, Option, none, some, List, [], ◌∷◌, ◌++◌, ok, err,
  redis_nil, fault, Act, ◌==◌, leb, keep, take, drop, length, is_none, if◌then◌else◌,
}
use mathlib.Core.List.{Perm}
use go_video.Prelude.Int.{ℤ, pos, negsuc, ◌+ℤ◌}
use go_video.Prelude.Text.{Text, text_eq}
use go_video.Services.Sql.{Lens, Performs, Ordered}

pub data Key : Type 0 where
  -- "video:detail:id=%d", "lock:video:detail:id=%d", "video:entity:%d"
  video_detail video_detail_lock video_entity : ℕ → Key
  -- "hot:video:1m:%s", of a minute
  hot_minute : ℕ → Key
  -- "account:%d", "account:%d:refresh"
  account_token account_refresh : ℕ → Key
  -- "refresh:%s"
  refresh_lookup : Text → Key

abbrev pub key_eq : Key → Key → Bool
key_eq (video_detail a) (video_detail b) = a == b
key_eq (video_detail_lock a) (video_detail_lock b) = a == b
key_eq (video_entity a) (video_entity b) = a == b
key_eq (hot_minute a) (hot_minute b) = a == b
key_eq (account_token a) (account_token b) = a == b
key_eq (account_refresh a) (account_refresh b) = a == b
key_eq (refresh_lookup a) (refresh_lookup b) = text_eq a b
key_eq _ _ = false

-- String entries, and sorted sets whose members are the decimal texts of video ids.
abbrev pub Strings : Type 0
Strings = Key → Option Text

abbrev pub SortedSets : Type 0
SortedSets = Key → ℕ → Option ℤ

abbrev pub put_string : Key → Option Text → Strings → Strings
put_string k v f j = if key_eq j k then v else f j

-- The milliseconds that an entry of SETNX has left; `none` where it does not expire.
abbrev pub Leases : Type 0
Leases = Key → Option ℕ

-- go-redis sets no expiry for a time to live of 0.
abbrev pub lease_of : ℕ → Option ℕ
lease_of ttl = if ttl == 0 then none else some ttl

abbrev pub put_lease : Key → Option ℕ → Leases → Leases
put_lease k l f j = if key_eq j k then l else f j

-- What milliseconds that pass leave of an entry and of its lease.
abbrev pub lasting : ℕ → Option ℕ → Option Text → Option Text
lasting ms none v = v
lasting ms (some left) v = if leb left ms then none else v

abbrev pub less : ℕ → Option ℕ → Option ℕ
less ms none = none
less ms (some left) = if leb left ms then none else some (left - ms)

abbrev pub score_or_zero : Option ℤ → ℤ
score_or_zero none = pos 0
score_or_zero (some x) = x

abbrev pub incr_member : Key → ℕ → ℤ → SortedSets → SortedSets
incr_member k m d f j n =
    if key_eq j k then (if n == m then some (score_or_zero (f j n) +ℤ d) else f j n) else f j n

-- The sorted set of the time line: scores with the ids that are its members, from the lowest rank.
abbrev pub Timeline : Type 0
Timeline = List (ℕ × ℕ)

-- ZADD of one member: it has the new score, and no other.
abbrev pub add_member : ℕ × ℕ → Timeline → Timeline
add_member (score, m) l = (score, m) ∷ keep (λ e. not (e.1 == m)) l

abbrev pub by_score : ℕ × ℕ → ℕ × ℕ → Bool
by_score a b = leb a.0 b.0

-- The rank after `stop`, where a negative rank counts from the end of a set of `n`.
abbrev pub end_rank : ℤ → ℕ → ℕ
end_rank (pos i) n = i + 1
end_rank (negsuc i) n = n - i

-- ZREMRANGEBYRANK
abbrev pub remove_ranks : ℕ → ℤ → Timeline → Timeline
remove_ranks start stop l = take start l ++ drop (start + (end_rank stop (length l) - start)) l

module _ {W S : Type 0} (view : W → S) where
  pub record Redis {Push : Type 0} (strings_at : Lens S Strings) (leases_at : Lens S Leases)
      (sets_at : Lens S SortedSets) (timeline_at : Lens S Timeline)
      (pushes_at : Lens S (List (Text × Push))) : Type 0 where
    pub get : Key → Act W Text
    pub set : Key → Text → ℕ → Act W (Unit {0})
    pub del : Key → Act W (Unit {0})
    pub zincrby : Key → ℕ → ℤ → Act W (Unit {0})
    pub expire : Key → ℕ → Act W (Unit {0})
    -- GET answers the entry, or redis.Nil where there is none.
    pub get_lem :
        (k : Key) (w : W)
        → (view (get k w).1 ≡ view w)
          × (((v : Text) × ((get k w).0 ≡ ok v) × (strings_at.get (view w) k ≡ some v))
              ⊎ (((get k w).0 ≡ err redis_nil) × (strings_at.get (view w) k ≡ none))
              ⊎ ((n : ℕ) × ((get k w).0 ≡ err (fault n))))
    pub set_lem :
        (k : Key) (v : Text) (ttl : ℕ) (w : W)
        → Performs view w
            (set k v ttl w)
            (λ _ s. s ≡ strings_at.set (put_string k (some v) (strings_at.get (view w))) (view w))
    pub del_lem :
        (k : Key) (w : W)
        → Performs view w
            (del k w)
            (λ _ s. s ≡ strings_at.set (put_string k none (strings_at.get (view w))) (view w))
    pub zincrby_lem :
        (k : Key) (m : ℕ) (d : ℤ) (w : W)
        → Performs view w
            (zincrby k m d w)
            (λ _ s. s ≡ sets_at.set (incr_member k m d (sets_at.get (view w))) (view w))
    pub expire_lem :
        (k : Key) (ttl : ℕ) (w : W) → Performs view w (expire k ttl w) (λ _ s. s ≡ view w)
    -- SET key value PX ttl NX: it answers whether the key was free.
    pub set_nx : Key → Text → ℕ → Act W Bool
    pub set_nx_lem :
        (k : Key) (v : Text) (ttl : ℕ) (w : W)
        → Performs view w (set_nx k v ttl w) (λ done s.
          (done ≡ is_none (strings_at.get (view w) k))
          × (s ≡ (
              if done
              then leases_at.set
                  (put_lease k (lease_of ttl) (leases_at.get (view w)))
                  (strings_at.set (put_string k (some v) (strings_at.get (view w))) (view w))
              else view w)))
    -- A script that reads and writes string entries runs as one step.
    pub eval : (Strings → ℕ × Strings) → Act W ℕ
    pub eval_lem :
        (script : Strings → ℕ × Strings) (w : W)
        → Performs view w (eval script w) (λ n s.
          (n ≡ (script (strings_at.get (view w))).0)
          × (s ≡ strings_at.set (script (strings_at.get (view w))).1 (view w)))
    pub zadd : ℕ × ℕ → Act W (Unit {0})
    pub zadd_lem :
        (e : ℕ × ℕ) (w : W)
        → Performs view w (zadd e w) (λ _ s.
          (new : Timeline) × Perm new (add_member e (timeline_at.get (view w)))
          × Ordered by_score new
          × (s ≡ timeline_at.set new (view w)))
    pub zremrangebyrank : ℕ → ℤ → Act W (Unit {0})
    pub zremrangebyrank_lem :
        (start : ℕ) (stop : ℤ) (w : W)
        → Performs view w (zremrangebyrank start stop w) (λ _ s.
          s ≡ timeline_at.set (remove_ranks start stop (timeline_at.get (view w))) (view w))
    -- PUBLISH on a channel
    pub publish : Text → Push → Act W (Unit {0})
    pub publish_lem :
        (channel : Text) (m : Push) (w : W)
        → Performs view w
            (publish channel m w)
            (λ _ s. s ≡ pushes_at.set (pushes_at.get (view w) ++ (channel, m) ∷ []) (view w))
