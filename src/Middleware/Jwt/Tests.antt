-- ===== src/Middleware/Jwt/Tests.antt =====
-- Sessions in memory: an account that signs in, shows its token, renews it and signs out.
use go_video.Prelude.{
  ℕ, ◌≡◌, ◌≢◌, ◌⊎◌, refl, sym, ◌∙◌, true, false, none, some, [], ◌∷◌, ◌++◌, ok, err, fault, any,
  arith, ◌>>=◌,
}
use mathlib.Core.List.{Memᴰ}
use go_video.Prelude.Text.{Text, lit, text_eq, is_empty}
use go_video.Services.Sql.{refused}
use go_video.Services.Credentials.{Claims}
use go_video.Services.Redis.{account_token, put_string}
use go_video.Services.Platform.{Platform, time_now}
use go_video.Entities.{Account}
use go_video.Entities.Schemas.{Cache}
use go_video.Simulation.World.{World, state_of}
use go_video.Simulation.Services.{memory_platform, empty_state, token_of}
use go_video.Simulation.Cache.{memory_cache, cached_platform}
use go_video.Simulation.Samples.{sample_account}
use go_video.Auth.{generate_token, generate_refresh_token, parse_token, claims_at}
use go_video.Auth.Laws.{parse_token-generate_token}
use go_video.Api.Account.Service.{login, refresh, register, change_password, logout}
use go_video.Api.Account.Service.Sessions.{signed_in, login_recorded}
use go_video.Api.Account.Service.Refresh.{renewed, refresh_reasons}
use go_video.Api.Account.Service.Password.{has_password, change_password_checked}
use go_video.Api.Account.Service.Logout.{IdsUnique}
use go_video.Middleware.Jwt.{jwt_auth, check, split_space, is_bearer, pass, passed_as, unauthorized}
use go_video.Middleware.Jwt.Access.{admitted_reasons, logout_revokes, IsKnown}
use go_video.Middleware.Jwt.Stale.{stale_token_accepted, refreshed_token_refused}

-- What the platform in memory signs for the account 2, named u, at the time 100000.
abbrev session_claims : Claims
session_claims = claims_at 100000 2 (lit "u")

abbrev session_token : Text
session_token = token_of session_claims

abbrev signed_out : Account
signed_out = record (sample_account 2) { password = lit "pw" }

abbrev signed_in_account : Account
signed_in_account = record signed_out { token = session_token; refresh_token = lit "4f" }

abbrev world_of : Account → World
world_of a = (record empty_state { accounts = a ∷ [] }, [])

one_id : (a : Account) → IdsUnique (state_of (world_of a))
one_id a b c (Memᴰ.head e) (Memᴰ.head f) h = e ∙ sym f
one_id a b c (Memᴰ.head e) (Memᴰ.tail m) h = elim m [ ]
one_id a b c (Memᴰ.tail m) there h = elim m [ ]

logs_in :
    (login memory_platform (lit "u") (lit "pw") (world_of signed_out)).0
    ≡ ok (session_token, lit "4f")
unfolding login generate_token generate_refresh_token time_now ◌>>=◌ text_eq
logs_in = refl

login_recorded_example :
    any
      (signed_in memory_platform (lit "u") (lit "pw") session_token (lit "4f"))
      (state_of (login memory_platform (lit "u") (lit "pw") (world_of signed_out)).1).accounts
    ≡ true
login_recorded_example =
    login_recorded memory_platform (lit "u") (lit "pw") session_token (lit "4f")
      (world_of signed_out) logs_in

refreshes :
    (refresh memory_platform (lit "4f") (world_of (record signed_in_account { token = lit "t" }))).0
    ≡ ok (session_token, 2, lit "u")
unfolding refresh generate_token time_now ◌>>=◌ text_eq
refreshes = refl

refresh_reasons_example :
    (is_empty (lit "4f") ≡ false)
    × (any
          (renewed (lit "4f") (session_token, 2, lit "u"))
          (state_of
            (refresh memory_platform
              (lit "4f")
              (world_of (record signed_in_account { token = lit "t" }))).1).accounts
        ≡ true)
refresh_reasons_example =
    refresh_reasons memory_platform (lit "4f") (session_token, 2, lit "u")
      (world_of (record signed_in_account { token = lit "t" })) refreshes

registers : (register memory_platform signed_out (empty_state, [])).0 ≡ ok tt
unfolding register ◌>>=◌
registers = refl

changes_password :
    (change_password memory_platform (lit "u") (lit "pw") (lit "new") (world_of signed_out)).0
    ≡ ok tt
unfolding change_password ◌>>=◌ text_eq
changes_password = refl

change_password_checked_example :
    (any (has_password memory_platform (lit "u") (lit "pw")) (signed_out ∷ []) ≡ true)
    × (any
          (has_password memory_platform (lit "u") (lit "new"))
          (state_of
            (change_password memory_platform
              (lit "u")
              (lit "pw")
              (lit "new")
              (world_of signed_out)).1).accounts
        ≡ true)
change_password_checked_example =
    change_password_checked memory_platform (lit "u") (lit "pw") (lit "new") (world_of signed_out)
      changes_password

generates : (generate_token memory_platform 2 (lit "u") (world_of signed_out)).0 ≡ ok session_token
unfolding generate_token time_now ◌>>=◌
generates = refl

parse_token-generate_token_example :
    (c : Claims) × ((parse_token memory_platform session_token (world_of signed_out)).0 ≡ ok c)
    × (c.account_id ≡ 2)
parse_token-generate_token_example =
    parse_token-generate_token memory_platform 2 (lit "u") session_token (world_of signed_out)
      (world_of signed_out) generates (omega arith) (omega arith)

abbrev header : Text
header = lit "Bearer " ++ session_token

admits :
    (jwt_auth cached_platform header (world_of signed_in_account)).0 ≡ ok (passed_as 2 (lit "u"))
unfolding jwt_auth check split_space parse_token time_now ◌>>=◌ text_eq
admits = refl

admitted_reasons_example :
    (scheme : Text) × (token : Text) × (claims : Claims) × (split_space header
      ≡ some (scheme, token))
    × (is_bearer scheme ≡ true)
    × ((parse_token cached_platform token (world_of signed_in_account)).0 ≡ ok claims)
    × (passed_as 2 (lit "u") ≡ pass claims)
    × IsKnown cached_platform claims.account_id token (state_of (world_of signed_in_account))
admitted_reasons_example =
    admitted_reasons cached_platform header 2 (lit "u") (world_of signed_in_account) admits

logs_out : (logout cached_platform 2 (world_of signed_in_account)).0 ≡ ok tt
unfolding logout ◌>>=◌ text_eq
logs_out = refl

forgets :
    (state_of (logout cached_platform 2 (world_of signed_in_account)).1).strings (account_token 2)
    ≡ none
unfolding logout ◌>>=◌ text_eq
forgets = refl

logout_revokes_example :
    (check cached_platform session_claims session_token
      (logout cached_platform 2 (world_of signed_in_account)).1).0
    ≢ ok (pass session_claims)
logout_revokes_example =
    logout_revokes cached_platform 2 (world_of signed_in_account) (one_id signed_in_account)
      logs_out forgets session_claims session_token refl

-- A redis that answers, but deletes nothing.
abbrev keeping_cache : Cache state_of
keeping_cache = record memory_cache {
  del = λ k w. (err (fault 1), w);
  del_lem = λ k w. refused (fault 1) refl refl;
}

abbrev keeping_platform : Platform World
keeping_platform = record memory_platform { redis = some keeping_cache }

-- The account is signed in, and redis has its token.
abbrev cached_world : Text → World
cached_world token = (
  record (state_of (world_of (record signed_in_account { token = token }))) {
    strings = put_string (account_token 2) (some token) (λ k. none);
  },
  [],
)

keeping_logs_out : (logout keeping_platform 2 (cached_world session_token)).0 ≡ ok tt
unfolding logout ◌>>=◌ text_eq
keeping_logs_out = refl

stale_token_accepted_example :
    ((check keeping_platform session_claims session_token
        (logout keeping_platform 2 (cached_world session_token)).1).0
      ≡ ok (pass session_claims))
    ⊎ ((n : ℕ) × ((keeping_cache.get
            (account_token 2)
            (logout keeping_platform 2 (cached_world session_token)).1).0
          ≡ err (fault n)))
stale_token_accepted_example =
    stale_token_accepted keeping_platform keeping_cache refl session_claims session_token
      (cached_world session_token) (λ k v. (fault 1, refl)) refl keeping_logs_out

cached_refreshes :
    (refresh cached_platform (lit "4f") (cached_world (lit "t"))).0 ≡ ok (session_token, 2, lit "u")
unfolding refresh generate_token time_now ◌>>=◌ text_eq
cached_refreshes = refl

differs : text_eq (lit "t") session_token ≡ false
unfolding text_eq
differs = refl

refreshed_token_refused_example :
    ((check cached_platform session_claims session_token
        (refresh cached_platform (lit "4f") (cached_world (lit "t"))).1).0
      ≡ ok (unauthorized (lit "token has been revoked")))
    ⊎ ((n : ℕ) × ((memory_cache.get
            (account_token 2)
            (refresh cached_platform (lit "4f") (cached_world (lit "t"))).1).0
          ≡ err (fault n)))
refreshed_token_refused_example =
    refreshed_token_refused cached_platform memory_cache refl (lit "4f") session_token (lit "t") 2
      (lit "u") session_claims (cached_world (lit "t")) refl refl cached_refreshes refl differs
