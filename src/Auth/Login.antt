-- ===== src/Auth/Login.antt =====
-- Login and its rate limit: platform/fmp/services/auth.py and platform/fmp/api/v1/auth.py.
-- Times are in seconds; an id is a number.
use fuel_monitoring.Prelude.{
  ℕ, ◌+◌, ◌-◌, ◌*◌, Bool, true, false, not, ◌&&◌, Option, none, some, List, [], ◌∷◌, ◌++◌, Text,
  codes, text_eq, length, keep_if, ltb, leb, ◌==◌, if◌then◌else◌,
}
use fuel_monitoring.Prelude.Dict.{lookup, insert, shrink}
use fuel_monitoring.Redis.{Redis, rate_limit}
use fuel_monitoring.Auth.Tokens.{Jwt, create_access_token, create_refresh_token}

pub record User : Type 0 where
  pub id : ℕ
  pub username : Text
  pub password_hash : Text
  pub role : Text
  pub company_id : Option ℕ
  pub is_active : Bool
  pub deleted_at : Option ℕ
  pub last_login : Option ℕ

-- An answer, an `HTTPException` by its status, or the error of a query with too many rows.
pub data Response {ℓ} (A : Type ℓ) : Type ℓ where
  answer : A → Response A
  refused : ℕ → Response A
  multiple_results : Response A

pub record LoginResponse : Type 0 where
  pub access_token : Text
  pub refresh_token : Text
  pub user_id : ℕ

abbrev pub is_none : Option ℕ → Bool
is_none none = true
is_none (some t) = false

-- The rows of `username == username, deleted_at IS NULL`.
abbrev pub named_users : Text → List User → List User
named_users name users = keep_if (λ u. text_eq u.username name && is_none u.deleted_at) users

-- The commit of `last_login`.
unfoldable pub set_last_login : ℕ → ℕ → List User → List User
set_last_login now id [] = []
set_last_login now id (u ∷ us) =
    (if u.id == id then record u { last_login = some now } else u) ∷ set_last_login now id us

-- The defaults of platform/fmp/core/config.py.
abbrev pub login_rate_limit_attempts : ℕ
login_rate_limit_attempts = 5

abbrev pub login_rate_limit_window : ℕ
login_rate_limit_window = 900

abbrev pub login_fallback_max_keys : ℕ
login_fallback_max_keys = 10000

abbrev pub login_rate_key : (username client_ip : Text) → Text
login_rate_key username ip = codes "ratelimit:login:" ++ (username ++ (codes ":" ++ ip))

-- The server, and `_fallback_attempts` of the process.
pub record Limiter (r : Redis Text Text) : Type 0 where
  pub store : r.Store
  pub attempts : List (Text × List ℕ)

abbrev entries_of : Option (List ℕ) → List ℕ
entries_of none = []
entries_of (some l) = l

-- The entries of a key inside the window: `ts > now - window`.
unfoldable pub recent_entries : ℕ → Text → List (Text × List ℕ) → List ℕ
recent_entries now key m =
    keep_if (λ ts. ltb now (ts + login_rate_limit_window)) (entries_of (lookup key m))

-- `_fallback_consume`
unfoldable pub fallback_consume :
    ℕ → Text → List (Text × List ℕ) → (Bool × ℕ) × List (Text × List ℕ)
fallback_consume now key m =
    let kept = recent_entries now key m in
    let entries = kept ++ now ∷ [] in
    if leb login_rate_limit_attempts (length kept) then ((false, 0), insert key kept m) else (
      (true, login_rate_limit_attempts - length entries),
      shrink login_fallback_max_keys (insert key entries m),
    )

module _ (jwt : Jwt) (text_of_id : ℕ → Text) where
  abbrev pub session_for : ℕ → (access_jti refresh_jti : Text) → User → LoginResponse
  session_for now access_jti refresh_jti u = record {
    access_token = create_access_token jwt now access_jti (text_of_id u.id) u.role;
    refresh_token = create_refresh_token jwt now refresh_jti (text_of_id u.id);
    user_id = u.id;
  }

-- A request to the login route, and what serves it: the setting, whether Redis answers, the time,
-- the ids of the two tokens.
pub record LoginCall : Type 0 where
  pub username : Text
  pub password : Text
  pub client_ip : Text
  pub enabled : Bool
  pub up : Bool
  pub now : ℕ
  pub access_jti : Text
  pub refresh_jti : Text

module _ (r : Redis Text Text) where
  -- `login_rate_limited`; `enabled` is the setting, `up` whether Redis answers.
  unfoldable pub login_rate_limited :
      (enabled up : Bool) → ℕ → (username client_ip : Text) → Limiter r → (Bool × ℕ) × Limiter r
  login_rate_limited enabled up now username ip l =
      let key = login_rate_key username ip in
      let redis =
        rate_limit r (now * 1000) key login_rate_limit_attempts login_rate_limit_window l.store in
      let local = fallback_consume now key l.attempts in
      if not enabled
      then ((true, login_rate_limit_attempts), l)
      else if up
      then (redis.0, record l { store = redis.1 })
      else (local.0, record l { attempts = local.1 })

  module _ (verify_password : (plain stored : Text) → Bool) where
    abbrev checked_user : ℕ → Text → User → List User → Option User × List User
    checked_user now password u users =
        if u.is_active && verify_password password u.password_hash
        then (some (record u { last_login = some now }), set_last_login now u.id users)
        else (none, users)

    abbrev authenticated : ℕ → Text → List User → List User → Response (Option User × List User)
    authenticated now password users [] = answer (none, users)
    authenticated now password users (u ∷ []) = answer (checked_user now password u users)
    authenticated now password users (u ∷ v ∷ rest) = multiple_results

    -- `authenticate`, with the table that it leaves
    unfoldable pub authenticate :
        ℕ → (username password : Text) → List User → Response (Option User × List User)
    authenticate now username password users =
        authenticated now password users (named_users username users)

    module _ (jwt : Jwt) (text_of_id : ℕ → Text) where
      abbrev login_result :
          LoginCall
          → Limiter r
          → Response (Option User × List User)
          → List User
          → Response LoginResponse × (List User × Limiter r)
      login_result c l multiple_results users = (multiple_results, (users, l))
      login_result c l (refused n) users = (refused n, (users, l))
      login_result c l (answer (some u, users')) users =
          (answer (session_for jwt text_of_id c.now c.access_jti c.refresh_jti u), (users', l))
      login_result c l (answer (none, users')) users =
          let limited = login_rate_limited c.enabled c.up c.now c.username c.client_ip l in
          (refused (if limited.0.0 then 401 else 429), (users', limited.1))

      -- `login`
      unfoldable pub login :
          LoginCall → List User × Limiter r → Response LoginResponse × (List User × Limiter r)
      login c (users, l) = login_result c l (authenticate c.now c.username c.password users) users
