-- ===== src/Auth/Tests.antt =====
-- Sessions of one user, and the theorems on them at those inputs.
mod Wire
use fuel_monitoring.Prelude.{
  ap, ◌/◌, ℕ, ◌+◌, ◌-◌, ◌≤◌, ◌<◌, ◌*◌, ◌≡◌, refl, Bool, true, false, not, ◌||◌, Option, none, some,
  List, [], ◌∷◌, ◌++◌, Text, codes, text_eq, text_eq→eq, text_eq_refl, map, arith, if◌then◌else◌,
  length, ◌≢◌, All,
}
use fuel_monitoring.Prelude.Dict.{lookup, insert, shrink}
use fuel_monitoring.Redis.{Redis, RedisLaws, rate_limit}
use fuel_monitoring.Redis.Memory.{Memory, memory_redis, memory_laws}
use fuel_monitoring.Auth.Tokens.{
  Claims, create_access_token, create_refresh_token, decode_token, decode_refresh_token,
  access_claims, refresh_claims, tokens_kept_apart,
}
use fuel_monitoring.Auth.Denylist.{Denylist, revocation_key}
use fuel_monitoring.Auth.Login.{
  User, answer, refused, LoginCall, Limiter, login, authenticate, session_for, fallback_consume,
  login_rate_limited, recent_entries,
}
use fuel_monitoring.Auth.Sessions.{load_active_user, get_current_user, logout, refresh}
use fuel_monitoring.Auth.Rotation.{IsLive, logout_ends_session, refresh_twice}
use fuel_monitoring.Auth.Revocation.{differ}
use fuel_monitoring.Auth.Guessing.{
  guessing_succeeds, run_logins, fallback_consume-IsBounded, IsBounded,
}
use fuel_monitoring.Auth.Passwords.{
  Kdf, Station, accepted, unauthorized, authenticate_station, hash_device_key,
  get_station_by_serial, verify_device_key,
}
use fuel_monitoring.Auth.Passwords.Keys.{KdfLaws, authenticate_station-key}
use fuel_monitoring.Auth.Tests.Wire.{wire, wire_laws}

abbrev redis : Redis Text Text
redis = memory_redis text_eq

redis_laws : RedisLaws redis
redis_laws = memory_laws text_eq text_eq→eq text_eq_refl

abbrev empty_store : Memory Text Text
empty_store = record { members = λ k m. false; values = λ k. none; scores = λ k. [] }

-- The text of an id, for ids of one digit.
abbrev text_of_id : ℕ → Text
text_of_id n = (48 + n) ∷ []

abbrev id_of_text : Text → Option ℕ
id_of_text [] = none
id_of_text (c ∷ s) = some (c - 48)

abbrev check_password : (plain stored : Text) → Bool
check_password plain stored = text_eq plain stored

abbrev alice : User
alice = record {
  id = 1;
  username = codes "alice";
  password_hash = codes "right";
  role = codes "admin";
  company_id = none;
  is_active = true;
  deleted_at = none;
  last_login = none;
}

abbrev denylist : Denylist redis
denylist = record { store = empty_store; revoked = [] }

abbrev limiter : Limiter redis
limiter = record { store = empty_store; attempts = [] }

tokens_kept_apart_example :
    (decode_token wire 200 (create_access_token wire 100 (codes "a") (codes "1") (codes "admin"))
      ≡ some (access_claims 100 (codes "a") (codes "1") (codes "admin")))
    × (decode_refresh_token wire 200
          (create_access_token wire 100 (codes "a") (codes "1") (codes "admin"))
        ≡ none)
    × (decode_refresh_token wire 900000 (create_refresh_token wire 100 (codes "a") (codes "1"))
        ≡ some (refresh_claims 100 (codes "a") (codes "1")))
    × (decode_token wire 900000 (create_refresh_token wire 100 (codes "a") (codes "1")) ≡ none)
tokens_kept_apart_example =
    tokens_kept_apart wire wire_laws 100 200 900000 (codes "a") (codes "1") (codes "admin")
      (omega arith) (omega arith) (omega arith) (omega arith)

access-IsLive :
    IsLive redis (access_claims 100 (codes "a") (codes "1") (codes "admin")) 300 denylist
unfolding access_claims lookup
access-IsLive = record {
  jti = codes "a";
  named = refl;
  exp = 3700;
  dated = refl;
  bounded = omega arith;
  unnoted = refl;
  absent = refl;
  live = omega arith;
}

refresh-IsLive : IsLive redis (refresh_claims 100 (codes "b") (codes "1")) 300 denylist
unfolding refresh_claims lookup
refresh-IsLive = record {
  jti = codes "b";
  named = refl;
  exp = 1209700;
  dated = refl;
  bounded = omega arith;
  unnoted = refl;
  absent = refl;
  live = omega arith;
}

alice_active : load_active_user 1 (alice ∷ []) ≡ some alice
unfolding load_active_user
alice_active = refl

abbrev access_token : Text
access_token = create_access_token wire 100 (codes "a") (codes "1") (codes "admin")

abbrev refresh_token : Text
refresh_token = create_refresh_token wire 100 (codes "b") (codes "1")

access_subject : (access_claims 100 (codes "a") (codes "1") (codes "admin")).sub ≡ some (codes "1")
unfolding access_claims
access_subject = refl

refresh_subject : (refresh_claims 100 (codes "b") (codes "1")).sub ≡ some (codes "1")
unfolding refresh_claims
refresh_subject = refl

access_decodes :
    (later : ℕ)
    → 100 ≤ later
    → later < 3700
    → decode_token wire later access_token
      ≡ some (access_claims 100 (codes "a") (codes "1") (codes "admin"))
access_decodes later a b =
    (tokens_kept_apart wire wire_laws 100 later 200 (codes "a") (codes "1") (codes "admin") a b
      (omega arith) (omega arith)).0

refresh_decodes :
    (later : ℕ)
    → 100 ≤ later
    → later < 3700
    → decode_refresh_token wire later refresh_token
      ≡ some (refresh_claims 100 (codes "b") (codes "1"))
refresh_decodes later a b =
    (tokens_kept_apart wire wire_laws 100 200 later (codes "b") (codes "1") (codes "admin")
      (omega arith) (omega arith) a (omega (arith, b))).2

-- Redis answers the logout, and not the request after it.
logout_ends_session_example :
    (get_current_user redis wire id_of_text false 300 (some access_token) denylist (alice ∷ [])
      ≡ answer alice)
    × (get_current_user redis wire id_of_text false 300
          (some access_token)
          (logout redis wire id_of_text true 200 (some access_token) none denylist)
          (alice ∷ [])
        ≡ answer alice)
logout_ends_session_example =
    logout_ends_session redis redis_laws wire id_of_text text_of_id
      (access_claims 100 (codes "a") (codes "1") (codes "admin")) 200 300 1 (codes "1") access_token
      alice denylist (alice ∷ []) access-IsLive access_subject refl alice_active true false
      (access_decodes 200 (omega arith) (omega arith))
      (access_decodes 300 (omega arith) (omega arith))

-- Redis answers both calls.
refresh_twice_example :
    let (first, d') =
      refresh redis wire id_of_text text_of_id true 200
        (codes "c")
        (codes "d")
        refresh_token
        denylist
        (alice ∷ []) in
    (first ≡ answer (session_for wire text_of_id 200 (codes "c") (codes "d") alice))
    × ((refresh redis wire id_of_text text_of_id true 300
          (codes "e")
          (codes "f")
          refresh_token
          d'
          (alice ∷ [])).0
        ≡ refused 401)
refresh_twice_example =
    refresh_twice redis redis_laws wire id_of_text text_of_id
      (refresh_claims 100 (codes "b") (codes "1")) 200 300 1 (codes "1") refresh_token alice
      denylist (alice ∷ []) refresh-IsLive refresh_subject refl alice_active true true (codes "c")
      (codes "d") (codes "e") (codes "f") (refresh_decodes 200 (omega arith) (omega arith))
      (refresh_decodes 300 (omega arith) (omega arith))

abbrev attempt : Text → LoginCall
attempt password = record {
  username = codes "alice";
  password = password;
  client_ip = codes "10.0.0.1";
  enabled = true;
  up = false;
  now = 500;
  access_jti = codes "a";
  refresh_jti = codes "b";
}

-- Six wrong guesses, of which the last is answered with a 429.
abbrev guesses : List LoginCall
guesses =
    attempt (codes "1")
    ∷ attempt (codes "2")
    ∷ attempt (codes "3")
    ∷ attempt (codes "4")
    ∷ attempt (codes "5")
    ∷ attempt (codes "6")
    ∷ []

sixth_guess_blocked :
    (login redis check_password wire text_of_id
      (attempt (codes "7"))
      (run_logins redis check_password wire text_of_id guesses (alice ∷ [], limiter))).0
    ≡ refused 429
unfolding run_logins login authenticate fallback_consume text_eq login_rate_limited recent_entries
    lookup shrink insert
sixth_guess_blocked = refl

guessing_succeeds_example :
    (login redis check_password wire text_of_id
      (attempt (codes "right"))
      (run_logins redis check_password wire text_of_id guesses (alice ∷ [], limiter))).0
    ≡ answer (session_for wire text_of_id 500 (codes "a") (codes "b") alice)
unfolding text_eq
guessing_succeeds_example =
    guessing_succeeds redis check_password wire text_of_id alice guesses (attempt (codes "right"))
      (alice ∷ [], limiter) refl refl
      (
        (refl, refl),
        ((refl, refl), ((refl, refl), ((refl, refl), ((refl, refl), ((refl, refl), tt))))),
      )
      refl refl

fallback_consume-IsBounded_example :
    IsBounded (fallback_consume 1000 (codes "k") ((codes "k", 10 ∷ 500 ∷ []) ∷ [])).1
fallback_consume-IsBounded_example =
    fallback_consume-IsBounded 1000 (codes "k") ((codes "k", 10 ∷ 500 ∷ []) ∷ []) (omega arith)

-- Derived bytes and base64 that keep their input readable.
abbrev pad : ℕ → List ℕ → List ℕ
pad ℕ.zero l = []
pad (ℕ.suc n) [] = 0 ∷ pad n []
pad (ℕ.suc n) (x ∷ l) = x ∷ pad n l

length-pad : (n : ℕ) (l : List ℕ) → length (pad n l) ≡ n
length-pad ℕ.zero l = refl
length-pad (ℕ.suc n) [] = omega (arith, length-pad n [])
length-pad (ℕ.suc n) (x ∷ l) = omega (arith, length-pad n l)

abbrev undo : List ℕ → List ℕ
undo [] = []
undo (x ∷ l) = (x / 2) ∷ undo l

undo-map : (l : List ℕ) → undo (map (λ x. x * 2 + 1) l) ≡ l
undo-map [] = refl
undo-map (x ∷ l) = ground (arith, undo-map l)

odd_no_dollar : (s : Text) → All (λ x. x ≢ b'$') (map (λ x. x * 2 + 1) s)
odd_no_dollar [] = tt
odd_no_dollar (x ∷ s) = (omega arith, odd_no_dollar s)

abbrev int_of : Text → Option ℕ
int_of t =
    if text_eq t (codes "210000")
    then some 210000
    else if text_eq t (codes "120000")
    then some 120000
    else none

abbrev kdf : Kdf
kdf = record {
  pbkdf2 = λ plain salt n dklen. some (pad dklen (plain ++ salt));
  b64encode = map (λ x. x * 2 + 1);
  b64decode = λ t. some (undo t);
  int_of = int_of;
}

kdf_laws : KdfLaws kdf
unfolding text_eq
kdf_laws = record {
  length-pbkdf2 = λ plain salt n dklen dk h. ground (arith, length-pad dklen (plain ++ salt));
  b64decode-b64encode = λ bytes. ap some (undo-map bytes);
  b64encode_no_dollar = odd_no_dollar;
  int_of_password_cost = refl;
  int_of_key_cost = refl;
}

abbrev pump : Station
pump = record {
  id = 4;
  serial_number = codes "ST-4";
  raspberry_pi_id = none;
  api_key_hash = hash_device_key kdf (1 ∷ 2 ∷ []) (codes "fmk_x");
  site_id = 1;
}

-- Another key is refused.
authenticate_station-key_example :
    authenticate_station kdf (λ t. none) (some (codes "ST-4")) (some (codes "fmk_y")) (pump ∷ [])
    ≡ unauthorized
unfolding get_station_by_serial text_eq
authenticate_station-key_example =
    authenticate_station-key kdf kdf_laws (1 ∷ 2 ∷ []) (codes "fmk_x") (λ t. none) b'S' b'f'
      (codes "T-4") (codes "mk_y") (pad 32 (codes "fmk_x" ++ 1 ∷ 2 ∷ []))
      (pad 32 (codes "fmk_y" ++ 1 ∷ 2 ∷ [])) pump (pump ∷ []) refl refl refl refl
