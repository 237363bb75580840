-- ===== src/Auth/Rotation.antt =====
-- A refresh token is good for one rotation, and a logout ends a session, as long as the same store
-- answers.
use fuel_monitoring.Prelude.{
  ℕ, ◌≤◌, ◌<◌, ◌≡◌, refl, Bool, false, not, ◌||◌, Option, none, some, List, Text, length,
  if◌then◌else◌,
}
use fuel_monitoring.Prelude.Dict.{lookup}
use fuel_monitoring.Redis.{Redis, RedisLaws}
use fuel_monitoring.Auth.Tokens.{Claims, Jwt, decode_token, decode_refresh_token}
use fuel_monitoring.Auth.Denylist.{Denylist, revoked_max_keys, revocation_key}
use fuel_monitoring.Auth.Login.{User, answer, refused, session_for}
use fuel_monitoring.Auth.Sessions.{load_active_user, get_current_user, logout, refresh}
use fuel_monitoring.Auth.Revocation.{
  token_revoked-absent, token_revoked-revoke, claim_token_twice, differ,
}

-- What the theorems assume of a token: its claims, an id that nothing holds yet, and an expiry.
pub record IsLive (r : Redis Text Text) (c : Claims) (later : ℕ) (d : Denylist r) : Type 0 where
  pub jti : Text
  pub named : c.jti ≡ some jti
  pub exp : ℕ
  pub dated : c.exp ≡ some exp
  pub bounded : length d.revoked ≤ revoked_max_keys
  pub unnoted : lookup jti d.revoked ≡ none
  pub absent : r.exists (revocation_key jti) d.store ≡ false
  pub live : later < exp

module _ (r : Redis Text Text) (laws : RedisLaws r) (jwt : Jwt) (id_of_text : Text → Option ℕ)
    (text_of_id : ℕ → Text) (c : Claims) (now later id : ℕ) (sub token : Text) (u : User)
    (d : Denylist r) (users : List User) (live : IsLive r c later d) (subject : c.sub ≡ some sub)
    (known : id_of_text sub ≡ some id) (active : load_active_user id users ≡ some u) where
  -- A live access token of an active user is accepted. After its logout it is refused, but when Redis
  -- answered the logout and does not answer the request, it is accepted again.
  pub logout_ends_session :
      (up up' : Bool)
      → decode_token jwt now token ≡ some c
      → decode_token jwt later token ≡ some c
      → (get_current_user r jwt id_of_text up' later (some token) d users ≡ answer u)
        × (get_current_user r jwt id_of_text up' later
              (some token)
              (logout r jwt id_of_text up now (some token) none d)
              users
            ≡ (if not up || up' then refused 401 else answer u))
  unfolding get_current_user logout
  logout_ends_session up up' first second =
      let gone =
        token_revoked-revoke r laws c live.jti live.exp now later d live.named live.dated
          live.bounded live.unnoted live.live up up' in
      let fresh =
        token_revoked-absent r laws c live.jti live.exp now later d live.named live.dated
          live.bounded live.unnoted live.live up' live.absent in
      (
        rw (second, fresh, subject, known, active) refl,
        rw (first, second, gone, subject, known, active) refl,
      )

  -- The refresh token of an active user that is presented twice is rotated the first time. The second
  -- time it is refused when the same side, Redis or the process, answers both claims, and rotated again
  -- when one claim went to each.
  pub refresh_twice :
      (up up' : Bool) (a b a' b' : Text)
      → decode_refresh_token jwt now token ≡ some c
      → decode_refresh_token jwt later token ≡ some c
      → let (first, d') = refresh r jwt id_of_text text_of_id up now a b token d users in
        (first ≡ answer (session_for jwt text_of_id now a b u))
        × ((refresh r jwt id_of_text text_of_id up' later a' b' token d' users).0 ≡ (
            if differ up up'
            then answer (session_for jwt text_of_id later a' b' u)
            else refused 401))
  unfolding refresh
  refresh_twice up up' a b a' b' first second =
      let (won, again) =
        claim_token_twice r laws c live.jti live.exp now later d live.named live.dated live.bounded
          live.unnoted live.live up up' live.absent in
      (
        rw (first, won, subject, known, active) refl,
        rw (first, second, again, subject, known, active) refl,
      )
