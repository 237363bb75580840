-- ===== src/Auth/Sessions.antt =====
-- The routes of a session and the guards of a request: `refresh`, `logout` (platform/fmp/api/v1/auth.py),
-- `get_current_user`, `require_roles` (platform/fmp/api/deps.py), `load_active_user`, and the tenant
-- scope of platform/fmp/core/tenancy.py.
use fuel_monitoring.Prelude.{
  ℕ, Bool, true, false, not, ◌&&◌, ◌||◌, Option, none, some, List, [], ◌∷◌, Text, codes, text_eq,
  any, keep_if, ◌==◌, if◌then◌else◌,
}
use fuel_monitoring.Redis.{Redis}
use fuel_monitoring.Auth.Tokens.{Claims, Jwt, decode_token, decode_refresh_token}
use fuel_monitoring.Auth.Denylist.{Denylist, revoke_token, token_revoked, claim_token}
use fuel_monitoring.Auth.Login.{
  User, Response, answer, refused, LoginResponse, is_none, session_for,
}

-- `load_active_user`; an id is a primary key.
abbrev active_only : List User → Option User
active_only [] = none
active_only (u ∷ us) = if not u.is_active || not (is_none u.deleted_at) then none else some u

unfoldable pub load_active_user : ℕ → List User → Option User
load_active_user id users = active_only (keep_if (λ u. u.id == id) users)

-- `TenantScope`, `tenant_scope`
pub record TenantScope : Type 0 where
  pub company_id : Option ℕ
  pub role : Text

abbrev pub tenant_scope : User → TenantScope
tenant_scope u = record { company_id = u.company_id; role = u.role }

unfoldable pub is_platform : TenantScope → Bool
is_platform s = text_eq s.role (codes "admin") && is_none s.company_id

-- SQL's `column == value`: no row is equal to NULL, and `== None` selects the NULL ones.
abbrev pub same_company : Option ℕ → Option ℕ → Bool
same_company none none = true
same_company (some a) (some b) = a == b
same_company _ _ = false

module _ {A : Type 0} (column : A → Option ℕ) where
  -- `scope_company_query`
  unfoldable pub scope_company_query : TenantScope → List A → List A
  scope_company_query s rows =
      if is_platform s then rows else keep_if (λ x. same_company (column x) s.company_id) rows

  -- `scope_or_platform_query`
  unfoldable pub scope_or_platform_query : TenantScope → List A → List A
  scope_or_platform_query s rows =
      if is_platform s
      then rows
      else keep_if (λ x. same_company (column x) s.company_id || is_none (column x)) rows

-- `require_company`: the statuses are 400 for a platform admin and 403 for a user with no company.
unfoldable pub require_company : User → Response ℕ
require_company u = elim u.company_id [
  | none ↦ if text_eq u.role (codes "admin") then refused 400 else refused 403
  | some c ↦ answer c
]

-- The guard that `require_roles` makes.
unfoldable pub require_roles : List Text → User → Response User
require_roles roles u = if any (text_eq u.role) roles then answer u else refused 403

module _ (r : Redis Text Text) (jwt : Jwt) (id_of_text : Text → Option ℕ) where
  abbrev subject_id : Option Text → Option ℕ
  subject_id none = none
  subject_id (some t) = id_of_text t

  abbrev user_or_401 : Option User → Response User
  user_or_401 none = refused 401
  user_or_401 (some u) = answer u

  abbrev user_of_id : Option ℕ → List User → Response User
  user_of_id none users = refused 401
  user_of_id (some id) users = user_or_401 (load_active_user id users)

  abbrev current_user : Option Claims → Bool → ℕ → Denylist r → List User → Response User
  current_user none up now d users = refused 401
  current_user (some c) up now d users =
      if token_revoked r up now c d then refused 401 else user_of_id (subject_id c.sub) users

  -- `get_current_user`; no credentials are a missing header.
  abbrev bearer_user : Option Text → Bool → ℕ → Denylist r → List User → Response User
  bearer_user none up now d users = refused 401
  bearer_user (some token) up now d users = current_user (decode_token jwt now token) up now d users

  unfoldable pub get_current_user :
      (up : Bool) → ℕ → Option Text → Denylist r → List User → Response User
  get_current_user up now credentials d users = bearer_user credentials up now d users

  -- `logout`: a token that does not decode is passed over.
  abbrev revoke_decoded : Bool → ℕ → Option Claims → Denylist r → Denylist r
  revoke_decoded up now none d = d
  revoke_decoded up now (some c) d = revoke_token r up now c d

  abbrev revoke_access : Bool → ℕ → Option Text → Denylist r → Denylist r
  revoke_access up now none d = d
  revoke_access up now (some token) d = revoke_decoded up now (decode_token jwt now token) d

  abbrev revoke_refresh : Bool → ℕ → Option Text → Denylist r → Denylist r
  revoke_refresh up now none d = d
  revoke_refresh up now (some []) d = d
  revoke_refresh up now (some (x ∷ token)) d =
      revoke_decoded up now (decode_refresh_token jwt now (x ∷ token)) d

  unfoldable pub logout :
      (up : Bool) → ℕ → (credentials refresh_token : Option Text) → Denylist r → Denylist r
  logout up now credentials refresh_token d =
      revoke_refresh up now refresh_token (revoke_access up now credentials d)

  module _ (text_of_id : ℕ → Text) where
    abbrev pub rotated :
        ℕ → (access_jti refresh_jti : Text) → Response User → Response LoginResponse
    rotated now a b (answer u) = answer (session_for jwt text_of_id now a b u)
    rotated now a b (refused n) = refused n
    rotated now a b Response.multiple_results = Response.multiple_results

    abbrev refresh_claimed :
        Bool
        → ℕ
        → (access_jti refresh_jti : Text) → Option Claims
        → Denylist r
        → List User
        → Response LoginResponse × Denylist r
    refresh_claimed up now a b none d users = (refused 401, d)
    refresh_claimed up now a b (some c) d users =
        let claim = claim_token r up now c d in
        (
          if claim.0 then rotated now a b (user_of_id (subject_id c.sub) users) else refused 401,
          claim.1,
        )

    -- `refresh`: the ids of the new tokens are arguments.
    unfoldable pub refresh :
        (up : Bool)
        → ℕ
        → (access_jti refresh_jti token : Text) → Denylist r
        → List User
        → Response LoginResponse × Denylist r
    refresh up now a b token d users =
        refresh_claimed up now a b (decode_refresh_token jwt now token) d users
