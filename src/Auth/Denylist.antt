-- ===== src/Auth/Denylist.antt =====
-- The revocation of tokens: `RedisClient` of platform/fmp/core/redis.py and `revoke_token`,
-- `token_revoked`, `claim_token` of platform/fmp/core/security.py with their in-process fallback.
use fuel_monitoring.Prelude.{
  ℕ, ◌-◌, Bool, true, false, ◌&&◌, ◌||◌, Option, none, some, List, Text, codes, ◌++◌, ltb, max,
  if◌then◌else◌,
}
use fuel_monitoring.Prelude.Dict.{lookup, insert, shrink}
use fuel_monitoring.Redis.{Redis}
use fuel_monitoring.Auth.Tokens.{Claims}

abbrev pub revocation_key : Text → Text
revocation_key jti = codes "revoked:jwt:" ++ jti

abbrev pub revoked_max_keys : ℕ
revoked_max_keys = 100000

-- The server, and `_revoked_jtis` of the process.
pub record Denylist (r : Redis Text Text) : Type 0 where
  pub store : r.Store
  pub revoked : List (Text × ℕ)

-- `_revoked_jtis[jti] = exp`, and the loop that keeps the dictionary in its bound
unfoldable pub note_revoked : Text → ℕ → List (Text × ℕ) → List (Text × ℕ)
note_revoked jti exp m = shrink revoked_max_keys (insert jti exp m)

-- `_revoked_jtis.get(jti, -1) > now`
abbrev pub is_later : Option ℕ → ℕ → Bool
is_later none now = false
is_later (some exp) now = ltb now exp

-- `max(1, exp - now)`
abbrev pub lifetime : (exp now : ℕ) → ℕ
lifetime exp now = max 1 (exp - now)

-- `up` says whether Redis answers the call or raises.
module _ (r : Redis Text Text) (up : Bool) (now : ℕ) where
  abbrev revoke_entries : Option Text → Option ℕ → Denylist r → Denylist r
  revoke_entries (some jti) (some exp) d =
      if up
      then record d { store = r.set_ex (revocation_key jti) (codes "1") (lifetime exp now) d.store }
      else record d { revoked = note_revoked jti exp d.revoked }
  revoke_entries _ _ d = d

  unfoldable pub revoke_token : Claims → Denylist r → Denylist r
  revoke_token c d = revoke_entries c.jti c.exp d

  abbrev known_revoked : Text → Option ℕ → Denylist r → Bool
  known_revoked jti none d = false
  known_revoked jti (some exp) d = is_later (lookup jti d.revoked) now

  abbrev revoked_entry : Option Text → Option ℕ → Denylist r → Bool
  revoked_entry none exp d = false
  revoked_entry (some jti) exp d =
      (up && r.exists (revocation_key jti) d.store) || known_revoked jti exp d

  unfoldable pub token_revoked : Claims → Denylist r → Bool
  token_revoked c d = revoked_entry c.jti c.exp d

  abbrev claim_in_redis : Text → ℕ → Denylist r → Bool × Denylist r
  claim_in_redis jti exp d =
      let set = r.set_nx_ex (revocation_key jti) (codes "1") (lifetime exp now) d.store in
      (set.0, record d { store = set.1 })

  abbrev claim_in_process : Text → ℕ → Denylist r → Bool × Denylist r
  claim_in_process jti exp d =
      if is_later (lookup jti d.revoked) now
      then (false, d)
      else (true, record d { revoked = note_revoked jti exp d.revoked })

  abbrev claim_entries : Option Text → Option ℕ → Denylist r → Bool × Denylist r
  claim_entries (some jti) (some exp) d =
      if up then claim_in_redis jti exp d else claim_in_process jti exp d
  claim_entries _ _ d = (false, d)

  unfoldable pub claim_token : Claims → Denylist r → Bool × Denylist r
  claim_token c d = claim_entries c.jti c.exp d
