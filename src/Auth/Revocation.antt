-- ===== src/Auth/Revocation.antt =====
-- What a revocation and a claim promise, while Redis answers and while it does not.
use fuel_monitoring.Prelude.{
  ℕ, ◌≤◌, ◌<◌, ◌≡◌, refl, Bool, true, false, not, ◌||◌, none, some, List, Text, codes, length,
  lt→ltb, if◌then◌else◌,
}
use fuel_monitoring.Prelude.Dict.{lookup, lookup-shrink-insert}
use fuel_monitoring.Redis.{Redis, RedisLaws}
use fuel_monitoring.Auth.Tokens.{Claims}
use fuel_monitoring.Auth.Denylist.{
  Denylist, revoked_max_keys, note_revoked, revocation_key, lifetime, revoke_token, token_revoked,
  claim_token,
}

-- An id that the process notes is found, while the dictionary was in its bound.
lookup-note_revoked :
    (jti : Text) (exp : ℕ) (m : List (Text × ℕ))
    → length m ≤ revoked_max_keys
    → lookup jti (note_revoked jti exp m) ≡ some exp
unfolding note_revoked
lookup-note_revoked jti exp m h = lookup-shrink-insert 99999 jti exp m h

or_true : (b : Bool) → (b || true) ≡ true
or_true true = refl
or_true false = refl

-- Whether the two calls were answered by different sides.
abbrev pub differ : Bool → Bool → Bool
differ a b = if a then not b else b

module _ (r : Redis Text Text) (laws : RedisLaws r) (c : Claims) (jti : Text) (exp now later : ℕ)
    (d : Denylist r) (named : c.jti ≡ some jti) (dated : c.exp ≡ some exp)
    (bounded : length d.revoked ≤ revoked_max_keys) (unnoted : lookup jti d.revoked ≡ none)
    (live : later < exp) where
  -- How a revocation shows, by who answered it and who is asked.
  pub token_revoked-revoke :
      (up up' : Bool) → token_revoked r up' later c (revoke_token r up now c d) ≡ (not up || up')
  unfolding token_revoked revoke_token
  token_revoked-revoke true true = rw (named, dated, laws.exists-set_ex) refl
  token_revoked-revoke true false = rw (named, dated, unnoted) refl
  token_revoked-revoke false true =
      rw (named, dated, lookup-note_revoked jti exp d.revoked bounded, lt→ltb later exp live)
        (or_true (r.exists (revocation_key jti) d.store))
  token_revoked-revoke false false =
      rw (named, dated, lookup-note_revoked jti exp d.revoked bounded, lt→ltb later exp live) refl

  -- A token that neither side holds is not revoked.
  pub token_revoked-absent :
      (up : Bool)
      → r.exists (revocation_key jti) d.store ≡ false
      → token_revoked r up later c d ≡ false
  unfolding token_revoked
  token_revoked-absent true absent = rw (named, dated, absent, unnoted) refl
  token_revoked-absent false absent = rw (named, dated, unnoted) refl

  -- Two claims of a token that neither side holds.
  pub claim_token_twice :
      (up up' : Bool)
      → r.exists (revocation_key jti) d.store ≡ false
      → let (won, d') = claim_token r up now c d in
        (won ≡ true) × ((claim_token r up' later c d').0 ≡ differ up up')
  unfolding claim_token
  claim_token_twice true true absent =
      let key = revocation_key jti in
      let one = codes "1" in
      rw (named, dated)
        (
          laws.set_nx-absent key one (lifetime exp now) d.store absent,
          laws.set_nx-exists key one (lifetime exp later)
              (r.set_nx_ex key one (lifetime exp now) d.store).1
              (laws.exists-set_nx key one (lifetime exp now) d.store),
        )
  claim_token_twice true false absent =
      rw (named, dated)
        (
          laws.set_nx-absent (revocation_key jti) (codes "1") (lifetime exp now) d.store absent,
          rw unnoted refl,
        )
  claim_token_twice false true absent =
      rw (named, dated, unnoted)
        (
          refl,
          laws.set_nx-absent (revocation_key jti) (codes "1") (lifetime exp later) d.store absent,
        )
  claim_token_twice false false absent =
      rw (named, dated, unnoted)
        (refl, rw (lookup-note_revoked jti exp d.revoked bounded, lt→ltb later exp live) refl)
