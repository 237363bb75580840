-- ===== src/Auth/Guessing.antt =====
-- What the rate limit of the login does and does not bound.
use fuel_monitoring.Prelude.{
  ℕ, ◌+◌, ◌≤◌, ◌≡◌, refl, inl, inr, Bool, true, false, some, List, [], ◌∷◌, ◌++◌, Text, length,
  length-append, All, keep_if, arith, Bool-cases, Option-cases, leb, ltb, leb→le, ap, text_eq, ◌⊎◌,
}
use fuel_monitoring.Prelude.Dict.{lookup, insert, shrink, length-insert_known, length-shrink}
use fuel_monitoring.Redis.{Redis}
use fuel_monitoring.Auth.Tokens.{Jwt}
use fuel_monitoring.Auth.Login.{
  User, answer, LoginCall, Limiter, login, authenticate, named_users, session_for, fallback_consume,
  recent_entries, login_fallback_max_keys, login_rate_limit_attempts, login_rate_limit_window,
}

-- The fallback in its bounds: few keys, and for each at most the attempts that are allowed.
abbrev pub IsBounded : List (Text × List ℕ) → Type 0
IsBounded m =
    (length m ≤ login_fallback_max_keys)
    × All (λ (e : Text × List ℕ). length e.1 ≤ login_rate_limit_attempts) m

module _ (P : List ℕ → Type 0) where
  All-insert :
      (k : Text) (v : List ℕ) (m : List (Text × List ℕ))
      → P v
      → All (λ (e : Text × List ℕ). P e.1) m
      → All (λ (e : Text × List ℕ). P e.1) (insert k v m)
  unfolding insert
  All-insert k v [] p h = (p, tt)
  All-insert k v ((j, w) ∷ m) p h = elim (Bool-cases (text_eq j k)) [
    | inl e ↦ rw e (p, h.1)
    | inr e ↦ rw e (h.0, All-insert k v m p h.1)
  ]

  All-shrink :
      (n : ℕ) (m : List (Text × List ℕ))
      → All (λ (e : Text × List ℕ). P e.1) m
      → All (λ (e : Text × List ℕ). P e.1) (shrink n m)
  unfolding shrink
  All-shrink n [] h = tt
  All-shrink n (e ∷ m) h = elim (Bool-cases (ltb n (length (e ∷ m)))) [
    | inl t ↦ rw t (All-shrink n m h.1)
    | inr f ↦ rw f h
  ]

  All-lookup :
      (k : Text) (v : List ℕ) (m : List (Text × List ℕ))
      → lookup k m ≡ some v
      → All (λ (e : Text × List ℕ). P e.1) m
      → P v
  unfolding lookup
  All-lookup k v [] e h = absurd (cc)
  All-lookup k v ((j, w) ∷ m) e h = elim (Bool-cases (text_eq j k)) [
    | inl t ↦ let same : w ≡ v = ground arith in rw (← same) h.0
    | inr f ↦ All-lookup k v m (rw f at e) h.1
  ]

length-keep_if : (p : ℕ → Bool) (l : List ℕ) → length (keep_if p l) ≤ length l
length-keep_if p [] = omega arith
length-keep_if p (x ∷ l) = ground (arith, length-keep_if p l)

-- The entries of a key inside the window are no more than the key has; a key with none is not there.
length-recent_entries :
    (now : ℕ) (key : Text) (m : List (Text × List ℕ))
    → IsBounded m
    → (length (recent_entries now key m) ≤ login_rate_limit_attempts)
      × ((recent_entries now key m ≡ []) ⊎ ((v : List ℕ) × (lookup key m ≡ some v)))
unfolding recent_entries
length-recent_entries now key m h = elim (Option-cases (lookup key m)) [
  | inl e ↦ rw e (omega arith, inl refl)
  | inr (v, e) ↦
      let few = All-lookup (λ (l : List ℕ). length l ≤ login_rate_limit_attempts) key v m e h.1 in
      rw e (
        omega (arith, few, length-keep_if (λ (ts : ℕ). ltb now (ts + login_rate_limit_window)) v),
        inr (v, refl),
      )
]

-- The in-process fallback stays in its bounds: at most ten thousand keys, and for each no more calls
-- than are allowed in a window.
pub fallback_consume-IsBounded :
    (now : ℕ) (key : Text) (m : List (Text × List ℕ))
    → IsBounded m
    → IsBounded (fallback_consume now key m).1
unfolding fallback_consume
fallback_consume-IsBounded now key m h =
    let kept = recent_entries now key m in
    let (few, there) = length-recent_entries now key m h in
    elim (Bool-cases (leb login_rate_limit_attempts (length kept))) [
      | inl full ↦ rw full (elim there [
        | inl empty ↦ absurd (omega (arith, leb→le _ _ full, ap length empty))
        | inr (v, e) ↦ (
          omega (arith, h.0, length-insert_known key kept v m e),
          All-insert (λ (l : List ℕ). length l ≤ login_rate_limit_attempts) key kept m few h.1,
        )
      ])
      | inr free ↦
          let entries = kept ++ now ∷ [] in
          let fits : length entries ≤ login_rate_limit_attempts =
            ground (arith, length-append kept (now ∷ []), free) in
          rw free (
            length-shrink login_fallback_max_keys (insert key entries m),
            All-shrink (λ (l : List ℕ). length l ≤ login_rate_limit_attempts)
                login_fallback_max_keys (insert key entries m)
                (All-insert (λ (l : List ℕ). length l ≤ login_rate_limit_attempts) key entries m
                  fits h.1),
          )
    ]

module _ (r : Redis Text Text) (verify_password : (plain stored : Text) → Bool) (jwt : Jwt)
    (text_of_id : ℕ → Text) where
  -- A run of login requests.
  unfoldable pub run_logins : List LoginCall → List User × Limiter r → List User × Limiter r
  run_logins [] w = w
  run_logins (c ∷ cs) w = run_logins cs (login r verify_password jwt text_of_id c w).1

  -- A request for a name with a password that does not verify.
  abbrev pub IsGuess : User → LoginCall → Type 0
  IsGuess u c = (c.username ≡ u.username) × (verify_password c.password u.password_hash ≡ false)

  guess-users :
      (u : User) (c : LoginCall) (w : List User × Limiter r)
      → named_users u.username w.0 ≡ u ∷ []
      → IsGuess u c
      → (login r verify_password jwt text_of_id c w).1.0 ≡ w.0
  unfolding login authenticate
  guess-users u c w one (name, wrong) = elim (Bool-cases u.is_active) [
    | inl a ↦ rw (name, one, a, wrong) refl
    | inr a ↦ rw (name, one, a) refl
  ]

  -- However many wrong passwords were tried for an active user before, with whatever the rate limit
  -- answered, a request with the right password is answered with a session.
  pub guessing_succeeds :
      (u : User) (guesses : List LoginCall) (c : LoginCall) (w : List User × Limiter r)
      → named_users u.username w.0 ≡ u ∷ []
      → u.is_active ≡ true
      → All (IsGuess u) guesses
      → c.username ≡ u.username
      → verify_password c.password u.password_hash ≡ true
      → (login r verify_password jwt text_of_id c (run_logins guesses w)).0
        ≡ answer (session_for jwt text_of_id c.now c.access_jti c.refresh_jti u)
  unfolding run_logins
  guessing_succeeds u [] c w one active wrong name right =
      unfold login authenticate in rw (name, one, active, right) refl
  guessing_succeeds u (g ∷ gs) c w one active wrong name right =
      guessing_succeeds u gs c (login r verify_password jwt text_of_id g w).1
        (rw (guess-users u g w one wrong.0) one) active wrong.1 name right
