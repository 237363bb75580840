-- ===== src/Auth/Tests/Wire.antt =====
-- A token format that satisfies the laws of `Jwt`: the claims one after the other, with no signature.
use fuel_monitoring.Prelude.{
  ap, ◌∙◌, ℕ, zero, suc, ◌≡◌, refl, Bool, true, false, not, ◌&&◌, ◌||◌, Option, none, some, [], ◌∷◌,
  ◌++◌, Text, text_eq, text_eq_refl, length, arith, ltb, leb, lt→ltb, if◌then◌else◌,
}
use fuel_monitoring.Auth.Tokens.{Claims, Jwt, JwtLaws, IsCurrent, token_issuer, token_audience}

take : ℕ → Text → Text
take zero s = []
take (suc n) [] = []
take (suc n) (c ∷ s) = c ∷ take n s

drop : ℕ → Text → Text
drop zero s = s
drop (suc n) [] = []
drop (suc n) (c ∷ s) = drop n s

put_text : Option Text → Text → Text
put_text none rest = 0 ∷ rest
put_text (some t) rest = 1 ∷ length t ∷ (t ++ rest)

get_text : Text → Option Text × Text
get_text [] = (none, [])
get_text (zero ∷ rest) = (none, rest)
get_text (suc n ∷ []) = (none, [])
get_text (suc n ∷ l ∷ rest) = (some (take l rest), drop l rest)

put_number : Option ℕ → Text → Text
put_number none rest = 0 ∷ rest
put_number (some n) rest = 1 ∷ n ∷ rest

get_number : Text → Option ℕ × Text
get_number [] = (none, [])
get_number (zero ∷ rest) = (none, rest)
get_number (suc n ∷ []) = (none, [])
get_number (suc n ∷ l ∷ rest) = (some l, rest)

take-append : (s rest : Text) → take (length s) (s ++ rest) ≡ s
unfolding take
take-append [] rest = refl
take-append (c ∷ s) rest = ap (λ (t : Text). c ∷ t) (take-append s rest)

drop-append : (s rest : Text) → drop (length s) (s ++ rest) ≡ rest
unfolding drop
drop-append [] rest = refl
drop-append (c ∷ s) rest = drop-append s rest

get_text-put_text : (o : Option Text) (rest : Text) → get_text (put_text o rest) ≡ (o, rest)
unfolding get_text put_text
get_text-put_text none rest = refl
get_text-put_text (some t) rest = rw (take-append t rest, drop-append t rest) refl

get_number-put_number : (o : Option ℕ) (rest : Text) → get_number (put_number o rest) ≡ (o, rest)
unfolding get_number put_number
get_number-put_number none rest = refl
get_number-put_number (some n) rest = refl

encode : Claims → Text
encode c = put_text c.sub (
    put_number c.iat (
      put_number c.exp
        (put_text c.jti (put_text c.iss (put_text c.aud (put_text c.typ (put_text c.role [])))))))

claims_of : Text → Claims
claims_of t =
    let (sub, t1) = get_text t in
    let (iat, t2) = get_number t1 in
    let (exp, t3) = get_number t2 in
    let (jti, t4) = get_text t3 in
    let (iss, t5) = get_text t4 in
    let (aud, t6) = get_text t5 in
    let (typ, t7) = get_text t6 in
    record {
      sub = sub;
      iat = iat;
      exp = exp;
      jti = jti;
      iss = iss;
      aud = aud;
      typ = typ;
      role = (get_text t7).0;
    }

claims_of-encode : (c : Claims) → claims_of (encode c) ≡ c
unfolding claims_of encode
claims_of-encode c = simp (get_text-put_text, get_number-put_number)

is_text : Option Text → Text → Bool
is_text none t = false
is_text (some s) t = text_eq s t

is_past : Option ℕ → ℕ → Bool
is_past none now = false
is_past (some t) now = leb t now

is_ahead : Option ℕ → ℕ → Bool
is_ahead none now = false
is_ahead (some t) now = ltb now t

is_given : Option Text → Bool
is_given none = false
is_given (some s) = true

is_current : ℕ → Claims → Bool
unfolding is_text is_past is_ahead is_given
is_current now c =
    is_given c.sub
    && is_past c.iat now
    && (is_ahead c.exp now && is_text c.iss token_issuer && is_text c.aud token_audience)

accept : ℕ → Bool → Claims → Option Claims
accept now require_typ c =
    if is_current now c && (not require_typ || is_given c.typ) then some c else none

unfoldable pub wire : Jwt
unfolding encode claims_of accept take drop put_text get_text put_number get_number is_current
    is_given
wire = record {
  encode = encode;
  decode = λ now require_typ t. accept now require_typ (claims_of t);
}

is_current-true : (now : ℕ) (c : Claims) → IsCurrent now c → is_current now c ≡ true
unfolding is_current
is_current-true now c h =
    rw
      (
        h.has_subject,
        h.has_issued,
        h.has_expiry,
        h.issuer,
        h.audience,
        text_eq_refl token_issuer,
        text_eq_refl token_audience,
        lt→ltb now h.expiry h.unexpired,
      )
      (ground (arith, h.begun))

accept_current : (now : ℕ) (c : Claims) → is_current now c ≡ true → accept now false c ≡ some c
unfolding accept
accept_current now c h = ground arith

accept_required :
    (now : ℕ) (d c : Claims) → accept now true d ≡ some c → accept now false d ≡ some c
unfolding accept
accept_required now d c h = ground arith

accept_typed :
    (now : ℕ) (typ : Text) (d c : Claims)
    → accept now false d ≡ some c
    → c.typ ≡ some typ
    → accept now true d ≡ some c
unfolding accept is_given
accept_typed now typ d c h t = let same : d ≡ c = ground arith in rw (same, t) (ground arith)

pub wire_laws : JwtLaws wire
unfolding wire
wire_laws = record {
  decode-encode = λ now c h.
      ap (accept now false) (claims_of-encode c) ∙ accept_current now c (is_current-true now c h);
  decode_required = λ now t c h. accept_required now (claims_of t) c h;
  decode_has_typ = λ now t typ c h e. accept_typed now typ (claims_of t) c h e;
}
