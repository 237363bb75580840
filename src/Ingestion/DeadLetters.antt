-- ===== src/Ingestion/DeadLetters.antt =====
-- The ring of rejected frames in platform/fmp/ingestion/main.py.
use fuel_monitoring.Prelude.{
  ap, ◌∙◌, sym, ℕ, zero, suc, ◌+◌, ◌-◌, ◌≤◌, ◌≡◌, refl, List, [], ◌∷◌, ◌++◌, Text, length,
  length-append, arith,
}
use mathlib.Core.List.{append_assoc, append-nil}

-- Why a frame was rejected.
pub data Reason : Type 0 where
  missing_or_bad_status : Reason
  not_a_uuid : Text → Reason

pub record DeadLetter : Type 0 where
  pub at : ℕ
  pub gateway_mac : Text
  pub reason : Reason

abbrev pub dead_letter_max : ℕ
dead_letter_max = 500

unfoldable pub drop {ℓ} : {A : Type ℓ} → ℕ → List A → List A
drop zero l = l
drop (suc n) [] = []
drop (suc n) (x ∷ l) = drop n l

-- `del l[:-n]`: what is left is the last n.
unfoldable pub keep_last {ℓ} : {A : Type ℓ} → ℕ → List A → List A
keep_last n l = drop (length l - n) l

-- `_dead_letter`, on the ring
unfoldable pub dead_letter : DeadLetter → List DeadLetter → List DeadLetter
dead_letter e ring = keep_last dead_letter_max (ring ++ e ∷ [])

-- The rejections of a run, in order.
unfoldable pub dead_letters_of : List DeadLetter → List DeadLetter → List DeadLetter
dead_letters_of [] ring = ring
dead_letters_of (e ∷ es) ring = dead_letters_of es (dead_letter e ring)

module _ {A : Type 0} where
  length-drop : (n : ℕ) (l : List A) → length (drop n l) ≡ length l - n
  unfolding drop
  length-drop zero l = omega arith
  length-drop (suc n) [] = omega arith
  length-drop (suc n) (x ∷ l) = omega (arith, length-drop n l)

  drop-append : (n : ℕ) (l m : List A) → n ≤ length l → drop n (l ++ m) ≡ drop n l ++ m
  unfolding drop
  drop-append zero l m h = refl
  drop-append (suc n) [] m h = absurd (omega arith)
  drop-append (suc n) (x ∷ l) m h = drop-append n l m (omega arith)

  drop-nil : (n : ℕ) → drop n (let none_ : List A = [] in none_) ≡ []
  unfolding drop
  drop-nil zero = refl
  drop-nil (suc n) = refl

  drop-drop : (m n : ℕ) (l : List A) → drop m (drop n l) ≡ drop (n + m) l
  unfolding drop
  drop-drop m zero l = ap (λ k. drop k l) (omega arith)
  drop-drop m (suc n) [] = drop-nil m ∙ sym (drop-nil (suc n + m))
  drop-drop m (suc n) (x ∷ l) =
      drop-drop m n l
      ∙ ap (λ k. drop k (x ∷ l)) (let e : suc (n + m) ≡ suc n + m = omega arith in e)

  -- To cut first and again after more has come is to cut once at the end.
  pub keep_last-append :
      (n : ℕ) (l m : List A) → keep_last n (keep_last n l ++ m) ≡ keep_last n (l ++ m)
  unfolding keep_last
  keep_last-append n l m =
      let k = length l - n in
      ap (λ (j : List A). drop (length j - n) j) (sym (drop-append k l m (omega arith)))
      ∙ drop-drop (length (drop k (l ++ m)) - n) k (l ++ m)
      ∙ ap (λ i. drop i (l ++ m)) (omega (arith, length-drop k (l ++ m), length-append l m))

-- After any rejections the ring holds the newest 500 of all frames that were rejected, in order.
pub dead_letters_newest :
    (es old : List DeadLetter)
    → dead_letters_of es (keep_last dead_letter_max old) ≡ keep_last dead_letter_max (old ++ es)
unfolding dead_letters_of dead_letter
dead_letters_newest [] old = ap (keep_last dead_letter_max) (sym (append-nil old))
dead_letters_newest (e ∷ es) old =
    ap (dead_letters_of es) (keep_last-append dead_letter_max old (e ∷ []))
    ∙ dead_letters_newest es (old ++ e ∷ [])
    ∙ ap (keep_last dead_letter_max) (append_assoc old (e ∷ []) es)
