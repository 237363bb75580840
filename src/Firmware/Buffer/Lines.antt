-- ===== src/Firmware/Buffer/Lines.antt =====
-- The reader of the buffer's file reaches its end on fuel.
use mathlib.Core.List.{append_assoc}
use fuel_monitoring.Prelude.{
  ap, ◌∙◌, sym, ◌++◌, List, not, keep_if, Bool-cases, inl, inr, false, ℕ, zero, suc, ◌≤◌, ◌≡◌, refl,
  [], ◌∷◌, Text, length, arith,
}
use fuel_monitoring.Firmware.Buffer.{
  read, read_chunk, lines_of, splitlines, is_line_break, cons_first, is_empty,
}

read-length : (k : ℕ) (s : Text) → length (read k s).1 ≤ length s
unfolding read
read-length zero s = omega arith
read-length (suc k) [] = omega arith
read-length (suc k) (c ∷ s) = omega (arith, read-length k s)

read_shortens : (k c : ℕ) (s : Text) → 1 ≤ k → length (read k (c ∷ s)).1 ≤ length s
unfolding read
read_shortens zero c s h = absurd (omega arith)
read_shortens (suc k) c s h = read-length k s

read_some : (k c : ℕ) (s : Text) → 1 ≤ k → is_empty (read k (c ∷ s)).0 ≡ false
unfolding read
read_some zero c s h = absurd (omega arith)
read_some (suc k) c s h = refl

read-append : (k : ℕ) (s : Text) → (read k s).0 ++ (read k s).1 ≡ s
unfolding read
read-append zero s = refl
read-append (suc k) [] = refl
read-append (suc k) (c ∷ s) = ap (λ (t : Text). c ∷ t) (read-append k s)

-- The characters of a text that end no line
abbrev pub printed : Text → Text
printed s = keep_if (λ c. not (is_line_break c)) s

printed-append : (s t : Text) → printed (s ++ t) ≡ printed s ++ printed t
printed-append [] t = refl
printed-append (c ∷ s) t = ground (arith, printed-append s t)

abbrev pub joined : List Text → Text
joined [] = []
joined (l ∷ ls) = l ++ joined ls

joined-append : (ls ms : List Text) → joined (ls ++ ms) ≡ joined ls ++ joined ms
joined-append [] ms = refl
joined-append (l ∷ ls) ms =
    ap (λ (t : Text). l ++ t) (joined-append ls ms) ∙ sym (append_assoc l (joined ls) (joined ms))

joined-cons_first : (c : ℕ) (ls : List Text) → joined (cons_first c ls) ≡ c ∷ joined ls
joined-cons_first c [] = refl
joined-cons_first c (l ∷ ls) = refl

joined-splitlines : (s : Text) → joined (splitlines s) ≡ printed s
unfolding splitlines
joined-splitlines [] = refl
joined-splitlines (c ∷ s) = elim (Bool-cases (is_line_break c)) [
  | inl y ↦ rw y (joined-splitlines s)
  | inr n ↦
      rw n (joined-cons_first c (splitlines s) ∙ ap (λ (t : Text). c ∷ t) (joined-splitlines s))
]

-- The reader reaches the end of the file, whatever its length: with fuel for its characters, the lines
-- hold all of them, in their order, but for the line breaks.
pub lines_of_all : (n : ℕ) (s : Text) → length s ≤ n → joined (lines_of n s) ≡ printed s
unfolding lines_of
lines_of_all zero [] p = refl
lines_of_all (suc n) [] p = unfold read in refl
lines_of_all zero (c ∷ s) p = absurd (omega arith)
lines_of_all (suc n) (c ∷ s) p =
    let chunk = (read read_chunk (c ∷ s)).0 in
    let rest = (read read_chunk (c ∷ s)).1 in
    let shorter = read_shortens read_chunk c s (omega arith) in
    rw (read_some read_chunk c s (omega arith)) (
      joined-append (splitlines chunk) (lines_of n rest)
      ∙ (rw (joined-splitlines chunk, lines_of_all n rest (omega (arith, shorter))) refl)
      ∙ (sym (printed-append chunk rest) ∙ ap printed (read-append read_chunk (c ∷ s))))
