-- ===== src/Prelude/Bytes.antt =====
-- Slices of bytes, and reads of a given length from a stream.
use fuel_monitoring.Prelude.Lists.{length}
use Prim.Native.Nat.{ℕ, zero, suc}
use mathlib.Core.Path.{◌≡◌, refl}
use mathlib.Core.Option.{Option, none, some}
use mathlib.Core.List.{List, [], ◌∷◌, ◌++◌}

unfoldable pub take : ℕ → List ℕ → List ℕ
take zero l = []
take (suc n) [] = []
take (suc n) (x ∷ l) = x ∷ take n l

unfoldable pub drop : ℕ → List ℕ → List ℕ
drop zero l = l
drop (suc n) [] = []
drop (suc n) (x ∷ l) = drop n l

-- The next n bytes and the rest, none for a stream that ends before
unfoldable pub read_exactly : ℕ → List ℕ → Option (List ℕ × List ℕ)
read_exactly zero s = some ([], s)
read_exactly (suc n) [] = none
read_exactly (suc n) (x ∷ s) = elim (read_exactly n s) [
  | none ↦ none
  | some (bytes, rest) ↦ some (x ∷ bytes, rest)
]

pub read_exactly-append : (s rest : List ℕ) → read_exactly (length s) (s ++ rest) ≡ some (s, rest)
unfolding read_exactly
read_exactly-append [] rest = refl
read_exactly-append (x ∷ s) rest = rw (read_exactly-append s rest) refl
