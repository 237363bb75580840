-- ===== src/Prelude/Dict.antt =====
-- A Python dictionary with text keys, as the list of its entries in the order of insertion.
use Prim.Native.Nat.{ℕ, suc, ◌+◌, ◌≤◌}
use mathlib.Core.Path.{◌≡◌, refl}
use mathlib.Core.List.{List, [], ◌∷◌}
use mathlib.Core.Option.{Option, none, some}
use native.Mathlib.Omega.{arith}
use fuel_monitoring.Prelude.Tests.{if◌then◌else◌, ltb}
use fuel_monitoring.Prelude.Lists.{length}
use fuel_monitoring.Prelude.Strings.{Text, text_eq, text_eq_refl}

module _ {V : Type 0} where
  unfoldable pub lookup : Text → List (Text × V) → Option V
  lookup k [] = none
  lookup k ((j, v) ∷ m) = if text_eq j k then some v else lookup k m

  -- `d[k] = v`: a key that is there keeps its place
  unfoldable pub insert : Text → V → List (Text × V) → List (Text × V)
  insert k v [] = (k, v) ∷ []
  insert k v ((j, w) ∷ m) = if text_eq j k then (j, v) ∷ m else (j, w) ∷ insert k v m

  -- `while len(d) > bound: d.pop(next(iter(d)))`
  unfoldable pub shrink : (bound : ℕ) → List (Text × V) → List (Text × V)
  shrink bound [] = []
  shrink bound (e ∷ m) = if ltb bound (length (e ∷ m)) then shrink bound m else e ∷ m

  pub lookup-insert_self :
      (k : Text) (v : V) (m : List (Text × V)) → lookup k (insert k v m) ≡ some v
  unfolding lookup insert
  lookup-insert_self k v [] = ground (arith, text_eq_refl k)
  lookup-insert_self k v ((j, w) ∷ m) = ground (arith, lookup-insert_self k v m)

  pub length-insert :
      (k : Text) (v : V) (m : List (Text × V)) → length (insert k v m) ≤ length m + 1
  unfolding insert
  length-insert k v [] = omega arith
  length-insert k v ((j, w) ∷ m) = ground (arith, length-insert k v m)

  -- an assignment to a key that is there adds no entry
  pub length-insert_known :
      (k : Text) (v w : V) (m : List (Text × V))
      → lookup k m ≡ some w
      → length (insert k v m) ≡ length m
  unfolding lookup insert
  length-insert_known k v w [] h = absurd (cc)
  length-insert_known k v w ((j, u) ∷ m) h = ground (arith, length-insert_known k v w m)

  pub shrink_id : (bound : ℕ) (m : List (Text × V)) → length m ≤ bound → shrink bound m ≡ m
  unfolding shrink
  shrink_id bound [] h = refl
  shrink_id bound (e ∷ m) h = ground arith

  pub length-shrink : (bound : ℕ) (m : List (Text × V)) → length (shrink bound m) ≤ bound
  unfolding shrink
  length-shrink bound [] = omega arith
  length-shrink bound (e ∷ m) = ground (arith, length-shrink bound m)

  -- An entry that was just assigned outlives the trim of a dictionary that was in its bound.
  pub lookup-shrink-insert :
      (bound : ℕ) (k : Text) (v : V) (m : List (Text × V))
      → length m ≤ suc bound
      → lookup k (shrink (suc bound) (insert k v m)) ≡ some v
  unfolding lookup insert shrink
  lookup-shrink-insert bound k v [] h = ground (arith, text_eq_refl k)
  lookup-shrink-insert bound k v ((j, w) ∷ m) h =
      ground
        (arith, shrink_id (suc bound) (insert k v m), length-insert k v m, lookup-insert_self k v m)
