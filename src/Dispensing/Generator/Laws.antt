-- ===== src/Dispensing/Generator/Laws.antt =====
-- What the code generator promises: a fresh code, whenever one of its five candidates is free.
use fuel_monitoring.Prelude.{
  ap, ℕ, zero, suc, ◌+◌, ◌≤◌, ◌<◌, ◌≡◌, inl, inr, Bool, true, false, Option, none, some, Text,
  arith, Bool-cases,
}
use native.Mathlib.Decide.{dec_lt}
use fuel_monitoring.Redis.{Redis}
use fuel_monitoring.Security.{Crypto, generate_secure_code, code_fingerprint, hash_code}
use fuel_monitoring.Dispensing.Keys.{Key, consumed_set, Value}
use fuel_monitoring.Dispensing.Models.{Result, ok, Result-cases}
use fuel_monitoring.Dispensing.Generator.{
  Draws, Generated, run_check, choose_length, collides, candidate, candidate_of, generate_loop,
  generate_unique_code,
}

module _ (crypto : Crypto) (r : Redis Key Value) (s : r.Store) (draws : Draws)
    (hashes fingerprints : Option (Text → Result Bool)) where
  abbrev collision : Generated → Result Bool
  collision = collides crypto r s draws hashes fingerprints

  abbrev drawn : (length attempt : ℕ) → Result Generated
  drawn = candidate crypto r s draws hashes fingerprints

  abbrev loop : (length left attempt : ℕ) → Result Generated
  loop = generate_loop crypto r s draws hashes fingerprints

  -- A candidate that does not collide is new to Redis and to both checks.
  collides-false :
      (g : Generated)
      → collision g ≡ ok false
      → (r.sismember consumed_set g.code_fp s ≡ false)
        × (run_check fingerprints g.code_fp ≡ ok false)
        × (run_check hashes g.code_hash ≡ ok false)
  unfolding collides
  collides-false g h = ground arith

  -- Whatever the loop returns is the candidate of one of its attempts, and does not collide.
  generate_loop-ok :
      (n left i : ℕ) (g : Generated)
      → loop n left i ≡ ok g
      → (k : ℕ) × (i ≤ k) × (k < i + left) × (drawn n k ≡ ok g) × (collision g ≡ ok false)
  unfolding generate_loop
  generate_loop-ok n zero i g h = cc
  generate_loop-ok n (suc left) i g h = elim (Result-cases (drawn n i)) [
    | inr (e, d) ↦ ground arith
    | inl (c, d) ↦ elim (Result-cases (collision c)) [
      | inr (e, q) ↦ ground arith
      | inl (true, q) ↦
          let (k, lo, hi, made, free) = generate_loop-ok n left (i + 1) g (ground arith) in
          (k, omega arith, omega arith, made, free)
      | inl (false, q) ↦ (i, omega arith, omega arith, ground arith, ground arith)
    ]
  ]

  -- If every attempt draws a candidate and one of them is free, the loop returns one.
  generate_loop_finds :
      (n left i k : ℕ) (c : Generated)
      → ((j : ℕ) → (g : Generated) × (drawn n j ≡ ok g) × ((b : Bool) × (collision g ≡ ok b)))
      → i ≤ k
      → k < i + left
      → drawn n k ≡ ok c
      → collision c ≡ ok false
      → (g : Generated) × (loop n left i ≡ ok g)
  unfolding generate_loop
  generate_loop_finds n zero i k c total lo hi d f = absurd (omega arith)
  generate_loop_finds n (suc left) i k c total lo hi d f =
      let (g, dg, bq) = total i in
      let (b, q) = bq in
      elim (Bool-cases b) [
        | inr free ↦ (g, ground arith)
        | inl taken ↦ elim (dec_lt i k) [
          | yes far ↦
              let (x, e) =
                generate_loop_finds n left (i + 1) k c total (omega arith) (omega arith) d f in
              (x, ground arith)
          | no near ↦ let same : i ≡ k = omega arith in absurd (cc)
        ]
      ]

  -- Whether attempt `i` of a generation draws a candidate that nothing knows yet.
  abbrev IsFree : (length attempt : ℕ) → Type 0
  IsFree n i = (g : Generated) × (drawn n i ≡ ok g) × (collision g ≡ ok false)

  -- What a drawn candidate is made of.
  candidate-ok :
      (n i : ℕ) (g : Generated)
      → drawn n i ≡ ok g
      → (generate_secure_code n (draws.digit i) ≡ some g.code)
        × (g ≡ candidate_of crypto r s draws hashes fingerprints i g.code)
  unfolding candidate
  candidate-ok n i g h = ground arith

  -- A generated code is one of the five candidates of its draws, with its fingerprint and the hash
  -- under its salt, and neither Redis nor a check that was passed knows it.
  pub generate_unique_code-ok :
      (l : Option ℕ) (g : Generated)
      → generate_unique_code crypto r s draws hashes fingerprints l ≡ ok g
      → (k : ℕ) × (k < 5)
        × (generate_secure_code (choose_length l draws.length_choice) (draws.digit k) ≡ some g.code)
        × (g.code_fp ≡ code_fingerprint crypto g.code)
        × (g.code_hash ≡ hash_code crypto (draws.salt k) g.code)
        × (r.sismember consumed_set g.code_fp s ≡ false)
        × (run_check fingerprints g.code_fp ≡ ok false)
        × (run_check hashes g.code_hash ≡ ok false)
  unfolding generate_unique_code
  generate_unique_code-ok l g h =
      let (k, lo, hi, made, free) =
        generate_loop-ok (choose_length l draws.length_choice) 5 0 g h in
      let (code, shape) = candidate-ok (choose_length l draws.length_choice) k g made in
      let (unused, fps, hs) = collides-false g free in
      (
        k,
        hi,
        code,
        ap (λ (x : Generated). x.code_fp) shape,
        ap (λ (x : Generated). x.code_hash) shape,
        unused,
        fps,
        hs,
      )

  -- While the checks answer and one of the five candidates is free, a code is generated.
  pub generate_unique_code_finds :
      (l : Option ℕ) (k : ℕ)
      → ((j : ℕ)
          → (g : Generated) × (drawn (choose_length l draws.length_choice) j ≡ ok g)
            × ((b : Bool) × (collision g ≡ ok b)))
      → k < 5
      → IsFree (choose_length l draws.length_choice) k
      → (g : Generated) × (generate_unique_code crypto r s draws hashes fingerprints l ≡ ok g)
  unfolding generate_unique_code
  generate_unique_code_finds l k total hi (c, made, free) =
      generate_loop_finds (choose_length l draws.length_choice) 5 0 k c total (omega arith)
        (omega arith) made free

-- With no length asked for, a code has six to eight characters.
pub choose_length_bounds :
    (choice : ℕ) → (6 ≤ choose_length none choice) × (choose_length none choice ≤ 8)
unfolding choose_length
choose_length_bounds choice = omega arith
