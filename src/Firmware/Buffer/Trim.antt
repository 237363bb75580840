-- ===== src/Firmware/Buffer/Trim.antt =====
-- What `_trim` keeps.
use mathlib.Core.List.{reverse-cons, reverse-reverse, reverse-append}
use fuel_monitoring.Prelude.{
  ap, ◌∙◌, length-append, ℕ, ◌+◌, ◌≤◌, ◌<◌, ◌≡◌, refl, true, false, ◌||◌, List, [], ◌∷◌, ◌++◌,
  length, reverse, arith, Bool-cases, inl, inr, ltb, leb,
}
use fuel_monitoring.Firmware.Buffer.{Json, size, keep_newest, kept_of}

module _ {F : Type 0} (json : Json F) (max_frames max_bytes : ℕ) where
  -- The bytes of some frames.
  unfoldable pub total_size : List F → ℕ
  total_size [] = 0
  total_size (f ∷ fs) = size json f + total_size fs

  abbrev kept : (total count : ℕ) → List F → List F
  kept total count fs = keep_newest json max_frames max_bytes total count fs

  -- The frames kept, with those kept before, respect both bounds.
  pub keep_newest_bounds :
      (total count : ℕ) (fs : List F)
      → total ≤ max_bytes
      → count ≤ max_frames
      → (total + total_size (kept total count fs) ≤ max_bytes)
        × (count + length (kept total count fs) ≤ max_frames)
  unfolding keep_newest total_size
  keep_newest_bounds total count [] b c = (omega arith, omega arith)
  keep_newest_bounds total count (f ∷ fs) b c =
      elim (Bool-cases (ltb max_bytes (total + size json f) || leb max_frames count)) [
        | inl skip ↦ rw skip (keep_newest_bounds total count fs b c)
        | inr take ↦
            let rest =
              keep_newest_bounds (total + size json f) (count + 1) fs (ground arith)
                (ground arith) in
            rw take (omega (arith, rest), omega (arith, rest))
      ]

  -- Frames that fit are all kept.
  pub keep_newest_all :
      (total count : ℕ) (fs : List F)
      → total + total_size fs ≤ max_bytes
      → count + length fs ≤ max_frames
      → kept total count fs ≡ fs
  unfolding keep_newest total_size
  keep_newest_all total count [] b c = refl
  keep_newest_all total count (f ∷ fs) b c =
      let take : (ltb max_bytes (total + size json f) || leb max_frames count) ≡ false =
        ground arith in
      rw (take, keep_newest_all (total + size json f) (count + 1) fs (omega arith) (omega arith))
        refl

  total_size-append : (xs ys : List F) → total_size (xs ++ ys) ≡ total_size xs + total_size ys
  unfolding total_size
  total_size-append [] ys = omega arith
  total_size-append (x ∷ xs) ys = omega (arith, total_size-append xs ys)

  -- Reversing changes neither the bytes nor the number.
  sizes-reverse :
      (xs : List F) → (total_size (reverse xs) ≡ total_size xs) × (length (reverse xs) ≡ length xs)
  unfolding total_size
  sizes-reverse [] = (refl, refl)
  sizes-reverse (x ∷ xs) =
      let (bytes, number) = sizes-reverse xs in
      rw (reverse-cons x xs) (
        omega (arith, total_size-append (reverse xs) (x ∷ []), bytes),
        omega (arith, length-append (reverse xs) (x ∷ []), number),
      )

  -- What a trim keeps of the frames respects both bounds.
  pub kept_of_bounds :
      (frames : List F)
      → (total_size (kept_of json max_frames max_bytes frames) ≤ max_bytes)
        × (length (kept_of json max_frames max_bytes frames) ≤ max_frames)
  kept_of_bounds frames =
      let newest = kept 0 0 (reverse frames) in
      let (bytes, number) = keep_newest_bounds 0 0 (reverse frames) (omega arith) (omega arith) in
      let (bytes', number') = sizes-reverse newest in
      (omega (arith, bytes, bytes'), omega (arith, number, number'))

  -- Frames that fit both bounds are kept as they are.
  pub kept_of_all :
      (frames : List F)
      → total_size frames ≤ max_bytes
      → length frames ≤ max_frames
      → kept_of json max_frames max_bytes frames ≡ frames
  kept_of_all frames b c =
      let (bytes, number) = sizes-reverse frames in
      ap reverse
        (keep_newest_all 0 0 (reverse frames) (omega (arith, bytes, b)) (omega (arith, number, c)))
      ∙ reverse-reverse frames

  -- A newest frame that is larger than the file may be is dropped, and the older frames stay as if it
  -- had never come.
  pub kept_of_oversized :
      (frames : List F) (f : F)
      → max_bytes < size json f
      → kept_of json max_frames max_bytes (frames ++ f ∷ [])
        ≡ kept_of json max_frames max_bytes frames
  unfolding keep_newest
  kept_of_oversized frames f large =
      let skip : (ltb max_bytes (0 + size json f) || leb max_frames 0) ≡ true = ground arith in
      rw (reverse-append frames (f ∷ []), skip) refl
