-- ===== src/Firmware/Buffer.antt =====
-- firmware/frame_buffer.py: the bounded buffer of frames that wait for the broker. The file is a text,
-- after the newlines of the platform were read as "\n"; none is a file that is not there.
pub mod Trim
pub mod Lines
use fuel_monitoring.Prelude.{
  ℕ, zero, suc, ◌+◌, ◌-◌, Bool, true, false, not, ◌&&◌, ◌||◌, Option, none, some, List, [], ◌∷◌,
  ◌++◌, Text, length, reverse, ltb, leb, ◌==◌, if◌then◌else◌,
}

-- `json.dumps` with the compact separators, and `json.loads`, none when it raises.
pub record Json (F : Type 0) : Type 0 where
  pub dumps : F → Text
  pub loads : Text → Option F

-- `_READ_CHUNK`
abbrev pub read_chunk : ℕ
read_chunk = 65536

-- The characters that `str.splitlines` splits at, less the carriage return, which reading replaces.
abbrev pub is_line_break : ℕ → Bool
is_line_break c =
    (leb 10 c && leb c 12) || (leb 28 c && leb c 30) || (c == 133) || (c == 8232) || (c == 8233)

abbrev pub cons_first : ℕ → List Text → List Text
cons_first c [] = (c ∷ []) ∷ []
cons_first c (l ∷ ls) = (c ∷ l) ∷ ls

unfoldable pub splitlines : Text → List Text
splitlines [] = []
splitlines (c ∷ s) =
    let rest = splitlines s in if is_line_break c then [] ∷ rest else cons_first c rest

-- `handle.read(n)`: the first characters, and the others
unfoldable pub read : ℕ → Text → Text × Text
read zero s = ([], s)
read (suc n) [] = ([], [])
read (suc n) (c ∷ s) = let (chunk, rest) = read n s in (c ∷ chunk, rest)

abbrev pub is_empty : Text → Bool
is_empty [] = true
is_empty (c ∷ s) = false

-- The loop of `_iter_lines`, on fuel; a chunk that is not empty takes a character at least, so the
-- length of the text is enough.
unfoldable pub lines_of : (fuel : ℕ) → Text → List Text
lines_of zero s = []
lines_of (suc n) s =
    let (chunk, rest) = read read_chunk s in
    let more = lines_of n rest in if is_empty chunk then [] else splitlines chunk ++ more

-- The white space of `str.strip` in ASCII; the other spaces of Unicode do not occur in JSON that
-- `dumps` wrote.
abbrev is_space : ℕ → Bool
is_space c = (leb 9 c && leb c 13) || (leb 28 c && leb c 32)

unfoldable pub lstrip : Text → Text
lstrip [] = []
lstrip (c ∷ s) = let rest = lstrip s in if is_space c then rest else c ∷ s

abbrev strip : Text → Text
strip s = reverse (lstrip (reverse (lstrip s)))

module _ {F : Type 0} (json : Json F) where
  -- `_load_line`
  abbrev pub load_stripped : Text → Option F
  load_stripped [] = none
  load_stripped (c ∷ s) = json.loads (c ∷ s)

  abbrev pub load_line : Text → Option F
  load_line line = load_stripped (strip line)

  abbrev add_loaded : Option F → List F → List F
  add_loaded none fs = fs
  add_loaded (some f) fs = f ∷ fs

  unfoldable pub load_lines : List Text → List F
  load_lines [] = []
  load_lines (l ∷ ls) = add_loaded (load_line l) (load_lines ls)

  -- `snapshot`
  unfoldable pub snapshot : Option Text → List F
  snapshot none = []
  snapshot (some s) = load_lines (lines_of (length s) s)

  abbrev pub line_of : F → Text
  line_of f = json.dumps f ++ 10 ∷ []

  unfoldable pub write_lines : List F → Text
  write_lines [] = []
  write_lines (f ∷ fs) = line_of f ++ write_lines fs

  -- `len(json.dumps(frame)) + 1`
  abbrev pub size : F → ℕ
  size f = length (json.dumps f) + 1

  module _ (max_frames max_bytes : ℕ) where
    -- The loop of `_trim` over the reversed frames: how many and how large those kept so far are, and
    -- the frames that it still keeps, oldest last.
    unfoldable pub keep_newest : (total count : ℕ) → List F → List F
    keep_newest total count [] = []
    keep_newest total count (f ∷ fs) =
        let skip = ltb max_bytes (total + size f) || leb max_frames count in
        let rest =
          keep_newest (if skip then total else total + size f) (if skip then count else count + 1)
            fs in
        if skip then rest else f ∷ rest

    abbrev pub kept_of : List F → List F
    kept_of frames = reverse (keep_newest 0 0 (reverse frames))

    -- `_trim`; `writable` is whether the file opens for writing.
    unfoldable pub trim : (writable : Bool) → Option Text → Option Text
    trim writable file =
        let frames = snapshot file in
        let kept = kept_of frames in
        if (length kept == length frames) || not writable then file else some (write_lines kept)

    abbrev text_of : Option Text → Text
    text_of none = []
    text_of (some s) = s

    -- `append`: whether the frame was written, and the file
    unfoldable pub append : (opened writable : Bool) → F → Option Text → Bool × Option Text
    append false writable f file = (false, file)
    append true writable f file = (true, trim writable (some (text_of file ++ line_of f)))
