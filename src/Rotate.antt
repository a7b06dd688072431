-- ===== src/Rotate.antt =====
-- pkg/rotate/blob.go: the logs under a directory, uploaded as one object for each of its
-- directories. The file system, filepath.Join and gocloud's blob are parameters.
pub mod Writes
pub mod Uploads
pub mod Logs
pub mod Flushes
use terraform_cloudrun_glue.Base.{
  ℕ, zero, suc, ◌+◌, ◌*◌, Bool, true, false, Option, none, some, List, [], ◌∷◌, ◌++◌, map,
  if◌then◌else◌, ℤ, Text, codes, Dict, lookup, insert, length, trim_space, Result, returns, fails,
  format_int, ltb, ◌==◌,
}

-- MaxUploadAttempt
abbrev pub max_upload_attempt : ℕ
max_upload_attempt = 3

-- A call of WalkDir's callback: the entry's type and its path relative to the source, where
-- filepath.Rel may fail.
pub record Entry : Type 0 where
  pub is_regular : Bool
  pub rel_path : Result Text

-- A file that was opened: what can be read of it, and what its Close answers.
pub record Source : Type 0 where
  pub content : Text
  pub closing : Result Unit

pub record Env : Type 1 where
  -- The state of the file system and the bucket, and an open writer.
  pub World : Type 0
  pub Writer : Type 0
  -- filepath.Join of two paths.
  pub join : Text → Text → Text
  -- The calls that WalkDir makes of its callback, in order, with the error they are given.
  pub walk_dir : Text → World → List (Result Entry)
  -- os.Open and os.Remove
  pub open_file : Text → World → Result Source
  pub remove : Text → World → Result Unit × World
  -- blob.OpenBucket
  pub open_bucket : World → Result Unit × World
  -- NewWriter, Write and Close
  pub new_writer : Text → World → Result Writer × World
  pub write : Writer → Text → World → Result Writer × World
  pub close : Writer → World → Result Unit × World

-- bufio.ScanLines over all of a text, before the carriage returns go.
abbrev pub push_byte : ℕ → List Text → List Text
push_byte c [] = (c ∷ []) ∷ []
push_byte c (l ∷ ls) = (c ∷ l) ∷ ls

unfoldable pub raw_lines : Text → List Text
raw_lines [] = []
raw_lines (c ∷ s) = let rest = raw_lines s in if c == 10 then [] ∷ rest else push_byte c rest

-- A line without the carriage return at its end.
unfoldable pub drop_cr : Text → Text
drop_cr [] = []
drop_cr (c ∷ []) = if c == 13 then [] else c ∷ []
drop_cr (c ∷ d ∷ l) = c ∷ drop_cr (d ∷ l)

-- The lines that a Scanner gives whose buffer holds so many bytes: it stops at a line that with its
-- line break does not fit.
unfoldable pub scan : ℕ → List Text → List Text
unfolding drop_cr
scan limit [] = []
scan limit (l ∷ ls) =
    let rest = scan limit ls in if ltb (length l) limit then drop_cr l ∷ rest else []

abbrev pub max_buffer : ℕ
max_buffer = 1024 * 1024 * 5

unfoldable pub lines_of : ℕ → Source → List Text
unfolding raw_lines scan
lines_of limit f = scan limit (raw_lines f.content)

-- filepath.Split: up to and with the last slash, and the rest.
abbrev pub extend : ℕ → Text × Text → Text × Text
extend c ([], base) = if c == b'/' then (c ∷ [], base) else ([], c ∷ base)
extend c (d ∷ dir, base) = (c ∷ d ∷ dir, base)

unfoldable pub split_path : Text → Text × Text
split_path [] = ([], [])
split_path (c ∷ s) = extend c (split_path s)

abbrev pub with_base : Option (List Text) → Text → List Text
with_base none base = base ∷ []
with_base (some files) base = files ++ base ∷ []

abbrev pub add_file : Text × Text → Dict (List Text) → Dict (List Text)
add_file (dir, base) m = insert dir (with_base (lookup dir m) base) m

-- WalkDir with the callback of Run, which collects the regular files of each directory.
unfoldable pub collect : List (Result Entry) → Dict (List Text) → Result (Dict (List Text))
unfolding split_path
collect [] m = returns m
collect (fails e ∷ calls) m = fails e
collect (returns d ∷ calls) m = elim (d.is_regular) [
  | false ↦ collect calls m
  | true ↦ elim (d.rel_path) [
    | fails e ↦ fails e
    | returns rel ↦ collect calls (add_file (split_path rel) m)
  ]
]

-- What a call gives is used by the next, unless it is an error, which is returned.
abbrev pub and_then : {A B W : Type 0} → Result A × W → (A → W → Result B × W) → Result B × W
and_then (returns a, w) f = f a w
and_then (fails e, w) f = (fails e, w)

-- An error with the text that is put before it.
abbrev pub wrap : {A W : Type 0} → Text → Result A × W → Result A × W
wrap what (returns a, w) = (returns a, w)
wrap what (fails e, w) = (fails (what ++ e), w)

abbrev pub line_break : Text → Text
line_break [] = []
line_break (c ∷ l) = (c ∷ l) ++ 10 ∷ []

module _ (env : Env) where
  -- A line that is empty after TrimSpace is not written.
  abbrev pub write_line : Text → env.Writer → env.World → Result env.Writer × env.World
  write_line [] x w = (returns x, w)
  write_line (c ∷ l) x w = env.write x (line_break (c ∷ l)) w

  unfoldable pub write_lines : List Text → env.Writer → env.World → Result env.Writer × env.World
  write_lines [] x w = (returns x, w)
  write_lines (l ∷ ls) x w = and_then (write_line (trim_space l) x w) (write_lines ls)

  -- The deferred Close. The error that it reports in place of its own is the one before, which fmt
  -- prints as %!w(<nil>) when there is none.
  abbrev pub close_source :
      Text → Result Unit → Result env.Writer × env.World → Result env.Writer × env.World
  close_source src (returns u) r = r
  close_source src (fails ferr) (returns x, w) =
      (fails (codes "failed to close source file: " ++ (src ++ codes " %!w(<nil>)")), w)
  close_source src (fails ferr) (fails e, w) =
      (fails (codes "failed to close source file: " ++ (src ++ (codes " " ++ e))), w)

  unfoldable pub buffer_write_to_bucket :
      (limit : ℕ) → env.Writer → (src : Text) → env.World → Result env.Writer × env.World
  unfolding write_lines lines_of
  buffer_write_to_bucket limit x src w = elim (env.open_file src w) [
    | fails e ↦ (fails e, w)
    | returns f ↦ close_source src f.closing (write_lines (lines_of limit f) x w)
  ]

  -- The loop over the files of an attempt, given the paths.
  unfoldable pub write_files :
      (limit : ℕ)
      → (target : Text) → List Text
      → env.Writer
      → env.World
      → Result env.Writer × env.World
  unfolding buffer_write_to_bucket
  write_files limit target [] x w = (returns x, w)
  write_files limit target (src ∷ srcs) x w =
      and_then
        (wrap (codes "failed to upload file to blobstore: " ++ (target ++ codes ", "))
          (buffer_write_to_bucket limit x src w))
        (write_files limit target srcs)

  -- The loop that deletes: how many went, and the last error.
  abbrev pub count_removed : Text → Result Unit → ℕ × Option Text → ℕ × Option Text
  count_removed path (returns u) (n, err) = (suc n, err)
  count_removed path (fails e) (n, err) =
      (n, some (codes "failed to delete file: " ++ (path ++ (codes " " ++ e))))

  unfoldable pub remove_files :
      List Text → ℕ × Option Text → env.World → (ℕ × Option Text) × env.World
  remove_files [] done w = (done, w)
  remove_files (path ∷ paths) done w =
      let (r, w1) = env.remove path w in remove_files paths (count_removed path r done) w1

  abbrev pub removed : (ℕ × Option Text) × env.World → Result ℕ × env.World
  removed ((n, none), w) = (returns n, w)
  removed ((n, some e), w) = (fails e, w)

  -- One attempt up to the Close of the writer, which is returned with its answer.
  unfoldable pub attempt :
      (limit : ℕ) → (target : Text) → List Text → env.World → Result (Result Unit) × env.World
  unfolding write_files
  attempt limit target paths w = and_then (env.new_writer target w) (λ x w1.
      and_then (write_files limit target paths x w1)
        (λ y w2. (returns (env.close y w2).0, (env.close y w2).1)))

  -- The attempts that are left for the files of one directory, and how many files went. The pause
  -- between two attempts leaves no trace.
  unfoldable pub upload :
      ℕ → (limit : ℕ) → (file_name target : Text) → List Text → env.World → Result ℕ × env.World
  unfolding attempt remove_files
  upload zero limit file_name target paths w = (returns 0, w)
  upload (suc left) limit file_name target paths w =
      and_then (attempt limit target paths w) (λ closing w1. elim closing [
        | returns u ↦ removed (remove_files paths (0, none) w1)
        | fails e ↦ elim left [
          | zero ↦
              (fails (codes "failed to close blob file: " ++ (file_name ++ (codes " " ++ e))), w1)
          | suc n ↦ upload left limit file_name target paths w1
        ]
      ])

  -- The loop over the directories, in the order in which Go goes through the map.
  unfoldable pub upload_all :
      (limit : ℕ)
      → (source file_name : Text) → Dict (List Text)
      → (processed : ℕ) → env.World
      → Result ℕ × env.World
  unfolding upload
  upload_all limit source file_name [] processed w = (returns processed, w)
  upload_all limit source file_name ((dir, files) ∷ dirs) processed w =
      and_then
        (upload max_upload_attempt limit file_name (env.join dir file_name)
          (map (λ f. env.join source (env.join dir f)) files) w)
        (λ n w1. upload_all limit source file_name dirs (processed + n) w1)

  -- One round of Run at the time `now`.
  unfoldable pub run_round : (source : Text) → (now : ℤ) → env.World → Result ℕ × env.World
  unfolding collect upload_all
  run_round source now w = and_then (env.open_bucket w) (λ u w1.
      elim (collect (env.walk_dir source w1) []) [
        | fails e ↦ (fails e, w1)
        | returns dirs ↦ upload_all max_buffer source (format_int now) dirs 0 w1
      ])

  -- Run: for each round its time, and whether the select after it finds the context done. `none` is
  -- a Run that still waits.
  unfoldable pub run :
      (done : Bool)
      → (source : Text) → List (ℤ × Bool)
      → env.World
      → Option (Result Unit × env.World)
  unfolding run_round
  run done source [] w = none
  run done source ((now, cancelled) ∷ rounds) w =
      let (r, w1) = run_round source now w in
      elim r [
        | fails e ↦ some (fails e, w1)
        | returns n ↦ elim done [
          | true ↦ some (returns tt, w1)
          | false ↦ run cancelled source rounds w1
        ]
      ]
