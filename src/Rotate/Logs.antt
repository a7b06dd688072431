-- ===== src/Rotate/Logs.antt =====
-- The logs that a round uploads, read independently of the scanner.
use terraform_cloudrun_glue.Base.{
  ℕ, suc, ◌<◌, ◌≡◌, ◌≢◌, ◌⊎◌, refl, ap, subst, ◌∙◌, true, false, some, ◌==◌, ltb, List, [], ◌∷◌,
  ◌++◌, map, Memᴰ, All, Text, length, returns, arith,
}
use terraform_cloudrun_glue.Rotate.{Env, Source, raw_lines, drop_cr, scan, lines_of, upload}
use terraform_cloudrun_glue.Rotate.Writes.{
  EnvLaws, Ends, Ends-weaken, log_text, file_text, combined,
}
use terraform_cloudrun_glue.Rotate.Uploads.{upload-Safe}

-- Lines, with a line feed after each.
unfoldable pub unlines : List Text → Text
unlines [] = []
unlines (l ∷ ls) = l ++ 10 ∷ unlines ls

-- A line without a line feed or a carriage return, which with its line feed fits the buffer.
abbrev pub IsLine : ℕ → Text → Type 0
IsLine limit l = All (λ c. (c ≢ 10) × (c ≢ 13)) l × (length l < limit)

raw_lines-append :
    (l s : Text) → All (λ c. (c ≢ 10) × (c ≢ 13)) l → raw_lines (l ++ 10 ∷ s) ≡ l ∷ raw_lines s
unfolding raw_lines
raw_lines-append [] s h = refl
raw_lines-append (c ∷ l) s h =
    let e : (c == 10) ≡ false = other h.0.0 in rw (e, raw_lines-append l s h.1) refl
  where
    other : c ≢ 10 → (c == 10) ≡ false
    other n = ground (arith, n)

drop_cr-same : (l : Text) → All (λ c. (c ≢ 10) × (c ≢ 13)) l → drop_cr l ≡ l
unfolding drop_cr
drop_cr-same [] h = refl
drop_cr-same (c ∷ []) h = let e : (c == 13) ≡ false = other h.0.1 in rw e refl
  where
    other : c ≢ 13 → (c == 13) ≡ false
    other n = ground (arith, n)
drop_cr-same (c ∷ d ∷ l) h = ap (◌∷◌ c) (drop_cr-same (d ∷ l) h.1)

scan-lines :
    (limit : ℕ) (ls : List Text) → All (IsLine limit) ls → scan limit (raw_lines (unlines ls)) ≡ ls
unfolding scan unlines raw_lines
scan-lines limit [] h = refl
scan-lines limit (l ∷ ls) h =
    let fits : ltb (length l) limit ≡ true = ground (arith, h.0.1) in
    rw (raw_lines-append l (unlines ls) h.0.0, scan)
      (rw (fits, drop_cr-same l h.0.0) (ap (◌∷◌ l) (scan-lines limit ls h.1)))

-- The texts of the logs, one after another.
unfoldable pub all_text : List (Text × List Text) → Text
all_text [] = []
all_text ((p, ls) ∷ logs) = log_text ls ++ all_text logs

abbrev pub path_of : Text × List Text → Text
path_of (p, ls) = p

module _ (env : Env) (laws : EnvLaws env) (limit : ℕ) where
  -- The file can be opened, and consists of these lines.
  abbrev pub IsLog : env.World → Text × List Text → Type 0
  IsLog w (p, ls) =
      (f : Source) × (env.open_file p w ≡ returns f)
      × (f.content ≡ unlines ls)
      × All (IsLine limit) ls

  combined-logs :
      (logs : List (Text × List Text)) (w : env.World)
      → All (IsLog w) logs
      → combined env laws limit (map path_of logs) w ≡ all_text logs
  unfolding all_text lines_of
  combined-logs [] w h = refl
  combined-logs ((p, ls) ∷ logs) w h =
      let (f, opened, content, lines) = h.0 in
      let read : lines_of limit f ≡ ls =
        ap (λ t. scan limit (raw_lines t)) content ∙ scan-lines limit ls lines in
      ap (λ t. t ++ combined env laws limit (map path_of logs) w)
        (ap (file_text limit) opened ∙ ap log_text read)
      ∙ ap (λ t. log_text ls ++ t) (combined-logs logs w h.1)

  -- A file is as it was, or it is one of the logs, and the object holds the text of all of them.
  abbrev pub IsSafe : Text → List (Text × List Text) → env.World → env.World → Type 0
  IsSafe tgt logs w0 w =
      (q : Text)
      → (env.open_file q w ≡ env.open_file q w0)
        ⊎ (Memᴰ q (map path_of logs) × (laws.stored w tgt ≡ some (all_text logs)))

  -- As many files were removed as there are logs, and the object holds the text of all of them.
  abbrev pub IsMoved : Text → List (Text × List Text) → ℕ → env.World → Type 0
  IsMoved tgt logs n w =
      (n ≡ length (map path_of logs)) × (laws.stored w tgt ≡ some (all_text logs))

  -- Let the files of one directory be logs that can be opened, of lines that end with a line feed,
  -- have no carriage return and fit the scanner's buffer. The attempts for them, however many are
  -- left, remove a file only after an object is stored that holds each line of each of these files,
  -- in order, trimmed and without the empty ones. Where they succeed, as many files are counted as
  -- removed as there are, and the object holds just these lines, also after attempts that failed.
  pub upload-IsSafe :
      (left : ℕ) (name tgt : Text) (logs : List (Text × List Text)) (w : env.World)
      → All (IsLog w) logs
      → Ends
          (IsSafe tgt logs w)
          (IsMoved tgt logs)
          (upload env (suc left) limit name tgt (map path_of logs) w)
  upload-IsSafe left name tgt logs w h =
      let paths = map path_of logs in
      let same = combined-logs logs w h in
      Ends-weaken (upload env (suc left) limit name tgt paths w)
        (upload-Safe env laws limit left name tgt paths w w (λ q. refl))
        (λ v p.
          subst
            (λ t.
              (q : Text)
              → (env.open_file q v ≡ env.open_file q w)
                ⊎ (Memᴰ q paths × (laws.stored v tgt ≡ some t)))
            same p)
        (λ n v p q. (q.0, q.1 ∙ ap some same))
