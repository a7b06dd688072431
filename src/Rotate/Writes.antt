-- ===== src/Rotate/Writes.antt =====
-- What an attempt writes, over what the file system and the bucket document.
use terraform_cloudrun_glue.Base.{
  ℕ, ◌≡◌, ◌≢◌, refl, sym, ap, subst, ◌∙◌, Option, some, List, [], ◌∷◌, ◌++◌, Text, codes,
  trim_space, Result, returns, fails,
}
use mathlib.Core.List.{append_assoc, append-nil}
use terraform_cloudrun_glue.Rotate.{
  Env, Source, lines_of, and_then, wrap, line_break, write_line, write_lines, close_source,
  buffer_write_to_bucket, write_files, attempt,
}

-- The documented behaviour: the calls on the bucket leave the files, Remove leaves the other files
-- and the bucket, and a Close that succeeds stores what was written.
pub record EnvLaws (env : Env) : Type 0 where
  pub stored : env.World → Text → Option Text
  pub target : env.Writer → Text
  pub written : env.Writer → Text
  pub new_writer_keeps :
      (n : Text) (w : env.World) (q : Text)
      → env.open_file q (env.new_writer n w).1 ≡ env.open_file q w
  pub new_writer_done :
      (n : Text) (w : env.World) (x : env.Writer)
      → (env.new_writer n w).0 ≡ returns x
      → (target x ≡ n) × (written x ≡ [])
  pub write_keeps :
      (x : env.Writer) (t : Text) (w : env.World) (q : Text)
      → env.open_file q (env.write x t w).1 ≡ env.open_file q w
  pub write_done :
      (x : env.Writer) (t : Text) (w : env.World) (y : env.Writer)
      → (env.write x t w).0 ≡ returns y
      → (target y ≡ target x) × (written y ≡ written x ++ t)
  pub close_keeps :
      (x : env.Writer) (w : env.World) (q : Text)
      → env.open_file q (env.close x w).1 ≡ env.open_file q w
  pub close_done :
      (x : env.Writer) (w : env.World)
      → (env.close x w).0 ≡ returns tt
      → stored (env.close x w).1 (target x) ≡ some (written x)
  pub remove_others :
      (p : Text) (w : env.World) (q : Text)
      → p ≢ q
      → env.open_file q (env.remove p w).1 ≡ env.open_file q w
  pub remove_stored :
      (p : Text) (w : env.World) (n : Text) → stored (env.remove p w).1 n ≡ stored w n

-- What holds where a call ends: `P` in any case, and `Q` of its value if there is one.
pub data Ends {A W : Type 0} (P : W → Type 0) (Q : A → W → Type 0) : Result A × W → Type 0 where
  ended : {a : A} {w : W} → P w → Q a w → Ends P Q (returns a, w)
  broken : {e : Text} {w : W} → P w → Ends P Q (fails e, w)

module _ {A W : Type 0} {P : W → Type 0} {Q : A → W → Type 0} where
  pub Ends-intro : (m : Result A × W) → P m.1 → ((a : A) → m.0 ≡ returns a → Q a m.1) → Ends P Q m
  Ends-intro (returns a, w) p q = ended p (q a refl)
  Ends-intro (fails e, w) p q = broken p

  Ends-wrap : (what : Text) (m : Result A × W) → Ends P Q m → Ends P Q (wrap what m)
  Ends-wrap what (returns a, w) h = h
  Ends-wrap what (fails e, w) (broken p) = broken p

  pub Ends-weaken :
      {P' : W → Type 0} {Q' : A → W → Type 0} (m : Result A × W)
      → Ends P Q m
      → ((w : W) → P w → P' w)
      → ((a : A) (w : W) → P w → Q a w → Q' a w)
      → Ends P' Q' m
  Ends-weaken (returns a, w) (ended p q) f g = ended (f w p) (g a w p q)
  Ends-weaken (fails e, w) (broken p) f g = broken (f w p)

  pub Ends-and_then :
      {B : Type 0} {P' : W → Type 0} {R : B → W → Type 0} (m : Result A × W)
      (f : A → W → Result B × W)
      → Ends P Q m
      → ((w : W) → P w → P' w)
      → ((a : A) (w : W) → P w → Q a w → Ends P' R (f a w))
      → Ends P' R (and_then m f)
  Ends-and_then (returns a, w) f (ended p q) weaker next = next a w p q
  Ends-and_then (fails e, w) f (broken p) weaker next = broken (weaker w p)

-- A line with a line feed after it, and nothing for an empty one.
abbrev pub ended_line : Text → Text
ended_line [] = []
ended_line (c ∷ l) = (c ∷ l) ++ 10 ∷ []

-- What is to be written of a file: its lines, trimmed, without the empty ones.
unfoldable pub log_text : List Text → Text
log_text [] = []
log_text (l ∷ ls) = ended_line (trim_space l) ++ log_text ls

module _ (limit : ℕ) where
  abbrev pub file_text : Result Source → Text
  file_text (fails e) = []
  file_text (returns f) = log_text (lines_of limit f)

module _ (env : Env) (laws : EnvLaws env) (limit : ℕ) where
  abbrev pub SameFiles : env.World → env.World → Type 0
  SameFiles w w' = (q : Text) → env.open_file q w' ≡ env.open_file q w

  after : (v w w0 : env.World) → SameFiles w0 v → SameFiles v w → SameFiles w0 w
  after v w w0 e f = λ q. f q ∙ e q

  -- The writer after `t` was written to `x`.
  abbrev Grown : env.Writer → Text → env.Writer → env.World → Type 0
  Grown x t y w = (laws.target y ≡ laws.target x) × (laws.written y ≡ laws.written x ++ t)

  write_line-Grown :
      (l : Text) (x : env.Writer) (w : env.World)
      → Ends (SameFiles w) (Grown x (ended_line l)) (write_line env l x w)
  write_line-Grown [] x w = ended (λ q. refl) (refl, sym (append-nil (laws.written x)))
  write_line-Grown (c ∷ l) x w =
      Ends-intro (env.write x (line_break (c ∷ l)) w) (laws.write_keeps x _ w)
        (laws.write_done x (line_break (c ∷ l)) w)

  Grown-append :
      (x y z : env.Writer) (s t : Text) (w w' : env.World)
      → Grown x s y w
      → Grown y t z w'
      → Grown x (s ++ t) z w'
  Grown-append x y z s t w w' (e, g) (f, h) =
      (f ∙ e, h ∙ ap (λ r. r ++ t) g ∙ append_assoc (laws.written x) s t)

  write_lines-Grown :
      (ls : List Text) (x : env.Writer) (w w0 : env.World)
      → SameFiles w0 w
      → Ends (SameFiles w0) (Grown x (log_text ls)) (write_lines env ls x w)
  unfolding write_lines log_text
  write_lines-Grown [] x w w0 same = ended same (refl, sym (append-nil (laws.written x)))
  write_lines-Grown (l ∷ ls) x w w0 same =
      Ends-and_then (write_line env (trim_space l) x w) (write_lines env ls)
        (write_line-Grown (trim_space l) x w) (λ v later. after w v w0 same later)
        (λ y v later grown.
          Ends-weaken (write_lines env ls y v)
            (write_lines-Grown ls y v w0 (after w v w0 same later)) (λ u p. p)
            (λ z u p more.
              Grown-append x y z (ended_line (trim_space l)) (log_text ls) v u grown more))

  close_source-Ends :
      {P : env.World → Type 0} {Q : env.Writer → env.World → Type 0} (src : Text) (r : Result Unit)
      (m : Result env.Writer × env.World)
      → Ends P Q m
      → Ends P Q (close_source env src r m)
  close_source-Ends src (returns u) m h = h
  close_source-Ends src (fails e) (returns x, w) (ended p q) = broken p
  close_source-Ends src (fails e) (fails f, w) (broken p) = broken p

  buffer_write-Grown :
      (src : Text) (x : env.Writer) (w w0 : env.World)
      → SameFiles w0 w
      → Ends
          (SameFiles w0)
          (Grown x (file_text limit (env.open_file src w0)))
          (buffer_write_to_bucket env limit x src w)
  unfolding buffer_write_to_bucket
  buffer_write-Grown src x w w0 same =
      subst
        (λ o.
          Ends (SameFiles w0) (Grown x (file_text limit o))
            (buffer_write_to_bucket env limit x src w))
        (same src) (by_answer (env.open_file src w))
    where
      by_answer :
          (o : Result Source)
          → Ends (SameFiles w0) (Grown x (file_text limit o)) (elim o [
            | fails e ↦ (fails e, w)
            | returns f ↦ close_source env src f.closing (write_lines env (lines_of limit f) x w)
          ])
      by_answer (fails e) = broken same
      by_answer (returns f) =
          close_source-Ends src f.closing _ (write_lines-Grown (lines_of limit f) x w w0 same)

  -- What is written of the files of a directory.
  abbrev pub combined : List Text → env.World → Text
  combined [] w = []
  combined (p ∷ ps) w = file_text limit (env.open_file p w) ++ combined ps w

  write_files-Grown :
      (tgt : Text) (paths : List Text) (x : env.Writer) (w w0 : env.World)
      → SameFiles w0 w
      → Ends (SameFiles w0) (Grown x (combined paths w0)) (write_files env limit tgt paths x w)
  unfolding write_files
  write_files-Grown tgt [] x w w0 same = ended same (refl, sym (append-nil (laws.written x)))
  write_files-Grown tgt (p ∷ ps) x w w0 same =
      Ends-and_then _ (write_files env limit tgt ps)
        (Ends-wrap (codes "failed to upload file to blobstore: " ++ (tgt ++ codes ", ")) _
          (buffer_write-Grown p x w w0 same))
        (λ v later. later)
        (λ y v later grown.
          Ends-weaken (write_files env limit tgt ps y v) (write_files-Grown tgt ps y v w0 later)
            (λ u p. p) (λ z u p more. Grown-append x y z _ _ v u grown more))

  -- An attempt whose Close succeeds has stored the lines of all files.
  pub attempt-stored :
      (tgt : Text) (paths : List Text) (w w0 : env.World)
      → SameFiles w0 w
      → Ends
          (SameFiles w0)
          (λ closing v. closing ≡ returns tt → laws.stored v tgt ≡ some (combined paths w0))
          (attempt env limit tgt paths w)
  unfolding attempt
  attempt-stored tgt paths w w0 same =
      Ends-and_then {Q = λ x v. (laws.target x ≡ tgt) × (laws.written x ≡ [])}
        (env.new_writer tgt w) _
        (Ends-intro (env.new_writer tgt w) (after w _ w0 same (laws.new_writer_keeps tgt w))
          (laws.new_writer_done tgt w))
        (λ v p. p)
        (λ x v p fresh.
          Ends-and_then (write_files env limit tgt paths x v) _
            (write_files-Grown tgt paths x v w0 p) (λ u q. q)
            (λ y u q grown. ended (after u _ w0 q (laws.close_keeps y u)) (λ fine.
              subst (λ t. laws.stored (env.close y u).1 t ≡ some (combined paths w0))
                (grown.0 ∙ fresh.0)
                (laws.close_done y u fine
                  ∙ ap some (grown.1 ∙ ap (λ r. r ++ combined paths w0) fresh.1)))))
