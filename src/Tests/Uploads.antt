-- ===== src/Tests/Uploads.antt =====
-- A file system and a bucket in memory, whose first Close fails.
use terraform_cloudrun_glue.Base.{
  ℕ, zero, suc, ◌≡◌, ◌≢◌, refl, sym, ap, true, false, Option, none, some, List, [], ◌∷◌, ◌++◌,
  Bool-cases, inl, inr, Text, codes, text_eq, text_eq_iff, Dict, lookup, insert, delete, map, All,
  arith, lookup-insert_self, lookup-delete_other, Result, returns, fails,
}
use terraform_cloudrun_glue.Rotate.{Env, Source, upload}
use terraform_cloudrun_glue.Rotate.Writes.{EnvLaws, Ends}
use terraform_cloudrun_glue.Rotate.Logs.{unlines, IsLog, IsSafe, IsMoved, path_of, upload-IsSafe}

pub record Disk : Type 0 where
  pub files : Dict Text
  pub objects : Dict Text
  pub failures : ℕ

abbrev source_of : Option Text → Result Source
source_of none = fails (codes "no such file")
source_of (some t) = returns (record { content = t; closing = returns tt })

abbrev close_at : ℕ → Text × Text → Disk → Result Unit × Disk
close_at (suc n) x w = (fails (codes "busy"), record w { failures = n })
close_at zero x w = (returns tt, record w { objects = insert x.0 x.1 w.objects })

abbrev disk : Env
disk = record {
  World = Disk;
  Writer = Text × Text;
  join = λ a b. a ++ b;
  walk_dir =
      λ source w. returns (record { is_regular = true; rel_path = returns (codes "d/a") }) ∷ [];
  open_file = λ p w. source_of (lookup p w.files);
  remove = λ p w. (returns tt, record w { files = delete p w.files });
  open_bucket = λ w. (returns tt, w);
  new_writer = λ n w. (returns (n, []), w);
  write = λ x t w. (returns (x.0, x.1 ++ t), w);
  close = λ x w. close_at w.failures x w;
}

close_at-files : (n : ℕ) (x : Text × Text) (w : Disk) → (close_at n x w).1.files ≡ w.files
close_at-files zero x w = refl
close_at-files (suc n) x w = refl

close_at-done :
    (n : ℕ) (x : Text × Text) (w : Disk)
    → (close_at n x w).0 ≡ returns tt
    → lookup x.0 (close_at n x w).1.objects ≡ some x.1
close_at-done zero x w e = lookup-insert_self x.0 x.1 w.objects
close_at-done (suc n) x w e = absurd (cc)

disk_laws : EnvLaws disk
disk_laws = record {
  stored = λ w n. lookup n w.objects;
  target = λ x. x.0;
  written = λ x. x.1;
  new_writer_keeps = λ n w q. refl;
  new_writer_done = λ n w x e. (sym (of_pair x e).0, sym (of_pair x e).1);
  write_keeps = λ x t w q. refl;
  write_done = λ x t w y e. (sym (of_pair y e).0, sym (of_pair y e).1);
  close_keeps = λ x w q. ap (λ f. source_of (lookup q f)) (close_at-files w.failures x w);
  close_done = λ x w e. close_at-done w.failures x w e;
  remove_others = λ p w q h. ap source_of (lookup-delete_other q p w.files (differs p q h));
  remove_stored = λ p w n. refl;
}
  where
    of_pair :
        {a b : Text} (x : Text × Text)
        → ◌≡◌ {A = Result (Text × Text)} (returns (a, b)) (returns x)
        → (a ≡ x.0) × (b ≡ x.1)
    of_pair x e = (cc, cc)

    differs : (p q : Text) → p ≢ q → text_eq p q ≡ false
    differs p q h = elim (Bool-cases (text_eq p q)) [
      | inl e ↦ absurd (h ((text_eq_iff p q).0 e))
      | inr e ↦ e
    ]

-- Two files, and one failure to come.
abbrev logs : Disk
logs = record {
  files = (codes "a", codes "x\n\n y\n") ∷ (codes "b", codes "z\n") ∷ [];
  objects = [];
  failures = 1;
}

abbrev lines : List (Text × List Text)
lines = (codes "a", codes "x" ∷ [] ∷ codes " y" ∷ []) ∷ (codes "b", codes "z" ∷ []) ∷ []

lines-IsLog : All (IsLog disk disk_laws 9 logs) lines
unfolding lookup text_eq unlines
lines-IsLog = (
  (
    record { content = codes "x\n\n y\n"; closing = returns tt },
    refl,
    refl,
    (
      (((omega arith, omega arith), tt), omega arith),
      (
        (tt, omega arith),
        ((((omega arith, omega arith), ((omega arith, omega arith), tt)), omega arith), tt),
      ),
    ),
  ),
  (
    (
      record { content = codes "z\n"; closing = returns tt },
      refl,
      refl,
      ((((omega arith, omega arith), tt), omega arith), tt),
    ),
    tt,
  ),
)

upload-IsSafe_example :
    Ends
      (IsSafe disk disk_laws 9 (codes "o") lines logs)
      (IsMoved disk disk_laws 9 (codes "o") lines)
      (upload disk 3 9 (codes "n") (codes "o") (map path_of lines) logs)
upload-IsSafe_example =
    upload-IsSafe disk disk_laws 9 2 (codes "n") (codes "o") lines logs lines-IsLog
