-- ===== src/Rotate/Uploads.antt =====
-- What a round leaves of the logs.
use terraform_cloudrun_glue.Base.{
  ℕ, zero, suc, ◌+◌, ◌≡◌, refl, sym, ap, subst, ◌∙◌, false, Option, none, some, List, [], ◌∷◌, inl,
  inr, ◌⊎◌, Memᴰ, Text, text_eq, text_eq_iff, Bool-cases, length, Result, returns, fails, arith,
}
use terraform_cloudrun_glue.Rotate.{Env, count_removed, remove_files, removed, upload}
use terraform_cloudrun_glue.Rotate.Writes.{
  EnvLaws, Ends, broken, Ends-intro, Ends-and_then, SameFiles, combined, attempt-stored,
}

module _ (env : Env) (laws : EnvLaws env) (limit : ℕ) where
  remove_files-others :
      (paths : List Text) (done : ℕ × Option Text) (w : env.World) (q : Text)
      → (env.open_file q (remove_files env paths done w).1 ≡ env.open_file q w) ⊎ Memᴰ q paths
  unfolding remove_files
  remove_files-others [] done w q = inl refl
  remove_files-others (p ∷ ps) done w q = elim (remove_files-others ps _ (env.remove p w).1 q) [
    | inr m ↦ inr (Memᴰ.tail m)
    | inl e ↦ elim (Bool-cases (text_eq p q)) [
      | inl same ↦ inr (Memᴰ.head (sym ((text_eq_iff p q).0 same)))
      | inr other ↦ inl (e ∙ laws.remove_others p w q (λ h. apart h other))
    ]
  ]
    where
      apart : p ≡ q → text_eq p q ≡ false → ⊥
      apart h other = let t = (text_eq_iff p q).1 h in cc

  remove_files-stored :
      (paths : List Text) (done : ℕ × Option Text) (w : env.World) (n : Text)
      → laws.stored (remove_files env paths done w).1 n ≡ laws.stored w n
  unfolding remove_files
  remove_files-stored [] done w n = refl
  remove_files-stored (p ∷ ps) done w n =
      remove_files-stored ps _ (env.remove p w).1 n ∙ laws.remove_stored p w n

  remove_files-count :
      (paths : List Text) (k : ℕ) (err : Option Text) (w : env.World) (n : ℕ)
      → (removed env (remove_files env paths (k, err) w)).0 ≡ returns n
      → (err ≡ none) × (n ≡ k + length paths)
  unfolding remove_files
  remove_files-count [] k none w n e = let h : k ≡ n = cc in (refl, omega arith)
  remove_files-count [] k (some f) w n e = let h = e in absurd (cc)
  remove_files-count (p ∷ ps) k err w n e = elim (answers (env.remove p w).0) [
    | inl f ↦
        let (g, h) = remove_files-count ps (suc k) err (env.remove p w).1 n (known _ f e) in
        (g, omega arith)
    | inr (m, f) ↦
        let (g, h) = remove_files-count ps k (some _) (env.remove p w).1 n (known _ f e) in
        absurd (cc)
  ]
    where
      answers : (r : Result Unit) → (r ≡ returns tt) ⊎ ((m : Text) × (r ≡ fails m))
      answers (returns u) = inl refl
      answers (fails m) = inr (m, refl)

      known :
          (r : Result Unit)
          → (env.remove p w).0 ≡ r
          → (removed env (
              remove_files env ps
                (count_removed env p (env.remove p w).0 (k, err))
                (env.remove p w).1)).0
            ≡ returns n
          → (removed env
              (remove_files env ps (count_removed env p r (k, err)) (env.remove p w).1)).0
            ≡ returns n
      known r f e =
          subst
            (λ r.
              (removed env
                (remove_files env ps (count_removed env p r (k, err)) (env.remove p w).1)).0
              ≡ returns n)
            f e

  -- A file is as it was, or it is one of those of which the object has what the scanner gives.
  abbrev pub Safe : Text → List Text → env.World → env.World → Type 0
  Safe tgt paths w0 w =
      (q : Text)
      → (env.open_file q w ≡ env.open_file q w0)
        ⊎ (Memᴰ q paths × (laws.stored w tgt ≡ some (combined env laws limit paths w0)))

  -- All the files are removed, and what the scanner gives of them is stored.
  abbrev pub Moved : Text → List Text → env.World → ℕ → env.World → Type 0
  Moved tgt paths w0 n w =
      (n ≡ length paths) × (laws.stored w tgt ≡ some (combined env laws limit paths w0))

  removes :
      (tgt : Text) (paths : List Text) (w w0 : env.World)
      → SameFiles env laws limit w0 w
      → laws.stored w tgt ≡ some (combined env laws limit paths w0)
      → Ends
          (Safe tgt paths w0)
          (Moved tgt paths w0)
          (removed env (remove_files env paths (0, none) w))
  removes tgt paths w w0 same stored =
      let m = remove_files env paths (0, none) w in
      let kept = remove_files-stored paths (0, none) w tgt ∙ stored in
      let safe : Safe tgt paths w0 m.1 = λ q. elim (remove_files-others paths (0, none) w q) [
        | inl e ↦ inl (e ∙ same q)
        | inr member ↦ inr (member, kept)
      ] in
      Ends-intro (removed env m) (subst (Safe tgt paths w0) (sym (world m)) safe) (λ n e. (
        (remove_files-count paths 0 none w n e).1 ∙ omega arith,
        ap (λ v. laws.stored v tgt) (world m) ∙ kept,
      ))
    where
      world : (m : (ℕ × Option Text) × env.World) → (removed env m).1 ≡ m.1
      world ((n, none), v) = refl
      world ((n, some e), v) = refl

  finishes :
      (tgt : Text) (paths : List Text) (w0 v : env.World) (closing : Result Unit)
      (later : Text → Result ℕ × env.World)
      → SameFiles env laws limit w0 v
      → (closing ≡ returns tt → laws.stored v tgt ≡ some (combined env laws limit paths w0))
      → ((e : Text) → Ends (Safe tgt paths w0) (Moved tgt paths w0) (later e))
      → Ends (Safe tgt paths w0) (Moved tgt paths w0) (elim closing [
        | returns u ↦ removed env (remove_files env paths (0, none) v)
        | fails e ↦ later e
      ])
  finishes tgt paths w0 v (returns u) later p done h = removes tgt paths v w0 p (done refl)
  finishes tgt paths w0 v (fails e) later p done h = h e

  -- Whatever of the files the scanner gives is stored before one of them is removed.
  pub upload-Safe :
      (left : ℕ) (name tgt : Text) (paths : List Text) (w w0 : env.World)
      → SameFiles env laws limit w0 w
      → Ends (Safe tgt paths w0) (Moved tgt paths w0) (upload env (suc left) limit name tgt paths w)
  unfolding upload
  upload-Safe zero name tgt paths w w0 same =
      Ends-and_then _ _ (attempt-stored env laws limit tgt paths w w0 same) (λ v p q. inl (p q))
        (λ closing v p done.
          finishes tgt paths w0 v closing _ p done (λ e. broken (λ q. inl (p q))))
  upload-Safe (suc n) name tgt paths w w0 same =
      Ends-and_then _ _ (attempt-stored env laws limit tgt paths w w0 same) (λ v p q. inl (p q))
        (λ closing v p done.
          finishes tgt paths w0 v closing _ p done (λ e. upload-Safe n name tgt paths v w0 p))
