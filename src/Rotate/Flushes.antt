-- ===== src/Rotate/Flushes.antt =====
-- Which rounds Run makes.
use terraform_cloudrun_glue.Base.{
  ℕ, ◌≡◌, refl, Bool, true, false, Option, some, List, [], ◌∷◌, ◌++◌, map, ℤ, Text, Result, returns,
  fails,
}
use terraform_cloudrun_glue.Rotate.{Env, and_then, run_round, run}

module _ (env : Env) (source : Text) where
  -- One round after another, up to the first error.
  unfoldable pub all_rounds : List ℤ → env.World → Result Unit × env.World
  all_rounds [] w = (returns tt, w)
  all_rounds (now ∷ nows) w = and_then (run_round env source now w) (λ n v. all_rounds nows v)

  by_round :
      (m : Result ℕ × env.World) (f : env.World → Option (Result Unit × env.World))
      (g : env.World → Result Unit × env.World)
      → ((v : env.World) → f v ≡ some (g v))
      → elim m.0 [ fails e ↦ some (fails e, m.1) | returns n ↦ f m.1 ]
        ≡ some (and_then m (λ n v. g v))
  by_round (returns n, v) f g h = h v
  by_round (fails e, v) f g h = refl

  -- Run makes a round before each select and one more after the select that finds the context done,
  -- and then returns; it returns earlier only with the error of a round.
  pub run-all_rounds :
      (nows : List ℤ) (now last : ℤ) (c : Bool) (more : List (ℤ × Bool)) (w : env.World)
      → run env false source (map (λ t. (t, false)) nows ++ (now, true) ∷ (last, c) ∷ more) w
        ≡ some (all_rounds (nows ++ now ∷ last ∷ []) w)
  unfolding run all_rounds
  run-all_rounds [] now last c more w =
      by_round (run_round env source now w) (λ v. run env true source ((last, c) ∷ more) v)
        (all_rounds (last ∷ []))
        (λ v.
          by_round (run_round env source last v) (λ u. some (returns tt, u)) (all_rounds [])
            (λ u. refl))
  run-all_rounds (t ∷ nows) now last c more w =
      by_round (run_round env source t w)
        (λ v. run env false source (map (λ t. (t, false)) nows ++ (now, true) ∷ (last, c) ∷ more) v)
        (all_rounds (nows ++ now ∷ last ∷ [])) (λ v. run-all_rounds nows now last c more v)
