-- ===== src/Tests/Limits.antt =====
-- The rate limiter and the check run's output at concrete inputs.
use terraform_cloudrun_glue.Base.{
  ℕ, ◌≡◌, refl, subst, ◌+◌, false, true, some, [], ◌∷◌, ◌++◌, ◌⊎◌, inl, inr, Memᴰ, ◌<◌, ◌≤◌, ◌-◌,
  pos, codes, take, length, arith, ◌==◌, if◌then◌else◌,
}
use terraform_cloudrun_glue.RateLimit.{
  Limiter, new_limiter, holds, pause_for, Response, response, waiting, Attempt, answers, round_trip,
}
use terraform_cloudrun_glue.RateLimit.Pauses.{Step, Reach, Reach-released}
use terraform_cloudrun_glue.RateLimit.Retries.{IsRefused, round_trip-first, round_trip-waits}
use terraform_cloudrun_glue.CheckRun.{new_builder, max_check_output_length, truncation_message}
use terraform_cloudrun_glue.CheckRun.Limit.{all_lines, write_all, write_all-truncates}

abbrev paused : Limiter
paused = pause_for (pos 10) (pos 60) new_limiter

Reach-released_example :
    (paused.panicked ≡ false)
    × ((c : ℕ)
        → c < paused.made
        → (holds c paused.closed ≡ true)
          ⊎ ((paused.pause_ch ≡ some c) × Memᴰ (c, paused.pause_until) paused.timers))
Reach-released_example =
    Reach-released paused (Reach.steps Reach.starts (Step.pauses (pos 10) (pos 60)))

abbrev with_status : ℕ → Response
with_status n = record { status_code = n; header = λ name. [] }

-- One refusal, then an answer.
abbrev one_refusal : ℕ → Attempt
one_refusal i = answers (pos i) (with_status (if i == 0 then 429 else 200))

IsRefused-first : (j : ℕ) → j < 1 → IsRefused (one_refusal (0 + j))
IsRefused-first j h =
    let first : 0 ≡ 0 + j = omega arith in
    subst (λ n. IsRefused (one_refusal n)) first (pos 0, with_status 429, refl, inr refl)

round_trip-first_example :
    (round_trip (pos 60) 2 one_refusal 0 new_limiter).0 ≡ response (with_status 200)
round_trip-first_example =
    round_trip-first (pos 60) one_refusal 1 2 0 new_limiter (pos 1) (with_status 200)
      IsRefused-first refl (λ h. omega arith) (λ h. omega arith) (omega arith)

abbrev forbidden : ℕ → Attempt
forbidden i = answers (pos i) (with_status 403)

round_trip-waits_example : (round_trip (pos 60) 9 forbidden 0 new_limiter).0 ≡ waiting
round_trip-waits_example =
    round_trip-waits (pos 60) forbidden 9 0 new_limiter
      (λ j. (pos j, with_status 403, refl, inl refl))

write_all-truncates_example :
    (length (write_all (codes "a" ∷ codes "b" ∷ []) (new_builder (codes "n") (codes "s"))).md
      ≤ max_check_output_length)
    × ((length (all_lines (codes "a" ∷ codes "b" ∷ [])) ≤ max_check_output_length
          → (write_all (codes "a" ∷ codes "b" ∷ []) (new_builder (codes "n") (codes "s"))).md
            ≡ all_lines (codes "a" ∷ codes "b" ∷ []))
        × (max_check_output_length < length (all_lines (codes "a" ∷ codes "b" ∷ []))
            → (write_all (codes "a" ∷ codes "b" ∷ []) (new_builder (codes "n") (codes "s"))).md
              ≡ take
                  (max_check_output_length - length truncation_message)
                  (all_lines (codes "a" ∷ codes "b" ∷ []))
                ++ truncation_message))
write_all-truncates_example =
    write_all-truncates (codes "a" ∷ codes "b" ∷ []) (codes "n") (codes "s")
