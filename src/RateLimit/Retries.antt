-- ===== src/RateLimit/Retries.antt =====
-- Which responses RoundTrip retries.
use terraform_cloudrun_glue.Base.{
  ℕ, zero, suc, ◌+◌, ◌<◌, ◌≡◌, ◌≢◌, refl, ap, subst, ◌∙◌, true, false, not, ◌&&◌, inl, inr, ◌⊎◌,
  arith, ℤ, ◌==◌,
}
use terraform_cloudrun_glue.RateLimit.{
  Limiter, Response, response, waiting, Attempt, answers, limit_pause, pause_for, process_limit,
  round_trip,
}

-- The responses that count as a limit.
abbrev pub IsRefusal : Response → Type 0
IsRefusal r = (r.status_code ≡ 403) ⊎ (r.status_code ≡ 429)

refused :
    (d now : ℤ) (r : Response) (l : Limiter)
    → IsRefusal r
    → process_limit d now r l ≡ (true, pause_for now (limit_pause d now r) l)
unfolding process_limit
refused d now r l (inl e) =
    let h : (not (r.status_code == 403) && not (r.status_code == 429)) ≡ false = ground arith in
    rw h refl
refused d now r l (inr e) =
    let h : (not (r.status_code == 403) && not (r.status_code == 429)) ≡ false = ground arith in
    rw h refl

let_through :
    (d now : ℤ) (r : Response) (l : Limiter)
    → r.status_code ≢ 403
    → r.status_code ≢ 429
    → process_limit d now r l ≡ (false, l)
unfolding process_limit
let_through d now r l m n =
    let h : (not (r.status_code == 403) && not (r.status_code == 429)) ≡ true = ground arith in
    rw h refl

-- An attempt whose response counts as a limit.
abbrev pub IsRefused : Attempt → Type 0
IsRefused a = (now : ℤ) × (r : Response) × (a ≡ answers now r) × IsRefusal r

module _ (d : ℤ) (attempt : ℕ → Attempt) where
  retries :
      (fuel i : ℕ) (l : Limiter)
      → IsRefused (attempt i)
      → (l' : Limiter) × (round_trip d (suc fuel) attempt i l
          ≡ round_trip d fuel attempt (suc i) l')
  unfolding round_trip
  retries fuel i l (now, r, e, f) = (
    pause_for now (limit_pause d now r) l,
    rw (e, round_trip)
        (rw (refused d now r l f)
          (ap (λ x. round_trip d fuel attempt (suc i) x.1) (refused d now r l f))),
  )

  ends :
      (fuel i : ℕ) (l : Limiter) (now : ℤ) (r : Response)
      → attempt i ≡ answers now r
      → r.status_code ≢ 403
      → r.status_code ≢ 429
      → (round_trip d (suc fuel) attempt i l).0 ≡ response r
  unfolding round_trip
  ends fuel i l now r e m n = rw (e, round_trip) (rw (let_through d now r l m n) refl)

  -- RoundTrip returns the first response whose status is neither 403 nor 429, after as many retries
  -- as refusals came before it, and it needs no more attempts than that.
  pub round_trip-first :
      (k fuel i : ℕ) (l : Limiter) (now : ℤ) (r : Response)
      → ((j : ℕ) → j < k → IsRefused (attempt (i + j)))
      → attempt (i + k) ≡ answers now r
      → r.status_code ≢ 403
      → r.status_code ≢ 429
      → k < fuel
      → (round_trip d fuel attempt i l).0 ≡ response r
  round_trip-first k zero i l now r h e m n f = absurd (omega arith)
  round_trip-first zero (suc fuel) i l now r h e m n f =
      ends fuel i l now r (subst (λ n. attempt n ≡ answers now r) (omega arith) e) m n
  round_trip-first (suc k) (suc fuel) i l now r h e m n f =
      let (l', same) =
        retries fuel i l (subst (λ n. IsRefused (attempt n)) (omega arith) (h 0 (omega arith))) in
      ap (λ x. x.0) same
      ∙ round_trip-first k fuel (suc i) l' now r
          (λ j b. subst (λ n. IsRefused (attempt n)) (shift j) (h (suc j) (omega arith)))
          (subst (λ n. attempt n ≡ answers now r) (shift k) e) m n (omega arith)
    where
      shift : (j : ℕ) → i + suc j ≡ suc i + j
      shift j = omega arith

  -- While every response has the status 403 or 429, whatever its headers say, RoundTrip goes on
  -- retrying: it returns none of them, also where the 403 is no rate limit.
  pub round_trip-waits :
      (fuel i : ℕ) (l : Limiter)
      → ((j : ℕ) → IsRefused (attempt j))
      → (round_trip d fuel attempt i l).0 ≡ waiting
  unfolding round_trip
  round_trip-waits zero i l h = refl
  round_trip-waits (suc fuel) i l h =
      let (l', same) = retries fuel i l (h i) in
      ap (λ x. x.0) same ∙ round_trip-waits fuel (suc i) l' h
