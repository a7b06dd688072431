-- ===== src/Dispatcher/Plan.antt =====
-- Which keys a round launches.
use terraform_cloudrun_glue.Base.{
  ℕ, zero, suc, ◌-◌, ◌≡◌, refl, ap, true, not, List, [], ◌∷◌, Text, Dict, keep, take, length, arith,
  Bool-cases, inl, inr, leb,
}
use terraform_cloudrun_glue.Dispatcher.{Observed, active_keys, is_active, launch, plan}

launch-take :
    (active : Dict (Unit {0})) (slots : ℕ) (next : List Text)
    → launch active slots next ≡ take slots (keep (λ k. not (is_active active k)) next)
unfolding launch
launch-take active zero [] = refl
launch-take active (suc slots) [] = refl
launch-take active zero (name ∷ next) = refl
launch-take active (suc slots) (name ∷ next) = elim (Bool-cases (is_active active name)) [
  | inl e ↦ rw (e, launch) (launch-take active (suc slots) next)
  | inr e ↦ rw (e, launch) (ap (◌∷◌ name) (launch-take active slots next))
]

-- A round launches, in the order that the queue gives, the candidates that are not in progress, as
-- many as there are slots left of the concurrency: none is skipped, and none is launched when the
-- active keys fill the slots or exceed them.
pub plan-take :
    (wip : List Observed) (next : List Text) (concurrency : ℕ)
    → (plan wip next concurrency).1
      ≡ take
          (concurrency - length (active_keys wip []))
          (keep (λ k. not (is_active (active_keys wip []) k)) next)
unfolding plan
plan-take wip next concurrency = elim (Bool-cases (leb concurrency (length (active_keys wip [])))) [
  | inl full ↦ rw (full, no_slots full) refl
  | inr room ↦
      rw room (launch-take (active_keys wip []) (concurrency - length (active_keys wip [])) next)
]
  where
    no_slots :
        leb concurrency (length (active_keys wip [])) ≡ true
        → concurrency - length (active_keys wip []) ≡ 0
    no_slots full = ground arith
