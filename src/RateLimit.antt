-- ===== src/RateLimit.antt =====
-- modules/github-bots/sdk/ratelimit.go: the round tripper that waits when GitHub limits the rate.
pub mod Pauses
pub mod Retries
use terraform_cloudrun_glue.Base.{
  ℕ, zero, suc, ◌-◌, ◌*◌, ◌^◌, ◌≡◌, Bool, true, false, not, ◌&&◌, ◌||◌, Option, none, some, List,
  [], ◌∷◌, ◌++◌, if◌then◌else◌, ℤ, pos, negsuc, ◌+ℤ◌, ◌*ℤ◌, ltb_ℤ, eqb_ℤ, wrap64, Text, codes,
  text_eq, parse_int, ◌==◌,
}
use terraform_cloudrun_glue.Workqueue.{second}

-- time.Time{} is the first second of year 1; times are nanoseconds after 1970.
abbrev pub zero_second : ℤ
zero_second = negsuc 62135596799

abbrev pub zero_time : ℤ
zero_time = zero_second *ℤ pos second

-- `made` counts the channels made, each of which has the number that the count was; `closed` lists
-- those that were closed, and `timers` the goroutines that sleep, each with its channel and the time
-- it sleeps to. A second close of a channel panics.
pub record Limiter : Type 0 where
  pub pause_until : ℤ
  pub pause_ch : Option ℕ
  pub made : ℕ
  pub closed : List ℕ
  pub timers : List (ℕ × ℤ)
  pub panicked : Bool

abbrev pub new_limiter : Limiter
new_limiter = record {
  pause_until = zero_time;
  pause_ch = none;
  made = 0;
  closed = [];
  timers = [];
  panicked = false;
}

abbrev pub holds : ℕ → List ℕ → Bool
holds c [] = false
holds c (d ∷ l) = c == d || holds c l

unfoldable pub close : ℕ → Limiter → Limiter
close c l = record l { closed = c ∷ l.closed; panicked = l.panicked || holds c l.closed }

abbrev pub close_old : Option ℕ → Limiter → Limiter
close_old none l = l
close_old (some c) l = close c l

-- The new channel of a pause, with its goroutine.
abbrev pub renewed : ℤ → Limiter → Limiter
renewed until l = record l {
  pause_until = until;
  pause_ch = some l.made;
  made = suc l.made;
  timers = (l.made, until) ∷ l.timers;
}

unfoldable pub pause_for : ℤ → ℤ → Limiter → Limiter
unfolding close
pause_for now d l =
    if ltb_ℤ l.pause_until (now +ℤ d) then renewed (now +ℤ d) (close_old l.pause_ch l) else l

abbrev pub is_current : ℕ → Option ℕ → Bool
is_current ch none = false
is_current ch (some c) = ch == c

-- The goroutine of the channel when its timer fires.
unfoldable pub fire : ℕ → Limiter → Limiter
unfolding close
fire ch l =
    if is_current ch l.pause_ch
    then record (close ch l) { pause_ch = none; pause_until = zero_time }
    else l

-- What processLimit reads of a response.
pub record Response : Type 0 where
  pub status_code : ℕ
  pub header : Text → Text

-- The Atoi of a header, or zero where it is absent or no number.
unfoldable pub number_header : Text → Response → ℤ
unfolding text_eq parse_int
number_header name r =
    let v = r.header name in
    if text_eq v [] then pos 0 else let (n, fine) = parse_int v in if fine then n else pos 0

-- The second of the reset header, or that of time.Time{}.
unfoldable pub reset_second : Response → ℤ
unfolding text_eq parse_int
reset_second r =
    let v = r.header (codes "X-Ratelimit-Reset") in
    if text_eq v []
    then zero_second
    else let (n, fine) = parse_int v in if fine then n else zero_second

-- time.Until, which stops at the ends of a Duration.
abbrev clamp64 : ℤ → ℤ
clamp64 d =
    if ltb_ℤ (pos (2 ^ 63 - 1)) d
    then pos (2 ^ 63 - 1)
    else if ltb_ℤ d (negsuc (2 ^ 63 - 1))
    then negsuc (2 ^ 63 - 1)
    else d

-- How long processLimit pauses for a response that it takes for a limit.
unfoldable pub limit_pause : ℤ → ℤ → Response → ℤ
unfolding number_header reset_second
limit_pause default_retry_after now r =
    let retry_after = wrap64 (number_header (codes "Retry-After") r *ℤ pos second) in
    let remaining = number_header (codes "X-Ratelimit-Remaining") r in
    let reset = reset_second r in
    if ltb_ℤ (pos 0) retry_after
    then retry_after
    else if eqb_ℤ remaining (pos 0) && not (eqb_ℤ reset zero_second)
    then clamp64 ((reset *ℤ pos second) +ℤ (negsuc 0 *ℤ now))
    else default_retry_after

unfoldable pub process_limit : ℤ → ℤ → Response → Limiter → Bool × Limiter
unfolding limit_pause pause_for
process_limit default_retry_after now r l =
    if not (r.status_code == 403) && not (r.status_code == 429)
    then (false, l)
    else (true, pause_for now (limit_pause default_retry_after now r) l)

-- How a call of RoundTrip ends; `waiting` is a call that made as many attempts as the fuel allows.
pub data Trip : Type 0 where
  response : Response → Trip
  fails : Trip
  waiting : Trip

-- What an attempt meets: the wait for the limiter fails, the base fails, or the base answers at a
-- time.
pub data Attempt : Type 0 where
  wait_fails : Attempt
  base_fails : Attempt
  answers : (now : ℤ) → Response → Attempt

-- RoundTrip, one unit of fuel for each attempt; `attempt` gives what each attempt meets.
unfoldable pub round_trip : ℤ → ℕ → (ℕ → Attempt) → ℕ → Limiter → Trip × Limiter
unfolding process_limit
round_trip default_retry_after zero attempt i l = (waiting, l)
round_trip default_retry_after (suc fuel) attempt i l = elim (attempt i) [
  | wait_fails ↦ (fails, l)
  | base_fails ↦ (fails, l)
  | answers now r ↦
      let (limited, l') = process_limit default_retry_after now r l in
      elim limited [
        | true ↦ round_trip default_retry_after fuel attempt (suc i) l'
        | false ↦ (response r, l')
      ]
]
