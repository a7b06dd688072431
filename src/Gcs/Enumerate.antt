-- ===== src/Gcs/Enumerate.antt =====
-- Enumerate of pkg/workqueue/gcs/gcs.go: one pass over the objects of the bucket, which also sets the
-- gauges.
pub mod Order
use terraform_cloudrun_glue.Base.{
  ℕ, suc, ◌+◌, ◌≡◌, refl, sym, ap, ◌∙◌, Bool, true, false, not, ◌&&◌, Option, none, some, List, [],
  ◌∷◌, ◌++◌, map, if◌then◌else◌, inl, inr, Bool-cases, ℤ, pos, ltb_ℤ, eqb_ℤ, Text, text_eq, text_lt,
  has_prefix, lookup, parse_int, push_top, top_loop, keep, length, arith, IsWeakOrder, IsTop,
  top_loop_lem, take-sort_by-IsTop,
}
use terraform_cloudrun_glue.Gcs.{
  TimeLib, Attrs, InProgressKey, QueuedKey, queued_prefix, in_progress_prefix, dead_letter_prefix,
  priority_metadata_key, attempts_metadata_key, not_before_metadata_key,
  track_work_attempt_min_threshold,
}
use terraform_cloudrun_glue.Gcs.Store.{Storage, Answer, done, failed}

-- The local variables of the loop; `tracked` lists what it sets of the gauge of single tasks.
pub record Scan : Type 0 where
  pub wip : List InProgressKey
  pub qd : List QueuedKey
  pub queued : ℕ
  pub not_before : ℕ
  pub dead_lettered : ℕ
  pub max_attempts : ℤ
  pub tracked : List (Text × ℤ)

abbrev empty_scan : Scan
empty_scan = record {
  wip = [];
  qd = [];
  queued = 0;
  not_before = 0;
  dead_lettered = 0;
  max_attempts = pos 0;
  tracked = [];
}

-- The priority of an object: what ParseInt returns, also where it fails.
unfoldable pub object_priority : Attrs → ℤ
object_priority a = elim (lookup priority_metadata_key a.metadata) [
  | none ↦ pos 0
  | some p ↦ (parse_int p).0
]

-- The comparison of two queued keys: priority, then age, then name.
unfoldable pub ranks_before : QueuedKey → QueuedKey → Bool
ranks_before a b =
    if not (eqb_ℤ a.priority b.priority)
    then ltb_ℤ b.priority a.priority
    else if not (eqb_ℤ a.attrs.created b.attrs.created)
    then ltb_ℤ a.attrs.created b.attrs.created
    else text_lt a.attrs.name b.attrs.name

abbrev counted : Text × ℤ × Bool → Scan → Scan
counted (name, attempts, fine) s = record s {
  max_attempts = if fine && ltb_ℤ s.max_attempts attempts then attempts else s.max_attempts;
  tracked =
      if ltb_ℤ (pos track_work_attempt_min_threshold) attempts
      then s.tracked ++ (name, attempts) ∷ []
      else s.tracked;
}

-- The attempts of an object that is not dead-lettered.
unfoldable pub count_attempts : Attrs → Scan → Scan
count_attempts a s =
    if has_prefix a.name dead_letter_prefix
    then s
    else elim (lookup attempts_metadata_key a.metadata) [
      | none ↦ s
      | some att ↦
          if text_eq att []
          then s
          else let (attempts, fine) = parse_int att in counted (a.name, attempts, fine) s
    ]

module _ (time : TimeLib) where
  -- Whether the object's NotBefore lies in the future.
  unfoldable pub is_early : ℤ → Attrs → Bool
  is_early now a = elim (lookup not_before_metadata_key a.metadata) [
    | none ↦ false
    | some nbf ↦
        if text_eq nbf []
        then false
        else elim (time.parse nbf) [ none ↦ false | some t ↦ ltb_ℤ now t ]
  ]

  abbrev as_queued : Attrs → QueuedKey
  as_queued a = record { attrs = a; priority = object_priority a }

  abbrev as_in_progress : Attrs → InProgressKey
  as_in_progress a = record { attrs = a; priority = object_priority a; owned = false }

  -- The switch on the prefix of the object's name.
  unfoldable pub sort_object : ℕ → ℤ → Attrs → Scan → Scan
  sort_object limit now a s =
      if has_prefix a.name in_progress_prefix
      then record s { wip = s.wip ++ as_in_progress a ∷ [] }
      else if has_prefix a.name queued_prefix
      then if is_early now a
        then record s { not_before = suc s.not_before }
        else record s { qd = push_top ranks_before limit s.qd (as_queued a); queued = suc s.queued }
      else if has_prefix a.name dead_letter_prefix
      then record s { dead_lettered = suc s.dead_lettered }
      else s

  unfoldable pub scan : ℕ → ℤ → Scan → List Attrs → Scan
  unfolding sort_object count_attempts
  scan limit now s [] = s
  scan limit now s (a ∷ l) = scan limit now (sort_object limit now a (count_attempts a s)) l

  unfoldable pub enumerate : (st : Storage) → ℕ → ℤ → st.Bucket → Answer Scan
  unfolding scan
  enumerate st limit now b = elim (st.list b) [
    | failed e ↦ failed e
    | done l ↦ done (scan limit now empty_scan l)
  ]
