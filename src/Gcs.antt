-- ===== src/Gcs.antt =====
-- pkg/workqueue/gcs/gcs.go: names of objects, their metadata, and what the operations compute from
-- them. Gcs/Store.antt has the calls of the storage service, Gcs/Ops.antt the operations.
pub mod Store
pub mod Ops
pub mod Enumerate
pub mod Metadata
pub mod Merge
pub mod Moves
pub mod Requeues
pub mod Returns
use terraform_cloudrun_glue.Base.{
  ℕ, suc, ◌+◌, ◌*◌, ◌≡◌, Bool, true, false, not, Option, none, some, List, [], ◌∷◌, ◌++◌,
  if◌then◌else◌, is_some, ℤ, pos, ◌+ℤ◌, ltb_ℤ, eqb_ℤ, Text, codes, text_eq, text_lt, trim_prefix,
  Dict, lookup, insert, delete, format_08d, format_int, parse_int,
}
use terraform_cloudrun_glue.Workqueue.{Options, second, backoff_delay}

abbrev pub queued_prefix : Text
queued_prefix = codes "queued/"

abbrev pub in_progress_prefix : Text
in_progress_prefix = codes "in-progress/"

abbrev pub dead_letter_prefix : Text
dead_letter_prefix = codes "dead-letter/"

abbrev pub expiration_metadata_key : Text
expiration_metadata_key = codes "lease-expiration"

abbrev pub attempts_metadata_key : Text
attempts_metadata_key = codes "attempts"

abbrev pub priority_metadata_key : Text
priority_metadata_key = codes "priority"

abbrev pub not_before_metadata_key : Text
not_before_metadata_key = codes "not-before"

abbrev pub failed_time_metadata_key : Text
failed_time_metadata_key = codes "failed-time"

abbrev pub last_attempted_key : Text
last_attempted_key = codes "last-attempted"

abbrev pub no_priority : Text
no_priority = codes "00000000"

-- RefreshInterval: five minutes.
abbrev pub refresh_interval : ℕ
refresh_interval = 5 * 60 * second

abbrev pub track_work_attempt_min_threshold : ℕ
track_work_attempt_min_threshold = 20

-- Package time's Format and Parse at RFC 3339 in UTC, and Unix.
pub record TimeLib : Type 0 where
  pub format : ℤ → Text
  pub parse : Text → Option ℤ
  pub unix : ℤ → ℤ

-- A nil metadata map reads as the empty one.
abbrev pub Metadata : Type 0
Metadata = Dict Text

-- storage.ObjectAttrs, as far as the queue reads it.
pub record Attrs : Type 0 where
  pub name : Text
  pub metadata : Metadata
  pub created : ℤ
  pub metageneration : ℕ

pub record InProgressKey : Type 0 where
  pub attrs : Attrs
  pub priority : ℤ
  -- Whether ownerCancel is set, that is, whether Start made this value.
  pub owned : Bool

pub record QueuedKey : Type 0 where
  pub attrs : Attrs
  pub priority : ℤ

-- A missing entry of a Go map reads as the empty string.
abbrev pub get_or_empty : Option Text → Text
get_or_empty none = []
get_or_empty (some s) = s

unfoldable pub in_progress_name : InProgressKey → Text
in_progress_name o = trim_prefix o.attrs.name in_progress_prefix

unfoldable pub queued_name : QueuedKey → Text
queued_name q = trim_prefix q.attrs.name queued_prefix

unfoldable pub dead_letter_key : InProgressKey → Text
dead_letter_key o = dead_letter_prefix ++ trim_prefix o.attrs.name in_progress_prefix

unfoldable pub get_attempts : InProgressKey → ℤ
get_attempts o =
    let (attempts, fine) =
      parse_int (get_or_empty (lookup attempts_metadata_key o.attrs.metadata)) in
    if fine then attempts else pos 0

module _ (time : TimeLib) where
  abbrev pub no_not_before : Text
  no_not_before = time.format (pos 0)

  -- The metadata with which Queue creates an object.
  unfoldable pub queue_metadata : Options → Metadata
  queue_metadata opts =
      insert not_before_metadata_key (time.format opts.not_before)
        ((priority_metadata_key, format_08d opts.priority) ∷ [])

  -- Whether updateMetadata goes on to fetch the queued object.
  unfoldable pub has_options : Metadata → Bool
  has_options m =
      if not (text_eq (get_or_empty (lookup priority_metadata_key m)) no_priority)
      then true
      else not (text_eq (get_or_empty (lookup not_before_metadata_key m)) no_not_before)

  -- What updateMetadata makes of the queued object's metadata, and whether it changed.
  unfoldable pub raise_priority : Metadata → Metadata → Metadata × Bool
  raise_priority old m =
      let p = get_or_empty (lookup priority_metadata_key m) in
      elim (lookup priority_metadata_key old) [
        | none ↦ (insert priority_metadata_key p old, true)
        | some q ↦ if text_lt q p then (insert priority_metadata_key p old, true) else (old, false)
      ]

  unfoldable pub delay_not_before : Metadata → Metadata → Metadata × Bool
  delay_not_before old m =
      let p = get_or_empty (lookup not_before_metadata_key m) in
      elim (lookup not_before_metadata_key old) [
        | none ↦ (old, false)
        | some q ↦
            if text_lt q p then (insert not_before_metadata_key p old, true) else (old, false)
      ]

  unfoldable pub merge_metadata : Metadata → Metadata → Metadata × Bool
  unfolding raise_priority delay_not_before
  merge_metadata old m =
      let (raised, a) = raise_priority old m in
      let (delayed, b) = delay_not_before raised m in (delayed, if a then true else b)

  -- The metadata with which Start copies the object.
  unfoldable pub next_attempts : Option Text → Text
  next_attempts none = codes "1"
  next_attempts (some att) =
      let (previous, fine) = parse_int att in
      if fine then format_int (previous +ℤ pos 1) else codes "1"

  unfoldable pub start_metadata : Metadata → ℤ → Metadata
  start_metadata m now =
      let leased =
        insert expiration_metadata_key (time.format (now +ℤ pos (3 * refresh_interval))) m in
      let counted =
        insert attempts_metadata_key (next_attempts (lookup attempts_metadata_key leased)) leased in
      insert not_before_metadata_key no_not_before counted

  -- The metadata with which RequeueWithOptions copies the object back.
  abbrev pub attempts_or_one : Option Text → ℤ
  attempts_or_one att =
      let (attempts, fine) = parse_int (get_or_empty att) in if fine then attempts else pos 1

  unfoldable pub set_not_before : Metadata → Options → ℤ → Metadata
  set_not_before m opts now =
      if ltb_ℤ (pos 0) opts.delay
      then insert not_before_metadata_key (time.format (now +ℤ opts.delay)) m
      else elim (lookup priority_metadata_key m) [
        | none ↦ m
        | some p ↦
            if text_eq p no_priority
            then m
            else insert not_before_metadata_key
                (time.format
                  (now +ℤ backoff_delay (attempts_or_one (lookup attempts_metadata_key m))))
                m
      ]

  abbrev pub set_priority : Metadata → ℤ → Metadata
  set_priority m priority =
      if eqb_ℤ priority (pos 0) then m else insert priority_metadata_key (format_int priority) m

  unfoldable pub requeue_metadata : Metadata → Options → ℤ → Metadata
  unfolding set_not_before
  requeue_metadata m opts now =
      let cleared = delete expiration_metadata_key m in
      let stamped = insert last_attempted_key (format_int (time.unix now)) cleared in
      set_priority (set_not_before stamped opts now) opts.priority

  -- The metadata with which Deadletter copies the object.
  unfoldable pub dead_letter_metadata : Metadata → ℤ → Metadata
  dead_letter_metadata m now =
      insert failed_time_metadata_key (time.format now) (delete expiration_metadata_key m)

  unfoldable pub is_orphaned : ℤ → InProgressKey → Bool
  is_orphaned now o = elim (lookup expiration_metadata_key o.attrs.metadata) [
    | none ↦ true
    | some exp ↦ elim (time.parse exp) [ none ↦ true | some expiry ↦ ltb_ℤ expiry now ]
  ]
