-- ===== src/Tests/Objects.antt =====
-- The queue on the bucket in memory at concrete inputs.
use terraform_cloudrun_glue.Base.{
  ◌*◌, ◌≡◌, ◌≢◌, refl, true, false, none, some, [], ◌∷◌, ◌⊎◌, ℤ, pos, ◌+ℤ◌, ◌≤ℤ◌, ◌<ℤ◌, Text, codes,
  lookup, insert, length, arith, is_some, text_eq, trim_prefix, format_int, format_08d, IsTop,
}
use terraform_cloudrun_glue.Workqueue.{Options, second}
use terraform_cloudrun_glue.Gcs.{
  Attrs, Metadata, InProgressKey, QueuedKey, in_progress_name, queued_name, get_attempts,
  start_metadata, requeue_metadata, queue_metadata, merge_metadata, is_orphaned, refresh_interval,
  attempts_metadata_key, priority_metadata_key, not_before_metadata_key, expiration_metadata_key,
}
use terraform_cloudrun_glue.Gcs.Store.{Answer, done}
use terraform_cloudrun_glue.Gcs.Ops.{start, start_from, queue_key, requeue_with_options}
use terraform_cloudrun_glue.Gcs.Metadata.{attempts-start-requeue, is_orphaned-start}
use terraform_cloudrun_glue.Gcs.Merge.{merge_metadata-requeue_metadata}
use terraform_cloudrun_glue.Gcs.Moves.{
  queued_object, in_progress_object, Moved, start-Moved, start_keeps,
}
use terraform_cloudrun_glue.Gcs.Requeues.{queue_key_total}
use terraform_cloudrun_glue.Gcs.Returns.{Returned, requeue-Returned}
use terraform_cloudrun_glue.Gcs.Enumerate.{Scan, enumerate, ranks_before}
use terraform_cloudrun_glue.Gcs.Enumerate.Order.{candidates, enumerate-IsTop-candidates}
use terraform_cloudrun_glue.Tests.Buckets.{memory, memory-StorageLaws}
use terraform_cloudrun_glue.Tests.Clocks.{seconds, seconds-TimeLaws}

abbrev key : Text
key = codes "k"

abbrev request : Options
request = record { priority = pos 5; not_before = pos 0; delay = pos 0 }

abbrev queued_k : Attrs
queued_k = record {
  name = queued_object key;
  metadata = (attempts_metadata_key, format_int (pos 2)) ∷ [];
  created = pos 0;
  metageneration = 1;
}

abbrev with_queued : memory.Bucket
with_queued = (queued_object key, queued_k) ∷ []

abbrev handle : QueuedKey
handle = record { attrs = queued_k; priority = pos 5 }

abbrev now : ℤ
now = pos (1_000 * second)

abbrev owner : InProgressKey
owner = record {
  attrs = record {
    name = in_progress_object key;
    metadata = start_metadata seconds queued_k.metadata now;
    created = pos 0;
    metageneration = 1;
  };
  priority = pos 5;
  owned = true;
}

queued_start : (start seconds memory now handle with_queued).0 ≡ done owner
unfolding start start_from lookup insert text_eq queued_name trim_prefix
queued_start = refl

start-Moved_example :
    Moved seconds memory memory-StorageLaws now handle
      (in_progress_object key)
      (queued_object key)
      with_queued
      (start seconds memory now handle with_queued).1
      owner
start-Moved_example =
    start-Moved seconds memory memory-StorageLaws now handle key with_queued owner refl queued_start

queued_here : lookup (queued_object key) with_queued ≡ some queued_k
unfolding lookup text_eq
queued_here = refl

start_keeps_example :
    (is_some (lookup (queued_object key) (start seconds memory now handle with_queued).1) ≡ true)
    ⊎ (is_some (lookup (in_progress_object key) (start seconds memory now handle with_queued).1)
        ≡ true)
start_keeps_example =
    start_keeps seconds memory memory-StorageLaws now handle key with_queued queued_k refl
      queued_here

-- The bucket where the key is in progress.
abbrev with_owner : memory.Bucket
with_owner = (in_progress_object key, owner.attrs) ∷ []

owner_here : lookup (in_progress_object key) with_owner ≡ some owner.attrs
unfolding lookup text_eq
owner_here = refl

requeue-Returned_example :
    (r : Answer Unit × memory.Bucket) × (requeue_with_options seconds memory 1 now owner request
        with_owner
      ≡ some r)
    × Returned seconds memory memory-StorageLaws
        (queued_object (in_progress_name owner))
        (in_progress_object key)
        with_owner
        r
requeue-Returned_example =
    requeue-Returned seconds memory memory-StorageLaws 0 now owner request with_owner owner.attrs
      key refl owner_here

queue_key_total_example :
    (r : Answer Unit × memory.Bucket) × (queue_key seconds memory 1 key request with_queued
      ≡ some r)
    × (r.0 ≡ done tt → is_some (lookup (queued_object key) r.1) ≡ true)
    × ((j : Text) → queued_object key ≢ j → lookup j r.1 ≡ lookup j with_queued)
queue_key_total_example =
    queue_key_total seconds memory memory-StorageLaws 0 key request with_queued

enumerate-IsTop-candidates_example :
    (s : Scan) × (enumerate seconds memory 1 now with_queued ≡ done s)
    × (s.queued ≡ length (candidates seconds 1 now (queued_k ∷ [])))
    × IsTop ranks_before 1 (candidates seconds 1 now (queued_k ∷ [])) s.qd
enumerate-IsTop-candidates_example =
    enumerate-IsTop-candidates seconds memory 1 now with_queued (queued_k ∷ []) refl

is_orphaned-start_example :
    (pos (1_899 * second) +ℤ pos second ≤ℤ now +ℤ pos (3 * refresh_interval)
      → is_orphaned seconds (pos (1_899 * second)) owner ≡ false)
    × (now +ℤ pos (3 * refresh_interval) <ℤ pos (1_899 * second)
        → is_orphaned seconds (pos (1_899 * second)) owner ≡ true)
unfolding ◌+ℤ◌
is_orphaned-start_example =
    is_orphaned-start seconds queued_k.metadata now (pos (1_899 * second)) owner seconds-TimeLaws
      (omega arith) (omega arith) refl

abbrev owner_again : InProgressKey
owner_again = record {
  attrs = record {
    name = in_progress_object key;
    metadata = start_metadata seconds (requeue_metadata seconds queued_k.metadata request now) now;
    created = pos 0;
    metageneration = 1;
  };
  priority = pos 5;
  owned = true;
}

two_attempts : lookup attempts_metadata_key queued_k.metadata ≡ some (format_int (pos 2))
unfolding lookup text_eq
two_attempts = refl

attempts-start-requeue_example :
    (get_attempts owner_again ≡ pos 3)
    × (lookup expiration_metadata_key (requeue_metadata seconds queued_k.metadata request now)
        ≡ none)
attempts-start-requeue_example =
    attempts-start-requeue seconds queued_k.metadata 2 request now now owner_again (omega arith)
      two_attempts refl

abbrev old : Metadata
old =
    (priority_metadata_key, format_08d (pos 5))
    ∷ (not_before_metadata_key, seconds.format (pos (9 * second)))
    ∷ []

old_priority : lookup priority_metadata_key old ≡ some (format_08d (pos 5))
unfolding lookup text_eq
old_priority = refl

old_not_before : lookup not_before_metadata_key old ≡ some (seconds.format (pos (9 * second)))
unfolding lookup text_eq
old_not_before = refl

abbrev high : Options
high = record { priority = pos 12; not_before = pos (7 * second); delay = pos 0 }

merge_metadata-requeue_metadata_example :
    lookup priority_metadata_key
      (merge_metadata seconds
        (requeue_metadata seconds old request now)
        (queue_metadata seconds high)).0
    ≡ some (format_int (pos 5))
merge_metadata-requeue_metadata_example =
    merge_metadata-requeue_metadata seconds old 5 12 request high now (omega arith) (omega arith)
      refl refl
