-- ===== src/Gcs/Ops.antt =====
-- The operations of pkg/workqueue/gcs/gcs.go over the storage service, call by call. Each is a
-- function of the bucket's state; what other processes do to the bucket between two calls is not
-- in it.
use terraform_cloudrun_glue.Base.{
  ℕ, zero, suc, ◌*◌, Bool, true, false, Option, none, some, [], ◌∷◌, ◌++◌, if◌then◌else◌, ℤ, pos,
  ◌+ℤ◌, Text,
}
use terraform_cloudrun_glue.Workqueue.{Options, no_options}
use terraform_cloudrun_glue.Gcs.{
  Attrs, Metadata, InProgressKey, QueuedKey, TimeLib, queued_prefix, in_progress_prefix,
  queue_metadata, has_options, merge_metadata, start_metadata, requeue_metadata,
  dead_letter_metadata, in_progress_name, queued_name, dead_letter_key, refresh_interval,
  expiration_metadata_key,
}
use terraform_cloudrun_glue.Gcs.Store.{
  Storage, object_not_exist, precondition_failed, failure, Answer, done, failed,
}

-- checkPreconditionFailedOk: whether the object exists already, or the error.
unfoldable pub check_precondition_failed_ok : {A : Type 0} → Answer A → Answer Bool
check_precondition_failed_ok (done a) = done false
check_precondition_failed_ok (failed precondition_failed) = done true
check_precondition_failed_ok (failed object_not_exist) = failed object_not_exist
check_precondition_failed_ok (failed (failure m)) = failed (failure m)

abbrev pub outcome : {A B : Type 0} → Answer A × B → Answer Unit × B
outcome (done a, b) = (done tt, b)
outcome (failed e, b) = (failed e, b)

module _ (time : TimeLib) (st : Storage) where
  abbrev pub write_merged : Text → st.Bucket → Metadata × Bool → Answer Unit × st.Bucket
  write_merged key b (merged, false) = (done tt, b)
  write_merged key b (merged, true) = outcome (st.update (queued_prefix ++ key) none merged b)

  unfoldable pub update_metadata : Text → Metadata → st.Bucket → Answer Unit × st.Bucket
  update_metadata key m b =
      if has_options time m
      then elim (st.attrs (queued_prefix ++ key) b) [
        | failed e ↦ (failed e, b)
        | done a ↦ write_merged key b (merge_metadata time a.metadata m)
      ]
      else (done tt, b)

  -- Queue, and `none` where it recurses more often than the fuel allows.
  unfoldable pub queue_key : ℕ → Text → Options → st.Bucket → Option (Answer Unit × st.Bucket)
  queue_key zero key opts b = none
  queue_key (suc fuel) key opts b =
      let m = queue_metadata time opts in
      let (r, b1) = st.create (queued_prefix ++ key) m b in
      elim (check_precondition_failed_ok r) [
        | failed e ↦ some (failed e, b1)
        | done false ↦ some (done tt, b1)
        | done true ↦
            let (u, b2) = update_metadata key m b1 in
            elim u [
              | done _ ↦ some (done tt, b2)
              | failed object_not_exist ↦ queue_key fuel key opts b2
              | failed e ↦ some (failed e, b2)
            ]
      ]

  -- Start: the key that it returns, with its heartbeat running, or the error.
  abbrev pub started : QueuedKey → Attrs → InProgressKey
  started q a = record { attrs = a; priority = q.priority; owned = true }

  abbrev pub with_key :
      QueuedKey → Attrs → Answer Unit × st.Bucket → Answer InProgressKey × st.Bucket
  with_key q a (done _, b) = (done (started q a), b)
  with_key q a (failed e, b) = (failed e, b)

  -- The body of Start over the names that it computes.
  unfoldable pub start_from :
      ℤ → (target source : Text) → QueuedKey → st.Bucket → Answer InProgressKey × st.Bucket
  start_from now target source q b =
      let (r, b1) = st.copy true target source (start_metadata time q.attrs.metadata now) b in
      elim r [ failed e ↦ (failed e, b1) | done a ↦ with_key q a (st.delete source b1) ]

  unfoldable pub start : ℤ → QueuedKey → st.Bucket → Answer InProgressKey × st.Bucket
  start now q b = start_from now (in_progress_prefix ++ queued_name q) q.attrs.name q b

  -- RequeueWithOptions. The copier's metadata is the key's own map, so that a second round sees what
  -- the first has written there.
  unfoldable pub requeue_from :
      (target source : Text)
      → ℕ
      → ℤ
      → InProgressKey
      → Options
      → st.Bucket
      → Option (Answer Unit × st.Bucket)
  requeue_from target source zero now o opts b = none
  requeue_from target source (suc fuel) now o opts b =
      let m = requeue_metadata time o.attrs.metadata opts now in
      let o' = record o { attrs = record (o.attrs) { metadata = m } } in
      let (r, b1) = st.copy true target source m b in
      elim (check_precondition_failed_ok r) [
        | failed e ↦ some (failed e, b1)
        | done false ↦ some (st.delete source b1)
        | done true ↦
            let (u, b2) = update_metadata (in_progress_name o) m b1 in
            elim u [
              | done _ ↦ some (st.delete source b2)
              | failed object_not_exist ↦ requeue_from target source fuel now o' opts b2
              | failed e ↦ some (failed e, b2)
            ]
      ]

  unfoldable pub requeue_with_options :
      ℕ → ℤ → InProgressKey → Options → st.Bucket → Option (Answer Unit × st.Bucket)
  requeue_with_options fuel now o opts b =
      requeue_from (queued_prefix ++ in_progress_name o) o.attrs.name fuel now o opts b

  unfoldable pub requeue : ℕ → ℤ → InProgressKey → st.Bucket → Option (Answer Unit × st.Bucket)
  unfolding requeue_with_options
  requeue fuel now o b = requeue_with_options fuel now o no_options b

  -- Complete: `none` is the panic of a call of a nil ownerCancel. That the dead-letter object cannot
  -- be deleted is only logged.
  unfoldable pub complete : InProgressKey → st.Bucket → Option (Answer Unit × st.Bucket)
  complete o b =
      if o.owned then some (st.delete o.attrs.name (st.delete (dead_letter_key o) b).1) else none

  unfoldable pub deadletter : ℤ → InProgressKey → st.Bucket → Answer Unit × st.Bucket
  deadletter now o b =
      let (r, b1) =
        st.copy false (dead_letter_key o) o.attrs.name
          (dead_letter_metadata time o.attrs.metadata now) b in
      elim r [ failed e ↦ (failed e, b1) | done a ↦ st.delete o.attrs.name b1 ]

  -- One tick of the heartbeat: the key with the attributes that the update returned, or `none` when
  -- the owner's context is cancelled.
  abbrev pub refreshed : InProgressKey → Answer Attrs × st.Bucket → Option InProgressKey × st.Bucket
  refreshed o (failed e, b) = (none, b)
  refreshed o (done a, b) = (some (record o { attrs = a }), b)

  unfoldable pub heartbeat : ℤ → InProgressKey → st.Bucket → Option InProgressKey × st.Bucket
  heartbeat now o b = refreshed o (
      st.update o.attrs.name (some o.attrs.metageneration)
        ((expiration_metadata_key, time.format (now +ℤ pos (3 * refresh_interval))) ∷ []) b)
