-- ===== src/Gcs/Returns.antt =====
-- RequeueWithOptions against the storage service.
use terraform_cloudrun_glue.Base.{
  ℕ, suc, ◌≡◌, ◌≢◌, refl, sym, ◌∙◌, true, Option, none, some, inl, inr, ◌⊎◌, is_some, ℤ, Text,
}
use terraform_cloudrun_glue.Workqueue.{Options}
use terraform_cloudrun_glue.Gcs.{
  TimeLib, Attrs, Metadata, InProgressKey, in_progress_name, requeue_metadata,
}
use terraform_cloudrun_glue.Gcs.Store.{
  Storage, StorageLaws, StorageError, object_not_exist, precondition_failed, failure, Answer, done,
  failed,
}
use terraform_cloudrun_glue.Gcs.Ops.{
  check_precondition_failed_ok, update_metadata, requeue_from, requeue_with_options,
}
use terraform_cloudrun_glue.Gcs.Moves.{queued_object, in_progress_object, in_progress-ne-queued}
use terraform_cloudrun_glue.Gcs.Requeues.{
  Updates, update_metadata-Updates, Updates-others, Updates-present, Updates-found,
}

module _ (time : TimeLib) (st : Storage) (laws : StorageLaws st) where
  open laws use {view}

  -- A requeue that has ended: unless an object was lost to an error of the service's delete, the key
  -- is in one of its two places, and it is queued and released if there was no error.
  pub record Returned (target source : Text) (b : st.Bucket) (r : Answer Unit × st.Bucket)
      : Type 0 where
    pub kept : (is_some (view r.1 target) ≡ true) ⊎ (is_some (view r.1 source) ≡ true)
    pub queued : r.0 ≡ done tt → is_some (view r.1 target) ≡ true
    pub released : r.0 ≡ done tt → view r.1 source ≡ none
    pub others : (j : Text) → target ≢ j → source ≢ j → view r.1 j ≡ view b j

  module _ (fuel : ℕ) (now : ℤ) (o : InProgressKey) (opts : Options) (b : st.Bucket) (held : Attrs)
      (apart : queued_object (in_progress_name o) ≢ o.attrs.name)
      (here : view b o.attrs.name ≡ some held) where
    abbrev target : Text
    target = queued_object (in_progress_name o)

    abbrev source : Text
    source = o.attrs.name

    abbrev m : Metadata
    m = requeue_metadata time o.attrs.metadata opts now

    abbrev copied : Answer Attrs × st.Bucket
    copied = st.copy true target source m b

    abbrev updated : Answer Unit × st.Bucket
    updated = update_metadata time st (in_progress_name o) m copied.1

    abbrev out : Option (Answer Unit × st.Bucket)
    out = requeue_with_options time st (suc fuel) now o opts b

    copy_source : view copied.1 source ≡ some held
    copy_source = laws.copy_others true target source m b source apart ∙ here

    Updated : Updates time st laws target copied.1 updated
    Updated = update_metadata-Updates time st laws (in_progress_name o) m copied.1

    -- The last call, a delete of the object in progress while the queued one is there.
    delete-Returned :
        (c : st.Bucket)
        → is_some (view c target) ≡ true
        → ((j : Text) → target ≢ j → source ≢ j → view c j ≡ view b j)
        → Returned target source b (st.delete source c)
    delete-Returned c there rest =
        let same = laws.delete_others source c target (λ e. apart (sym e)) in
        let still : is_some (view (st.delete source c).1 target) ≡ true = rw same there in
        record {
          kept = inl still;
          queued = λ _. still;
          released = laws.delete_done source c;
          others = λ j x y. laws.delete_others source c j y ∙ rest j x y;
        }

    failed-Returned :
        (e : StorageError) (c : st.Bucket)
        → view c source ≡ some held
        → ((j : Text) → target ≢ j → source ≢ j → view c j ≡ view b j)
        → Returned target source b (failed e, c)
    failed-Returned e c still rest = record {
      kept = inr (rw still refl);
      queued = λ x. absurd (cc);
      released = λ x. absurd (cc);
      others = rest;
    }

    copy_rest : (j : Text) → target ≢ j → source ≢ j → view copied.1 j ≡ view b j
    copy_rest j x y = laws.copy_others true target source m b j x

    update_rest : (j : Text) → target ≢ j → source ≢ j → view updated.1 j ≡ view b j
    update_rest j x y =
        Updates-others time st laws target copied.1 updated j Updated x ∙ copy_rest j x y

    update_source : view updated.1 source ≡ some held
    update_source =
        Updates-others time st laws target copied.1 updated source Updated apart ∙ copy_source

    abbrev Ends : Type 0
    Ends = (r : Answer Unit × st.Bucket) × (out ≡ some r) × Returned target source b r

    exists-Ends :
        (a : Attrs)
        → view copied.1 target ≡ some a
        → copied.0 ≡ failed precondition_failed
        → (u : Answer Unit) → updated.0 ≡ u
        → Ends
    unfolding requeue_with_options requeue_from check_precondition_failed_ok
    exists-Ends a there e (done _) f = (
      st.delete source updated.1,
      rw (e, requeue_from) (rw f refl),
      delete-Returned updated.1
          (Updates-present time st laws target copied.1 updated a Updated there f) update_rest,
    )
    exists-Ends a there e (failed object_not_exist) f =
        absurd (Updates-found time st laws target copied.1 updated a Updated there f)
    exists-Ends a there e (failed precondition_failed) f = (
      (failed precondition_failed, updated.1),
      rw (e, requeue_from) (rw f refl),
      failed-Returned precondition_failed updated.1 update_source update_rest,
    )
    exists-Ends a there e (failed (failure x)) f = (
      (failed (failure x), updated.1),
      rw (e, requeue_from) (rw f refl),
      failed-Returned (failure x) updated.1 update_source update_rest,
    )

    answer-Ends : (u : Answer Attrs) → copied.0 ≡ u → Ends
    unfolding requeue_with_options requeue_from check_precondition_failed_ok
    answer-Ends (done a) e =
        let (there, _, _) = laws.copy_done true target source m b a e in
        (
          st.delete source copied.1,
          rw (e, requeue_from) refl,
          delete-Returned copied.1 (rw there refl) copy_rest,
        )
    answer-Ends (failed precondition_failed) e =
        let (a, _, there) = laws.copy_exists target source m b e in
        exists-Ends a there e updated.0 refl
    answer-Ends (failed object_not_exist) e = (
      (failed object_not_exist, copied.1),
      rw (e, requeue_from) refl,
      failed-Returned object_not_exist copied.1 copy_source copy_rest,
    )
    answer-Ends (failed (failure x)) e = (
      (failed (failure x), copied.1),
      rw (e, requeue_from) refl,
      failed-Returned (failure x) copied.1 copy_source copy_rest,
    )

  -- As long as nobody else removes an object in between, a requeue ends without recursing, and
  -- whichever of its calls fails the key is not lost: it is still in progress, or queued. If the
  -- requeue returns no error the key is queued and no longer in progress, and no other object is
  -- touched.
  pub requeue-Returned :
      (fuel : ℕ) (now : ℤ) (o : InProgressKey) (opts : Options) (b : st.Bucket) (held : Attrs)
      (key : Text)
      → o.attrs.name ≡ in_progress_object key
      → view b o.attrs.name ≡ some held
      → (r : Answer Unit × st.Bucket) × (requeue_with_options time st (suc fuel) now o opts b
          ≡ some r)
        × Returned (queued_object (in_progress_name o)) o.attrs.name b r
  requeue-Returned fuel now o opts b held key named here =
      answer-Ends fuel now o opts b held
        (λ e. in_progress-ne-queued key (in_progress_name o) (sym named ∙ sym e)) here _ refl
