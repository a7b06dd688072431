-- ===== src/Gcs/Requeues.antt =====
-- Queue, RequeueWithOptions and updateMetadata against the storage service: they end, and lose
-- nothing.
use terraform_cloudrun_glue.Base.{
  ℕ, suc, ◌≡◌, ◌≢◌, refl, sym, ap, ◌∙◌, subst, Bool, true, false, Option, none, some, inl, inr, ◌⊎◌,
  is_some, Text, arith, Bool-cases,
}
use terraform_cloudrun_glue.Workqueue.{Options}
use terraform_cloudrun_glue.Gcs.{
  TimeLib, Attrs, Metadata, queue_metadata, merge_metadata, has_options,
}
use terraform_cloudrun_glue.Gcs.Store.{
  Storage, StorageLaws, StorageError, object_not_exist, precondition_failed, failure, Answer, done,
  failed,
}
use terraform_cloudrun_glue.Gcs.Ops.{
  check_precondition_failed_ok, outcome, write_merged, update_metadata, queue_key,
}
use terraform_cloudrun_glue.Gcs.Moves.{queued_object, Answer-cases}

module _ (time : TimeLib) (st : Storage) (laws : StorageLaws st) where
  open laws use {view}

  -- What updateMetadata can have done.
  abbrev pub Updates : Text → st.Bucket → Answer Unit × st.Bucket → Type 0
  Updates target b r =
      (r ≡ (done tt, b))
      ⊎ ((e : StorageError) × (st.attrs target b ≡ failed e) × (r ≡ (failed e, b)))
      ⊎ ((m : Metadata) × (r ≡ outcome (st.update target none m b)))

  write_merged-Updates :
      (key : Text) (b : st.Bucket) (w : Metadata × Bool)
      → Updates (queued_object key) b (write_merged time st key b w)
  write_merged-Updates key b (m, true) = inr (inr (m, refl))
  write_merged-Updates key b (m, false) = inl refl

  pub update_metadata-Updates :
      (key : Text) (m : Metadata) (b : st.Bucket)
      → Updates (queued_object key) b (update_metadata time st key m b)
  unfolding update_metadata
  update_metadata-Updates key m b = elim (Bool-cases (has_options time m)) [
    | inr none_set ↦ inl (rw none_set refl)
    | inl set ↦ elim (Answer-cases (st.attrs (queued_object key) b)) [
      | inr (e, h) ↦ inr (inl (e, h, rw (set, h) refl))
      | inl (a, h) ↦
          let merged = merge_metadata time a.metadata m in
          let same : update_metadata time st key m b ≡ write_merged time st key b merged =
            rw (set, h) refl in
          subst (Updates (queued_object key) b) (sym same) (write_merged-Updates key b merged)
    ]
  ]

  outcome-1 : (r : Answer Attrs × st.Bucket) → (outcome r).1 ≡ r.1
  outcome-1 (done a, b) = refl
  outcome-1 (failed e, b) = refl

  outcome_failed :
      (r : Answer Attrs × st.Bucket) (e : StorageError) → (outcome r).0 ≡ failed e → r.0 ≡ failed e
  outcome_failed (done a, b) e h = absurd (cc)
  outcome_failed (failed f, b) e h = ground arith

  outcome_done :
      (r : Answer Attrs × st.Bucket) → (outcome r).0 ≡ done tt → (a : Attrs) × (r.0 ≡ done a)
  outcome_done (done a, b) h = (a, refl)
  outcome_done (failed f, b) h = absurd (cc)

  pub Updates-others :
      (target : Text) (b : st.Bucket) (r : Answer Unit × st.Bucket) (j : Text)
      → Updates target b r
      → target ≢ j
      → view r.1 j ≡ view b j
  Updates-others target b r j (inl e) h = rw e refl
  Updates-others target b r j (inr (inl (_, _, e))) h = rw e refl
  Updates-others target b r j (inr (inr (m, e))) h =
      rw (e, outcome-1 (st.update target none m b)) (laws.update_others target none m b j h)

  pub Updates-present :
      (target : Text) (b : st.Bucket) (r : Answer Unit × st.Bucket) (a : Attrs)
      → Updates target b r
      → view b target ≡ some a
      → r.0 ≡ done tt
      → is_some (view r.1 target) ≡ true
  Updates-present target b r a (inl e) there h = rw e (rw there refl)
  Updates-present target b r a (inr (inl (f, _, e))) there h = absurd (cc)
  Updates-present target b r a (inr (inr (m, e))) there h =
      let (c, updated) = outcome_done (st.update target none m b) (sym (ap (λ x. x.0) e) ∙ h) in
      let (now, _) = laws.update_done target none m b c updated in
      rw (e, outcome-1 (st.update target none m b)) (rw now refl)

  pub Updates-found :
      (target : Text) (b : st.Bucket) (r : Answer Unit × st.Bucket) (a : Attrs)
      → Updates target b r
      → view b target ≡ some a
      → r.0 ≢ failed object_not_exist
  Updates-found target b r a (inl e) there h = absurd (cc)
  Updates-found target b r a (inr (inl (f, read, e))) there h =
      let same : f ≡ object_not_exist = ground (arith, ap (λ x. x.0) e) in
      absurd
        (cc (laws.attrs_missing target b (subst (λ g. st.attrs target b ≡ failed g) same read)))
  Updates-found target b r a (inr (inr (m, e))) there h = absurd (
      cc (
        laws.update_missing target none m b (
          outcome_failed (st.update target none m b) object_not_exist (sym (ap (λ x. x.0) e) ∙ h))))

  -- A call of Queue with any fuel at all: its result, and what it says of the bucket.
  abbrev Queued : Text → st.Bucket → Option (Answer Unit × st.Bucket) → Type 0
  Queued key b out =
      (r : Answer Unit × st.Bucket) × (out ≡ some r)
      × (r.0 ≡ done tt → is_some (view r.1 (queued_object key)) ≡ true)
      × ((j : Text) → queued_object key ≢ j → view r.1 j ≡ view b j)

  module _ (fuel : ℕ) (key : Text) (opts : Options) (b : st.Bucket) where
    abbrev created : Answer Unit × st.Bucket
    created = st.create (queued_object key) (queue_metadata time opts) b

    abbrev updated : Answer Unit × st.Bucket
    updated = update_metadata time st key (queue_metadata time opts) created.1

    abbrev queued : Option (Answer Unit × st.Bucket)
    queued = queue_key time st (suc fuel) key opts b

    create_others : (j : Text) → queued_object key ≢ j → view created.1 j ≡ view b j
    create_others j h = laws.create_others (queued_object key) (queue_metadata time opts) b j h

    created-Queued : created.0 ≡ done tt → Queued key b queued
    unfolding queue_key check_precondition_failed_ok
    created-Queued e =
        let (a, there, _) = laws.create_done (queued_object key) (queue_metadata time opts) b e in
        ((done tt, created.1), rw (e, queue_key) refl, λ _. rw there refl, create_others)

    exists-Queued :
        (a : Attrs)
        → view created.1 (queued_object key) ≡ some a
        → created.0 ≡ failed precondition_failed
        → (u : Answer Unit) → updated.0 ≡ u
        → Queued key b queued
    unfolding queue_key check_precondition_failed_ok
    exists-Queued a there e (done _) f = (
      (done tt, updated.1),
      rw (e, queue_key) (rw f refl),
      λ _.
          Updates-present (queued_object key) created.1 updated a
            (update_metadata-Updates key _ created.1) there f,
      λ j h.
          Updates-others (queued_object key) created.1 updated j
            (update_metadata-Updates key _ created.1) h
          ∙ create_others j h,
    )
    exists-Queued a there e (failed object_not_exist) f = absurd (
        Updates-found (queued_object key) created.1 updated a
          (update_metadata-Updates key _ created.1) there f)
    exists-Queued a there e (failed precondition_failed) f = (
      (failed precondition_failed, updated.1),
      rw (e, queue_key) (rw f refl),
      λ x. absurd (cc),
      λ j h.
          Updates-others (queued_object key) created.1 updated j
            (update_metadata-Updates key _ created.1) h
          ∙ create_others j h,
    )
    exists-Queued a there e (failed (failure m)) f = (
      (failed (failure m), updated.1),
      rw (e, queue_key) (rw f refl),
      λ x. absurd (cc),
      λ j h.
          Updates-others (queued_object key) created.1 updated j
            (update_metadata-Updates key _ created.1) h
          ∙ create_others j h,
    )

    answer-Queued : (u : Answer Unit) → created.0 ≡ u → Queued key b queued
    unfolding queue_key check_precondition_failed_ok
    answer-Queued (done _) e = created-Queued e
    answer-Queued (failed precondition_failed) e =
        let (a, _, there) = laws.create_exists (queued_object key) (queue_metadata time opts) b e in
        exists-Queued a there e updated.0 refl
    answer-Queued (failed object_not_exist) e = (
      (failed object_not_exist, created.1),
      rw (e, queue_key) refl,
      λ x. absurd (cc),
      create_others,
    )
    answer-Queued (failed (failure m)) e =
        ((failed (failure m), created.1), rw (e, queue_key) refl, λ x. absurd (cc), create_others)

    -- As long as nobody else removes the object in between, Queue ends without recursing. If it
    -- returns no error, the key is queued; and it touches no object but the key's own.
    pub queue_key_total :
        (r : Answer Unit × st.Bucket) × (queue_key time st (suc fuel) key opts b ≡ some r)
        × (r.0 ≡ done tt → is_some (view r.1 (queued_object key)) ≡ true)
        × ((j : Text) → queued_object key ≢ j → view r.1 j ≡ view b j)
    queue_key_total = answer-Queued created.0 refl
