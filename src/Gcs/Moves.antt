-- ===== src/Gcs/Moves.antt =====
-- The objects that the operations move between the prefixes of the bucket, against the documented
-- behaviour of the storage service.
use terraform_cloudrun_glue.Base.{
  ◌≡◌, ◌≢◌, refl, sym, ap, ◌∙◌, subst, true, none, some, ◌++◌, inl, inr, ◌⊎◌, is_some, ℤ, Text,
  trim_prefix, trim_prefix-append, arith,
}
use terraform_cloudrun_glue.Gcs.{
  TimeLib, Attrs, InProgressKey, QueuedKey, queued_prefix, in_progress_prefix, dead_letter_prefix,
  queued_name, start_metadata,
}
use terraform_cloudrun_glue.Gcs.Metadata.{IsStarted, start_metadata-IsStarted}
use terraform_cloudrun_glue.Gcs.Store.{Storage, StorageLaws, StorageError, Answer, done, failed}
use terraform_cloudrun_glue.Gcs.Ops.{started, with_key, start_from, start}

abbrev pub queued_object : Text → Text
queued_object key = queued_prefix ++ key

abbrev pub in_progress_object : Text → Text
in_progress_object key = in_progress_prefix ++ key

abbrev pub dead_letter_object : Text → Text
dead_letter_object key = dead_letter_prefix ++ key

pub Answer-cases :
    {A : Type 0} (r : Answer A) → ((a : A) × (r ≡ done a)) ⊎ ((e : StorageError) × (r ≡ failed e))
Answer-cases (done a) = inl (a, refl)
Answer-cases (failed e) = inr (e, refl)

pub in_progress-ne-queued : (a b : Text) → in_progress_object a ≢ queued_object b
in_progress-ne-queued a b e = ground (arith, e)

dead_letter-ne-in_progress : (a b : Text) → dead_letter_object a ≢ in_progress_object b
dead_letter-ne-in_progress a b e = ground (arith, e)

-- What a successful start leaves behind, for any names of the two objects.
module _ (time : TimeLib) (st : Storage) (laws : StorageLaws st) where
  open laws use {view}

  pub record Moved (now : ℤ) (q : QueuedKey) (target source : Text) (b b' : st.Bucket)
      (o : InProgressKey) : Type 0 where
    pub was_free : view b target ≡ none
    pub in_progress : view b' target ≡ some o.attrs
    pub not_queued : view b' source ≡ none
    pub metadata : IsStarted time now q.attrs.metadata o.attrs.metadata
    pub priority : o.priority ≡ q.priority
    pub others : (j : Text) → target ≢ j → source ≢ j → view b' j ≡ view b j

  module _ (now : ℤ) (q : QueuedKey) (target source : Text) (b : st.Bucket) where
    abbrev copied : Answer Attrs × st.Bucket
    copied = st.copy true target source (start_metadata time q.attrs.metadata now) b

    abbrev deleted : Answer Unit × st.Bucket
    deleted = st.delete source copied.1

    abbrev result : Answer InProgressKey × st.Bucket
    result = start_from time st now target source q b

    result_copy_failed : (e : StorageError) → copied.0 ≡ failed e → result ≡ (failed e, copied.1)
    unfolding start_from
    result_copy_failed e h = rw (h, start_from) refl

    result_copied : (a : Attrs) → copied.0 ≡ done a → result ≡ with_key time st q a deleted
    unfolding start_from
    result_copied a h = rw (h, start_from) refl

    result_done :
        (a : Attrs)
        → copied.0 ≡ done a
        → deleted.0 ≡ done tt
        → result ≡ (done (started time st q a), deleted.1)
    result_done a h k = result_copied a h ∙ rw (k, with_key) refl

    result_delete_failed :
        (a : Attrs) (e : StorageError)
        → copied.0 ≡ done a
        → deleted.0 ≡ failed e
        → result ≡ (failed e, deleted.1)
    result_delete_failed a e h k = result_copied a h ∙ rw (k, with_key) refl

    Moved-done :
        (a : Attrs)
        → target ≢ source
        → copied.0 ≡ done a
        → deleted.0 ≡ done tt
        → Moved now q target source b deleted.1 (started time st q a)
    Moved-done a apart h k =
        let (there, same, _) = laws.copy_done true target source _ b a h in
        record {
          was_free = laws.copy_fresh target source _ b a h;
          in_progress = laws.delete_others source copied.1 target (λ e. apart (sym e)) ∙ there;
          not_queued = laws.delete_done source copied.1 k;
          metadata =
              subst (IsStarted time now q.attrs.metadata) (sym same)
                (start_metadata-IsStarted time q.attrs.metadata now);
          priority = refl;
          others = λ j x y.
              laws.delete_others source copied.1 j y ∙ laws.copy_others true target source _ b j x;
        }

    start_from-Moved :
        (o : InProgressKey)
        → target ≢ source
        → result.0 ≡ done o
        → Moved now q target source b result.1 o
    start_from-Moved o apart e = elim (Answer-cases copied.0) [
      | inr (f, h) ↦ absurd (cc (result_copy_failed f h))
      | inl (a, h) ↦ elim (Answer-cases deleted.0) [
        | inr (f, k) ↦ absurd (cc (result_delete_failed a f h k))
        | inl (_, k) ↦
            let made = result_done a h k in
            let same : started time st q a ≡ o = ground (arith, ap (λ r. r.0) made) in
            subst (λ p. Moved now q target source b result.1 p) same
              (rw made (Moved-done a apart h k))
      ]
    ]

    -- Whatever happens, the entry is still there, or its copy is.
    start_from-keeps :
        (a : Attrs)
        → target ≢ source
        → view b source ≡ some a
        → (is_some (view result.1 source) ≡ true) ⊎ (is_some (view result.1 target) ≡ true)
    start_from-keeps a apart e = elim (Answer-cases copied.0) [
      | inr (f, h) ↦ inl (
          rw (result_copy_failed f h)
            (rw (laws.copy_others true target source _ b source apart, e) refl))
      | inl (c, h) ↦
          let (there, _, _) = laws.copy_done true target source _ b c h in
          let kept : view deleted.1 target ≡ some c =
            laws.delete_others source copied.1 target (λ x. apart (sym x)) ∙ there in
          elim (Answer-cases deleted.0) [
            | inr (f, k) ↦ inr (rw (result_delete_failed c f h k) (rw kept refl))
            | inl (_, k) ↦ inr (rw (result_done c h k) (rw kept refl))
          ]
    ]

  queued_name-key :
      (q : QueuedKey) (key : Text) → q.attrs.name ≡ queued_object key → queued_name q ≡ key
  unfolding queued_name
  queued_name-key q key e =
      ap (λ n. trim_prefix n queued_prefix) e ∙ trim_prefix-append queued_prefix key

  start-start_from :
      (now : ℤ) (q : QueuedKey) (key : Text) (b : st.Bucket)
      → q.attrs.name ≡ queued_object key
      → start time st now q b
        ≡ start_from time st now (in_progress_object key) (queued_object key) q b
  unfolding start
  start-start_from now q key b e =
      ap (λ n. start_from time st now (in_progress_object n) q.attrs.name q b)
        (queued_name-key q key e)
      ∙ ap (λ n. start_from time st now (in_progress_object key) n q b) e

  -- A start of a queued key that succeeds found the key not in progress. It moves the object to the
  -- in-progress prefix under a lease of three refresh intervals, with one more attempt (the first where
  -- none is counted, and one more than `n` where the count is the numeral of an `n` below the greatest
  -- int64), with the NotBefore set to the zero time and the rest of the metadata as it was, and
  -- touches no other object.
  pub start-Moved :
      (now : ℤ) (q : QueuedKey) (key : Text) (b : st.Bucket) (o : InProgressKey)
      → q.attrs.name ≡ queued_object key
      → (start time st now q b).0 ≡ done o
      → Moved now q (in_progress_object key) (queued_object key) b (start time st now q b).1 o
  start-Moved now q key b o named e =
      let same = start-start_from now q key b named in
      rw same (
        start_from-Moved now q (in_progress_object key) (queued_object key) b o
          (in_progress-ne-queued key key) (sym (ap (λ r. r.0) same) ∙ e))

  -- A start never loses the key, whichever of its calls of the service fails: the queued object is
  -- still there, or its copy in progress is.
  pub start_keeps :
      (now : ℤ) (q : QueuedKey) (key : Text) (b : st.Bucket) (a : Attrs)
      → q.attrs.name ≡ queued_object key
      → view b (queued_object key) ≡ some a
      → (is_some (view (start time st now q b).1 (queued_object key)) ≡ true)
        ⊎ (is_some (view (start time st now q b).1 (in_progress_object key)) ≡ true)
  start_keeps now q key b a named e = rw (start-start_from now q key b named) (
      start_from-keeps now q (in_progress_object key) (queued_object key) b a
        (in_progress-ne-queued key key) e)
