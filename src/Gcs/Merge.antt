-- ===== src/Gcs/Merge.antt =====
-- How a request for a key that is queued already is merged into the queued object.
use terraform_cloudrun_glue.Base.{
  ℕ, ◌<◌, ◌^◌, ◌≡◌, refl, ap, ◌∙◌, false, some, if◌then◌else◌, inl, inr, Bool-cases, ℤ, pos, ltb,
  Text, text_eq, text_lt, lookup, insert, lookup-insert_other, lookup-insert_self, format_08d,
  format_int, text_lt-format_08d, text_lt-format_int-format_08d, arith, eqb_ℤ,
}
use terraform_cloudrun_glue.Workqueue.{Options}
use terraform_cloudrun_glue.Gcs.{
  TimeLib, Metadata, queue_metadata, merge_metadata, raise_priority, delay_not_before,
  requeue_metadata, set_priority, priority_metadata_key, not_before_metadata_key, get_or_empty,
}

module _ (time : TimeLib) where
  queue_metadata-priority :
      (opts : Options)
      → lookup priority_metadata_key (queue_metadata time opts) ≡ some (format_08d opts.priority)
  unfolding queue_metadata lookup insert text_eq
  queue_metadata-priority opts = refl

  queue_metadata-not_before :
      (opts : Options)
      → lookup not_before_metadata_key (queue_metadata time opts)
        ≡ some (time.format opts.not_before)
  unfolding queue_metadata lookup insert text_eq
  queue_metadata-not_before opts = refl

  raise_priority_lem :
      (old m : Metadata) (p q : Text)
      → lookup priority_metadata_key old ≡ some p
      → lookup priority_metadata_key m ≡ some q
      → lookup priority_metadata_key (raise_priority time old m).0
        ≡ some (if text_lt p q then q else p)
  unfolding raise_priority
  raise_priority_lem old m p q e f = elim (Bool-cases (text_lt p q)) [
    | inl h ↦ rw (e, raise_priority) (rw f (rw h (lookup-insert_self priority_metadata_key q old)))
    | inr h ↦ rw (e, raise_priority) (rw f (rw h e))
  ]

  raise_priority_other :
      (old m : Metadata) (k : Text)
      → text_eq priority_metadata_key k ≡ false
      → lookup k (raise_priority time old m).0 ≡ lookup k old
  unfolding raise_priority
  raise_priority_other old m k h = ground (
    arith,
    lookup-insert_other k priority_metadata_key (get_or_empty (lookup priority_metadata_key m)) old,
  )

  delay_not_before_lem :
      (old m : Metadata) (p q : Text)
      → lookup not_before_metadata_key old ≡ some p
      → lookup not_before_metadata_key m ≡ some q
      → lookup not_before_metadata_key (delay_not_before time old m).0
        ≡ some (if text_lt p q then q else p)
  unfolding delay_not_before
  delay_not_before_lem old m p q e f = elim (Bool-cases (text_lt p q)) [
    | inl h ↦
        rw (e, delay_not_before) (rw f (rw h (lookup-insert_self not_before_metadata_key q old)))
    | inr h ↦ rw (e, delay_not_before) (rw f (rw h e))
  ]

  delay_not_before_other :
      (old m : Metadata) (k : Text)
      → text_eq not_before_metadata_key k ≡ false
      → lookup k (delay_not_before time old m).0 ≡ lookup k old
  unfolding delay_not_before
  delay_not_before_other old m k h = ground (
    arith,
    lookup-insert_other k not_before_metadata_key (get_or_empty (lookup not_before_metadata_key m))
        old,
  )

  merge_metadata-priority :
      (old : Metadata) (p : Text) (opts : Options)
      → lookup priority_metadata_key old ≡ some p
      → lookup priority_metadata_key (merge_metadata time old (queue_metadata time opts)).0
        ≡ some (if text_lt p (format_08d opts.priority) then format_08d opts.priority else p)
  unfolding merge_metadata text_eq
  merge_metadata-priority old p opts e =
      delay_not_before_other _ _ priority_metadata_key refl
      ∙ raise_priority_lem old _ p _ e (queue_metadata-priority opts)

  merge_metadata-not_before :
      (old : Metadata) (p : Text) (opts : Options)
      → lookup not_before_metadata_key old ≡ some p
      → lookup not_before_metadata_key (merge_metadata time old (queue_metadata time opts)).0
        ≡ some (if text_lt p (time.format opts.not_before) then time.format opts.not_before else p)
  unfolding merge_metadata text_eq
  merge_metadata-not_before old p opts e =
      delay_not_before_lem _ _ p _ (raise_priority_other old _ not_before_metadata_key refl ∙ e)
        (queue_metadata-not_before opts)

  -- A request merged into an object that Queue made (priorities of up to eight digits): the object
  -- keeps the higher priority, and the later NotBefore as a text, both at once.
  pub merge_metadata-queue_metadata :
      (old : Metadata) (p q : ℕ) (opts : Options) (nbf : Text)
      → p < 10 ^ 8
      → q < 10 ^ 8
      → opts.priority ≡ pos q
      → lookup priority_metadata_key old ≡ some (format_08d (pos p))
      → lookup not_before_metadata_key old ≡ some nbf
      → (lookup priority_metadata_key (merge_metadata time old (queue_metadata time opts)).0
          ≡ some (format_08d (if ltb p q then pos q else pos p)))
        × (lookup not_before_metadata_key (merge_metadata time old (queue_metadata time opts)).0
            ≡ some (
                if text_lt nbf (time.format opts.not_before)
                then time.format opts.not_before
                else nbf))
  merge_metadata-queue_metadata old p q opts nbf h k same e f = (
    merge_metadata-priority old (format_08d (pos p)) opts e
        ∙ ground (arith, ap format_08d same, text_lt-format_08d p q h k),
    merge_metadata-not_before old nbf opts f,
  )

  requeue_metadata-priority :
      (m : Metadata) (opts : Options) (now : ℤ)
      → eqb_ℤ opts.priority (pos 0) ≡ false
      → lookup priority_metadata_key (requeue_metadata time m opts now)
        ≡ some (format_int opts.priority)
  unfolding requeue_metadata
  requeue_metadata-priority m opts now h =
      rw (h, set_priority) (lookup-insert_self priority_metadata_key (format_int opts.priority) _)

  -- A requeue that names its priority `p`, as the dispatcher's delayed requeue does, writes it without
  -- padding; then no request with a priority of up to seven digits raises it, however much higher.
  pub merge_metadata-requeue_metadata :
      (m : Metadata) (p q : ℕ) (requeue opts : Options) (now : ℤ)
      → 0 < p
      → q < 10 ^ 7
      → requeue.priority ≡ pos p
      → opts.priority ≡ pos q
      → lookup priority_metadata_key
          (merge_metadata time (requeue_metadata time m requeue now) (queue_metadata time opts)).0
        ≡ some (format_int (pos p))
  merge_metadata-requeue_metadata m p q requeue opts now h k e f =
      merge_metadata-priority (requeue_metadata time m requeue now) (format_int requeue.priority)
        opts (requeue_metadata-priority m requeue now (ground arith))
      ∙ ground (arith, ap format_int e, ap format_08d f, text_lt-format_int-format_08d p q h k)
