-- ===== src/Gcs/Metadata.antt =====
-- The metadata of an object through its life: the lease, the attempts and the priority.
use terraform_cloudrun_glue.Base.{
  ℕ, ◌+◌, ◌*◌, ◌<◌, ◌≡◌, refl, ap, ◌∙◌, true, false, Option, none, some, if◌then◌else◌, inl, inr,
  Bool-cases, ℤ, pos, ◌+ℤ◌, ◌≤ℤ◌, ◌<ℤ◌, ltb_ℤ, +ℤ_parts, Text, text_eq, text_lt, lookup, insert,
  lookup-insert, format_int, parse_int-format_int, arith, max_int64, lookup-insert_other,
  lookup-delete_other, lookup-delete_self, eqb_ℤ, codes,
}
use terraform_cloudrun_glue.Workqueue.{Options, second, backoff_delay}
use terraform_cloudrun_glue.Gcs.{
  TimeLib, Metadata, InProgressKey, get_attempts, next_attempts, start_metadata, requeue_metadata,
  set_not_before, is_orphaned, refresh_interval, expiration_metadata_key, attempts_metadata_key,
  priority_metadata_key, not_before_metadata_key, last_attempted_key, no_priority, attempts_or_one,
  set_priority,
}

-- The first instant of the year 10000, up to which RFC 3339 has a text.
abbrev pub year_10000 : ℤ
year_10000 = pos (315_537_897_600 * second)

-- What the queue relies on of package time: parsing a printed time loses the fraction of a second,
-- and printed times are ordered as texts. Both hold of times in the years 1 to 9999.
pub record TimeLaws (time : TimeLib) : Type 0 where
  pub parse-format :
      (t : ℤ)
      → pos 0 ≤ℤ t
      → t <ℤ year_10000
      → (u : ℤ) × (time.parse (time.format t) ≡ some u) × (u ≤ℤ t) × (t <ℤ u +ℤ pos second)
  pub text_lt-format :
      (s t : ℤ)
      → pos 0 ≤ℤ s
      → s ≤ℤ t
      → t <ℤ year_10000
      → text_lt (time.format t) (time.format s) ≡ false

module _ (time : TimeLib) where
  start_metadata-expiration :
      (m : Metadata) (now : ℤ)
      → lookup expiration_metadata_key (start_metadata time m now)
        ≡ some (time.format (now +ℤ pos (3 * refresh_interval)))
  unfolding start_metadata text_eq
  start_metadata-expiration m now = simp (lookup-insert) refl

  start_metadata-attempts :
      (m : Metadata) (now : ℤ)
      → lookup attempts_metadata_key (start_metadata time m now)
        ≡ some (next_attempts time (lookup attempts_metadata_key m))
  unfolding start_metadata text_eq
  start_metadata-attempts m now = simp (lookup-insert) refl

  start_metadata-not_before :
      (m : Metadata) (now : ℤ)
      → lookup not_before_metadata_key (start_metadata time m now) ≡ some (time.format (pos 0))
  unfolding start_metadata text_eq
  start_metadata-not_before m now = simp (lookup-insert) refl

  start_metadata-others :
      (m : Metadata) (now : ℤ) (k : Text)
      → text_eq expiration_metadata_key k ≡ false
      → text_eq attempts_metadata_key k ≡ false
      → text_eq not_before_metadata_key k ≡ false
      → lookup k (start_metadata time m now) ≡ lookup k m
  unfolding start_metadata
  start_metadata-others m now k e a n =
      lookup-insert_other k not_before_metadata_key _ _ n
      ∙ lookup-insert_other k attempts_metadata_key _ _ a
      ∙ lookup-insert_other k expiration_metadata_key _ m e

  set_not_before_other :
      (k : Text) (m : Metadata) (opts : Options) (now : ℤ)
      → text_eq not_before_metadata_key k ≡ false
      → lookup k (set_not_before time m opts now) ≡ lookup k m
  unfolding set_not_before
  set_not_before_other k m opts now h = elim (Bool-cases (ltb_ℤ (pos 0) opts.delay)) [
    | inl custom ↦ rw custom (lookup-insert_other k not_before_metadata_key _ m h)
    | inr standard ↦ rw standard (by_priority (lookup priority_metadata_key m))
  ]
    where
      by_priority :
          (p : Option Text)
          → lookup k (elim p [
            | none ↦ m
            | some q ↦
                if text_eq q no_priority
                then m
                else insert not_before_metadata_key
                    (time.format (
                      now +ℤ backoff_delay (attempts_or_one time (lookup attempts_metadata_key m))))
                    m
          ])
            ≡ lookup k m
      by_priority none = refl
      by_priority (some q) = elim (Bool-cases (text_eq q no_priority)) [
        | inl e ↦ rw e refl
        | inr e ↦ rw e (lookup-insert_other k not_before_metadata_key _ m h)
      ]

  set_priority_other :
      (k : Text) (m : Metadata) (priority : ℤ)
      → text_eq priority_metadata_key k ≡ false
      → lookup k (set_priority time m priority) ≡ lookup k m
  set_priority_other k m priority h = elim (Bool-cases (eqb_ℤ priority (pos 0))) [
    | inl e ↦ rw e refl
    | inr e ↦ rw e (lookup-insert_other k priority_metadata_key (format_int priority) m h)
  ]

  requeue_metadata-attempts :
      (m : Metadata) (opts : Options) (now : ℤ)
      → lookup attempts_metadata_key (requeue_metadata time m opts now)
        ≡ lookup attempts_metadata_key m
  unfolding requeue_metadata text_eq
  requeue_metadata-attempts m opts now =
      set_priority_other attempts_metadata_key _ opts.priority refl
      ∙ set_not_before_other attempts_metadata_key _ opts now refl
      ∙ lookup-insert_other attempts_metadata_key last_attempted_key _ _ refl
      ∙ lookup-delete_other attempts_metadata_key expiration_metadata_key m refl

  -- A requeue takes the lease off, whatever its options.
  requeue_metadata-expiration :
      (m : Metadata) (opts : Options) (now : ℤ)
      → lookup expiration_metadata_key (requeue_metadata time m opts now) ≡ none
  unfolding requeue_metadata text_eq
  requeue_metadata-expiration m opts now =
      set_priority_other expiration_metadata_key _ opts.priority refl
      ∙ set_not_before_other expiration_metadata_key _ opts now refl
      ∙ lookup-insert_other expiration_metadata_key last_attempted_key _ _ refl
      ∙ lookup-delete_self expiration_metadata_key m

  next_attempts-format_int :
      (n : ℕ)
      → n < max_int64
      → next_attempts time (some (format_int (pos n))) ≡ format_int (pos (n + 1))
  unfolding next_attempts ◌+ℤ◌
  next_attempts-format_int n h =
      rw (parse_int-format_int (pos n) (omega arith) (omega arith)) (ap format_int (ground arith))

  -- What a start makes of the metadata `m`: a lease of three refresh intervals, the attempt counted,
  -- the NotBefore cleared to the zero time, and the rest as it was.
  pub record IsStarted (now : ℤ) (m after : Metadata) : Type 0 where
    pub leased :
        lookup expiration_metadata_key after
        ≡ some (time.format (now +ℤ pos (3 * refresh_interval)))
    pub first :
        lookup attempts_metadata_key m ≡ none
        → lookup attempts_metadata_key after ≡ some (codes "1")
    pub counted :
        (n : ℕ)
        → n < max_int64
        → lookup attempts_metadata_key m ≡ some (format_int (pos n))
        → lookup attempts_metadata_key after ≡ some (format_int (pos (n + 1)))
    pub cleared : lookup not_before_metadata_key after ≡ some (time.format (pos 0))
    pub others :
        (k : Text)
        → text_eq expiration_metadata_key k ≡ false
        → text_eq attempts_metadata_key k ≡ false
        → text_eq not_before_metadata_key k ≡ false
        → lookup k after ≡ lookup k m

  pub start_metadata-IsStarted :
      (m : Metadata) (now : ℤ) → IsStarted now m (start_metadata time m now)
  unfolding next_attempts
  start_metadata-IsStarted m now = record {
    leased = start_metadata-expiration m now;
    first = λ e. start_metadata-attempts m now ∙ rw e refl;
    counted =
        λ n h e. start_metadata-attempts m now ∙ rw e (ap some (next_attempts-format_int n h));
    cleared = start_metadata-not_before m now;
    others = start_metadata-others m now;
  }

  -- The metadata of a key at attempt `n`, below the greatest int64, turned by a requeue with any
  -- options into that of a new queued object (not merged into one that is queued already) and then by
  -- a start, counts `n + 1` attempts, and what the requeue writes holds no lease.
  pub attempts-start-requeue :
      (m : Metadata) (n : ℕ) (opts : Options) (requeued now : ℤ) (o : InProgressKey)
      → n < max_int64
      → lookup attempts_metadata_key m ≡ some (format_int (pos n))
      → o.attrs.metadata ≡ start_metadata time (requeue_metadata time m opts requeued) now
      → (get_attempts o ≡ pos (n + 1))
        × (lookup expiration_metadata_key (requeue_metadata time m opts requeued) ≡ none)
  unfolding get_attempts
  attempts-start-requeue m n opts requeued now o h e same = (
    rw
        (
          same,
          start_metadata-attempts (requeue_metadata time m opts requeued) now,
          requeue_metadata-attempts m opts requeued,
          e,
          next_attempts-format_int n h,
          parse_int-format_int (pos (n + 1)) (omega arith) (omega arith),
        )
        refl,
    requeue_metadata-expiration m opts requeued,
  )

  is_orphaned_lease :
      (later : ℤ) (o : InProgressKey) (exp : Text) (u : ℤ)
      → lookup expiration_metadata_key o.attrs.metadata ≡ some exp
      → time.parse exp ≡ some u
      → is_orphaned time later o ≡ ltb_ℤ u later
  unfolding is_orphaned
  is_orphaned_lease later o exp u e parsed = rw (e, is_orphaned) (rw parsed refl)

  -- From its start on, a key counts as owned until its lease of three refresh intervals has run down
  -- to the last second, and as orphaned as soon as the lease has run out.
  pub is_orphaned-start :
      (m : Metadata) (now later : ℤ) (o : InProgressKey)
      → TimeLaws time
      → pos 0 ≤ℤ now
      → now +ℤ pos (3 * refresh_interval) <ℤ year_10000
      → o.attrs.metadata ≡ start_metadata time m now
      → (later +ℤ pos second ≤ℤ now +ℤ pos (3 * refresh_interval)
          → is_orphaned time later o ≡ false)
        × (now +ℤ pos (3 * refresh_interval) <ℤ later → is_orphaned time later o ≡ true)
  is_orphaned-start m now later o laws a b same =
      let end = now +ℤ pos (3 * refresh_interval) in
      let (u, parsed, low, high) =
        laws.parse-format end (omega (arith, +ℤ_parts now (pos (3 * refresh_interval)))) b in
      let leased : lookup expiration_metadata_key o.attrs.metadata ≡ some (time.format end) =
        ap (lookup expiration_metadata_key) same ∙ start_metadata-expiration m now in
      let test = is_orphaned_lease later o (time.format end) u leased parsed in
      (
        λ h. test ∙ ground (arith, +ℤ_parts u (pos second), +ℤ_parts later (pos second)),
        λ h. test ∙ ground (arith, +ℤ_parts u (pos second)),
      )
