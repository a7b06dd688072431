-- ===== src/Gcs/Enumerate/Order.antt =====
-- What the GCS queue's Enumerate offers and counts.
use terraform_cloudrun_glue.Base.{
  ℕ, suc, ◌+◌, ◌≡◌, refl, ap, ◌∙◌, Bool, true, false, not, ◌&&◌, List, [], ◌∷◌, map, if◌then◌else◌,
  inl, inr, Bool-cases, ℤ, Text, text_lt, has_prefix, push_top, top_loop, keep, length, arith,
  IsWeakOrder, IsTop, top_loop_lem, take-sort_by-IsTop,
}
use terraform_cloudrun_glue.Gcs.{TimeLib, Attrs, QueuedKey, queued_prefix, in_progress_prefix}
use terraform_cloudrun_glue.Gcs.Store.{Storage, Answer, done, failed}
use terraform_cloudrun_glue.Gcs.Enumerate.{
  Scan, empty_scan, ranks_before, count_attempts, is_early, as_queued, sort_object, scan, enumerate,
}

text_lt-asym : (s t : Text) → text_lt s t ≡ true → text_lt t s ≡ false
unfolding text_lt
text_lt-asym [] [] h = absurd (cc)
text_lt-asym [] (d ∷ t) h = refl
text_lt-asym (c ∷ s) [] h = absurd (cc)
text_lt-asym (c ∷ s) (d ∷ t) h = ground (arith, text_lt-asym s t)

text_lt_trans : (s t u : Text) → text_lt t s ≡ false → text_lt u t ≡ false → text_lt u s ≡ false
unfolding text_lt
text_lt_trans [] t u h k = ground arith
text_lt_trans (c ∷ s) [] u h k = absurd (cc)
text_lt_trans (c ∷ s) (d ∷ t) [] h k = absurd (cc)
text_lt_trans (c ∷ s) (d ∷ t) (e ∷ u) h k = ground (arith, text_lt_trans s t u)

ranks_before-IsWeakOrder : IsWeakOrder ranks_before
unfolding ranks_before
ranks_before-IsWeakOrder = record {
  asym = λ x y h. ground (arith, text_lt-asym x.attrs.name y.attrs.name);
  trans = λ x y z h k. ground (arith, text_lt_trans x.attrs.name y.attrs.name z.attrs.name);
}

module _ (time : TimeLib) (limit : ℕ) (now : ℤ) where
  -- The queued objects that are due, and the other classes.
  abbrev pub is_due : Attrs → Bool
  is_due a =
      not (has_prefix a.name in_progress_prefix)
      && (has_prefix a.name queued_prefix && not (is_early time now a))

  abbrev pub candidates : List Attrs → List QueuedKey
  candidates l = map (as_queued time) (keep is_due l)

  count_attempts-qd : (a : Attrs) (s : Scan) → (count_attempts a s).qd ≡ s.qd
  unfolding count_attempts
  count_attempts-qd a s = ground arith

  sort_object-qd :
      (a : Attrs) (s : Scan)
      → (sort_object time limit now a s).qd
        ≡ (if is_due a then push_top ranks_before limit s.qd (as_queued time a) else s.qd)
  unfolding sort_object
  sort_object-qd a s = ground arith

  counted_qd :
      (a : Attrs) (s : Scan)
      → (sort_object time limit now a (count_attempts a s)).qd
        ≡ (if is_due a then push_top ranks_before limit s.qd (as_queued time a) else s.qd)
  counted_qd a s =
      sort_object-qd a (count_attempts a s)
      ∙ ap (λ qd. if is_due a then push_top ranks_before limit qd (as_queued time a) else qd)
          (count_attempts-qd a s)

  counted_qd-yes :
      (a : Attrs) (s : Scan)
      → is_due a ≡ true
      → (sort_object time limit now a (count_attempts a s)).qd
        ≡ push_top ranks_before limit s.qd (as_queued time a)
  counted_qd-yes a s e =
      counted_qd a s
      ∙ ap (λ b. if b then push_top ranks_before limit s.qd (as_queued time a) else s.qd) e

  counted_qd-no :
      (a : Attrs) (s : Scan)
      → is_due a ≡ false
      → (sort_object time limit now a (count_attempts a s)).qd ≡ s.qd
  counted_qd-no a s e =
      counted_qd a s
      ∙ ap (λ b. if b then push_top ranks_before limit s.qd (as_queued time a) else s.qd) e

  scan-qd :
      (l : List Attrs) (s : Scan)
      → (scan time limit now s l).qd ≡ top_loop ranks_before limit s.qd (candidates l)
  unfolding scan top_loop
  scan-qd [] s = refl
  scan-qd (a ∷ l) s = elim (Bool-cases (is_due a)) [
    | inl e ↦
        rw (scan-qd l (sort_object time limit now a (count_attempts a s)), counted_qd-yes a s e, e)
          refl
    | inr e ↦
        rw (scan-qd l (sort_object time limit now a (count_attempts a s)), counted_qd-no a s e, e)
          refl
  ]

  count_attempts-queued : (a : Attrs) (s : Scan) → (count_attempts a s).queued ≡ s.queued
  unfolding count_attempts
  count_attempts-queued a s = ground arith

  sort_object-queued :
      (a : Attrs) (s : Scan)
      → (sort_object time limit now a s).queued ≡ (if is_due a then suc s.queued else s.queued)
  unfolding sort_object
  sort_object-queued a s = ground arith

  counted_queued :
      (a : Attrs) (s : Scan)
      → (sort_object time limit now a (count_attempts a s)).queued
        ≡ (if is_due a then suc s.queued else s.queued)
  counted_queued a s =
      sort_object-queued a (count_attempts a s)
      ∙ ap (λ n. if is_due a then suc n else n) (count_attempts-queued a s)

  counted_length :
      (a : Attrs) (s : Scan) (l : List Attrs)
      → (if is_due a then suc s.queued else s.queued) + length (candidates l)
        ≡ s.queued + length (candidates (a ∷ l))
  counted_length a s l = elim (Bool-cases (is_due a)) [
    | inl e ↦ rw e (omega arith)
    | inr e ↦ rw e refl
  ]

  scan-queued :
      (l : List Attrs) (s : Scan)
      → (scan time limit now s l).queued ≡ s.queued + length (candidates l)
  unfolding scan
  scan-queued [] s = omega arith
  scan-queued (a ∷ l) s =
      scan-queued l (sort_object time limit now a (count_attempts a s))
      ∙ ap (λ n. n + length (candidates l)) (counted_queued a s)
      ∙ counted_length a s l

-- What GCS's Enumerate returns for a bucket whose listing is `l`: the queued keys are, in order of
-- rank, the `limit` best of the objects that are queued and due (all of them, if there are fewer),
-- and the gauge of queued keys is set to how many objects are queued and due.
pub enumerate-IsTop-candidates :
    (time : TimeLib) (st : Storage) (limit : ℕ) (now : ℤ) (b : st.Bucket) (l : List Attrs)
    → st.list b ≡ done l
    → (s : Scan) × (enumerate time st limit now b ≡ done s)
      × (s.queued ≡ length (candidates time limit now l))
      × IsTop ranks_before limit (candidates time limit now l) s.qd
unfolding enumerate
enumerate-IsTop-candidates time st limit now b l e = (
  scan time limit now empty_scan l,
  ap
      (λ u. elim u as (λ _. Answer Scan) [
        | failed x ↦ failed x
        | done m ↦ done (scan time limit now empty_scan m)
      ])
      e,
  scan-queued time limit now l empty_scan ∙ omega arith,
  rw
      (
        scan-qd time limit now l empty_scan,
        top_loop_lem ranks_before limit ranks_before-IsWeakOrder (candidates time limit now l),
      )
      (take-sort_by-IsTop ranks_before ranks_before-IsWeakOrder limit
        (candidates time limit now l)),
)
