-- ===== src/CheckRun/Limit.antt =====
-- The limit on the output of a check run.
use terraform_cloudrun_glue.Base.{
  ℕ, zero, suc, ◌+◌, ◌-◌, ◌≤◌, ◌<◌, ◌≡◌, refl, sym, ap, subst, ◌∙◌, true, false, List, [], ◌∷◌,
  ◌++◌, inl, inr, Bool-cases, Text, take, length, length-append, length-take, leb, ltb, arith,
}
use mathlib.Core.List.{append-nil, append_assoc}
use terraform_cloudrun_glue.CheckRun.{
  Builder, new_builder, max_check_output_length, truncation_message, append_to, truncate_to, writef,
}

take-append_before : (n : ℕ) (s t : Text) → n ≤ length s → take n (s ++ t) ≡ take n s
take-append_before zero s t h = refl
take-append_before (suc n) [] t h = absurd (omega arith)
take-append_before (suc n) (c ∷ s) t h = ap (◌∷◌ c) (take-append_before n s t (omega arith))

take-take_same : (n : ℕ) (s : Text) → take n (take n s) ≡ take n s
take-take_same zero s = refl
take-take_same (suc n) [] = refl
take-take_same (suc n) (c ∷ s) = ap (◌∷◌ c) (take-take_same n s)

module _ (limit : ℕ) (message : Text) (fits : length message ≤ limit) where
  abbrev kept : ℕ
  kept = limit - length message

  truncate_to-over :
      (s : Text) → limit < length s → truncate_to limit message s ≡ take kept s ++ message
  truncate_to-over s h = let e : ltb limit (length s) ≡ true = ground arith in rw e refl

  truncate_to-within : (s : Text) → length s ≤ limit → truncate_to limit message s ≡ s
  truncate_to-within s h = let e : ltb limit (length s) ≡ false = ground arith in rw e refl

  append_to-within :
      (line s : Text) → length s ≤ limit → append_to limit line s ≡ s ++ (line ++ 10 ∷ [])
  append_to-within line s h = let e : leb (length s) limit ≡ true = ground arith in rw e refl

  length-cut : (s : Text) → limit < length s → length (take kept s ++ message) ≡ limit
  length-cut s h = omega (arith, length-append (take kept s) message, length-take kept s)

  length-truncate_to : (s : Text) → length (truncate_to limit message s) ≤ limit
  length-truncate_to s = elim (Bool-cases (ltb limit (length s))) [
    | inl e ↦
        let h : limit < length s = ground arith in
        rw (truncate_to-over s h) (omega (arith, length-cut s h))
    | inr e ↦ let h : length s ≤ limit = ground arith in rw (truncate_to-within s h) h
  ]

  length-line : (s line : Text) → length s < length (s ++ (line ++ 10 ∷ []))
  length-line s line =
      let l : length (line ++ 10 ∷ []) ≡ length line + 1 =
        length-append line (10 ∷ []) ∙ omega arith in
      omega (arith, length-append s (line ++ 10 ∷ []), l)

  -- A line appended to a cut text is cut off again.
  cut_again :
      (line s : Text)
      → limit < length s
      → truncate_to limit message ((take kept s ++ message) ++ (line ++ 10 ∷ []))
        ≡ take kept s ++ message
  cut_again line s h =
      truncate_to-over ((take kept s ++ message) ++ (line ++ 10 ∷ []))
        (omega (arith, length-cut s h, length-line (take kept s ++ message) line))
      ∙ ap (λ t. t ++ message)
          (take-append_before kept (take kept s ++ message) (line ++ 10 ∷ [])
              (omega (arith, length-cut s h))
            ∙ take-append_before kept (take kept s) message (omega (arith, length-take kept s))
            ∙ take-take_same kept s)

  truncate_to-line :
      (line s : Text)
      → limit < length s
      → truncate_to limit message (s ++ (line ++ 10 ∷ [])) ≡ take kept s ++ message
  truncate_to-line line s h =
      truncate_to-over (s ++ (line ++ 10 ∷ [])) (omega (arith, length-line s line))
      ∙ ap (λ t. t ++ message) (take-append_before kept s (line ++ 10 ∷ []) (omega arith))

  truncate_to-append_to :
      (line s : Text)
      → truncate_to limit message (append_to limit line (truncate_to limit message s))
        ≡ truncate_to limit message (s ++ (line ++ 10 ∷ []))
  truncate_to-append_to line s = elim (Bool-cases (ltb limit (length s))) [
    | inl e ↦
        let h : limit < length s = ground arith in
        ap (λ t. truncate_to limit message (append_to limit line t)) (truncate_to-over s h)
        ∙ ap (truncate_to limit message)
            (append_to-within line (take kept s ++ message) (omega (arith, length-cut s h)))
        ∙ cut_again line s h
        ∙ sym (truncate_to-line line s h)
    | inr e ↦
        let h : length s ≤ limit = ground arith in
        ap (λ t. truncate_to limit message (append_to limit line t)) (truncate_to-within s h)
        ∙ ap (truncate_to limit message) (append_to-within line s h)
  ]

-- What the calls with these lines would write without a limit.
abbrev pub all_lines : List Text → Text
all_lines [] = []
all_lines (line ∷ lines) = line ++ (10 ∷ all_lines lines)

-- The calls in a row.
unfoldable pub write_all : List Text → Builder → Builder
unfolding writef
write_all [] b = b
write_all (l ∷ lines) b = write_all lines (writef l b)

abbrev limited : Text → Text
limited = truncate_to max_check_output_length truncation_message

writef-limited :
    (l : Text) (b : Builder) (s : Text)
    → b.md ≡ limited s
    → (writef l b).md ≡ limited (s ++ (l ++ 10 ∷ []))
unfolding writef
writef-limited l b s e =
    ap (λ t. limited (append_to max_check_output_length l t)) e
    ∙ truncate_to-append_to max_check_output_length truncation_message (omega arith) l s

write_all-limited :
    (lines : List Text) (b : Builder) (s : Text)
    → b.md ≡ limited s
    → (write_all lines b).md ≡ limited (s ++ all_lines lines)
unfolding write_all
write_all-limited [] b s e = e ∙ ap limited (sym (append-nil s))
write_all-limited (l ∷ lines) b s e =
    write_all-limited lines (writef l b) (s ++ (l ++ 10 ∷ [])) (writef-limited l b s e)
    ∙ ap limited (
        append_assoc s (l ++ 10 ∷ []) (all_lines lines)
        ∙ ap (λ t. s ++ t) (append_assoc l (10 ∷ []) (all_lines lines)))

-- After any calls of Writef on a new builder the output has at most 65536 bytes, and it is all that
-- was written where that fits; otherwise it is the beginning of all that was written, followed by
-- the message that it was truncated.
pub write_all-truncates :
    (lines : List Text) (name head_sha : Text)
    → (length (write_all lines (new_builder name head_sha)).md ≤ max_check_output_length)
      × ((length (all_lines lines) ≤ max_check_output_length
            → (write_all lines (new_builder name head_sha)).md ≡ all_lines lines)
          × (max_check_output_length < length (all_lines lines)
              → (write_all lines (new_builder name head_sha)).md
                ≡ take (max_check_output_length - length truncation_message) (all_lines lines)
                  ++ truncation_message))
unfolding new_builder
write_all-truncates lines name head_sha =
    let fits : length truncation_message ≤ max_check_output_length = omega arith in
    let all = write_all-limited lines (new_builder name head_sha) [] refl in
    (
      subst (λ t. length t ≤ max_check_output_length) (sym all)
          (length-truncate_to max_check_output_length truncation_message fits (all_lines lines)),
      (
        λ h.
            all
            ∙ truncate_to-within max_check_output_length truncation_message fits (all_lines lines)
                h,
        λ h.
            all
            ∙ truncate_to-over max_check_output_length truncation_message fits (all_lines lines) h,
      ),
    )
