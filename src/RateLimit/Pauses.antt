-- ===== src/RateLimit/Pauses.antt =====
-- The pauses of the limiter under any order of its calls and timers.
use mathlib.Core.List.Memᴰ
use terraform_cloudrun_glue.Base.{
  ℕ, suc, ◌<◌, ◌≡◌, ◌≢◌, ◌↔◌, refl, sym, ap, subst, ◌∙◌, true, false, Option, none, some, List, [],
  ◌∷◌, ◌++◌, inl, inr, ◌⊎◌, Memᴰ, arith, Bool-cases, ℤ, ◌+ℤ◌, ltb_ℤ, ==_iff,
}
use terraform_cloudrun_glue.RateLimit.{
  Limiter, new_limiter, zero_time, holds, close, close_old, renewed, is_current, pause_for, fire,
}

-- The limiter's critical sections: a call of PauseFor, and a timer that fires. The order of the
-- timers is free, since a goroutine may be late.
pub data Step : Limiter → Limiter → Type 0 where
  pauses : {l : Limiter} (now d : ℤ) → Step l (pause_for now d l)
  fires :
      {l : Limiter} (before after : List (ℕ × ℤ)) (ch : ℕ) (t : ℤ)
      → l.timers ≡ before ++ (ch, t) ∷ after
      → Step l (fire ch (record l { timers = before ++ after }))

pub data Reach : Limiter → Type 0 where
  starts : Reach new_limiter
  steps : {l m : Limiter} → Reach l → Step l m → Reach m

pub record Inv (l : Limiter) : Type 0 where
  pub no_panic : l.panicked ≡ false
  pub open_made : (c : ℕ) → l.pause_ch ≡ some c → c < l.made
  pub open_unclosed : (c : ℕ) → l.pause_ch ≡ some c → holds c l.closed ≡ false
  pub open_timed : (c : ℕ) → l.pause_ch ≡ some c → Memᴰ (c, l.pause_until) l.timers
  pub closed_made : (c : ℕ) → holds c l.closed ≡ true → c < l.made
  pub released : (c : ℕ) → c < l.made → (holds c l.closed ≡ true) ⊎ (l.pause_ch ≡ some c)

Inv-new : Inv new_limiter
Inv-new = record {
  no_panic = refl;
  open_made = λ c h. absurd (cc);
  open_unclosed = λ c h. absurd (cc);
  open_timed = λ c h. absurd (cc);
  closed_made = λ c h. absurd (cc);
  released = λ c h. absurd (omega arith);
}

holds-cons : (c d : ℕ) (l : List ℕ) → holds c l ≡ true → holds c (d ∷ l) ≡ true
holds-cons c d l h = ground arith

holds_self : (c : ℕ) (l : List ℕ) → holds c (c ∷ l) ≡ true
holds_self c l = ground arith

holds-cases : (c d : ℕ) (l : List ℕ) → holds c (d ∷ l) ≡ true → (c ≡ d) ⊎ (holds c l ≡ true)
holds-cases c d l h = ground arith

some_inj : {a b : ℕ} → some a ≡ some b → a ≡ b
some_inj h = cc

-- Between the close of the old channel and the making of the new one, every channel is closed.
record AllClosed (l : Limiter) : Type 0 where
  no_panic : l.panicked ≡ false
  closed_made : (c : ℕ) → holds c l.closed ≡ true → c < l.made
  all : (c : ℕ) → c < l.made → holds c l.closed ≡ true

close_old-AllClosed :
    (l : Limiter) (o : Option ℕ) → l.pause_ch ≡ o → Inv l → AllClosed (close_old o l)
unfolding close
close_old-AllClosed l none e i = record {
  no_panic = i.no_panic;
  closed_made = i.closed_made;
  all = λ c h. elim (i.released c h) [ inl k ↦ k | inr k ↦ let x = sym e ∙ k in absurd (cc) ];
}
close_old-AllClosed l (some d) e i = record {
  no_panic = rw (i.no_panic, i.open_unclosed d e) refl;
  closed_made = λ c h. elim (holds-cases c d l.closed h) [
    | inl k ↦ rw k (i.open_made d e)
    | inr k ↦ i.closed_made c k
  ];
  all = λ c h. elim (i.released c h) [
    | inl k ↦ holds-cons c d l.closed k
    | inr k ↦
        subst (λ n. holds n (d ∷ l.closed) ≡ true) (sym (some_inj (sym k ∙ e)))
          (holds_self d l.closed)
  ];
}

renewed-Inv : (until : ℤ) (l : Limiter) → AllClosed l → Inv (renewed until l)
renewed-Inv until l a = record {
  no_panic = a.no_panic;
  open_made = λ c h. let k = some_inj h in omega arith;
  open_unclosed = λ c h. elim (Bool-cases (holds c l.closed)) [
    | inl k ↦ let x = a.closed_made c k in let y = some_inj h in absurd (omega arith)
    | inr k ↦ k
  ];
  open_timed = λ c h. Memᴰ.head (ap (λ n. (n, until)) (sym (some_inj h)));
  closed_made = λ c h. let x = a.closed_made c h in omega arith;
  released =
      λ c h. elim (below c l.made h) [ inl k ↦ inl (a.all c k) | inr k ↦ inr (ap some (sym k)) ];
}
  where
    below : (c n : ℕ) → c < suc n → (c < n) ⊎ (c ≡ n)
    below c n h = omega arith

Inv-pause : (now d : ℤ) (l : Limiter) → Inv l → Inv (pause_for now d l)
unfolding pause_for
Inv-pause now d l i = elim (Bool-cases (ltb_ℤ l.pause_until (now +ℤ d))) [
  | inl e ↦
      rw e
        (renewed-Inv (now +ℤ d) (close_old l.pause_ch l) (close_old-AllClosed l l.pause_ch refl i))
  | inr e ↦ rw e i
]

mem_without :
    (x y : ℕ × ℤ) (before after : List (ℕ × ℤ))
    → Memᴰ x (before ++ y ∷ after)
    → (x ≡ y) ⊎ Memᴰ x (before ++ after)
mem_without x y [] after m = Memᴰ.cases_cons m
mem_without x y (z ∷ before) after m = elim (Memᴰ.cases_cons m) [
  | inl e ↦ inr (Memᴰ.head e)
  | inr k ↦ elim (mem_without x y before after k) [ inl e ↦ inl e | inr r ↦ inr (Memᴰ.tail r) ]
]

-- A timer whose channel is no longer the current one does nothing.
fire-late :
    (l : Limiter) (before after : List (ℕ × ℤ)) (ch : ℕ) (t : ℤ)
    → l.timers ≡ before ++ (ch, t) ∷ after
    → l.pause_ch ≢ some ch
    → Inv l
    → Inv (record l { timers = before ++ after })
fire-late l before after ch t e n i = record {
  no_panic = i.no_panic;
  open_made = i.open_made;
  open_unclosed = i.open_unclosed;
  open_timed = λ c h.
      elim (mem_without (c, l.pause_until) (ch, t) before after
        (subst (Memᴰ (c, l.pause_until)) e (i.open_timed c h))) [
          | inl k ↦ absurd (n (h ∙ ap (λ p. some p.0) k))
          | inr m ↦ m
        ];
  closed_made = i.closed_made;
  released = i.released;
}

fire-current :
    (l : Limiter) (timers : List (ℕ × ℤ)) (ch : ℕ)
    → l.pause_ch ≡ some ch
    → Inv l
    → Inv (record (close ch l) { pause_ch = none; pause_until = zero_time; timers = timers })
unfolding close
fire-current l timers ch e i =
    let a = close_old-AllClosed l (some ch) e i in
    record {
      no_panic = a.no_panic;
      open_made = λ c h. absurd (cc);
      open_unclosed = λ c h. absurd (cc);
      open_timed = λ c h. absurd (cc);
      closed_made = a.closed_made;
      released = λ c h. inl (a.all c h);
    }

is_current_iff : (ch : ℕ) (o : Option ℕ) → (is_current ch o ≡ true) ↔ (o ≡ some ch)
is_current_iff ch none = (λ h. absurd (cc), λ h. absurd (cc))
is_current_iff ch (some c) =
    (λ h. ap some (sym ((==_iff ch c).0 h)), λ h. (==_iff ch c).1 (sym (some_inj h)))

Inv-fire :
    (l : Limiter) (before after : List (ℕ × ℤ)) (ch : ℕ) (t : ℤ)
    → l.timers ≡ before ++ (ch, t) ∷ after
    → Inv l
    → Inv (fire ch (record l { timers = before ++ after }))
unfolding fire close
Inv-fire l before after ch t e i = elim (Bool-cases (is_current ch l.pause_ch)) [
  | inl h ↦ rw h (fire-current l (before ++ after) ch ((is_current_iff ch l.pause_ch).0 h) i)
  | inr h ↦ rw h (
      fire-late l before after ch t e
        (λ k. let x = sym ((is_current_iff ch l.pause_ch).1 k) ∙ h in cc) i)
]

Reach-limiter-Inv : {l : Limiter} → Reach l → Inv l
Reach-limiter-Inv starts = Inv-new
Reach-limiter-Inv (steps {l} r (pauses now d)) = Inv-pause now d l (Reach-limiter-Inv r)
Reach-limiter-Inv (steps {l} r (fires before after ch t e)) =
    Inv-fire l before after ch t e (Reach-limiter-Inv r)

-- Whatever the order of the calls of PauseFor and of the timers, no channel is closed twice, which
-- would panic, and every channel that a call of Wait may have read is closed, or else it is the
-- current one and the goroutine that will close it still sleeps, to the time of the pause.
pub Reach-released :
    (l : Limiter)
    → Reach l
    → (l.panicked ≡ false)
      × ((c : ℕ)
          → c < l.made
          → (holds c l.closed ≡ true) ⊎ ((l.pause_ch ≡ some c) × Memᴰ (c, l.pause_until) l.timers))
Reach-released l r =
    let i = Reach-limiter-Inv r in
    (i.no_panic, λ c h. elim (i.released c h) [ inl k ↦ inl k | inr k ↦ inr (k, i.open_timed c k) ])
