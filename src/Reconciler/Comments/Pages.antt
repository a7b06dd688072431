-- ===== src/Reconciler/Comments/Pages.antt =====
-- The loops of Fetch and findExistingComment over the pages of comments.
use terraform_cloudrun_glue.Base.{
  ℕ, zero, suc, ◌≤◌, ◌≡◌, refl, sym, ap, ◌∙◌, Option, none, some, List, [], ◌∷◌, ◌++◌, inl, inr,
  ◌⊎◌, Bool-cases, Text, Result, returns, arith, or_else, ending, last_ending, next_ending,
}
use terraform_cloudrun_glue.Reconciler.{Resource}
use terraform_cloudrun_glue.Reconciler.Comments.{Packages, State, get_identity_marker}
use terraform_cloudrun_glue.Reconciler.Comments.Calls.{
  Issues, Comment, is_marked, first_marked, find_from, find_existing_comment, read_body, fetch_from,
  fetch,
}

-- From the page on, the comments are listed on so many pages.
abbrev pub Listing : (is : Issues) → Resource → is.Store → (pages page : ℕ) → List Comment → Type 0
Listing is r store zero page cs = ⊥
Listing is r store (suc n) page cs =
    (is.list_comments r.owner r.repo r.number page store ≡ returns (cs, 0))
    ⊎ ((here : List Comment) × (next : ℕ) × (rest : List Comment) × (is.list_comments r.owner r.repo
            r.number page store
          ≡ returns (here, suc next))
        × Listing is r store n (suc next) rest
        × (cs ≡ here ++ rest))

pub first_marked-append :
    (m : Text) (a b : List Comment)
    → first_marked m (a ++ b) ≡ or_else (first_marked m a) (first_marked m b)
unfolding first_marked
first_marked-append m [] b = refl
first_marked-append m (c ∷ a) b = elim (Bool-cases (is_marked m c)) [
  | inl e ↦ rw e refl
  | inr e ↦ rw e (first_marked-append m a b)
]

module _ (p : Packages) (is : Issues) (s : State) (store : is.Store) where
  abbrev marked_in : List Comment → Option Comment
  marked_in cs = first_marked (get_identity_marker s) cs

  marked-append :
      {A : Type 0} (g : Comment → A) (z : A) (cs here rest : List Comment)
      → cs ≡ here ++ rest
      → ending g z (or_else (marked_in here) (marked_in rest)) ≡ ending g z (marked_in cs)
  marked-append g z cs here rest e =
      ap (ending g z)
        (sym (first_marked-append (get_identity_marker s) here rest) ∙ ap marked_in (sym e))

  abbrev found : Comment → Result (Option Comment)
  found c = returns (some c)

  find_from-ending :
      (n page fuel : ℕ) (cs : List Comment)
      → Listing is s.resource store n page cs
      → n ≤ fuel
      → find_from is s fuel page store ≡ some (ending found (returns none) (marked_in cs))
  unfolding find_from
  find_from-ending zero page fuel cs l h = absurd l
  find_from-ending (suc n) page zero cs l h = absurd (omega arith)
  find_from-ending (suc n) page (suc fuel) cs (inl e) h =
      rw (e, find_from) (last_ending found (returns none) (marked_in cs))
  find_from-ending (suc n) page (suc fuel) cs (inr (here, next, rest, e, l, same)) h =
      rw (e, find_from)
        (next_ending found (returns none) (marked_in here) (marked_in rest) _ next
          (find_from-ending n (suc next) fuel rest l (omega arith)))
      ∙ ap some (marked-append found (returns none) cs here rest same)

  abbrev read_comment : Comment → Result (Option p.Value)
  read_comment c = returns (read_body p is s c.body)

  fetch_from-ending :
      (n page fuel : ℕ) (cs : List Comment)
      → Listing is s.resource store n page cs
      → n ≤ fuel
      → fetch_from p is s fuel page store ≡ some (ending read_comment (returns none) (marked_in cs))
  unfolding fetch_from
  fetch_from-ending zero page fuel cs l h = absurd l
  fetch_from-ending (suc n) page zero cs l h = absurd (omega arith)
  fetch_from-ending (suc n) page (suc fuel) cs (inl e) h =
      rw (e, fetch_from) (last_ending read_comment (returns none) (marked_in cs))
  fetch_from-ending (suc n) page (suc fuel) cs (inr (here, next, rest, e, l, same)) h =
      rw (e, fetch_from)
        (next_ending read_comment (returns none) (marked_in here) (marked_in rest) _ next
          (fetch_from-ending n (suc next) fuel rest l (omega arith)))
      ∙ ap some (marked-append read_comment (returns none) cs here rest same)

  -- With fuel for the pages that list them, findExistingComment returns the first of the comments
  -- whose body holds the marker of the identity.
  pub find_existing_comment_lem :
      (n fuel : ℕ) (cs : List Comment)
      → Listing is s.resource store n 0 cs
      → n ≤ fuel
      → find_existing_comment is s fuel store ≡ some (returns (marked_in cs))
  unfolding find_existing_comment
  find_existing_comment_lem n fuel cs l h =
      find_from-ending n 0 fuel cs l h ∙ ap some (same (marked_in cs))
    where
      same : (o : Option Comment) → ending found (returns none) o ≡ returns o
      same none = refl
      same (some c) = refl

  -- Fetch reads the first of the comments whose body holds the marker of the identity.
  pub fetch_lem :
      (n fuel : ℕ) (cs : List Comment) (c : Comment)
      → Listing is s.resource store n 0 cs
      → n ≤ fuel
      → first_marked (get_identity_marker s) cs ≡ some c
      → fetch p is s fuel store ≡ some (returns (read_body p is s c.body))
  unfolding fetch
  fetch_lem n fuel cs c l h e =
      fetch_from-ending n 0 fuel cs l h ∙ ap (λ o. some (ending read_comment (returns none) o)) e
