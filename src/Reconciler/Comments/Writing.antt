-- ===== src/Reconciler/Comments/Writing.antt =====
-- What a Commit writes, by the comments that GitHub lists.
use terraform_cloudrun_glue.Base.{
  ℕ, ◌≤◌, ◌≡◌, ◌≢◌, ◌⊎◌, ◌↔◌, refl, sym, ap, ◌∙◌, inl, inr, true, false, Bool-cases, Option, none,
  some, List, [], ◌∷◌, ◌++◌, Text, codes, text_eq, text_eq_iff, Result, returns, fails, All,
}
use terraform_cloudrun_glue.Reconciler.Comments.{
  Packages, State, get_identity_marker, build_comment_content,
}
use terraform_cloudrun_glue.Reconciler.Comments.Calls.{
  Issues, Comment, is_marked, first_marked, wrapped, write_content, commit,
}
use terraform_cloudrun_glue.Reconciler.Comments.Pages.{Listing}
use terraform_cloudrun_glue.Reconciler.Comments.Commits.{commit-write_content}

-- The comment is the first one with the marker.
pub record IsFirst (marker : Text) (cs : List Comment) (c : Comment) : Type 0 where
  pub before : List Comment
  pub after : List Comment
  pub split : cs ≡ before ++ c ∷ after
  pub unmarked : All (λ x. is_marked marker x ≡ false) before
  pub marked : is_marked marker c ≡ true

abbrev pub Found : Text → List Comment → Type 0
Found marker cs =
    (All (λ x. is_marked marker x ≡ false) cs × (first_marked marker cs ≡ none))
    ⊎ ((c : Comment) × IsFirst marker cs c × (first_marked marker cs ≡ some c))

first_marked-Found : (marker : Text) (cs : List Comment) → Found marker cs
unfolding first_marked
first_marked-Found marker [] = inl (tt, refl)
first_marked-Found marker (x ∷ cs) = elim (Bool-cases (is_marked marker x)) [
  | inl h ↦
      inr
        (x, record { before = []; after = cs; split = refl; unmarked = tt; marked = h }, rw h refl)
  | inr h ↦ elim (first_marked-Found marker cs) [
    | inl (none_marked, e) ↦ inl ((h, none_marked), rw h e)
    | inr (c, f, e) ↦ inr (
      c,
      record {
        before = x ∷ f.before;
        after = f.after;
        split = ap (◌∷◌ x) f.split;
        unmarked = (h, f.unmarked);
        marked = f.marked;
      },
      rw h e,
    )
  ]
]

module _ (p : Packages) (is : Issues) where
  -- The result of a call is passed on: its effect, and whether it succeeded.
  abbrev pub IsPassed : Result Unit × is.Store → Result Unit × is.Store → Type 0
  IsPassed r out = (out.1 ≡ r.1) × ((out.0 ≡ returns tt) ↔ (r.0 ≡ returns tt))

  wrapped-IsPassed : (what : Text) (r : Result Unit × is.Store) → IsPassed r (wrapped p is what r)
  wrapped-IsPassed what (returns u, w) = (refl, ((λ h. refl), (λ h. refl)))
  wrapped-IsPassed what (fails e, w) = (refl, ((λ h. absurd (cc)), (λ h. absurd (cc))))

  module _ (s : State) where
    -- What is done with the content, given the comments: where none has the marker of the identity
    -- it becomes a new comment; the first one that has it is left if its body is the content, and
    -- otherwise edited to have it.
    pub data Writes (content : Text) (cs : List Comment) (store : is.Store)
        : Result Unit × is.Store → Type 0 where
      creates :
          {out : Result Unit × is.Store}
          → All (λ x. is_marked (get_identity_marker s) x ≡ false) cs
          → IsPassed
              (is.create_comment s.resource.owner s.resource.repo s.resource.number content store)
              out
          → Writes content cs store out
      leaves :
          (c : Comment)
          → IsFirst (get_identity_marker s) cs c
          → c.body ≡ some content
          → Writes content cs store (returns tt, store)
      edits :
          {out : Result Unit × is.Store} (c : Comment)
          → IsFirst (get_identity_marker s) cs c
          → c.body ≢ some content
          → IsPassed (is.edit_comment s.resource.owner s.resource.repo c.id content store) out
          → Writes content cs store out

    by_body :
        (content : Text) (cs : List Comment) (store : is.Store) (c : Comment) (body : Option Text)
        → IsFirst (get_identity_marker s) cs c
        → c.body ≡ body
        → Writes content cs store (write_content p is s content (some c) store)
    unfolding write_content
    by_body content cs store c none f e = rw e (
        edits c f (λ h. let k : none ≡ some content = sym e ∙ h in cc)
          (wrapped-IsPassed (codes "failed to update comment: ") _))
    by_body content cs store c (some b) f e = elim (Bool-cases (text_eq b content)) [
      | inl same ↦ rw e (rw same (leaves c f (e ∙ ap some ((text_eq_iff b content).0 same))))
      | inr other ↦ rw e (
          rw other (
            edits c f
              (λ h.
                let k : some b ≡ some content = sym e ∙ h in
                let t : text_eq b content ≡ true = (text_eq_iff b content).1 (cc) in cc)
              (wrapped-IsPassed (codes "failed to update comment: ") _)))
    ]

    write_content-Writes :
        (content : Text) (cs : List Comment) (store : is.Store)
        → Writes content cs store
            (write_content p is s content (first_marked (get_identity_marker s) cs) store)
    unfolding write_content
    write_content-Writes content cs store = elim (first_marked-Found (get_identity_marker s) cs) [
      | inl (none_marked, e) ↦
          rw e (creates none_marked (wrapped-IsPassed (codes "failed to create comment: ") _))
      | inr (c, f, e) ↦ rw e (by_body content cs store c c.body f refl)
    ]

    -- With fuel for the pages that list the comments, Commit ends. Where no comment has the marker
    -- of the identity, it creates one with the state's content; the first one that has it is left as
    -- it is if its body is the content, and otherwise edited to have it. Commit succeeds if and only
    -- if this call does, and makes no other change.
    pub commit-Writes :
        (store : is.Store) (v : p.Value) (json message : Text) (n fuel : ℕ) (cs : List Comment)
        → p.marshal_indent v ≡ returns json
        → Listing is s.resource store n 0 cs
        → n ≤ fuel
        → (out : Result Unit × is.Store) × (commit p is s fuel v message store ≡ some out)
          × Writes (build_comment_content p s json message) cs store out
    commit-Writes store v json message n fuel cs e l h = (
      _,
      commit-write_content p is s store v json message n fuel cs e l h,
      write_content-Writes (build_comment_content p s json message) cs store,
    )
