-- ===== src/Reconciler/Comments/Commits.antt =====
-- What a Fetch finds after a Commit, over what GitHub documents of its comments.
use terraform_cloudrun_glue.Base.{
  ℕ, ◌+◌, ◌≤◌, ◌≡◌, refl, sym, ap, subst, ◌∙◌, true, false, Option, none, some, List, [], ◌∷◌, ◌++◌,
  map, inl, inr, Bool-cases, if◌then◌else◌, ℤ, eqb_ℤ, Text, codes, text_eq_refl, text_eq_iff,
  contains, Result, returns, fails, arith, or_else,
}
use terraform_cloudrun_glue.Reconciler.{Resource}
use terraform_cloudrun_glue.Reconciler.Comments.{
  Packages, State, get_identity_marker, build_comment_content,
}
use terraform_cloudrun_glue.Reconciler.Comments.Calls.{
  Issues, Comment, is_marked, first_marked, read_body, fetch, wrapped, is_unchanged, write_content,
  commit, write_found,
}
use terraform_cloudrun_glue.Reconciler.Comments.Extract.{
  IsReadable, extract_state-build_comment_content, content-identity_marker, content-state_marker,
}
use terraform_cloudrun_glue.Reconciler.Comments.Pages.{
  Listing, find_existing_comment_lem, fetch_lem, first_marked-append,
}

abbrev pub edited : ℤ → Text → Comment → Comment
edited id body c = if eqb_ℤ c.id id then record c { body = some body } else c

-- The documented effect of the calls on the listing of the comments.
pub record IssuesLaws (is : Issues) : Type 0 where
  pub edit_done :
      (r : Resource) (id : ℤ) (body : Text) (store store' : is.Store) (n : ℕ) (cs : List Comment)
      → Listing is r store n 0 cs
      → is.edit_comment r.owner r.repo id body store ≡ (returns tt, store')
      → (m : ℕ) × Listing is r store' m 0 (map (edited id body) cs)
  pub create_done :
      (r : Resource) (body : Text) (store store' : is.Store) (n : ℕ) (cs : List Comment)
      → Listing is r store n 0 cs
      → is.create_comment r.owner r.repo r.number body store ≡ (returns tt, store')
      → (m : ℕ) × (id : ℤ) × Listing is r store' m 0
          (cs ++ record { id = id; body = some body } ∷ [])

module _ (p : Packages) (is : Issues) (s : State) where
  -- With fuel for the pages Commit goes by the first comment of the listing with the marker.
  pub commit-write_content :
      (store : is.Store) (v : p.Value) (json message : Text) (n fuel : ℕ) (cs : List Comment)
      → p.marshal_indent v ≡ returns json
      → Listing is s.resource store n 0 cs
      → n ≤ fuel
      → commit p is s fuel v message store
        ≡ some (
            write_content p is s
              (build_comment_content p s json message)
              (first_marked (get_identity_marker s) cs)
              store)
  unfolding commit
  commit-write_content store v json message n fuel cs e l h =
      rw (e, commit)
        (ap (write_found p is s (build_comment_content p s json message) store)
          (find_existing_comment_lem p is s store n fuel cs l h))

  read-content :
      (v : p.Value) (json message : Text)
      → IsReadable p s json message
      → p.unmarshal json ≡ returns v
      → read_body p is s (some (build_comment_content p s json message)) ≡ some v
  read-content v json message h e =
      rw (content-state_marker p s json message)
        (rw (extract_state-build_comment_content p s json message h) (rw e refl))

first_marked-edited :
    (m content : Text) (c : Comment) (cs : List Comment)
    → contains content m ≡ true
    → first_marked m cs ≡ some c
    → (d : Comment) × (first_marked m (map (edited c.id content) cs) ≡ some d)
      × (d.body ≡ some content)
unfolding first_marked
first_marked-edited m content c [] h e = let f = e in absurd (cc)
first_marked-edited m content c (x ∷ cs) h e = elim (Bool-cases (eqb_ℤ x.id c.id)) [
  | inl t ↦ (record x { body = some content }, rw t (rw h refl), refl)
  | inr t ↦ elim (Bool-cases (is_marked m x)) [
    | inl k ↦ let same : some x ≡ some c = rw k at e in absurd (apart (some_injective same) t)
    | inr k ↦
        let rest : first_marked m cs ≡ some c = rw k at e in
        let (d, found, body) = first_marked-edited m content c cs h rest in
        (d, rw t (rw k found), body)
  ]
]
  where
    apart : x ≡ c → eqb_ℤ x.id c.id ≡ false → ⊥
    apart e t =
        let u : eqb_ℤ c.id c.id ≡ false = sym (ap (λ y. eqb_ℤ y.id c.id) e) ∙ t in
        let v : eqb_ℤ c.id c.id ≡ true = ground arith in cc

    some_injective : some x ≡ some c → x ≡ c
    some_injective e = cc

module _ (p : Packages) (is : Issues) (s : State) where
  wrapped_done :
      (what : Text) (r : Result Unit × is.Store) (store : is.Store)
      → wrapped p is what r ≡ (returns tt, store)
      → r ≡ (returns tt, store)
  wrapped_done what (returns u, t) store e = e
  wrapped_done what (fails f, t) store e = let h = ap (λ x. x.0) e in absurd (cc)

  is_unchanged-body :
      (b : Option Text) (content : Text) → is_unchanged p is b content ≡ true → b ≡ some content
  is_unchanged-body none content h = let t = h in absurd (cc)
  is_unchanged-body (some b) content h = ap some ((text_eq_iff b content).0 h)

  -- The first comment that the loops stop at has the body.
  abbrev Holds : Text → is.Store → Type 0
  Holds content store =
      (m : ℕ) × (ds : List Comment) × (d : Comment) × Listing is s.resource store m 0 ds
      × (first_marked (get_identity_marker s) ds ≡ some d)
      × (d.body ≡ some content)

  module _ (laws : IssuesLaws is) where
    updates :
        (content : Text) (store store' : is.Store) (n : ℕ) (cs : List Comment) (c : Comment)
        → contains content (get_identity_marker s) ≡ true
        → Listing is s.resource store n 0 cs
        → first_marked (get_identity_marker s) cs ≡ some c
        → write_content p is s content (some c) store ≡ (returns tt, store')
        → Holds content store'
    unfolding write_content
    updates content store store' n cs c h l found e =
        elim (Bool-cases (is_unchanged p is c.body content)) [
          | inl same ↦
              let unmoved : store ≡ store' = ap (λ x. x.1) (rw same at e) in
              subst (Holds content) unmoved
                (n, cs, c, l, found, is_unchanged-body c.body content same)
          | inr other ↦
              let done =
                wrapped_done (codes "failed to update comment: ") _ store' (rw other at e) in
              let (m, l') = laws.edit_done s.resource c.id content store store' n cs l done in
              let (d, found', body) =
                first_marked-edited (get_identity_marker s) content c cs h found in
              (m, map (edited c.id content) cs, d, l', found', body)
        ]

    creates :
        (content : Text) (store store' : is.Store) (n : ℕ) (cs : List Comment)
        → contains content (get_identity_marker s) ≡ true
        → Listing is s.resource store n 0 cs
        → first_marked (get_identity_marker s) cs ≡ none
        → write_content p is s content none store ≡ (returns tt, store')
        → Holds content store'
    unfolding write_content
    creates content store store' n cs h l found e =
        let done = wrapped_done (codes "failed to create comment: ") _ store' e in
        let (m, id, l') = laws.create_done s.resource content store store' n cs l done in
        let new : Comment = record { id = id; body = some content } in
        (
          m,
          cs ++ new ∷ [],
          new,
          l',
          first_marked-append (get_identity_marker s) cs (new ∷ [])
              ∙ ap (λ o. or_else o (first_marked (get_identity_marker s) (new ∷ []))) found
              ∙ only h,
          refl,
        )
      where
        only :
            {id : ℤ}
            → contains content (get_identity_marker s) ≡ true
            → first_marked (get_identity_marker s) (record { id = id; body = some content } ∷ [])
              ≡ some (record { id = id; body = some content })
        only h = unfold first_marked in rw h refl

    holds :
        (v : p.Value) (json message : Text) (store store' : is.Store) (n fuel : ℕ)
        (cs : List Comment)
        → p.marshal_indent v ≡ returns json
        → Listing is s.resource store n 0 cs
        → n ≤ fuel
        → commit p is s fuel v message store ≡ some (returns tt, store')
        → Holds (build_comment_content p s json message) store'
    holds v json message store store' n fuel cs e l h done =
        let content = build_comment_content p s json message in
        let marked = content-identity_marker p s json message in
        let written : some
              (write_content p is s content (first_marked (get_identity_marker s) cs) store)
            ≡ some (returns tt, store') =
          sym (commit-write_content p is s store v json message n fuel cs e l h) ∙ done in
        by_first (first_marked (get_identity_marker s) cs) refl marked (some_injective written)
      where
        some_injective : {A : Type 0} {x y : A} → some x ≡ some y → x ≡ y
        some_injective e = cc

        by_first :
            (o : Option Comment)
            → first_marked (get_identity_marker s) cs ≡ o
            → contains (build_comment_content p s json message) (get_identity_marker s) ≡ true
            → write_content p is s (build_comment_content p s json message) o store
              ≡ (returns tt, store')
            → Holds (build_comment_content p s json message) store'
        by_first none found marked w = creates _ store store' n cs marked l found w
        by_first (some c) found marked w = updates _ store store' n cs c marked l found w

-- After a Commit that succeeds Fetch returns the state committed, with fuel for the pages there are
-- then: if GitHub's listing shows the edits and the comments that succeed, the JSON of the state
-- reads back as the state, the identity is one line, neither the line on the bot nor the message
-- holds the marker of the state, and the JSON has no "<" and no space at its ends.
pub fetch-commit :
    (p : Packages) (is : Issues) (laws : IssuesLaws is) (s : State) (v : p.Value)
    (json message : Text) (store store' : is.Store) (n fuel : ℕ) (cs : List Comment)
    → p.marshal_indent v ≡ returns json
    → p.unmarshal json ≡ returns v
    → IsReadable p s json message
    → Listing is s.resource store n 0 cs
    → n ≤ fuel
    → commit p is s fuel v message store ≡ some (returns tt, store')
    → (m : ℕ) × ((k : ℕ) → fetch p is s (m + k) store' ≡ some (returns (some v)))
fetch-commit p is laws s v json message store store' n fuel cs e back readable l h done =
    let (m, ds, d, l', found, body) =
      holds p is s laws v json message store store' n fuel cs e l h done in
    (
      m,
      λ k.
          fetch_lem p is s store' m (m + k) ds d l' (omega arith) found
          ∙ ap (λ b. some (returns (read_body p is s b))) body
          ∙ ap (λ o. some (returns o)) (read-content p is s v json message readable back),
    )

-- A second Commit of the same state with the same message, with fuel for the pages, succeeds and
-- makes no call that writes, if GitHub's listing shows the edits and the comments that succeed.
pub commit-commit :
    (p : Packages) (is : Issues) (laws : IssuesLaws is) (s : State) (v : p.Value)
    (json message : Text) (store store' : is.Store) (n fuel : ℕ) (cs : List Comment)
    → p.marshal_indent v ≡ returns json
    → Listing is s.resource store n 0 cs
    → n ≤ fuel
    → commit p is s fuel v message store ≡ some (returns tt, store')
    → (m : ℕ) × ((k : ℕ) → commit p is s (m + k) v message store' ≡ some (returns tt, store'))
commit-commit p is laws s v json message store store' n fuel cs e l h done =
    let (m, ds, d, l', found, body) =
      holds p is s laws v json message store store' n fuel cs e l h done in
    let content = build_comment_content p s json message in
    (
      m,
      λ k.
          commit-write_content p is s store' v json message m (m + k) ds e l' (omega arith)
          ∙ ap (λ o. some (write_content p is s content o store')) found
          ∙ ap some (unchanged content d body),
    )
  where
    unchanged :
        (content : Text) (d : Comment)
        → d.body ≡ some content
        → write_content p is s content (some d) store' ≡ (returns tt, store')
    unchanged content d body = unfold write_content in rw body (rw (text_eq_refl content) refl)
