-- ===== src/Reconciler/Comments/Extract.antt =====
-- Reading a state back from the comment that was built of it.
use mathlib.Core.List.{append_assoc, append-nil}
use terraform_cloudrun_glue.Base.{
  ℕ, suc, ◌+◌, ◌<◌, ◌≡◌, refl, sym, ap, subst, ◌∙◌, true, false, some, [], ◌∷◌, ◌++◌, Text, codes,
  contains, index, length, length-append, take, drop, trim_space, trim_space-line, trim_prefix,
  trim_prefix-append, trim_suffix, trim_suffix-append, IsTight, IsTight-around, All-append, FreeOf,
  index-line, index-here, contains-line, contains-length, contains-FreeOf, contains-here,
  contains-later, arith, ◌==◌,
}
use terraform_cloudrun_glue.Reconciler.Comments.{
  Packages, State, get_state_marker, state_end_marker, get_identity_marker, build_bot_info_block,
  build_comment_content, extract_json, extract_state, unmarshalled, unmarshal_json,
}

drop-append : (a b : Text) (n : ℕ) → drop (length a + n) (a ++ b) ≡ drop n b
drop-append [] b n = let e : 0 + n ≡ n = omega arith in ap (λ k. drop k b) e
drop-append (c ∷ a) b n =
    let e : suc (length a) + n ≡ suc (length a + n) = omega arith in
    ap (λ k. drop k (c ∷ (a ++ b))) e ∙ drop-append a b n

take-append : (a b : Text) → take (length a) (a ++ b) ≡ a
take-append [] b = refl
take-append (c ∷ a) b = ap (◌∷◌ c) (take-append a b)

after_marker : (a m t : Text) → drop (length (a ++ 10 ∷ []) + length m) (a ++ 10 ∷ (m ++ t)) ≡ t
after_marker a m t =
    let e : length m ≡ length m + 0 = omega arith in
    ap (drop (length (a ++ 10 ∷ []) + length m)) (sym (append_assoc a (10 ∷ []) (m ++ t)))
    ∙ drop-append (a ++ 10 ∷ []) (m ++ t) (length m)
    ∙ ap (λ k. drop k (m ++ t)) e
    ∙ drop-append m t 0

contains-nil : (p : Text) → 0 < length p → contains [] p ≡ false
contains-nil p h = contains-length [] p h

-- A text of lines that each lack a marker, which then comes on a line of its own.
module _ (p : Text) (free : FreeOf 10 p) (long : 4 < length p) where
  after_empty : (b : Text) → contains b p ≡ false → contains (10 ∷ b) p ≡ false
  after_empty b h = contains-line 10 [] b p free (contains-nil p (omega arith)) h

  index-marker :
      (a t : Text)
      → contains a p ≡ false
      → index (a ++ 10 ∷ (p ++ t)) p ≡ some (length (a ++ 10 ∷ []))
  index-marker a t h =
      index-line 10 a (p ++ t) p free h
      ∙ rw (index-here p t) (ap some (omega (arith, length-append a (10 ∷ []))))

abbrev opening : (a b m : Text) → Text
opening a b m = a ++ 10 ∷ 10 ∷ (b ++ 10 ∷ 10 ∷ 45 ∷ 45 ∷ 45 ∷ 10 ∷ 10 ∷ (m ++ 10 ∷ []))

opening-append :
    (a b m t : Text)
    → a ++ 10 ∷ 10 ∷ (b ++ 10 ∷ 10 ∷ 45 ∷ 45 ∷ 45 ∷ 10 ∷ 10 ∷ (m ++ 10 ∷ 10 ∷ t))
      ≡ opening a b m ++ 10 ∷ t
opening-append a b m t = sym (
    append_assoc a _ (10 ∷ t)
    ∙ ap (λ x. a ++ 10 ∷ 10 ∷ x)
        (append_assoc b _ (10 ∷ t)
          ∙ ap (λ x. b ++ 10 ∷ 10 ∷ 45 ∷ 45 ∷ 45 ∷ 10 ∷ 10 ∷ x)
              (append_assoc m (10 ∷ []) (10 ∷ t))))

module _ (p : Text) (free : FreeOf 10 p) (long : 4 < length p) where
  opening-lacks :
      (a b m : Text)
      → contains a p ≡ false
      → contains b p ≡ false
      → contains m p ≡ false
      → contains (opening a b m) p ≡ false
  opening-lacks a b m ha hb hm =
      let line = contains-line 10 in
      let empty = after_empty p free long in
      line a _ p free ha (
        empty _ (
          line b _ p free hb (
            empty _ (
              line (45 ∷ 45 ∷ 45 ∷ []) _ p free
                (contains-length (45 ∷ 45 ∷ 45 ∷ []) p (omega arith))
                (empty _ (line m [] p free hm (contains-nil p (omega arith))))))))

abbrev wrapping : Text → Text
wrapping json = 10 ∷ 60 ∷ 33 ∷ 45 ∷ 45 ∷ 10 ∷ (json ++ 10 ∷ 45 ∷ 45 ∷ 62 ∷ [])

trimmed :
    (json : Text)
    → IsTight json
    → trim_space (
        trim_suffix
          (trim_prefix (trim_space (wrapping json ++ 10 ∷ [])) (codes "<!--"))
          (codes "-->"))
      ≡ json
trimmed json h =
    ap (λ t. trim_space (trim_suffix (trim_prefix t (codes "<!--")) (codes "-->")))
      (trim_space-line (codes "<!--" ++ (10 ∷ json ++ 10 ∷ codes "-->"))
        (IsTight-around (codes "<!--") (10 ∷ json) (10 ∷ codes "-->") refl refl))
    ∙ ap (λ t. trim_space (trim_suffix t (codes "-->")))
        (trim_prefix-append (codes "<!--") (10 ∷ json ++ 10 ∷ codes "-->"))
    ∙ ap (λ t. trim_space (trim_suffix t (codes "-->")))
        (sym (append_assoc (10 ∷ json) (10 ∷ []) (codes "-->")))
    ∙ ap trim_space (trim_suffix-append (10 ∷ (json ++ 10 ∷ [])) (codes "-->"))
    ∙ trim_space-line json h

module _ (p : Text) (free : FreeOf 10 p) (long : 4 < length p) where
  wrapping-index :
      (json : Text)
      → contains json p ≡ false
      → index (wrapping json ++ 10 ∷ p) p ≡ some (length (wrapping json ++ 10 ∷ []))
  wrapping-index json h =
      ap (λ t. index (wrapping json ++ 10 ∷ t) p) (sym (append-nil p))
      ∙ index-marker p free long (wrapping json) [] (
          after_empty p free long _ (
            contains-line 10 (60 ∷ 33 ∷ 45 ∷ 45 ∷ []) _ p free (contains-length _ p (omega arith)) (
              contains-line 10 json (45 ∷ 45 ∷ 62 ∷ []) p free h
                (contains-length _ p (omega arith)))))

wrapping-append :
    (json t : Text)
    → 10 ∷ 60 ∷ 33 ∷ 45 ∷ 45 ∷ 10 ∷ (json ++ 10 ∷ 45 ∷ 45 ∷ 62 ∷ 10 ∷ t) ≡ wrapping json ++ 10 ∷ t
wrapping-append json t =
    ap (λ x. 10 ∷ 60 ∷ 33 ∷ 45 ∷ 45 ∷ 10 ∷ x)
      (sym (append_assoc json (10 ∷ 45 ∷ 45 ∷ 62 ∷ []) (10 ∷ t)))

-- What a comment needs to be read back: the identity is one line, neither the line on the bot nor
-- the message holds the marker of the state, and the JSON begins and ends with visible bytes and
-- has no "<", which encoding/json escapes.
pub record IsReadable (p : Packages) (s : State) (json message : Text) : Type 0 where
  pub one_line : FreeOf 10 s.identity
  pub info_lacks : contains (build_bot_info_block p s) (get_state_marker s) ≡ false
  pub message_lacks : contains message (get_state_marker s) ≡ false
  pub escaped : FreeOf 60 json
  pub tight : IsTight json

module _ (s : State) (one_line : FreeOf 10 s.identity) where
  state_marker-FreeOf : FreeOf 10 (get_state_marker s)
  unfolding get_state_marker
  state_marker-FreeOf = (
    refl,
    (
      refl,
      (
        refl,
        (
          refl,
          All-append (λ x. (x == 10) ≡ false) s.identity (codes "-state-->") one_line
              (refl, (refl, (refl, (refl, (refl, (refl, (refl, (refl, (refl, tt))))))))),
        ),
      ),
    ),
  )

  end_marker-FreeOf : FreeOf 10 (state_end_marker s)
  unfolding state_end_marker
  end_marker-FreeOf = (
    refl,
    (
      refl,
      (
        refl,
        (
          refl,
          (
            refl,
            All-append (λ x. (x == 10) ≡ false) s.identity (codes "-state-->") one_line
                (refl, (refl, (refl, (refl, (refl, (refl, (refl, (refl, (refl, tt))))))))),
          ),
        ),
      ),
    ),
  )

state_marker-length : (s : State) → length (get_state_marker s) ≡ length s.identity + 13
unfolding get_state_marker
state_marker-length s = omega (arith, length-append s.identity (codes "-state-->"))

end_marker-length : (s : State) → length (state_end_marker s) ≡ length s.identity + 14
unfolding state_end_marker
end_marker-length s = omega (arith, length-append s.identity (codes "-state-->"))

identity_marker-length : (s : State) → length (get_identity_marker s) ≡ length s.identity + 7
unfolding get_identity_marker
identity_marker-length s = omega (arith, length-append s.identity (codes "-->"))

extract_json-wrapping :
    (s : State) (json : Text)
    → FreeOf 10 s.identity
    → FreeOf 60 json
    → IsTight json
    → extract_json s (wrapping json ++ 10 ∷ state_end_marker s) ≡ some json
unfolding extract_json
extract_json-wrapping s json one_line escaped tight =
    let em = state_end_marker s in
    let found =
      wrapping-index em (end_marker-FreeOf s one_line) (omega (arith, end_marker-length s)) json
        (lacks json escaped) in
    rw (found, extract_json)
      (ap some (
        ap (λ t. trim_space (trim_suffix (trim_prefix (trim_space t) (codes "<!--")) (codes "-->")))
          (ap (take (length (wrapping json ++ 10 ∷ [])))
              (sym (append_assoc (wrapping json) (10 ∷ []) em))
            ∙ take-append (wrapping json ++ 10 ∷ []) em)
        ∙ trimmed json tight))
  where
    lacks : (json : Text) → FreeOf 60 json → contains json (state_end_marker s) ≡ false
    lacks json h = unfold state_end_marker in contains-FreeOf 60 json _ h

build_comment_content-opening :
    (p : Packages) (s : State) (json message : Text)
    → build_comment_content p s json message
      ≡ opening (get_identity_marker s) (build_bot_info_block p s) message
        ++ 10 ∷ (get_state_marker s ++ (wrapping json ++ 10 ∷ state_end_marker s))
unfolding build_comment_content
build_comment_content-opening p s json message =
    opening-append (get_identity_marker s) (build_bot_info_block p s) message _
    ∙ ap
        (λ x.
          opening (get_identity_marker s) (build_bot_info_block p s) message
          ++ 10 ∷ (get_state_marker s ++ x))
        (wrapping-append json (state_end_marker s))

-- Each comment that Commit writes holds the marker of the identity, and that of the state.
pub content-identity_marker :
    (p : Packages) (s : State) (json message : Text)
    → contains (build_comment_content p s json message) (get_identity_marker s) ≡ true
unfolding build_comment_content
content-identity_marker p s json message = contains-here (get_identity_marker s) _

pub content-state_marker :
    (p : Packages) (s : State) (json message : Text)
    → contains (build_comment_content p s json message) (get_state_marker s) ≡ true
content-state_marker p s json message =
    let a = opening (get_identity_marker s) (build_bot_info_block p s) message in
    let sm = get_state_marker s in
    let rest = wrapping json ++ 10 ∷ state_end_marker s in
    ap (λ t. contains t sm)
      (build_comment_content-opening p s json message ∙ sym (append_assoc a (10 ∷ []) (sm ++ rest)))
    ∙ contains-later (a ++ 10 ∷ []) sm rest

-- What Commit writes Fetch reads: the JSON that encoding/json made of the state.
pub extract_state-build_comment_content :
    (p : Packages) (s : State) (json message : Text)
    → IsReadable p s json message
    → extract_state p s (build_comment_content p s json message) ≡ unmarshalled p (p.unmarshal json)
unfolding extract_state
extract_state-build_comment_content p s json message h =
    let sm = get_state_marker s in
    let idm = get_identity_marker s in
    let info = build_bot_info_block p s in
    let free = state_marker-FreeOf s h.one_line in
    let long = state_marker-length s in
    let rest = wrapping json ++ 10 ∷ state_end_marker s in
    let idm_lacks = contains-length idm sm (omega (arith, long, identity_marker-length s)) in
    let lacks =
      opening-lacks sm free (omega arith) idm info message idm_lacks h.info_lacks h.message_lacks in
    let found = index-marker sm free (omega arith) (opening idm info message) rest lacks in
    subst (λ body. extract_state p s body ≡ unmarshalled p (p.unmarshal json))
      (sym (build_comment_content-opening p s json message))
      (rw (found, extract_state)
        (ap (unmarshal_json p) (
          ap (extract_json s) (after_marker (opening idm info message) sm rest)
          ∙ extract_json-wrapping s json h.one_line h.escaped h.tight)))
