-- ===== src/Reconciler/Parsing.antt =====
-- ParseURL on the links that the services make.
use terraform_cloudrun_glue.Base.{
  ℕ, zero, suc, ◌+◌, ◌≤◌, ◌≡◌, ◌≢◌, refl, sym, ap, subst, ◌∙◌, true, false, Option, some, [], ◌∷◌,
  ◌++◌, inl, inr, Bool-cases, ltb, ◌/◌, ◌%◌, pos, Text, codes, text_eq, parse_int,
  parse_int-format_int, format_int, format_nat, digits_fuel, max_int64, ◌==◌, arith, All,
  All-append,
}
use terraform_cloudrun_glue.Reconciler.{
  ResourceType, issue, pull_request, slash, trim_left, trim_right, keep_last, split, resource_type,
  resource_of, parse_url,
}

-- A component of a path: not empty, and without a slash.
abbrev pub IsComponent : Text → Type 0
IsComponent p = (p ≢ []) × All (λ c. (c == slash) ≡ false) p

split-component : (p : Text) → All (λ c. (c == slash) ≡ false) p → split slash p ≡ p ∷ []
unfolding split
split-component [] h = refl
split-component (c ∷ p) h = rw (h.0, split-component p h.1) refl

split-slash :
    (p s : Text)
    → All (λ c. (c == slash) ≡ false) p
    → split slash (p ++ slash ∷ s) ≡ p ∷ split slash s
unfolding split
split-slash [] s h = refl
split-slash (c ∷ p) s h = rw (h.0, split-slash p s h.1) refl

trim_right-component : (p : Text) → All (λ c. (c == slash) ≡ false) p → trim_right slash p ≡ p
unfolding trim_right
trim_right-component [] h = refl
trim_right-component (c ∷ p) h = rw (trim_right-component p h.1) (last p)
  where
    last : (p : Text) → keep_last slash c p ≡ c ∷ p
    last [] = rw h.0 refl
    last (d ∷ p) = refl

trim_right-append :
    (s p : Text) → p ≢ [] → trim_right slash p ≡ p → trim_right slash (s ++ p) ≡ s ++ p
unfolding trim_right
trim_right-append [] p n e = e
trim_right-append (c ∷ s) p n e = rw (trim_right-append s p n e) (last (s ++ p) (some_left s p n))
  where
    some_left : (s p : Text) → p ≢ [] → s ++ p ≢ []
    some_left [] p n = n
    some_left (d ∷ s) p n = λ h. cc

    last : (t : Text) → t ≢ [] → keep_last slash c t ≡ c ∷ t
    last [] n = absurd (n refl)
    last (d ∷ t) n = refl

trim_left-component : (p s : Text) → IsComponent p → trim_left slash (slash ∷ (p ++ s)) ≡ p ++ s
unfolding trim_left
trim_left-component [] s (n, h) = absurd (n refl)
trim_left-component (c ∷ p) s (n, h) = rw h.0 refl

digits_fuel-small : (f n : ℕ) → ltb n 10 ≡ true → digits_fuel (suc f) n ≡ (48 + n) ∷ []
unfolding digits_fuel
digits_fuel-small f n e = rw (e, digits_fuel) refl

digits_fuel-large :
    (f n : ℕ)
    → ltb n 10 ≡ false
    → digits_fuel (suc f) n ≡ digits_fuel f (n / 10) ++ (48 + n % 10) ∷ []
unfolding digits_fuel
digits_fuel-large f n e = rw (e, digits_fuel) refl

abbrev Free : Text → Type 0
Free = All (λ c. (c == slash) ≡ false)

digit_free : (d : ℕ) → ((48 + d) == slash) ≡ false
digit_free d = ground arith

digits_fuel-All : (f n : ℕ) → Free (digits_fuel f n)
unfolding digits_fuel
digits_fuel-All zero n = tt
digits_fuel-All (suc f) n = elim (Bool-cases (ltb n 10)) [
  | inl e ↦ subst Free (sym (digits_fuel-small f n e)) (digit_free n, tt)
  | inr e ↦ subst Free (sym (digits_fuel-large f n e)) (
      All-append (λ c. (c == slash) ≡ false) (digits_fuel f (n / 10)) ((48 + n % 10) ∷ [])
        (digits_fuel-All f (n / 10)) (digit_free (n % 10), tt))
]

format_int-IsComponent : (n : ℕ) → n ≤ max_int64 → IsComponent (format_int (pos n))
unfolding format_int format_nat digits_fuel parse_int
format_int-IsComponent n h = (λ e. unread e, digits_fuel-All (suc n) n)
  where
    unread : format_int (pos n) ≡ [] → ⊥
    unread e =
        let x =
          ap (λ t. (parse_int t).1) (sym e)
          ∙ ap (λ r. r.1) (parse_int-format_int (pos n) (omega arith) (omega arith)) in
        cc

-- A text that trimming leaves as it is.
abbrev Trimmed : Text → Type 0
Trimmed s = (s ≢ []) × (trim_right slash s ≡ s)

Trimmed-after : (p s : Text) → Trimmed s → Trimmed (p ++ slash ∷ s)
Trimmed-after p s (n, e) =
    let t : trim_right slash (slash ∷ s) ≡ slash ∷ s = trim_right-append (slash ∷ []) s n e in
    (filled p, trim_right-append p (slash ∷ s) (λ h. cc) t)
  where
    filled : (p : Text) → p ++ slash ∷ s ≢ []
    filled [] = λ h. cc
    filled (c ∷ p) = λ h. cc

-- The path of a link: https://github.com/<owner>/<repo>/<kind>/<number>.
abbrev pub path_of : Text → Text → Text → ℕ → Text
path_of owner repo kind n =
    slash ∷ (owner ++ slash ∷ (repo ++ slash ∷ (kind ++ slash ∷ format_int (pos n))))

components :
    (owner repo kind : Text) (n : ℕ)
    → IsComponent owner
    → IsComponent repo
    → IsComponent kind
    → n ≤ max_int64
    → split slash (trim_right slash (trim_left slash (path_of owner repo kind n)))
      ≡ owner ∷ repo ∷ kind ∷ format_int (pos n) ∷ []
components owner repo kind n o r k h =
    let number = format_int (pos n) in
    let (filled, free) = format_int-IsComponent n h in
    let whole = Trimmed-after owner _ (
      Trimmed-after repo _
        (Trimmed-after kind number (filled, trim_right-component number free))) in
    ap (λ s. split slash (trim_right slash s)) (trim_left-component owner _ o)
    ∙ ap (split slash) whole.1
    ∙ split-slash owner _ o.1
    ∙ ap (◌∷◌ owner) (split-slash repo _ r.1)
    ∙ ap (λ l. owner ∷ repo ∷ l) (split-slash kind number k.1)
    ∙ ap (λ l. owner ∷ repo ∷ kind ∷ l) (split-component number free)

abbrev pub kind_of : ResourceType → Text
kind_of issue = codes "issues"
kind_of pull_request = codes "pull"

kind_of-IsComponent : (t : ResourceType) → IsComponent (kind_of t)
kind_of-IsComponent issue = (λ h. cc, (refl, (refl, (refl, (refl, (refl, (refl, tt)))))))
kind_of-IsComponent pull_request = (λ h. cc, (refl, (refl, (refl, (refl, tt)))))

read :
    (uri owner repo : Text) (t : ResourceType) (n : ℕ)
    → n ≤ max_int64
    → resource_of uri (owner ∷ repo ∷ kind_of t ∷ format_int (pos n) ∷ [])
      ≡ some (record { owner = owner; repo = repo; number = pos n; type = t; url = uri })
unfolding resource_of resource_type text_eq
read uri owner repo issue n h = rw (parse_int-format_int (pos n) (omega arith) (omega arith)) refl
read uri owner repo pull_request n h =
    rw (parse_int-format_int (pos n) (omega arith) (omega arith)) refl

-- ParseURL reads back the owner, the repository, the kind and the number of a link to an issue or a
-- pull request on github.com, where the owner and the repository are not empty and have no slash,
-- and the number fits an int64.
pub parse_url-path_of :
    (url_parse : Text → Option (Text × Text)) (uri owner repo : Text) (t : ResourceType) (n : ℕ)
    → IsComponent owner
    → IsComponent repo
    → n ≤ max_int64
    → url_parse uri ≡ some (codes "github.com", path_of owner repo (kind_of t) n)
    → parse_url url_parse uri
      ≡ some (record { owner = owner; repo = repo; number = pos n; type = t; url = uri })
unfolding parse_url
parse_url-path_of url_parse uri owner repo t n o r h e =
    rw (e, parse_url)
      (rw (components owner repo (kind_of t) n o r (kind_of-IsComponent t) h)
        (read uri owner repo t n h))
