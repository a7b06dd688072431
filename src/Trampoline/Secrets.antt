-- ===== src/Trampoline/Secrets.antt =====
-- Which secrets of the trampoline validate a payload.
use mathlib.Core.List.Memᴰ
use terraform_cloudrun_glue.Base.{
  ◌≡◌, refl, sym, ap, ◌∙◌, Option, none, some, List, [], ◌∷◌, inl, inr, Memᴰ, Text, codes,
  Option-cases,
}
use terraform_cloudrun_glue.Trampoline.{
  Request, Packages, first_valid, signature_of, validate_read, validate_payload,
}

module _ (lib : Packages) where
  -- The secret `k` validates the request's body and gives the payload.
  pub record Validates (r : Request) (k payload : Text) : Type 0 where
    pub content_type : Text
    pub body : Text
    pub parsed : lib.parse_media_type (r.header (codes "Content-Type")) ≡ some content_type
    pub read : r.body ≡ some body
    pub valid :
        lib.validate_payload_from_body content_type body (signature_of lib r) k ≡ some payload

  first_valid_sound :
      (c b s : Text) (l : List Text) (p : Text)
      → first_valid lib c b s l ≡ some p
      → (k : Text) × Memᴰ k l × (lib.validate_payload_from_body c b s k ≡ some p)
  unfolding first_valid
  first_valid_sound c b s [] p h = absurd (cc)
  first_valid_sound c b s (k ∷ l) p h =
      elim (Option-cases (lib.validate_payload_from_body c b s k)) [
        | inl e ↦ later (first_valid_sound c b s l p (rw (e, first_valid) at h))
        | inr (q, e) ↦ (k, Memᴰ.head refl, e ∙ rw (e, first_valid) at h)
      ]
    where
      later :
          (j : Text) × Memᴰ j l × (lib.validate_payload_from_body c b s j ≡ some p)
          → (j : Text) × Memᴰ j (k ∷ l) × (lib.validate_payload_from_body c b s j ≡ some p)
      later (j, m, v) = (j, Memᴰ.tail m, v)

  first_valid_complete :
      (c b s : Text) (l : List Text) (k p : Text)
      → Memᴰ k l
      → lib.validate_payload_from_body c b s k ≡ some p
      → (q : Text) × (first_valid lib c b s l ≡ some q)
  unfolding first_valid
  first_valid_complete c b s [] k p m e = absurd (Memᴰ.not-nil m)
  first_valid_complete c b s (j ∷ l) k p m e =
      elim (Option-cases (lib.validate_payload_from_body c b s j)) [
        | inr (q, h) ↦ (q, rw (h, first_valid) refl)
        | inl h ↦ elim (Memᴰ.cases_cons m) [
          | inl same ↦
              absurd
                (let t = sym h ∙ ap (lib.validate_payload_from_body c b s) (sym same) ∙ e in cc)
          | inr m' ↦
              let (q, v) = first_valid_complete c b s l k p m' e in (q, rw (h, first_valid) v)
        ]
      ]

  read_sound :
      (r : Request) (l : List Text) (c b : Option Text) (p : Text)
      → lib.parse_media_type (r.header (codes "Content-Type")) ≡ c
      → r.body ≡ b
      → validate_read lib (signature_of lib r) l c b ≡ some p
      → (k : Text) × Memᴰ k l × Validates r k p
  read_sound r l none b p ec eb h = absurd (cc)
  read_sound r l (some c) none p ec eb h = absurd (cc)
  read_sound r l (some c) (some b) p ec eb h =
      let (k, m, v) = first_valid_sound c b (signature_of lib r) l p h in
      (k, m, record { content_type = c; body = b; parsed = ec; read = eb; valid = v })

  -- A payload that ValidatePayload returns was validated with one of the secrets, and it returns one
  -- whenever some secret among them validates the body, whatever the others do.
  pub validate_payload_lem :
      (r : Request) (l : List Text)
      → ((p : Text) → validate_payload lib r l ≡ some p → (k : Text) × Memᴰ k l × Validates r k p)
        × ((k p : Text)
            → Memᴰ k l
            → Validates r k p
            → (q : Text) × (validate_payload lib r l ≡ some q))
  unfolding validate_payload
  validate_payload_lem r l = (
    λ p h. read_sound r l _ _ p refl refl h,
    λ k p m v.
        let (q, e) =
          first_valid_complete v.content_type v.body (signature_of lib r) l k p m v.valid in
        (
          q,
          ap (λ c. validate_read lib (signature_of lib r) l c r.body) v.parsed
              ∙ ap (validate_read lib (signature_of lib r) l (some v.content_type)) v.read
              ∙ e,
        ),
  )
