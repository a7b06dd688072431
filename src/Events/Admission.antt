-- ===== src/Events/Admission.antt =====
-- Whose events the ingress publishes.
use terraform_cloudrun_glue.Base.{
  ◌≡◌, refl, ap, ◌∙◌, ◌⊎◌, inl, inr, Bool, true, false, Option, some, [], if◌then◌else◌, Text,
  codes, text_eq, trim_prefix, lookup, lookup-insert_self, Result, returns, fails,
}
use terraform_cloudrun_glue.Events.{
  Value, CloudEvent, Message, from_cloud_event, status, Verifier, verified_email, email_of,
  authorize, published, with_actor, admit, ingress,
}

module _ (v : Verifier) where
  -- The token of the request is verified and claims the email as verified.
  abbrev pub IsAuthorized : (authorization : Text) → (email : Text) → Type 0
  IsAuthorized authorization email =
      (tok : v.IdToken) × (v.verify (trim_prefix authorization (codes "Bearer ")) ≡ returns tok)
      × (v.claims tok ≡ returns (email, true))

  verified_email-verified :
      (c : Result (Text × Bool)) (email : Text)
      → verified_email v c ≡ returns email
      → c ≡ returns (email, true)
  verified_email-verified (fails e) email h = let f = h in absurd (cc)
  verified_email-verified (returns (m, false)) email h = let f = h in absurd (cc)
  verified_email-verified (returns (m, true)) email h =
      let same : m ≡ email = cc in ap (λ x. returns (x, true)) same

  email_of-verified :
      (r : Result v.IdToken) (email : Text)
      → email_of v r ≡ returns email
      → (tok : v.IdToken) × (r ≡ returns tok) × (v.claims tok ≡ returns (email, true))
  email_of-verified (fails e) email h = let f = h in absurd (cc)
  email_of-verified (returns tok) email h =
      (tok, refl, verified_email-verified (v.claims tok) email h)

  authorize-IsAuthorized :
      (authorization email : Text)
      → authorize v authorization ≡ returns email
      → IsAuthorized authorization email
  unfolding authorize
  authorize-IsAuthorized authorization email e =
      email_of-verified _ email
        (given (text_eq (trim_prefix authorization (codes "Bearer ")) []) _ e)
    where
      given :
          (b : Bool) (r : Result Text)
          → (if b then fails (codes "Unauthorized") else r) ≡ returns email
          → r ≡ returns email
      given true r h = let f = h in absurd (cc)
      given false r h = h

  module _ {W : Type 0} (to_string : Value → Option Text)
      (publish : Message → W → Result Unit × W) where
    published-state : (r : Result Unit × W) → (published v to_string publish r).1 ≡ r.1
    published-state (returns u, w) = refl
    published-state (fails e, w) = refl

    -- The ingress answers 401 and publishes nothing, or the token of the request was verified and
    -- claims an email as verified, and the one message that is published has this email as its
    -- attribute "ce-actor", whatever extensions the event has.
    pub ingress-IsAuthorized :
        (authorization : Text) (e : CloudEvent) (w : W)
        → ((m : Text) × (ingress v to_string publish authorization e w ≡ (status 401 m, w)))
          ⊎ ((email : Text) × (msg : Message) × IsAuthorized authorization email
              × (lookup (codes "ce-actor") msg.attributes ≡ some email)
              × ((ingress v to_string publish authorization e w).1 ≡ (publish msg w).1))
    unfolding ingress
    ingress-IsAuthorized authorization e w = by_answer (authorize v authorization) refl
      where
        by_answer :
            (r : Result Text)
            → authorize v authorization ≡ r
            → ((m : Text) × (ingress v to_string publish authorization e w ≡ (status 401 m, w)))
              ⊎ ((email : Text) × (msg : Message) × IsAuthorized authorization email
                  × (lookup (codes "ce-actor") msg.attributes ≡ some email)
                  × ((ingress v to_string publish authorization e w).1 ≡ (publish msg w).1))
        by_answer (fails m) h = inl (m, ap (λ r. admit v to_string publish r e w) h)
        by_answer (returns email) h = inr (
          email,
          with_actor v to_string publish email (from_cloud_event to_string e),
          authorize-IsAuthorized authorization email h,
          lookup-insert_self (codes "ce-actor") email _,
          ap (λ r. (admit v to_string publish r e w).1) h ∙ published-state (publish _ w),
        )
