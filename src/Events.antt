-- ===== src/Events.antt =====
-- Cloud events on their way to a queue. pkg/pubsub/cloudevent.go, the handler of
-- modules/cloudevent-broker/cmd/ingress/main.go, the handler of
-- modules/cloudevents-workqueue/cmd/subscriber/main.go, and Process of the receivers
-- modules/workqueue/cmd/receiver/main.go and modules/workqueue/cmd/inmem/main.go.
pub mod Admission
pub mod Arrivals
use terraform_cloudrun_glue.Base.{
  ℕ, Bool, true, false, Option, none, some, List, [], ◌∷◌, ◌++◌, if◌then◌else◌, ℤ, pos, ◌+ℤ◌, ◌*ℤ◌,
  ltb_ℤ, wrap64, Text, codes, text_eq, trim_prefix, Dict, lookup, insert, Result, returns, fails,
}
use terraform_cloudrun_glue.Workqueue.{Options, second}
use terraform_cloudrun_glue.Inmem.{Wq, queue_key}

-- An extension's value: a text, or a value of another type.
pub data Value : Type 0 where
  text : Text → Value
  other : Value

pub record CloudEvent : Type 0 where
  pub id : Text
  pub spec_version : Text
  pub type : Text
  pub source : Text
  pub subject : Text
  -- The time as RFC3339 prints it.
  pub time : Text
  pub data_content_type : Text
  pub extensions : Dict Value
  pub payload : Text

pub record Message : Type 0 where
  pub attributes : Dict Text
  pub payload : Text

module _ (to_string : Value → Option Text) where
  -- The loop over the extensions; `to_string` is types.ToString.
  unfoldable pub extension_attributes : Dict Value → Dict Text → Dict Text
  extension_attributes [] m = m
  extension_attributes ((k, v) ∷ extensions) m = elim (to_string v) [
    | none ↦ extension_attributes extensions m
    | some t ↦ extension_attributes extensions (insert (codes "ce-" ++ k) t m)
  ]

  unfoldable pub from_cloud_event : CloudEvent → Message
  unfolding extension_attributes
  from_cloud_event e = record {
    attributes = extension_attributes e.extensions (
        (codes "ce-id", e.id)
        ∷ (codes "ce-specversion", e.spec_version)
        ∷ (codes "ce-type", e.type)
        ∷ (codes "ce-source", e.source)
        ∷ (codes "ce-subject", e.subject)
        ∷ (codes "ce-time", e.time)
        ∷ (codes "content-type", e.data_content_type)
        ∷ []);
    payload = e.payload;
  }

-- What a receiver of events answers: an acknowledgement or a status with a text.
pub data Answer : Type 0 where
  acknowledged : Answer
  status : ℕ → Text → Answer

-- The OIDC library: Verify, and the claims on the email of a token.
pub record Verifier : Type 1 where
  pub IdToken : Type 0
  pub verify : Text → Result IdToken
  pub claims : IdToken → Result (Text × Bool)

module _ (v : Verifier) where
  abbrev pub verified_email : Result (Text × Bool) → Result Text
  verified_email (fails e) = fails e
  verified_email (returns (email, false)) = fails (codes "Unverified email claim")
  verified_email (returns (email, true)) = returns email

  abbrev pub email_of : Result v.IdToken → Result Text
  email_of (fails e) = fails e
  email_of (returns tok) = verified_email (v.claims tok)

  -- The email of the caller, or the text of the status 401.
  unfoldable pub authorize : (authorization : Text) → Result Text
  unfolding trim_prefix
  authorize authorization =
      let auth = trim_prefix authorization (codes "Bearer ") in
      if text_eq auth [] then fails (codes "Unauthorized") else email_of (v.verify auth)

  module _ {W : Type 0} (to_string : Value → Option Text)
      (publish : Message → W → Result Unit × W) where
    abbrev pub published : Result Unit × W → Answer × W
    published (returns u, w) = (acknowledged, w)
    published (fails e, w) = (status 500 e, w)

    abbrev pub with_actor : Text → Message → Message
    with_actor email m = record m { attributes = insert (codes "ce-actor") email m.attributes }

    abbrev pub admit : Result Text → CloudEvent → W → Answer × W
    admit (fails m) e w = (status 401 m, w)
    admit (returns email) e w =
        published (publish (with_actor email (from_cloud_event to_string e)) w)

    -- The ingress.
    unfoldable pub ingress : (authorization : Text) → CloudEvent → W → Answer × W
    unfolding authorize from_cloud_event
    ingress authorization e w = admit (authorize authorization) e w

-- What the subscriber sends to the queue's service.
pub record ProcessRequest : Type 0 where
  pub key : Text
  pub priority : ℤ
  pub delay_seconds : ℤ

-- The subscriber's handleEvent, given the name of the extension that holds the key.
module _ {W : Type 0} (process : ProcessRequest → W → Result Unit × W) where
  abbrev pub processed : Result Unit × W → Option Text × W
  processed (returns u, w) = (none, w)
  processed (fails e, w) = (some (codes "failed to queue work item: " ++ e), w)

  unfoldable pub handle_event : (extension_key : Text) → CloudEvent → W → Option Text × W
  handle_event extension_key e w = elim (lookup extension_key e.extensions) [
    | none ↦ (none, w)
    | some other ↦ (none, w)
    | some (text k) ↦
        if text_eq k []
        then (none, w)
        else processed (process (record { key = k; priority = pos 0; delay_seconds = pos 0 }) w)
  ]

-- Process of the receiver for a queue, which fails or not.
unfoldable pub receive :
    {W : Type 0}
    → (queue : Text → Options → W → Result Unit × W) → (now : ℤ) → ProcessRequest
    → W
    → Result Unit × W
receive queue now req w =
    let not_before =
      if ltb_ℤ (pos 0) req.delay_seconds
      then now +ℤ wrap64 (req.delay_seconds *ℤ pos second)
      else pos 0 in
    let (r, w1) =
      queue req.key (record { priority = req.priority; not_before = not_before; delay = pos 0 })
        w in
    elim r [ returns u ↦ (returns tt, w1) | fails e ↦ (fails (codes "Queue() = " ++ e), w1) ]

-- Process of the service in memory, which does not read the delay.
unfoldable pub receive_inmem : (now : ℤ) → ProcessRequest → Wq → Result Unit × Wq
unfolding queue_key
receive_inmem now req w = (
  returns tt,
  queue_key req.key (record { priority = req.priority; not_before = pos 0; delay = pos 0 }) now w,
)
