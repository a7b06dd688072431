-- ===== src/Tests/Arrivals.antt =====
-- An event at the ingress and at the subscriber.
use terraform_cloudrun_glue.Base.{
  ◌≡◌, ◌⊎◌, refl, true, none, some, List, [], ◌∷◌, pos, Text, codes, text_eq, lookup, Result,
  returns, Option,
}
use terraform_cloudrun_glue.Inmem.{Wq, QueueItem, new_work_queue}
use terraform_cloudrun_glue.Events.{
  Value, text, other, CloudEvent, Message, Verifier, status, ingress, handle_event, receive_inmem,
}
use terraform_cloudrun_glue.Events.Admission.{IsAuthorized, ingress-IsAuthorized}
use terraform_cloudrun_glue.Events.Arrivals.{handle_event-queues}

abbrev event : CloudEvent
event = record {
  id = codes "1";
  spec_version = codes "1.0";
  type = codes "t";
  source = codes "s";
  subject = codes "o/r";
  time = codes "2025-01-01T00:00:00Z";
  data_content_type = codes "application/json";
  extensions = (codes "key", text (codes "k")) ∷ (codes "actor", text (codes "x")) ∷ [];
  payload = codes "{}";
}

-- A token is the email that it claims.
abbrev emails : Verifier
emails = record { IdToken = Text; verify = λ t. returns t; claims = λ t. returns (t, true) }

abbrev as_text : Value → Option Text
as_text (text t) = some t
as_text other = none

-- The topic is the list of the messages.
abbrev publish : Message → List Message → Result Unit × List Message
publish m ms = (returns tt, m ∷ ms)

ingress-IsAuthorized_example :
    ((m : Text) × (ingress emails as_text publish (codes "Bearer a@b") event []
        ≡ (status 401 m, [])))
    ⊎ ((email : Text) × (msg : Message) × IsAuthorized emails (codes "Bearer a@b") email
        × (lookup (codes "ce-actor") msg.attributes ≡ some email)
        × ((ingress emails as_text publish (codes "Bearer a@b") event []).1 ≡ (publish msg []).1))
ingress-IsAuthorized_example =
    ingress-IsAuthorized emails as_text publish (codes "Bearer a@b") event []

abbrev empty : Wq
empty = new_work_queue 1

handle_event-queues_example :
    ((handle_event (receive_inmem (pos 5)) (codes "key") event empty).0 ≡ none)
    × ((qi : QueueItem) × (lookup
            (codes "k")
            (handle_event (receive_inmem (pos 5)) (codes "key") event empty).1.queue
          ≡ some qi))
    × (lookup [] (handle_event (receive_inmem (pos 5)) (codes "key") event empty).1.queue
        ≡ lookup [] empty.queue)
unfolding lookup text_eq
handle_event-queues_example =
    handle_event-queues (codes "key") event (pos 5) empty (codes "k") [] refl (λ h. cc) (λ h. cc)
