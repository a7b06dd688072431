-- ===== src/BucketEvents.antt =====
-- The handler of modules/bucket-events/cmd/trampoline/main.go, which turns the notifications of a
-- storage bucket into cloud events. encoding/json and the cloud events client are parameters.
pub mod Forwarding
use terraform_cloudrun_glue.Base.{
  ℕ, Option, none, some, [], ◌∷◌, ◌++◌, Text, codes, Dict, lookup, Result, returns, fails,
}

-- eventTypes
abbrev pub event_types : Dict Text
event_types =
    (codes "OBJECT_FINALIZE", codes "dev.chainguard.storage.object.finalize")
    ∷ (codes "OBJECT_METADATA_UPDATE", codes "dev.chainguard.storage.object.metadata_update")
    ∷ (codes "OBJECT_DELETE", codes "dev.chainguard.storage.object.delete")
    ∷ (codes "OBJECT_ARCHIVE", codes "dev.chainguard.storage.object.archive")
    ∷ []

-- What the handler reads of a request; a header that is missing is empty.
pub record Notification : Type 0 where
  pub event_type : Text
  pub bucket_id : Text
  pub object_id : Text
  pub host : Text
  pub body : Text

-- What the handler sets of an event.
pub record BucketEvent : Type 0 where
  pub type : Text
  pub subject : Text
  pub source : Text
  pub bucket : Text
  pub object : Text
  pub payload : Text

-- What IsUndelivered and IsNACK say of a result of Send.
pub data Delivery : Type 0 where
  delivered : Delivery
  undelivered : Delivery
  nack : Delivery

pub record BucketLib : Type 1 where
  pub Object : Type 0
  pub World : Type 0
  -- Decode, and the data that SetData encodes.
  pub decode : Text → Result Object
  pub set_data : Object → Result Text
  -- Send, with its retries.
  pub send : BucketEvent → World → Delivery × World

-- The event for a notification of a type, with its data.
unfoldable pub event_of : Notification → Text → Text → BucketEvent
event_of r t payload = record {
  type = t;
  subject = r.bucket_id ++ codes "/" ++ r.object_id;
  source = r.host;
  bucket = r.bucket_id;
  object = r.object_id;
  payload = payload;
}

module _ (lib : BucketLib) where
  abbrev pub answer : Delivery × lib.World → ℕ × lib.World
  answer (delivered, w) = (200, w)
  answer (undelivered, w) = (500, w)
  answer (nack, w) = (500, w)

  abbrev pub with_data : Notification → Text → Result Text → lib.World → ℕ × lib.World
  with_data r t (fails e) w = (500, w)
  with_data r t (returns payload) w = answer (lib.send (event_of r t payload) w)

  abbrev pub with_type : Notification → lib.Object → Option Text → lib.World → ℕ × lib.World
  with_type r obj none w = (400, w)
  with_type r obj (some t) w = with_data r t (lib.set_data obj) w

  abbrev pub with_object : Notification → Result lib.Object → lib.World → ℕ × lib.World
  with_object r (fails e) w = (400, w)
  with_object r (returns obj) w = with_type r obj (lookup r.event_type event_types) w

  -- The handler: the status of the answer, and the world after it.
  unfoldable pub forward : Notification → lib.World → ℕ × lib.World
  forward r w = with_object r (lib.decode r.body) w
