-- ===== src/Tests/Notifications.antt =====
-- A notification of a bucket at the trampoline.
use terraform_cloudrun_glue.Base.{
  ◌≡◌, refl, List, [], ◌∷◌, Text, codes, Result, returns, fails, lookup, text_eq,
}
use terraform_cloudrun_glue.BucketEvents.{
  Notification, BucketEvent, delivered, BucketLib, forward, event_of,
}
use terraform_cloudrun_glue.BucketEvents.Forwarding.{Forwards, forward-Forwards}

-- A client that delivers every event, and a decoder that refuses the empty body.
abbrev decode_text : Text → Result Text
decode_text [] = fails (codes "EOF")
decode_text (c ∷ s) = returns (c ∷ s)

abbrev posting : BucketLib
posting = record {
  Object = Text;
  World = List BucketEvent;
  decode = decode_text;
  set_data = returns;
  send = λ e w. (delivered, e ∷ w);
}

abbrev deletion : Notification
deletion = record {
  event_type = codes "OBJECT_DELETE";
  bucket_id = codes "logs";
  object_id = codes "a/b";
  host = codes "trampoline";
  body = codes "{}";
}

deletion_sent :
    forward posting deletion []
    ≡ (200, event_of deletion (codes "dev.chainguard.storage.object.delete") (codes "{}") ∷ [])
unfolding forward lookup text_eq
deletion_sent = refl

forward-Forwards_example : Forwards posting deletion [] (forward posting deletion [])
forward-Forwards_example = forward-Forwards posting deletion []
