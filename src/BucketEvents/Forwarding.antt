-- ===== src/BucketEvents/Forwarding.antt =====
-- When the trampoline of a bucket's notifications answers that it has forwarded one.
use terraform_cloudrun_glue.Base.{
  ℕ, ◌≡◌, refl, ◌↔◌, ◌⊎◌, inl, inr, Option, none, some, Text, lookup, Result, returns, fails, arith,
}
use terraform_cloudrun_glue.BucketEvents.{
  event_types, Notification, BucketEvent, Delivery, delivered, undelivered, nack, BucketLib,
  event_of, answer, with_data, with_type, with_object, forward,
}

module _ (lib : BucketLib) where
  -- The event that a notification stands for.
  pub record IsEventOf (r : Notification) (e : BucketEvent) : Type 0 where
    pub obj : lib.Object
    pub type_name : Text
    pub payload : Text
    pub decoded : lib.decode r.body ≡ returns obj
    pub known : lookup r.event_type event_types ≡ some type_name
    pub encoded : lib.set_data obj ≡ returns payload
    pub made : e ≡ event_of r type_name payload

  -- Either the request is refused with the status 400 or 500 and nothing is sent, or the one event
  -- that it stands for is sent and the status tells whether it was delivered.
  abbrev pub Forwards : Notification → lib.World → ℕ × lib.World → Type 0
  Forwards r w out =
      (((out.0 ≡ 400) ⊎ (out.0 ≡ 500)) × (out.1 ≡ w))
      ⊎ ((e : BucketEvent) × IsEventOf r e
          × (out.1 ≡ (lib.send e w).1)
          × ((out.0 ≡ 200) ↔ ((lib.send e w).0 ≡ delivered))
          × ((out.0 ≡ 200) ⊎ (out.0 ≡ 500)))

  answer_lem :
      (p : Delivery × lib.World)
      → ((answer lib p).1 ≡ p.1)
        × (((answer lib p).0 ≡ 200) ↔ (p.0 ≡ delivered))
        × (((answer lib p).0 ≡ 200) ⊎ ((answer lib p).0 ≡ 500))
  answer_lem (delivered, w) = (refl, ((λ h. refl), (λ h. refl)), inl refl)
  answer_lem (undelivered, w) = (refl, ground arith, inr refl)
  answer_lem (nack, w) = (refl, ground arith, inr refl)

  with_data-Forwards :
      (r : Notification) (obj : lib.Object) (t : Text) (w : lib.World) (d : Result Text)
      → lib.decode r.body ≡ returns obj
      → lookup r.event_type event_types ≡ some t
      → lib.set_data obj ≡ d
      → Forwards r w (with_data lib r t d w)
  with_data-Forwards r obj t w (fails e) h k m = inl (inr refl, refl)
  with_data-Forwards r obj t w (returns payload) h k m =
      let (world, status, codes_of) = answer_lem (lib.send (event_of r t payload) w) in
      inr (
        event_of r t payload,
        record {
          obj = obj;
          type_name = t;
          payload = payload;
          decoded = h;
          known = k;
          encoded = m;
          made = refl;
        },
        world,
        status,
        codes_of,
      )

  with_type-Forwards :
      (r : Notification) (obj : lib.Object) (w : lib.World) (t : Option Text)
      → lib.decode r.body ≡ returns obj
      → lookup r.event_type event_types ≡ t
      → Forwards r w (with_type lib r obj t w)
  with_type-Forwards r obj w none h k = inl (inl refl, refl)
  with_type-Forwards r obj w (some t) h k = with_data-Forwards r obj t w (lib.set_data obj) h k refl

  with_object-Forwards :
      (r : Notification) (w : lib.World) (o : Result lib.Object)
      → lib.decode r.body ≡ o
      → Forwards r w (with_object lib r o w)
  with_object-Forwards r w (fails e) h = inl (inl refl, refl)
  with_object-Forwards r w (returns obj) h = with_type-Forwards r obj w _ h refl

  -- The trampoline of a bucket's notifications either refuses a request with 400 or 500 and sends
  -- nothing, or its body is an object, its type is one of the four that are known, and exactly the
  -- event of it is sent; then it answers 200 if the event was delivered and 500 if it was not.
  pub forward-Forwards : (r : Notification) (w : lib.World) → Forwards r w (forward lib r w)
  unfolding forward
  forward-Forwards r w = with_object-Forwards r w (lib.decode r.body) refl
