-- ===== src/Trampoline/Filters.antt =====
-- Which webhooks the trampoline forwards.
use terraform_cloudrun_glue.Base.{
  ℕ, ◌≡◌, refl, ap, subst, sym, ◌∙◌, Bool, true, false, not, ◌&&◌, Option, none, some, [], ◌∷◌,
  if◌then◌else◌, inl, inr, ◌⊎◌, ◌↔◌, ◌≢◌, Memᴰ, arith, ℤ, Text, text_eq, text_eq_iff, found,
  found_iff, filtered, filtered_iff, Bool-cases,
}
use terraform_cloudrun_glue.Trampoline.{
  Server, Request, Packages, Served, Event, validate_payload, hook_id_of, event_data, event_of,
  is_requested, forward, serve_payload, serve_http, respond, PayloadInfo,
}

module _ (lib : Packages) where
  -- The conditions that the handler puts on a request whose payload is `payload`.
  pub record Passes (s : Server) (r : Request) (payload : Text) : Type 0 where
    pub typed : lib.web_hook_type r ≢ []
    pub hook : (s.webhook_id ≡ []) ⊎ Memᴰ (hook_id_of lib r) s.webhook_id
    pub requested :
        (is_requested (lib.web_hook_type r) (lib.unmarshal payload) ≡ true)
        ⊎ ¬ Memᴰ (hook_id_of lib r) s.requested_only_webhook
    pub org : (s.org_filter ≡ []) ⊎ Memᴰ ((lib.unmarshal payload).organization_login) s.org_filter

  -- The handler's tests on what they test.
  abbrev gate : Bool → Bool → Bool → Bool → Served → Served
  gate untyped hook unrequested org x =
      if untyped
      then respond lib 400
      else if hook
      then respond lib 202
      else if unrequested
      then respond lib 202
      else if org
      then respond lib 202
      else x

  abbrev finish : Request → PayloadInfo → Option Text → Served
  finish r info none = respond lib 500
  finish r info (some content) = record {
    status = if lib.undelivered (event_of lib r info content) then 500 else 200;
    sent = event_of lib r info content ∷ [];
  }

  abbrev unrequested : Server → Request → Text → Bool
  unrequested s r p =
      not (is_requested (lib.web_hook_type r) (lib.unmarshal p))
      && found (hook_id_of lib r) s.requested_only_webhook

  serve_payload-gate :
      (s : Server) (now : ℤ) (r : Request) (p : Text)
      → serve_payload lib s now r p
        ≡ gate
            (text_eq (lib.web_hook_type r) [])
            (filtered (hook_id_of lib r) s.webhook_id)
            (unrequested s r p)
            (filtered (lib.unmarshal p).organization_login s.org_filter)
            (finish r (lib.unmarshal p) (lib.marshal (event_data lib now r p)))
  unfolding serve_payload forward
  serve_payload-gate s now r p = refl

  gate-sent :
      (a b c d : Bool) (x : Served) (e : Event)
      → (gate a b c d x).sent ≡ e ∷ []
      → (a ≡ false) × (b ≡ false) × (c ≡ false) × (d ≡ false) × (x.sent ≡ e ∷ [])
  gate-sent true b c d x e h = absurd (cc)
  gate-sent false true c d x e h = absurd (cc)
  gate-sent false false true d x e h = absurd (cc)
  gate-sent false false false true x e h = absurd (cc)
  gate-sent false false false false x e h = (refl, refl, refl, refl, h)

  finish-sent :
      (r : Request) (info : PayloadInfo) (o : Option Text) (e : Event)
      → (finish r info o).sent ≡ e ∷ []
      → (content : Text) × (o ≡ some content)
  finish-sent r info none e h = absurd (cc)
  finish-sent r info (some content) e h = (content, refl)

  unrequested_iff :
      (s : Server) (r : Request) (p : Text)
      → (unrequested s r p ≡ false) ↔ (
          (is_requested (lib.web_hook_type r) (lib.unmarshal p) ≡ true)
          ⊎ ¬ Memᴰ (hook_id_of lib r) s.requested_only_webhook)
  unrequested_iff s r p = (
    λ h. elim (implied _ _ h) [
      | inl e ↦ inl e
      | inr e ↦
          inr (λ m.
            let t = sym ((found_iff (hook_id_of lib r) s.requested_only_webhook).1 m) ∙ e in cc)
    ],
    λ h. elim h [
      | inl e ↦ rw e refl
      | inr n ↦ elim (Bool-cases (found (hook_id_of lib r) s.requested_only_webhook)) [
        | inl e ↦ absurd (n ((found_iff (hook_id_of lib r) s.requested_only_webhook).0 e))
        | inr e ↦ implies (is_requested (lib.web_hook_type r) (lib.unmarshal p)) _ e
      ]
    ],
  )
    where
      implied : (a b : Bool) → (not a && b) ≡ false → (a ≡ true) ⊎ (b ≡ false)
      implied true b h = inl refl
      implied false b h = inr h

      implies : (a b : Bool) → b ≡ false → (not a && b) ≡ false
      implies true b h = refl
      implies false b h = h

  Passes-gate :
      (s : Server) (r : Request) (p : Text) (x : Served)
      → Passes s r p
      → gate
          (text_eq (lib.web_hook_type r) [])
          (filtered (hook_id_of lib r) s.webhook_id)
          (unrequested s r p)
          (filtered (lib.unmarshal p).organization_login s.org_filter)
          x
        ≡ x
  Passes-gate s r p x c =
      opened _ _ _ _ (typed (Bool-cases (text_eq (lib.web_hook_type r) [])))
        ((filtered_iff (hook_id_of lib r) s.webhook_id).1 c.hook)
        ((unrequested_iff s r p).1 c.requested)
        ((filtered_iff (lib.unmarshal p).organization_login s.org_filter).1 c.org)
    where
      typed :
          (text_eq (lib.web_hook_type r) [] ≡ true) ⊎ (text_eq (lib.web_hook_type r) [] ≡ false)
          → text_eq (lib.web_hook_type r) [] ≡ false
      typed (inl e) = absurd (c.typed ((text_eq_iff (lib.web_hook_type r) []).0 e))
      typed (inr e) = e

      opened : (a b c d : Bool) → a ≡ false → b ≡ false → c ≡ false → d ≡ false → gate a b c d x ≡ x
      opened a b c d ha hb hc hd = rw (ha, hb, hc, hd) refl

  abbrev pub Forwards : Server → ℤ → Request → Event → Text → Text → Type 0
  Forwards s now r e p content =
      Passes s r p
      × (lib.marshal (event_data lib now r p) ≡ some content)
      × (event_of lib r (lib.unmarshal p) content ≡ e)

  sent-Forwards :
      (s : Server) (now : ℤ) (r : Request) (p : Text) (e : Event)
      → (serve_payload lib s now r p).sent ≡ e ∷ []
      → (content : Text) × Forwards s now r e p content
  sent-Forwards s now r p e h =
      let (typed, hook, requested, org, sent) =
        gate-sent _ _ _ _ _ e (subst (λ x. x.sent ≡ e ∷ []) (serve_payload-gate s now r p) h) in
      let (content, m) = finish-sent r _ _ e sent in
      (
        content,
        (
          record {
            typed = λ z. let t = sym ((text_eq_iff (lib.web_hook_type r) []).1 z) ∙ typed in cc;
            hook = (filtered_iff (hook_id_of lib r) s.webhook_id).0 hook;
            requested = (unrequested_iff s r p).0 requested;
            org = (filtered_iff (lib.unmarshal p).organization_login s.org_filter).0 org;
          },
          m,
          head_eq (subst (λ o. (finish r (lib.unmarshal p) o).sent ≡ e ∷ []) m sent),
        ),
      )
    where
      head_eq : {a b : Event} → a ∷ [] ≡ b ∷ [] → a ≡ b
      head_eq h = cc

  Forwards-sent :
      (s : Server) (now : ℤ) (r : Request) (p : Text) (e : Event) (content : Text)
      → Forwards s now r e p content
      → (serve_payload lib s now r p).sent ≡ e ∷ []
  Forwards-sent s now r p e content (c, m, k) =
      ap (λ x. x.sent)
        (serve_payload-gate s now r p ∙ Passes-gate s r p _ c ∙ ap (finish r (lib.unmarshal p)) m)
      ∙ ap (λ a. a ∷ []) k

  abbrev served : Server → ℤ → Request → Option Text → Served
  served s now r none = respond lib 403
  served s now r (some p) = serve_payload lib s now r p

  -- The handler hands an event to the client if and only if some secret validates the payload and
  -- the request has a type, comes from a webhook that is listened to, is a requested event where
  -- its webhook is for those only, and has an organisation that is listened to, and the event's
  -- data can be encoded. It then hands over the one event of that payload.
  pub forwarded_iff :
      (s : Server) (now : ℤ) (r : Request) (e : Event)
      → ((serve_http lib s now r).sent ≡ e ∷ []) ↔ (
          (p : Text) × (validate_payload lib r s.secrets ≡ some p)
          × ((content : Text) × Forwards s now r e p content))
  unfolding serve_http
  forwarded_iff s now r e = (
    sent (validate_payload lib r s.secrets) refl,
    λ (p, v, (content, f)).
        ap (λ u. (served s now r u).sent) v ∙ Forwards-sent s now r p e content f,
  )
    where
      sent :
          (u : Option Text)
          → validate_payload lib r s.secrets ≡ u
          → (served s now r u).sent ≡ e ∷ []
          → (p : Text) × (validate_payload lib r s.secrets ≡ some p)
            × ((content : Text) × Forwards s now r e p content)
      sent none v h = absurd (cc)
      sent (some p) v h = (p, v, sent-Forwards s now r p e h)

  -- The status 200 stands for one event that was delivered.
  abbrev Honest : Served → Type 0
  Honest x = (x.status ≡ 200) ↔ ((e : Event) × (x.sent ≡ e ∷ []) × (lib.undelivered e ≡ false))

  respond-Honest : (n : ℕ) → n ≢ 200 → Honest (respond lib n)
  respond-Honest n h = (λ k. absurd (h k), λ (e, k, d). cc)

  finish-Honest : (r : Request) (info : PayloadInfo) (o : Option Text) → Honest (finish r info o)
  finish-Honest r info none = respond-Honest 500 (λ h. omega arith)
  finish-Honest r info (some content) =
      go (event_of lib r info content) (Bool-cases (lib.undelivered (event_of lib r info content)))
    where
      go :
          (e : Event)
          → (lib.undelivered e ≡ true) ⊎ (lib.undelivered e ≡ false)
          → Honest (record { status = if lib.undelivered e then 500 else 200; sent = e ∷ [] })
      go e (inl u) = (λ h. absurd (failing (rw u at h)), λ (d, k, v). absurd (delivered d k v))
        where
          failing : ◌≡◌ {A = ℕ} 500 200 → ⊥
          failing h = omega arith

          delivered : (d : Event) → e ∷ [] ≡ d ∷ [] → lib.undelivered d ≡ false → ⊥
          delivered d k v = cc
      go e (inr u) = (λ h. (e, refl, u), λ _. rw u refl)

  gate-Honest : (a b c d : Bool) (x : Served) → Honest x → Honest (gate a b c d x)
  gate-Honest true b c d x h = respond-Honest 400 (λ h. omega arith)
  gate-Honest false true c d x h = respond-Honest 202 (λ h. omega arith)
  gate-Honest false false true d x h = respond-Honest 202 (λ h. omega arith)
  gate-Honest false false false true x h = respond-Honest 202 (λ h. omega arith)
  gate-Honest false false false false x h = h

  served-Honest : (s : Server) (now : ℤ) (r : Request) (u : Option Text) → Honest (served s now r u)
  served-Honest s now r none = respond-Honest 403 (λ h. omega arith)
  served-Honest s now r (some p) = subst Honest (sym (serve_payload-gate s now r p)) (
      gate-Honest (text_eq (lib.web_hook_type r) []) (filtered (hook_id_of lib r) s.webhook_id)
        (unrequested s r p) (filtered (lib.unmarshal p).organization_login s.org_filter) _
        (finish-Honest r (lib.unmarshal p) (lib.marshal (event_data lib now r p))))

  -- The handler answers with status 200 if and only if it handed one event to the client and the
  -- client delivered it.
  pub status-delivered :
      (s : Server) (now : ℤ) (r : Request)
      → ((serve_http lib s now r).status ≡ 200)
        ↔ ((e : Event) × ((serve_http lib s now r).sent ≡ e ∷ []) × (lib.undelivered e ≡ false))
  unfolding serve_http
  status-delivered s now r = served-Honest s now r (validate_payload lib r s.secrets)
