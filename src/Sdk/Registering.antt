-- ===== src/Sdk/Registering.antt =====
-- Which handlers a bot has, and which one gets an event.
use terraform_cloudrun_glue.Base.{
  ◌≡◌, refl, sym, ap, subst, ◌∙◌, false, Option, none, some, List, [], ◌∷◌, Memᴰ, Text, text_eq,
  Dict, lookup, insert, lookup-insert_self, lookup-insert_other, lookup-insert_fresh, Result,
  returns, fails, All,
}
use mathlib.Core.List.Memᴰ
use terraform_cloudrun_glue.Sdk.Bots.{
  Kind, event_type, Event, Handler, Bot, register_handler, register_all, new_bot, handle, receive,
  context_of, returned, panicked,
}

module _ (Ext Data W : Type 0) (Body : Kind → Type 0) where
  abbrev H : Type 0
  H = Handler Ext Data W Body

  abbrev type_of : H → Text
  type_of h = event_type h.kind

  -- No two of the handlers are for one type of events.
  abbrev pub IsDistinct : List H → Type 0
  IsDistinct [] = Unit
  IsDistinct (h ∷ hs) = All (λ g. text_eq (type_of h) (type_of g) ≡ false) hs × IsDistinct hs

  abbrev Fresh : Dict H → H → Type 0
  Fresh m h = lookup (type_of h) m ≡ none

  Fresh-insert :
      (h : H) (m : Dict H) (hs : List H)
      → All (Fresh m) hs
      → All (λ g. text_eq (type_of h) (type_of g) ≡ false) hs
      → All (Fresh (insert (type_of h) h m)) hs
  Fresh-insert h m [] f d = tt
  Fresh-insert h m (g ∷ hs) f d =
      (lookup-insert_other (type_of g) (type_of h) h m d.0 ∙ f.0, Fresh-insert h m hs f.1 d.1)

  -- What a bot has after the registrations.
  pub record Registered (hs : List H) (m : Dict H) (b : Bot Ext Data W Body) : Type 0 where
    pub keeps : (k : Text) (g : H) → lookup k m ≡ some g → lookup k b.handlers ≡ some g
    pub has : All (λ h. lookup (type_of h) b.handlers ≡ some h) hs

  registers :
      (hs : List H) (b : Bot Ext Data W Body)
      → All (Fresh b.handlers) hs
      → IsDistinct hs
      → (c : Bot Ext Data W Body) × (register_all Ext Data W Body hs b ≡ some c)
        × Registered hs b.handlers c
  unfolding register_all register_handler
  registers [] b f d = (b, refl, record { keeps = λ k g e. e; has = tt })
  registers (h ∷ hs) b f d =
      let b1 = record b { handlers = insert (type_of h) h b.handlers } in
      let (c, e, r) = registers hs b1 (Fresh-insert h b.handlers hs f.1 d.0) d.1 in
      (
        c,
        rw (f.0, register_all) e,
        record {
          keeps = λ k g e. r.keeps k g (lookup-insert_fresh k (type_of h) h g b.handlers f.0 e);
          has = (r.keeps (type_of h) h (lookup-insert_self (type_of h) h b.handlers), r.has);
        },
      )

  All-Fresh : (hs : List H) → All (Fresh []) hs
  All-Fresh [] = tt
  All-Fresh (h ∷ hs) = (unfold lookup in refl, All-Fresh hs)

  member : (P : H → Type 0) (h : H) (hs : List H) → Memᴰ h hs → All P hs → P h
  member P h [] m a = absurd (Memᴰ.not-nil m)
  member P h (g ∷ hs) (Memᴰ.head e) a = subst P (sym e) a.0
  member P h (g ∷ hs) (Memᴰ.tail m) a = member P h hs m a.1

  -- What becomes of an event that is given to the handler: its data are decoded for it; data that
  -- cannot be decoded are an error and nothing is run, and otherwise it is run on them, and its error
  -- is returned, or none where it panics.
  pub record IsHandled (data_as : (k : Kind) → Event Ext Data → Result (Body k)) (h : H)
      (e : Event Ext Data) (w : W) (out : Option Text × W) : Type 0 where
    pub undecoded : (err : Text) → data_as h.kind e ≡ fails err → out ≡ (some err, w)
    pub ran :
        (body : Body h.kind) (err : Option Text) (w' : W)
        → data_as h.kind e ≡ returns body
        → h.run (context_of e) body w ≡ (returned err, w')
        → out ≡ (err, w')
    pub panicking :
        (body : Body h.kind) (w' : W)
        → data_as h.kind e ≡ returns body
        → h.run (context_of e) body w ≡ (panicked, w')
        → out ≡ (none, w')

  handle-IsHandled :
      (data_as : (k : Kind) → Event Ext Data → Result (Body k)) (h : H) (e : Event Ext Data) (w : W)
      → IsHandled data_as h e w (handle Ext Data W Body data_as h e w)
  unfolding handle
  handle-IsHandled data_as h e w = record {
    undecoded = λ err f. rw (f, handle) refl;
    ran = λ body err w' f g. rw (f, handle) (rw g refl);
    panicking = λ body w' f g. rw (f, handle) (rw g refl);
  }

  -- A bot that is made with handlers for different types of events gives each event to the handler
  -- for its type, which is run on the event's data if they can be decoded: the bot returns the
  -- handler's error and leaves what the handler leaves. It returns the error of the decoding and runs
  -- nothing if they cannot, and no error if the handler panics.
  pub receive-new_bot :
      (data_as : (k : Kind) → Event Ext Data → Result (Body k)) (name : Text) (hs : List H) (h : H)
      (e : Event Ext Data) (w : W)
      → IsDistinct hs
      → Memᴰ h hs
      → e.type ≡ event_type h.kind
      → (b : Bot Ext Data W Body) × (new_bot Ext Data W Body name hs ≡ some b)
        × IsHandled data_as h e w (receive Ext Data W Body data_as b e w)
  unfolding new_bot receive
  receive-new_bot data_as name hs h e w d m t =
      let (b, made, r) = registers hs (record { name = name; handlers = [] }) (All-Fresh hs) d in
      (
        b,
        made,
        rw (ap (λ k. lookup k b.handlers) t ∙ member _ h hs m r.has, receive)
            (handle-IsHandled data_as h e w),
      )
