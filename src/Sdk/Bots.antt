-- ===== src/Sdk/Bots.antt =====
-- modules/github-bots/sdk/bot.go and handlers.go: which handler of a bot gets an event. The decoding
-- of an event, DataAs, is a parameter.
use terraform_cloudrun_glue.Base.{
  Option, none, some, List, [], ◌∷◌, Text, codes, Dict, lookup, insert, Result, returns, fails,
}

-- The types of handlers. A type from elsewhere with a method EventType is not modelled.
pub data Kind : Type 0 where
  workflow_run_artifact : Kind
  workflow_run : Kind
  workflow_run_logs : Kind
  pull_request : Kind
  issues : Kind
  issue_comment : Kind
  push : Kind
  check_run : Kind
  check_suite : Kind
  projects_v2_item : Kind

-- Their methods EventType.
unfoldable pub event_type : Kind → Text
event_type workflow_run_artifact = codes "dev.chainguard.lofo.workflow_run_artifacts"
event_type workflow_run = codes "dev.chainguard.github.workflow_run"
event_type workflow_run_logs = codes "dev.chainguard.lofo.workflow_run_logs"
event_type pull_request = codes "dev.chainguard.github.pull_request"
event_type issues = codes "dev.chainguard.github.issues"
event_type issue_comment = codes "dev.chainguard.github.issue_comment"
event_type push = codes "dev.chainguard.github.push"
event_type check_run = codes "dev.chainguard.github.check_run"
event_type check_suite = codes "dev.chainguard.github.check_suite"
event_type projects_v2_item = codes "dev.chainguard.github.projects_v2_item"

-- A cloud event, whose extensions have values in `Ext` and whose data is of the type `Data`.
pub record Event (Ext Data : Type 0) : Type 0 where
  pub type : Text
  pub subject : Text
  pub extensions : Dict Ext
  pub payload : Data

-- A value in a handler's context.
pub data Attribute (Ext : Type 0) : Type 0 where
  extension : Ext → Attribute Ext
  attributes : Dict Ext → Attribute Ext
  text : Text → Attribute Ext

abbrev pub extensions_in : {Ext : Type 0} → Dict Ext → Dict (Attribute Ext)
extensions_in [] = []
extensions_in ((k, v) ∷ m) = (k, extension v) ∷ extensions_in m

-- The values that are put into the context, the last one first.
unfoldable pub context_of : {Ext Data : Type 0} → Event Ext Data → Dict (Attribute Ext)
context_of e =
    (codes "ce-subject", text e.subject)
    ∷ (codes "ce-type", text e.type)
    ∷ (codes "ce-attributes", attributes e.extensions)
    ∷ extensions_in e.extensions

unfoldable pub attribute_from_context :
    {Ext : Type 0} → Dict (Attribute Ext) → Text → Option (Attribute Ext)
attribute_from_context ctx key = lookup key ctx

-- How a handler ends: with an error or none, or in a panic.
pub data Outcome : Type 0 where
  returned : Option Text → Outcome
  panicked : Outcome

-- `Body` are the types that the handlers take, and `W` is what they work on.
module _ (Ext Data W : Type 0) (Body : Kind → Type 0) where
  pub record Handler : Type 0 where
    pub kind : Kind
    pub run : Dict (Attribute Ext) → Body kind → W → Outcome × W

  pub record Bot : Type 0 where
    pub name : Text
    pub handlers : Dict Handler

  -- RegisterHandler, and `none` for its panic.
  unfoldable pub register_handler : Handler → Bot → Option Bot
  unfolding event_type
  register_handler h b = elim (lookup (event_type h.kind) b.handlers) [
    | some g ↦ none
    | none ↦ some (record b { handlers = insert (event_type h.kind) h b.handlers })
  ]

  unfoldable pub register_all : List Handler → Bot → Option Bot
  unfolding register_handler
  register_all [] b = some b
  register_all (h ∷ hs) b = elim (register_handler h b) [
    | none ↦ none
    | some b1 ↦ register_all hs b1
  ]

  -- NewBot with the options BotWithHandler.
  unfoldable pub new_bot : Text → List Handler → Option Bot
  unfolding register_all
  new_bot name hs = register_all hs (record { name = name; handlers = [] })

  -- The deferred recover: a panic leaves the error nil.
  abbrev pub recovered : Outcome × W → Option Text × W
  recovered (returned err, w) = (err, w)
  recovered (panicked, w) = (none, w)

  module _ (data_as : (k : Kind) → Event Ext Data → Result (Body k)) where
    unfoldable pub handle : Handler → Event Ext Data → W → Option Text × W
    unfolding context_of
    handle h e w = elim (data_as h.kind e) [
      | fails err ↦ (some err, w)
      | returns body ↦ recovered (h.run (context_of e) body w)
    ]

    -- The function that Serve gives to the receiver.
    unfoldable pub receive : Bot → Event Ext Data → W → Option Text × W
    unfolding handle
    receive b e w = elim (lookup e.type b.handlers) [ none ↦ (none, w) | some h ↦ handle h e w ]
