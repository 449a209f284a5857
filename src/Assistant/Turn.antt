-- ===== src/Assistant/Turn.antt =====
-- assistant/service.py: the rounds of `handle_user_message`, from the history that is sent first to
-- the event that ends the turn. The model behind the provider, and the tools,
-- answer as they like or raise.
pub mod Work
pub mod Bounds
pub mod Overflow
pub mod Socket
use terraformer.Base.{
  ℕ, zero, suc, ◌+◌, Bool, true, false, not, ◌||◌, ◌&&◌, Option, List, [], ◌∷◌, ◌++◌, map,
  if◌then◌else◌, ltb, is_empty, none, some,
}
use terraformer.Text.{Text, codes, is_some}
use terraformer.Errors.{AppError}
use terraformer.Assistant.Context.{
  ChatMessage, History, Role, system, assistant, tool, trim_to_context_limit,
}

pub record ToolCallRequest : Type 0 where
  pub id : Text
  pub name : Text
  pub arguments : Text

-- What a provider or a tool may raise: `AIProviderConnectionError`, a typed error, or any other.
pub data TurnError : Type 0 where
  provider : TurnError
  app : AppError → TurnError
  other : TurnError

-- A stream of chunks: the texts of its tokens, none of them empty, and its calls, up to its end or to
-- what it raised.
pub record Reply : Type 0 where
  pub tokens : List Text
  pub calls : List ToolCallRequest
  pub failure : Option TurnError

pub data AssistantEvent : Type 0 where
  token tool_call tool_result change_plan_proposed : Text → AssistantEvent
  done : AssistantEvent

-- What a tool gives: its payload as JSON, and whether it proposed a plan.
pub record ToolResult : Type 0 where
  pub payload : Text
  pub proposed : Bool

-- A ReadOnlyToolError is a result too; what else a tool raises ends the turn.
pub data ToolAnswer : Type 0 where
  answered : ToolResult → ToolAnswer
  tool_raised : TurnError → ToolAnswer

-- The model answers by the number of requests before, whether tools are offered, and the history.
pub record Env : Type 0 where
  pub stream_chat : ℕ → Bool → History → Reply
  pub run_tool : ToolCallRequest → ToolAnswer
  pub budget_spent : Text
  pub budget_tokens : ℕ

-- `stored` are the messages added to the database in this turn, `failure` is what the turn raised.
pub record Turn : Type 0 where
  pub history : History
  pub stored : History
  pub calls_made : ℕ
  pub requests : ℕ
  pub events : List AssistantEvent
  pub failure : Option TurnError

-- `_MAX_TOOL_ROUNDS_PER_TURN` and `_MAX_TOOL_CALLS_PER_TURN`.
abbrev pub max_rounds : ℕ
max_rounds = 12

abbrev pub max_calls : ℕ
max_calls = 40

unfoldable pub concatenated : List Text → Text
concatenated [] = []
concatenated (t ∷ ts) = t ++ concatenated ts

unfoldable pub add_message : ChatMessage → Turn → Turn
add_message m t = record t { history = t.history ++ m ∷ []; stored = t.stored ++ m ∷ [] }

abbrev pub emit : List AssistantEvent → Turn → Turn
emit es t = record t { events = t.events ++ es }

-- The messages of this round's request: in the last one the tools are withdrawn, and it says so.
unfoldable pub prepared : Env → Bool → Turn → Turn
prepared env final t = record t {
  history =
      trim_to_context_limit
        (if final
          then t.history
            ++ record {
              role = system;
              content = env.budget_spent;
              tool_call_id = none;
              tool_calls = [];
            }
              ∷ []
          else t.history)
        (some env.budget_tokens);
}

-- A turn that says nothing and calls nothing is not stored, and neither is one that broke off.
unfoldable pub heard : Reply → Turn → Turn
unfolding concatenated add_message
heard reply t =
    let t' : Turn = record (emit (map token reply.tokens) t) {
      requests = suc t.requests;
      failure = reply.failure;
    } in
    if not (is_some reply.failure)
      && (not (is_empty (concatenated reply.tokens)) || not (is_empty reply.calls))
    then add_message
        (record {
          role = assistant;
          content = concatenated reply.tokens;
          tool_call_id = none;
          tool_calls = map (λ (c : ToolCallRequest). c.id) reply.calls;
        })
        t'
    else t'

abbrev pub result_event : ToolCallRequest → Bool → AssistantEvent
result_event c true = change_plan_proposed c.name
result_event c false = tool_result c.name

unfoldable pub answer_call : ToolCallRequest → ToolResult → Turn → Turn
unfolding add_message
answer_call c r t =
    add_message
      (record { role = tool; content = r.payload; tool_call_id = some c.id; tool_calls = [] })
      (emit (tool_call c.name ∷ result_event c r.proposed ∷ []) t)

-- A call whose tool raised was announced to the client and has no result.
abbrev pub break_off : ToolCallRequest → TurnError → Turn → Turn
break_off c e t = record (emit (tool_call c.name ∷ []) t) { failure = some e }

-- The calls of one round, until one is over the limit or raises.
unfoldable pub run_calls : Env → List ToolCallRequest → Turn → Turn
unfolding answer_call
run_calls env [] t = t
run_calls env (c ∷ cs) t =
    let counted : Turn = record t { calls_made = suc t.calls_made } in
    elim (ltb max_calls (suc t.calls_made)) [
      | true ↦ counted
      | false ↦ elim (env.run_tool c) [
        | answered r ↦ run_calls env cs (answer_call c r counted)
        | tool_raised e ↦ break_off c e counted
      ]
    ]

abbrev pub finish : Turn → Turn
finish t = emit (done ∷ []) t

abbrev pub is_zero : ℕ → Bool
is_zero zero = true
is_zero (suc n) = false

-- One request: its messages, and what comes back.
unfoldable pub ask_model : Env → Bool → Turn → Reply × Turn
unfolding prepared heard
ask_model env final t =
    let ready = prepared env final t in
    let reply = env.stream_chat t.requests (not final) ready.history in (reply, heard reply ready)

-- The rounds that are left.
unfoldable pub run_rounds : Env → ℕ → Turn → Turn
unfolding ask_model run_calls
run_rounds env zero t = finish t
run_rounds env (suc left) t =
    let (reply, heard_turn) = ask_model env (is_zero left) t in
    let called = run_calls env reply.calls heard_turn in
    elim (is_some reply.failure) [
      | true ↦ heard_turn
      | false ↦ elim (is_empty reply.calls) [
        | true ↦ finish heard_turn
        | false ↦ elim (is_some called.failure) [
          | true ↦ called
          | false ↦ elim (ltb max_calls called.calls_made) [
            | true ↦ finish called
            | false ↦ run_rounds env left called
          ]
        ]
      ]
    ]

-- A turn before its first round.
abbrev pub started : Env → History → Turn
started env history = record {
  history = trim_to_context_limit history (some env.budget_tokens);
  stored = [];
  calls_made = 0;
  requests = 0;
  events = [];
  failure = none;
}

-- The loop of `handle_user_message`.
unfoldable pub run_turn : Env → History → Turn
unfolding run_rounds
run_turn env history = run_rounds env (suc max_rounds) (started env history)
