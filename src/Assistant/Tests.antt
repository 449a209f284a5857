-- ===== src/Assistant/Tests.antt =====
-- Examples of the assistant: a conversation that is trimmed, a turn whose model never stops calling, a
-- reply with too many calls, and an allowance with one apply left.
use terraformer.Base.{
  ℕ, ◌+◌, ◌≤◌, ◌<◌, ◌≡◌, refl, arith, true, false, none, some, List, [], ◌∷◌, if◌then◌else◌, any,
  map, length, ◌==◌,
}
use terraformer.Text.{Text, codes}
use terraformer.Models.{draft, best_effort, low, manual}
use terraformer.Pipeline.{ChangePlan, returned}
use terraformer.Jobs.Queue.{Services}
use terraformer.Assistant.Context.{
  ChatMessage, History, Role, system, user, assistant, tool, is_user, after_pinned,
  trim_to_context_limit,
}
use terraformer.Assistant.Context.Kept.{TrimEnds, trim-TrimEnds}
use terraformer.Assistant.Context.Orphans.{is_answered, trim-answered}
use terraformer.Assistant.Turn.{
  answered, ToolResult, provider, token, tool_call, tool_result, ToolCallRequest, done, Env,
  ask_model, started, run_turn,
}
use terraformer.Assistant.Turn.Work.{result_count}
use terraformer.Assistant.Turn.Socket.{event, error, answer_message}
use terraformer.Assistant.Turn.Socket.Ends.{WorkThen, quiet_turn_done}
use terraformer.Assistant.Turn.Overflow.{announced_count, overflow_ends_turn}
use terraformer.Assistant.Allowance.{auto, AssistantSession, World, Request, apply_plan}
use terraformer.Assistant.Allowance.Overlap.{
  begin_all, settle_all, accepted_count, overlap_counted_once,
}
use terraformer.Assistant.Allowance.Bounded.{auto_applies, auto_applies_bounded}

abbrev says : Role → Text → ChatMessage
says role content = record { role = role; content = content; tool_call_id = none; tool_calls = [] }

-- A prompt, a question that was answered with a tool, and a new question.
abbrev conversation : History
conversation =
    says system (codes "ask")
    ∷ says user (codes "which ports")
    ∷ record {
      role = assistant;
      content = codes "look";
      tool_call_id = none;
      tool_calls = codes "a" ∷ [];
    }
    ∷ record {
      role = tool;
      content = codes "Gi1 Gi2";
      tool_call_id = some (codes "a");
      tool_calls = [];
    }
    ∷ says assistant (codes "two")
    ∷ says user (codes "names?")
    ∷ []

trim-TrimEnds_example : TrimEnds 4 conversation (trim_to_context_limit conversation (some 4))
trim-TrimEnds_example = trim-TrimEnds conversation 4

has_user : any (λ (m : ChatMessage). is_user m.role) (after_pinned conversation) ≡ true
unfolding after_pinned
has_user = refl

conversation_answered : is_answered false conversation ≡ true
unfolding is_answered
conversation_answered = refl

trim-answered_example : is_answered false (trim_to_context_limit conversation (some 4)) ≡ true
trim-answered_example = trim-answered conversation 4 has_user conversation_answered

-- A window that would open on the tool's result opens after it.
window_test :
    map (λ (m : ChatMessage). m.role) (trim_to_context_limit conversation (some 5))
    ≡ system ∷ assistant ∷ user ∷ []
unfolding trim_to_context_limit
window_test = refl

abbrev call : ToolCallRequest
call = record { id = codes "a"; name = codes "get_topology"; arguments = [] }

abbrev no_payload : ToolResult
no_payload = record { payload = codes "none"; proposed = false }

-- A model that calls a tool in each of its replies.
abbrev calling : List ToolCallRequest → Env
calling calls = record {
  stream_chat =
      λ n offered h. record { tokens = codes "I look" ∷ []; calls = calls; failure = none };
  run_tool = λ c. answered no_payload;
  budget_spent = codes "spent";
  budget_tokens = 100;
}

-- The provider breaks off after a token of its second reply.
abbrev breaking : Env
breaking = record (calling []) {
  stream_chat = λ n offered h. record {
    tokens = codes "I look" ∷ [];
    calls = if n == 0 then call ∷ [] else [];
    failure = if n == 0 then none else some provider;
  };
}

broken_test :
    (answer_message breaking conversation).0
    ≡ event (token (codes "I look"))
      ∷ event (tool_call (codes "get_topology"))
      ∷ event (tool_result (codes "get_topology"))
      ∷ event (token (codes "I look"))
      ∷ error (codes "provider_unreachable")
      ∷ []
unfolding answer_message
broken_test = refl

quiet_turn_done_example :
    WorkThen (event done ∷ []) (answer_message (calling (call ∷ [])) conversation).0
    × ((answer_message (calling (call ∷ [])) conversation).1 ≡ true)
quiet_turn_done_example =
    quiet_turn_done (calling (call ∷ [])) conversation (λ n offered h. refl)
      (λ c. (no_payload, refl))

abbrev ten : List ToolCallRequest → List ToolCallRequest
ten cs = call ∷ call ∷ call ∷ call ∷ call ∷ call ∷ call ∷ call ∷ call ∷ call ∷ cs

abbrev too_many : List ToolCallRequest
too_many = ten (ten (ten (ten (call ∷ []))))

whole_lem :
    (ask_model (calling too_many) false (started (calling too_many) conversation)).0.failure ≡ none
unfolding ask_model
whole_lem = refl

too_many_lem :
    40
    < length (ask_model (calling too_many) false (started (calling too_many) conversation)).0.calls
unfolding ask_model
too_many_lem = omega arith

overflow_ends_turn_example :
    ((run_turn (calling too_many) conversation).requests ≡ 1)
    × (result_count (run_turn (calling too_many) conversation).stored ≡ 40)
    × (announced_count (run_turn (calling too_many) conversation).stored
        ≡ length
            (ask_model (calling too_many) false (started (calling too_many) conversation)).0.calls)
overflow_ends_turn_example =
    overflow_ends_turn (calling too_many) conversation whole_lem (λ c. (no_payload, refl))
      too_many_lem

-- The queue takes every job.
abbrev services : Services
services = record { get_device = λ d. returned tt; enqueue = λ job. some (codes "rq") }

abbrev drafted : ChangePlan
drafted = record {
  device_id = 7;
  status = draft;
  safety_level = best_effort;
  risk = low;
  source = manual;
  pre_change_snapshot_id = none;
  post_change_snapshot_id = none;
  failure_code = none;
  applied_at = none;
  steps = [];
}

abbrev fourth : AssistantSession
fourth = record {
  mode = auto;
  model_id = codes "m";
  auto_mode_acknowledged_at = some 1;
  auto_apply_count = 4;
}

-- The first two rows of plans are for devices 7 and 8.
abbrev nearly_spent : World
nearly_spent = record {
  plans = λ n. some (record drafted { device_id = n + 7 });
  sessions = λ n. if n == 3 then some fourth else none;
  jobs = record { jobs = []; events = []; next_id = 0 };
}

abbrev two_applies : List (ℕ × Request)
two_applies = (10, apply_plan 0 (some 3)) ∷ (11, apply_plan 1 (some 3)) ∷ []

-- The first is accepted, the second is over the limit.
accepted_test : auto_applies services 3 two_applies nearly_spent ≡ 1
unfolding auto_applies
accepted_test = refl

auto_applies_bounded_example : auto_applies services 3 two_applies nearly_spent + 4 ≤ 5
auto_applies_bounded_example =
    auto_applies_bounded services two_applies nearly_spent 3 fourth refl (omega arith)
      (refl, (refl, tt))

-- Two overlapping applies with one left are both accepted, and the count goes from four to five.
abbrev two_plans : List (ℕ × ℕ)
two_plans = (10, 0) ∷ (11, 1) ∷ []

both_accepted : accepted_count (begin_all services 3 two_plans nearly_spent).0 ≡ 2
unfolding begin_all accepted_count
both_accepted = refl

one_accepted : 1 ≤ accepted_count (begin_all services 3 two_plans nearly_spent).0
one_accepted = omega (arith, both_accepted)

overlap_counted_once_example :
    (row : AssistantSession) × (((settle_all
            (begin_all services 3 two_plans nearly_spent).0
            (begin_all services 3 two_plans nearly_spent).1).sessions
          3
        ≡ some row)
      × (row.auto_apply_count ≡ 5))
overlap_counted_once_example =
    overlap_counted_once services two_plans nearly_spent 3 fourth refl refl one_accepted
