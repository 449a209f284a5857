-- ===== src/Assistant/Turn/Socket.antt =====
-- api/assistant.py: what the chat's socket sends for a user's message, and whether it stays open.
pub mod Ends
use terraformer.Base.{Bool, true, false, Option, none, some, List, [], ◌∷◌, ◌++◌, map}
use terraformer.Text.{Text, codes}
use terraformer.Errors.{code}
use terraformer.Assistant.Context.{History}
use terraformer.Assistant.Turn.{
  AssistantEvent, TurnError, provider, app, other, Env, Turn, run_turn,
}

pub data Frame : Type 0 where
  event : AssistantEvent → Frame
  error : Text → Frame

-- A failure of the provider and a typed error are reported, by their code.
unfoldable pub error_frames : Option TurnError → List Frame
unfolding code
error_frames none = []
error_frames (some provider) = error (codes "provider_unreachable") ∷ []
error_frames (some (app e)) = error (codes (code e)) ∷ []
error_frames (some other) = []

-- Any other exception tears the socket down.
abbrev pub stays_open : Option TurnError → Bool
stays_open none = true
stays_open (some provider) = true
stays_open (some (app e)) = true
stays_open (some other) = false

unfoldable pub served : Turn → List Frame × Bool
unfolding error_frames
served t = (map event t.events ++ error_frames t.failure, stays_open t.failure)

-- The `user_message` branch, from the history that is sent first.
unfoldable pub answer_message : Env → History → List Frame × Bool
unfolding served run_turn
answer_message env history = served (run_turn env history)
