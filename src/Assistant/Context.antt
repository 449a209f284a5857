-- ===== src/Assistant/Context.antt =====
-- assistant/service.py and client.py: the messages of a conversation, and `_trim_to_context_limit`,
-- which drops the oldest until the rest fits. A size is a number of characters.

pub mod Fits
pub mod Window
pub mod Kept
pub mod Orphans
use mathlib.Core.List.{reverse}
use terraformer.Base.{
  ℕ, ◌+◌, ◌*◌, Bool, true, false, Option, none, some, List, [], ◌∷◌, ◌++◌, if◌then◌else◌, ltb, ◌==◌,
  length, is_empty,
}
use terraformer.Text.{Text}

pub data Role : Type 0 where
  system user assistant tool : Role

-- `tool_calls` are the ids that an assistant's turn announces, `tool_call_id` the one that a result
-- answers.
pub record ChatMessage : Type 0 where
  pub role : Role
  pub content : Text
  pub tool_call_id : Option Text
  pub tool_calls : List Text

abbrev pub is_system : Role → Bool
is_system system = true
is_system user = false
is_system assistant = false
is_system tool = false

abbrev pub is_user : Role → Bool
is_user system = false
is_user user = true
is_user assistant = false
is_user tool = false

abbrev pub is_tool : Role → Bool
is_tool system = false
is_tool user = false
is_tool assistant = false
is_tool tool = true

abbrev pub History : Type 0
History = List ChatMessage

abbrev pub cost : ChatMessage → ℕ
cost m = length m.content

unfoldable pub size : History → ℕ
size [] = 0
size (m ∷ ms) = cost m + size ms

-- `_CHARS_PER_TOKEN`.
abbrev pub chars_per_token : ℕ
chars_per_token = 4

-- A window may not open on a tool result whose announcing turn is gone.
unfoldable pub drop_leading_orphan : History → History
drop_leading_orphan [] = []
drop_leading_orphan (m ∷ ms) = if is_tool m.role then drop_leading_orphan ms else m ∷ ms

-- The leading system messages, and the rest.
unfoldable pub pinned : History → History
pinned [] = []
pinned (m ∷ ms) = if is_system m.role then m ∷ pinned ms else []

unfoldable pub after_pinned : History → History
after_pinned [] = []
after_pinned (m ∷ ms) = if is_system m.role then after_pinned ms else m ∷ ms

-- A history around one of its messages.
pub record Around : Type 0 where
  pub earlier : History
  pub request : ChatMessage
  pub turn : History

abbrev behind : ChatMessage → Around → Around
behind m a = record a { earlier = m ∷ a.earlier }

-- Around the newest user message.
unfoldable pub around_user : History → Option Around
around_user [] = none
around_user (m ∷ ms) = elim (around_user ms) [
  | some a ↦ some (behind m a)
  | none ↦ if is_user m.role then some (record { earlier = []; request = m; turn = ms }) else none
]

-- Around the last message.
unfoldable pub around_last : ChatMessage → History → Around
around_last m [] = record { earlier = []; request = m; turn = [] }
around_last m (n ∷ ms) = behind m (around_last n ms)

-- The messages that fit, from the newest on: they are given and returned newest first, with the size
-- used up.
unfoldable pub newest : ℕ → ℕ → History → History × ℕ
newest budget used [] = ([], used)
newest budget used (m ∷ ms) =
    let (kept, total) = newest budget (used + cost m) ms in
    if ltb budget (used + cost m) then ([], used) else (m ∷ kept, total)

unfoldable pub keep_newest : ℕ → ℕ → History → History × ℕ
unfolding newest
keep_newest budget used ms =
    let (kept, total) = newest budget used (reverse ms) in (reverse kept, total)

-- Earlier turns are carried only once the current one fits whole.
unfoldable pub keep_earlier : ℕ → ℕ → Bool → History → History
unfolding keep_newest drop_leading_orphan
keep_earlier budget used true earlier = drop_leading_orphan (keep_newest budget used earlier).0
keep_earlier budget used false earlier = []

unfoldable pub trim_around : ℕ → History → Around → History
unfolding keep_newest keep_earlier drop_leading_orphan size
trim_around budget pins a =
    let (fitting, used) = keep_newest budget (size pins + cost a.request) a.turn in
    let kept = drop_leading_orphan fitting in
    pins ++ (keep_earlier budget used (length kept == length a.turn) a.earlier ++ a.request ∷ kept)

unfoldable pub trim_rest : ℕ → History → History → History
unfolding trim_around around_user around_last
trim_rest budget pins [] = pins
trim_rest budget pins (m ∷ ms) = elim (around_user (m ∷ ms)) [
  | some a ↦ trim_around budget pins a
  | none ↦ trim_around budget pins (around_last m ms)
]

-- `_trim_to_context_limit`.
unfoldable pub trim_to_context_limit : History → Option ℕ → History
unfolding trim_rest pinned after_pinned
trim_to_context_limit history none = history
trim_to_context_limit history (some limit) =
    trim_rest (limit * chars_per_token) (pinned history) (after_pinned history)
