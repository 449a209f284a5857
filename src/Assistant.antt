-- ===== src/Assistant.antt =====
-- assistant/: what a conversation sends to the model, how a turn ends, and how much it may change.
pub mod Allowance
pub mod Context
pub mod Turn
pub mod Tests
