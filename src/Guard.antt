-- ===== src/Guard.antt =====
-- The PreToolUse guard, scripts/agent/pre_tool_policy.py.
pub mod Lexer
pub mod Pipelines
pub mod Host
pub mod Words
pub mod Reason
pub mod Git
pub mod Push
pub mod Operands
pub mod Rm
pub mod Shell
pub mod Brace
pub mod Glob
pub mod Secret
pub mod Denial
pub mod Hook
mod Tests
mod Examples
