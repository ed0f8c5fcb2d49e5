-- ===== src/Guard/Reason.antt =====
-- The reasons that scripts/agent/pre_tool_policy.py gives for a denial.
use gas_station.Base.{String, ◌<>◌}

pub data Reason : Type 0 where
  hard_reset broad_checkout broad_restore forced_clean mirror_push broad_force_push : Reason
  force_push_to : String → Reason
  broad_deletion printed_secret dropped_table : Reason
  invalid_input malformed_command unresolved_cwd : Reason

-- The text that is shown.
unfoldable pub message : Reason → String
message hard_reset = "destructive git reset is blocked"
message broad_checkout = "broad git checkout restoration is blocked"
message broad_restore = "broad git restore is blocked"
message forced_clean = "destructive git clean is blocked"
message mirror_push = "mirror push is blocked"
message broad_force_push = "broad force-push is blocked"
message (force_push_to branch) = "force-push to " <> (branch <> " is blocked")
message broad_deletion = "broad recursive deletion is blocked"
message printed_secret = "printing local secret files is blocked"
message dropped_table = "destructive database command is blocked"
message invalid_input = "invalid PreToolUse input is blocked"
message malformed_command = "malformed shell command is blocked"
message unresolved_cwd = "destructive command after unresolved cd is blocked"
