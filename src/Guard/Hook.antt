-- ===== src/Guard/Hook.antt =====
-- `read_command`, `emit_denial` and `main` of scripts/agent/pre_tool_policy.py.
use gas_station.Base.{ℕ, String, Bool, false, Option, none, some, ◌==◌, if◌then◌else◌, strip}
use gas_station.Guard.Host.{Host}
use gas_station.Guard.Reason.{Reason, invalid_input, message}
use gas_station.Guard.Denial.{denial_reason}

-- The values of `json.loads`, with the parts that the hook tells apart.
mutual
  pub data Json : Type 0 where
    other : Json
    text : String → Json
    object : Fields → Json

  pub data Fields : Type 0 where
    end : Fields
    field : String → Json → Fields → Fields

-- `payload.get(key)`, for a dictionary that holds no key twice
unfoldable pub lookup : String → Fields → Option Json
lookup key end = none
lookup key (field k v fs) = if k == key then some v else lookup key fs

-- The process of the hook: its standard input, the variables it reads and its directory.
pub record Process : Type 0 where
  pub stdin : String
  -- `os.environ.get("CLAUDE_TOOL_INPUT", "")`
  pub tool_input : String
  -- `os.environ.get("GASSTATION_HOOK_SURFACE")`
  pub surface : Option String
  -- `os.getcwd()`
  pub directory : String
  -- `json.loads`, `none` for a `JSONDecodeError`
  pub loads : String → Option Json

-- The command, or an input error, and the directory.
pub record Request : Type 0 where
  pub command : Option String
  pub cwd : String
  pub error : Option Reason

abbrev rejected : String → Request
rejected cwd = record { command = none; cwd = cwd; error = some invalid_input }

abbrev or_field : Option Json → Option Json → Option Json
or_field none v = v
or_field (some v) w = some v

abbrev command_of : Option Json → String → Request
command_of (some (text command)) cwd = record { command = some command; cwd = cwd; error = none }
command_of _ cwd = rejected cwd

abbrev of_tool_input : Option Json → String → Request
of_tool_input (some (object fields)) cwd = command_of (lookup "command" fields) cwd
of_tool_input _ cwd = rejected cwd

module _ (host : Host) where
  abbrev payload_cwd : Option Json → String → String
  payload_cwd (some (text cwd)) process_cwd =
      if host.is_dir cwd then host.realpath cwd else process_cwd
  payload_cwd _ process_cwd = process_cwd

  -- The key is "tool_input", or "toolInput" where that is missing.
  abbrev of_payload : Option Json → String → Request
  of_payload (some (object fields)) process_cwd =
      of_tool_input (or_field (lookup "tool_input" fields) (lookup "toolInput" fields))
        (payload_cwd (lookup "cwd" fields) process_cwd)
  of_payload _ process_cwd = rejected process_cwd

  abbrev raw_input : Process → String
  raw_input p = if strip p.stdin == "" then strip p.tool_input else strip p.stdin

  unfoldable pub read_command : Process → Request
  unfolding lookup strip
  read_command p =
      let process_cwd = host.realpath p.directory in
      if raw_input p == ""
      then rejected process_cwd
      else of_payload (p.loads (raw_input p)) process_cwd

-- What the hook leaves behind: a reason on the error stream with status 2, the JSON decision with
-- the reason on the output with status 0, or nothing with status 0.
pub data Outcome : Type 0 where
  allowed : Outcome
  denied_json denied_stderr : String → Outcome

unfoldable pub status : Outcome → ℕ
status (denied_stderr reason) = 2
status _ = 0

abbrev is_claude : Option String → Bool
is_claude none = false
is_claude (some surface) = surface == "claude"

unfoldable pub emit_denial : Process → Reason → Outcome
unfolding message
emit_denial p reason =
    if is_claude p.surface then denied_stderr (message reason) else denied_json (message reason)

abbrev emit_reason : Process → Option Reason → Outcome
emit_reason p none = allowed
emit_reason p (some reason) = emit_denial p reason

abbrev or_empty : Option String → String
or_empty none = ""
or_empty (some s) = s

unfoldable pub main : Host → Process → Outcome
unfolding read_command denial_reason emit_denial
main host p =
    let request = read_command host p in
    elim request.error [
      | some reason ↦ emit_denial p reason
      | none ↦ emit_reason p (denial_reason host (or_empty request.command) request.cwd 0)
    ]
