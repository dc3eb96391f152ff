-- ===== src/Triggers/Hook/Session.antt =====
-- src/cli/trigger-hook.js: what a session is warned of, over all its commands.
use kb_graph.Base.{ℕ, Bool, ◌&&◌, ltb, List, [], ◌∷◌, ◌++◌, Text, length}
use kb_graph.Triggers.Match.{Entry}
use kb_graph.Triggers.Hook.{
  ToolCall, Disk, max_session_warnings, resolve_session, compute_trigger_hook,
}
use kb_graph.Triggers.Hook.Marker.{warned_of}

-- A command of a session, with the state of the flag and of the disk when its hook runs.
pub record Step : Type 0 where
  pub call : ToolCall
  pub enabled : Bool
  pub disk : Disk

-- The session's marker after its commands, and the ids it was warned of, in order.
unfoldable pub run_session : List Entry → List Step → List ℕ → List ℕ × List ℕ
run_session index [] marker = (marker, [])
run_session index (s ∷ steps) marker =
    let (marker', output) = compute_trigger_hook s.call index marker s.enabled s.disk in
    let rest = run_session index steps marker' in (rest.0, warned_of output ++ rest.1)

-- Whether the session may be warned.
abbrev has_room : List ℕ → Bool → Bool
has_room marker enabled = enabled && ltb (length marker) max_session_warnings

-- The session that a call belongs to.
abbrev pub session_of : ToolCall → Text
session_of call = resolve_session call.session_id call.transcript_stem
