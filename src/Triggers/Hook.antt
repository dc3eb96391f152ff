-- ===== src/Triggers/Hook.antt =====
-- src/cli/trigger-hook.js: the decision about a command, and the marker of what a session was warned of.
pub mod Denial
pub mod Marker
pub mod Session
use kb_graph.Base.{
  ℕ, Bool, true, false, not, ◌&&◌, ◌||◌, ltb, List, [], ◌∷◌, ◌++◌, Option, none, some,
  if◌then◌else◌, Text, codes, text_eq, find, length, map,
}
use kb_graph.Facts.Dates.{or_null}
use kb_graph.Triggers.Sweep.{TriggerFile, after_sweep}
use kb_graph.Triggers.Match.{Entry, Fired, match_command, has_id}

abbrev pub max_session_warnings : ℕ
max_session_warnings = 2

-- The fields of a hook's input that count here; `stem` is the base name of the transcript's path.
pub record ToolCall : Type 0 where
  pub tool_name : Text
  pub command : Option Text
  pub session_id : Option Text
  pub transcript_stem : Option Text

unfoldable pub resolve_session : Option Text → Option Text → Text
resolve_session (some (c ∷ cs)) stem = c ∷ cs
resolve_session _ (some (c ∷ cs)) = c ∷ cs
resolve_session _ _ = codes "unknown"

pub data Mode : Type 0 where
  inline pointer : Mode

-- What the line of the log says of the decision.
pub record LogLine : Type 0 where
  pub session : Text
  pub matched : List Fired
  pub emitted : Bool
  pub blocked : Bool
  pub mode : Option Mode

-- `chosen` is the match that the message is built from.
pub record Decision : Type 0 where
  pub session : Text
  pub log_line : LogLine
  pub emit : Bool
  pub block : Bool
  pub chosen : Option Fired
  pub fired_id : Option ℕ

abbrev pub first : List Fired → Option Fired
first [] = none
first (f ∷ fs) = some f

abbrev pub is_given {ℓ} : {A : Type ℓ} → Option A → Bool
is_given none = false
is_given (some a) = true

unfoldable pub mode_of : Option Fired → Option Mode
mode_of none = none
mode_of (some f) = elim f.excerpt [ none ↦ some pointer | some t ↦ some inline ]

abbrev pub id_of : Option Fired → Option ℕ
id_of none = none
id_of (some f) = some f.id

-- A match that blocks is chosen before all; else an advisory one, while the session has warnings left.
unfoldable pub decide : Text → List Fired → List ℕ → Bool → Decision
decide session matches fired enabled =
    let blocker = find (λ (m : Fired). m.block) matches in
    let block = is_given blocker in
    let emit =
      block || (is_given (first matches) && (enabled && ltb (length fired) max_session_warnings)) in
    let chosen = if block then blocker else if emit then first matches else none in
    record {
      session = session;
      log_line = record {
        session = session;
        matched = matches;
        emitted = emit;
        blocked = block;
        mode = if emit then mode_of chosen else none;
      };
      emit = emit;
      block = block;
      chosen = chosen;
      fired_id = if block then none else id_of chosen;
    }

unfoldable pub decide_command : Text → Option Text → List Entry → List ℕ → Bool → Option Decision
decide_command session none index fired enabled = none
decide_command session (some command) index fired enabled =
    some (decide session (match_command command index fired) fired enabled)

unfoldable pub decide_and_record : ToolCall → List Entry → List ℕ → Bool → Option Decision
decide_and_record call index fired enabled =
    if text_eq call.tool_name (codes "Bash")
    then decide_command (resolve_session call.session_id call.transcript_stem)
        (or_null call.command) index fired enabled
    else none

-- What the disk does when a warning is written: the listing of the triggers' directory, whether that
-- directory can be made, and whether the marker can be written.
pub record Disk : Type 0 where
  pub listing : Option (List TriggerFile)
  pub made : Bool
  pub writes : Bool

-- From `mkdirSync` on: the marker afterwards, and whether the id is in it.
unfoldable pub write_marker : Disk → List ℕ → ℕ → List ℕ × Bool
write_marker disk current id =
    if disk.made && has_id current id
    then (current, true)
    else if disk.made && disk.writes
    then (current ++ (id ∷ []), true)
    else (current, false)

-- `appendMarker`: the sweep may take the session's own marker away before it is read again.
unfoldable pub append_marker : Disk → Text → List ℕ → ℕ → List ℕ × Bool
append_marker disk session marker id =
    write_marker disk (after_sweep session disk.listing marker) id

-- What the hook prints.
pub data Output : Type 0 where
  silent : Output
  warning : Fired → Output
  denial : Fired → Output

abbrev pub output_of : Bool → Option Fired → Output
output_of block none = silent
output_of true (some f) = denial f
output_of false (some f) = warning f

unfoldable pub deliver_marked : List ℕ × Bool → Output → List ℕ × Output
deliver_marked (marker, true) output = (marker, output)
deliver_marked (marker, false) output = (marker, silent)

unfoldable pub deliver : Disk → Text → List ℕ → Bool → Option ℕ → Output → List ℕ × Output
deliver disk session marker false id output = (marker, silent)
deliver disk session marker true none output = (marker, output)
deliver disk session marker true (some id) output =
    deliver_marked (append_marker disk session marker id) output

unfoldable pub deliver_decision : Disk → List ℕ → Option Decision → List ℕ × Output
deliver_decision disk marker none = (marker, silent)
deliver_decision disk marker (some d) =
    deliver disk d.session marker d.emit d.fired_id (output_of d.block d.chosen)

-- `computeTriggerHook` with `commit`, on the session's marker.
unfoldable pub compute_trigger_hook : ToolCall → List Entry → List ℕ → Bool → Disk → List ℕ × Output
compute_trigger_hook call index marker enabled disk =
    deliver_decision disk marker (decide_and_record call index marker enabled)
