-- ===== src/Triggers/Hook/Denial.antt =====
-- src/cli/trigger-hook.js: a matching policy denies the command, every time.
use kb_graph.Base.{
  ℕ, Bool, true, List, some, Text, codes, text_eq, find, find_of_any, test_of_find, any_of_In, ◌≡◌,
  refl, inl, In, ◌∙◌,
}
use kb_graph.Facts.Dates.{or_null}
use kb_graph.Triggers.Command.{command_segments}
use kb_graph.Triggers.Match.{Pattern, Entry, Fired, pattern_fires, match_command}
use kb_graph.Triggers.Match.Policy.{match_command_fires}
use kb_graph.Triggers.Hook.{
  ToolCall, Disk, decide, decide_command, decide_and_record, resolve_session, denial, deliver,
  deliver_decision, compute_trigger_hook,
}

pub decide_denies :
    (session : Text) (matches : List Fired) (fired : List ℕ) (enabled : Bool) (disk : Disk)
    (f : Fired)
    → find (λ (m : Fired). m.block) matches ≡ some f
    → deliver_decision disk fired (some (decide session matches fired enabled)) ≡ (fired, denial f)
unfolding deliver_decision decide deliver
decide_denies session matches fired enabled disk f h = rw h refl

pub compute_some :
    (call : ToolCall) (index : List Entry) (marker : List ℕ) (enabled : Bool) (disk : Disk)
    (command : Text)
    → text_eq call.tool_name (codes "Bash") ≡ true
    → or_null call.command ≡ some command
    → compute_trigger_hook call index marker enabled disk
      ≡ deliver_decision disk marker (
          some (
            decide
              (resolve_session call.session_id call.transcript_stem)
              (match_command command index marker)
              marker
              enabled))
unfolding compute_trigger_hook decide_and_record decide_command
compute_some call index marker enabled disk command bash given = rw (bash, given) refl

-- A command that matches a pattern of a blocking entry is denied, with a blocking match for the
-- message, whatever the session was warned of before, whether warnings are enabled or not and
-- whether the disk takes writes or not; and the denial uses up no warning.
pub compute_trigger_hook_denies :
    (call : ToolCall) (index : List Entry) (marker : List ℕ) (enabled : Bool) (disk : Disk)
    (command : Text) (e : Entry) (p : Pattern)
    → text_eq call.tool_name (codes "Bash") ≡ true
    → or_null call.command ≡ some command
    → In e index
    → e.block ≡ true
    → In p e.patterns
    → pattern_fires (command_segments command) p ≡ true
    → (f : Fired) × (f.block ≡ true)
      × In f (match_command command index marker)
      × (compute_trigger_hook call index marker enabled disk ≡ (marker, denial f))
compute_trigger_hook_denies call index marker enabled disk command e p bash given m blocks k fires =
    let matches = match_command command index marker in
    let (g, g_in, g_id, g_blocks, g_hits) =
      match_command_fires command index marker e p m k fires (inl blocks) in
    let (f, found) =
      find_of_any (λ (x : Fired). x.block) matches
        (any_of_In (λ (x : Fired). x.block) g matches g_in (g_blocks ∙ blocks)) in
    let (f_blocks, f_in) = test_of_find (λ (x : Fired). x.block) matches f found in
    (
      f,
      f_blocks,
      f_in,
      compute_some call index marker enabled disk command bash given
          ∙ decide_denies (resolve_session call.session_id call.transcript_stem) matches marker
              enabled disk f found,
    )
