-- ===== src/Prompt.antt =====
-- src/secret-prompt.js: a prompt for a secret as a state machine. The events are what readline and
-- its output report, and the writes that readline makes to echo.
pub mod Echo
pub mod Answers
pub mod Values
mod Tests
pub mod Settling
use kb_graph.Base.{
  ℕ, Bool, true, false, not, ◌&&◌, ◌||◌, ◌==◌, List, [], ◌∷◌, ◌++◌, Option, none, some,
  if◌then◌else◌, Text, all, trim,
}

-- What readline and its output offer, and whether they are closed.
pub record Readline : Type 0 where
  pub writes : Bool
  pub asks : Bool
  pub listens : Bool
  pub closes : Bool
  pub closed : Bool
  pub output_listens : Bool
  pub destroyed : Bool
  pub output_closed : Bool
  pub ended : Bool

pub data Failure : Type 0 where
  muting_unavailable input_unavailable output_unavailable output_is_closed : Failure
  question_throws readline_error output_error : Failure
  prompt_closed prompt_output_closed canceled : Failure

unfoldable pub is_output_closed : Readline → Bool
is_output_closed rl = rl.destroyed || (rl.output_closed || rl.ended)

unfoldable pub validate_readline : Readline → Option Failure
validate_readline rl =
    if not rl.writes
    then some muting_unavailable
    else if not (rl.asks && (rl.listens && rl.closes)) || rl.closed
    then some input_unavailable
    else if not rl.output_listens
    then some output_unavailable
    else if is_output_closed rl
    then some output_is_closed
    else none

pub data Outcome : Type 0 where
  resolved : Text → Outcome
  rejected : Failure → Outcome

-- The listeners that are still set; each goes when it fires.
pub record Listeners : Type 0 where
  pub error : Bool
  pub close : Bool
  pub sigint : Bool
  pub output_error : Bool
  pub output_close : Bool

abbrev pub all_set : Listeners
all_set = record {
  error = true;
  close = true;
  sigint = true;
  output_error = true;
  output_close = true;
}

abbrev pub none_set : Listeners
none_set = record {
  error = false;
  close = false;
  sigint = false;
  output_error = false;
  output_close = false;
}

-- `hidden` says that the write of readline is still replaced; `queued` are the answers whose
-- `setImmediate` has not run; `shown` is what reached the terminal since the prompt, the last first.
pub record Prompt : Type 0 where
  pub hidden : Bool
  pub muted : Bool
  pub line_terminated : Bool
  pub answered : Bool
  pub queued : List Text
  pub outcome : Option Outcome
  pub listeners : Listeners
  pub output_closed : Bool
  pub readline_closed : Bool
  pub shown : List Text

pub data Event : Type 0 where
  write : Text → Event
  answer : Text → Event
  immediate readline_error readline_close sigint output_error output_close : Event
  -- The output is destroyed or ended, and has not reported it.
  output_end : Event

unfoldable pub restore_output : Prompt → Prompt
restore_output s = record s { muted = false; hidden = false }

unfoldable pub is_settled : Option Outcome → Bool
is_settled none = false
is_settled (some o) = true

-- `rejectPrompt(error, { close })`
unfoldable pub reject_prompt : Failure → Bool → Prompt → Prompt
reject_prompt why close s =
    if is_settled s.outcome
    then s
    else restore_output (record s {
      outcome = some (rejected why);
      listeners = none_set;
      readline_closed = s.readline_closed || close;
    })

-- The state when `askHidden` returns its promise; `throws` says that `rl.question` throws.
unfoldable pub ask_hidden : Bool → Prompt
ask_hidden throws =
    let s : Prompt = record {
      hidden = true;
      muted = false;
      line_terminated = false;
      answered = false;
      queued = [];
      outcome = none;
      listeners = all_set;
      output_closed = false;
      readline_closed = false;
      shown = [];
    } in
    if throws then reject_prompt question_throws true s else record s { muted = true }

-- `/^[\r\n]+$/`
unfoldable pub is_line_end : Text → Bool
is_line_end [] = false
is_line_end (c ∷ cs) = all (λ d. d == 13 || d == 10) (c ∷ cs)

unfoldable pub show : Text → Prompt → Prompt
show value s = record s { shown = value ∷ s.shown }

unfoldable pub write_hidden_prompt_output : Text → Prompt → Prompt
write_hidden_prompt_output value s =
    if not s.hidden || not s.muted
    then show value s
    else if not s.line_terminated && is_line_end value
    then show value (record s { line_terminated = true })
    else s

-- `value || defaultValue`
unfoldable pub or_value : Text → Text → Text
or_value [] default = default
or_value (c ∷ cs) default = c ∷ cs

unfoldable pub value_of : Bool → Text → Text → Text
value_of trims default t = or_value (if trims then trim t else t) default

unfoldable pub settle_answer : Bool → Text → Text → Prompt → Prompt
settle_answer trims default t s =
    if is_settled s.outcome
    then s
    else if s.output_closed
    then reject_prompt prompt_output_closed true s
    else record (restore_output s) {
      outcome = some (resolved (value_of trims default t));
      listeners = none_set;
    }

unfoldable pub run_immediate : Bool → Text → List Text → Prompt → Prompt
run_immediate trims default [] s = s
run_immediate trims default (t ∷ ts) s = settle_answer trims default t (record s { queued = ts })

unfoldable pub on_readline_error : Prompt → Prompt
on_readline_error s = if not s.answered then reject_prompt readline_error true s else s

unfoldable pub on_close : Prompt → Prompt
on_close s = if not s.answered then reject_prompt prompt_closed false s else s

abbrev pub fired : Bool → (Prompt → Prompt) → Prompt → Prompt
fired true listener s = listener s
fired false listener s = s

unfoldable pub step : Bool → Text → Event → Prompt → Prompt
step trims default (write value) s = write_hidden_prompt_output value s
step trims default (answer t) s = record s { answered = true; queued = s.queued ++ (t ∷ []) }
step trims default immediate s = run_immediate trims default s.queued s
step trims default readline_error s =
    fired s.listeners.error on_readline_error
      (record s { listeners = record s.listeners { error = false } })
step trims default readline_close s =
    fired s.listeners.close on_close
      (record s { listeners = record s.listeners { close = false }; readline_closed = true })
step trims default sigint s =
    fired s.listeners.sigint (reject_prompt canceled true)
      (record s { listeners = record s.listeners { sigint = false } })
step trims default output_error s =
    fired s.listeners.output_error (reject_prompt output_error true)
      (record s { listeners = record s.listeners { output_error = false } })
step trims default output_end s = record s { output_closed = true }
step trims default output_close s =
    fired s.listeners.output_close (reject_prompt prompt_output_closed true)
      (record s { listeners = record s.listeners { output_close = false }; output_closed = true })

unfoldable pub run : Bool → Text → List Event → Prompt → Prompt
run trims default [] s = s
run trims default (e ∷ es) s = run trims default es (step trims default e s)
