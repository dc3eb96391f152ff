-- ===== src/Prompt/Echo.antt =====
-- src/secret-prompt.js: nothing of the secret is shown, and the output is given back.
use kb_graph.Base.{
  Bool, true, false, List, [], ◌∷◌, Option, none, some, Text, ◌≡◌, refl, ap, ◌∙◌, arith, Empty,
}
use kb_graph.Prompt.{
  Outcome, Failure, canceled, prompt_closed, prompt_output_closed, Listeners, none_set, Prompt,
  Event, write, answer, immediate, readline_error, readline_close, sigint, output_error,
  output_close, output_end, restore_output, is_settled, reject_prompt, ask_hidden, is_line_end,
  show, write_hidden_prompt_output, settle_answer, run_immediate, on_readline_error, on_close,
  fired, step, run,
}

-- What reached the terminal: nothing, or one line end.
abbrev pub IsMute : Bool → List Text → Type 0
IsMute ended [] = Unit
IsMute ended (t ∷ []) = (is_line_end t ≡ true) × (ended ≡ true)
IsMute ended (t ∷ u ∷ ts) = Empty

-- Until it is settled the prompt hides what is typed; from then on the output is as it was before,
-- and no listener is left.
abbrev pub Guard : Option Outcome → Bool → Bool → Listeners → Bool → List Text → Type 0
Guard none hidden muted listeners ended shown =
    (hidden ≡ true) × (muted ≡ true) × IsMute ended shown
Guard (some o) hidden muted listeners ended shown =
    (hidden ≡ false) × (muted ≡ false) × (listeners ≡ none_set)

abbrev pub IsGuarded : Prompt → Type 0
IsGuarded s = Guard s.outcome s.hidden s.muted s.listeners s.line_terminated s.shown

reject_prompt-IsGuarded :
    (why : Failure) (close : Bool) (s : Prompt)
    → IsGuarded s
    → IsGuarded (reject_prompt why close s)
unfolding reject_prompt restore_output is_settled
reject_prompt-IsGuarded why close s h = go s.outcome refl h
  where
    go :
        (o : Option Outcome)
        → o ≡ s.outcome
        → Guard o s.hidden s.muted s.listeners s.line_terminated s.shown
        → IsGuarded (reject_prompt why close s)
    go none e h = ground arith
    go (some o) e h = ground arith

write-IsGuarded :
    (value : Text) (s : Prompt) → IsGuarded s → IsGuarded (write_hidden_prompt_output value s)
unfolding write_hidden_prompt_output show
write-IsGuarded value s h = go s.outcome refl h
  where
    go :
        (o : Option Outcome)
        → o ≡ s.outcome
        → Guard o s.hidden s.muted s.listeners s.line_terminated s.shown
        → IsGuarded (write_hidden_prompt_output value s)
    go none e h = ground arith
    go (some o) e h = ground arith

settle_answer-IsGuarded :
    (trims : Bool) (default t : Text) (s : Prompt)
    → IsGuarded s
    → IsGuarded (settle_answer trims default t s)
unfolding settle_answer restore_output is_settled
settle_answer-IsGuarded trims default t s h = go s.outcome refl h
  where
    go :
        (o : Option Outcome)
        → o ≡ s.outcome
        → Guard o s.hidden s.muted s.listeners s.line_terminated s.shown
        → IsGuarded (settle_answer trims default t s)
    go none e h = ground (arith, reject_prompt-IsGuarded prompt_output_closed true s)
    go (some o) e h = ground arith

run_immediate-IsGuarded :
    (trims : Bool) (default : Text) (ts : List Text) (s : Prompt)
    → IsGuarded s
    → IsGuarded (run_immediate trims default ts s)
unfolding run_immediate
run_immediate-IsGuarded trims default [] s h = h
run_immediate-IsGuarded trims default (t ∷ ts) s h =
    settle_answer-IsGuarded trims default t (record s { queued = ts }) h

-- A listener that keeps the prompt guarded keeps it so when it fires or is gone.
fired-IsGuarded :
    (b : Bool) (listener : Prompt → Prompt) (s : Prompt)
    → ((u : Prompt) → IsGuarded u → IsGuarded (listener u))
    → IsGuarded s
    → IsGuarded (fired b listener s)
fired-IsGuarded true listener s keeps h = keeps s h
fired-IsGuarded false listener s keeps h = h

-- Setting fewer listeners keeps the prompt guarded.
fewer-IsGuarded :
    (f : Listeners → Listeners) (s : Prompt)
    → f none_set ≡ none_set
    → IsGuarded s
    → IsGuarded (record s { listeners = f s.listeners })
fewer-IsGuarded f s e h = go s.outcome h
  where
    go :
        (o : Option Outcome)
        → Guard o s.hidden s.muted s.listeners s.line_terminated s.shown
        → Guard o s.hidden s.muted (f s.listeners) s.line_terminated s.shown
    go none h = h
    go (some o) h = (h.0, h.1, ap f h.2 ∙ e)

on_readline_error-IsGuarded : (s : Prompt) → IsGuarded s → IsGuarded (on_readline_error s)
unfolding on_readline_error
on_readline_error-IsGuarded s h = ground (arith, reject_prompt-IsGuarded readline_error true s h)

on_close-IsGuarded : (s : Prompt) → IsGuarded s → IsGuarded (on_close s)
unfolding on_close
on_close-IsGuarded s h = ground (arith, reject_prompt-IsGuarded prompt_closed false s h)

step-IsGuarded :
    (trims : Bool) (default : Text) (e : Event) (s : Prompt)
    → IsGuarded s
    → IsGuarded (step trims default e s)
unfolding step
step-IsGuarded trims default (write value) s h = write-IsGuarded value s h
step-IsGuarded trims default (answer t) s h = h
step-IsGuarded trims default immediate s h = run_immediate-IsGuarded trims default s.queued s h
step-IsGuarded trims default readline_error s h =
    fired-IsGuarded s.listeners.error on_readline_error _ on_readline_error-IsGuarded
      (fewer-IsGuarded (λ l. record l { error = false }) s refl h)
step-IsGuarded trims default readline_close s h =
    fired-IsGuarded s.listeners.close on_close _ on_close-IsGuarded
      (fewer-IsGuarded (λ l. record l { close = false }) s refl h)
step-IsGuarded trims default sigint s h =
    fired-IsGuarded s.listeners.sigint (reject_prompt canceled true) _
      (reject_prompt-IsGuarded canceled true)
      (fewer-IsGuarded (λ l. record l { sigint = false }) s refl h)
step-IsGuarded trims default output_error s h =
    fired-IsGuarded s.listeners.output_error (reject_prompt output_error true) _
      (reject_prompt-IsGuarded output_error true)
      (fewer-IsGuarded (λ l. record l { output_error = false }) s refl h)
step-IsGuarded trims default output_end s h = h
step-IsGuarded trims default output_close s h =
    fired-IsGuarded s.listeners.output_close (reject_prompt prompt_output_closed true) _
      (reject_prompt-IsGuarded prompt_output_closed true)
      (fewer-IsGuarded (λ l. record l { output_close = false }) s refl h)

run-keeps :
    (trims : Bool) (default : Text) (es : List Event) (s : Prompt)
    → IsGuarded s
    → IsGuarded (run trims default es s)
unfolding run
run-keeps trims default [] s h = h
run-keeps trims default (e ∷ es) s h =
    run-keeps trims default es (step trims default e s) (step-IsGuarded trims default e s h)

-- Whatever happens after the prompt is asked, a `question` that throws included: until the prompt is
-- settled its output stays replaced and muted and at most one text has reached the terminal, a line
-- end; once it is settled the output is as it was before and no listener is left.
pub run-IsGuarded :
    (throws trims : Bool) (default : Text) (es : List Event)
    → IsGuarded (run trims default es (ask_hidden throws))
unfolding ask_hidden reject_prompt restore_output is_settled
run-IsGuarded true trims default es =
    run-keeps trims default es (ask_hidden true) (refl, refl, refl)
run-IsGuarded false trims default es =
    run-keeps trims default es (ask_hidden false) (refl, refl, tt)
