-- ===== src/Prompt/Settling.antt =====
-- src/secret-prompt.js: a prompt is settled once, by an answer or by the first failure.
use kb_graph.Base.{
  Bool, true, false, List, [], ◌∷◌, ◌++◌, some, Text, ◌≡◌, refl, inl, inr, arith, Option-cases,
}
use kb_graph.Prompt.{
  Outcome, Failure, canceled, prompt_closed, prompt_output_closed, Prompt, Event, write, answer,
  immediate, readline_error, readline_close, sigint, output_error, output_close, output_end,
  restore_output, is_settled, reject_prompt, show, write_hidden_prompt_output, settle_answer,
  run_immediate, on_readline_error, on_close, fired, step, run,
}

-- The listeners leave the outcome of a settled prompt.
fired-kept :
    (b : Bool) (listener : Prompt → Prompt) (s : Prompt) (o : Outcome)
    → ((u : Prompt) → u.outcome ≡ some o → (listener u).outcome ≡ some o)
    → s.outcome ≡ some o
    → (fired b listener s).outcome ≡ some o
fired-kept true listener s o keeps e = keeps s e
fired-kept false listener s o keeps e = e

reject_prompt-kept :
    (why : Failure) (close : Bool) (o : Outcome) (s : Prompt)
    → s.outcome ≡ some o
    → (reject_prompt why close s).outcome ≡ some o
unfolding reject_prompt is_settled
reject_prompt-kept why close o s e = ground arith

on_readline_error-kept :
    (o : Outcome) (s : Prompt) → s.outcome ≡ some o → (on_readline_error s).outcome ≡ some o
unfolding on_readline_error
on_readline_error-kept o s e = ground (arith, reject_prompt-kept readline_error true o s e)

on_close-kept : (o : Outcome) (s : Prompt) → s.outcome ≡ some o → (on_close s).outcome ≡ some o
unfolding on_close
on_close-kept o s e = ground (arith, reject_prompt-kept prompt_closed false o s e)

run_immediate-kept :
    (trims : Bool) (default : Text) (ts : List Text) (o : Outcome) (s : Prompt)
    → s.outcome ≡ some o
    → (run_immediate trims default ts s).outcome ≡ some o
unfolding run_immediate settle_answer is_settled
run_immediate-kept trims default [] o s e = e
run_immediate-kept trims default (t ∷ ts) o s e = ground arith

pub step-kept :
    (trims : Bool) (default : Text) (e : Event) (o : Outcome) (s : Prompt)
    → s.outcome ≡ some o
    → (step trims default e s).outcome ≡ some o
unfolding step write_hidden_prompt_output show
step-kept trims default (write value) o s h = ground arith
step-kept trims default (answer t) o s h = h
step-kept trims default immediate o s h = run_immediate-kept trims default s.queued o s h
step-kept trims default readline_error o s h =
    fired-kept s.listeners.error on_readline_error _ o (on_readline_error-kept o) h
step-kept trims default readline_close o s h =
    fired-kept s.listeners.close on_close _ o (on_close-kept o) h
step-kept trims default sigint o s h =
    fired-kept s.listeners.sigint (reject_prompt canceled true) _ o
      (reject_prompt-kept canceled true o) h
step-kept trims default output_error o s h =
    fired-kept s.listeners.output_error (reject_prompt output_error true) _ o
      (reject_prompt-kept output_error true o) h
step-kept trims default output_end o s h = h
step-kept trims default output_close o s h =
    fired-kept s.listeners.output_close (reject_prompt prompt_output_closed true) _ o
      (reject_prompt-kept prompt_output_closed true o) h

-- Once a prompt is settled, no later event changes its outcome.
pub run-kept :
    (trims : Bool) (default : Text) (es : List Event) (o : Outcome) (s : Prompt)
    → s.outcome ≡ some o
    → (run trims default es s).outcome ≡ some o
unfolding run
run-kept trims default [] o s h = h
run-kept trims default (e ∷ es) o s h =
    run-kept trims default es o (step trims default e s) (step-kept trims default e o s h)

pub settled-kept :
    (f : Prompt → Prompt) (s : Prompt)
    → ((o : Outcome) → s.outcome ≡ some o → (f s).outcome ≡ some o)
    → is_settled s.outcome ≡ true
    → is_settled (f s).outcome ≡ true
unfolding is_settled
settled-kept f s keeps h = elim (Option-cases s.outcome) [
  | inl e ↦ ground arith
  | inr (o, e) ↦ ground (arith, keeps o e)
]

-- Running an immediate settles a prompt that has an answer waiting.
pub immediate-settles :
    (trims : Bool) (default t : Text) (s : Prompt)
    → is_settled (settle_answer trims default t s).outcome ≡ true
unfolding settle_answer reject_prompt restore_output is_settled
immediate-settles trims default t s = elim (Option-cases s.outcome) [
  | inl e ↦ ground arith
  | inr (o, e) ↦ ground arith
]

reject_prompt-queued :
    (why : Failure) (close : Bool) (s : Prompt) → (reject_prompt why close s).queued ≡ s.queued
unfolding reject_prompt restore_output
reject_prompt-queued why close s = ground arith

on_readline_error-queued : (s : Prompt) → (on_readline_error s).queued ≡ s.queued
unfolding on_readline_error
on_readline_error-queued s = ground (arith, reject_prompt-queued readline_error true s)

on_close-queued : (s : Prompt) → (on_close s).queued ≡ s.queued
unfolding on_close
on_close-queued s = ground (arith, reject_prompt-queued prompt_closed false s)

fired-queued :
    (b : Bool) (listener : Prompt → Prompt) (s : Prompt)
    → ((u : Prompt) → (listener u).queued ≡ u.queued)
    → (fired b listener s).queued ≡ s.queued
fired-queued true listener s h = h s
fired-queued false listener s h = refl

settle_answer-queued :
    (trims : Bool) (default t : Text) (s : Prompt)
    → (settle_answer trims default t s).queued ≡ s.queued
unfolding settle_answer restore_output
settle_answer-queued trims default t s =
    ground (arith, reject_prompt-queued prompt_output_closed true s)

-- What an event makes of the answers that wait.
unfoldable pub queued_after : Event → List Text → List Text
queued_after (answer t) ts = ts ++ (t ∷ [])
queued_after immediate [] = []
queued_after immediate (t ∷ ts) = ts
queued_after (write value) ts = ts
queued_after readline_error ts = ts
queued_after readline_close ts = ts
queued_after sigint ts = ts
queued_after output_error ts = ts
queued_after output_end ts = ts
queued_after output_close ts = ts

run_immediate-queued :
    (trims : Bool) (default : Text) (ts : List Text) (s : Prompt)
    → s.queued ≡ ts
    → (run_immediate trims default ts s).queued ≡ queued_after immediate ts
unfolding run_immediate queued_after
run_immediate-queued trims default [] s e = e
run_immediate-queued trims default (t ∷ ts) s e =
    settle_answer-queued trims default t (record s { queued = ts })

pub step-queued :
    (trims : Bool) (default : Text) (e : Event) (s : Prompt)
    → (step trims default e s).queued ≡ queued_after e s.queued
unfolding step queued_after write_hidden_prompt_output show
step-queued trims default (write value) s = ground arith
step-queued trims default (answer t) s = refl
step-queued trims default immediate s = run_immediate-queued trims default s.queued s refl
step-queued trims default readline_error s =
    fired-queued s.listeners.error on_readline_error _ on_readline_error-queued
step-queued trims default readline_close s =
    fired-queued s.listeners.close on_close _ on_close-queued
step-queued trims default sigint s =
    fired-queued s.listeners.sigint (reject_prompt canceled true) _
      (reject_prompt-queued canceled true)
step-queued trims default output_error s =
    fired-queued s.listeners.output_error (reject_prompt output_error true) _
      (reject_prompt-queued output_error true)
step-queued trims default output_end s = refl
step-queued trims default output_close s =
    fired-queued s.listeners.output_close (reject_prompt prompt_output_closed true) _
      (reject_prompt-queued prompt_output_closed true)
