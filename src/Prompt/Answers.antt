-- ===== src/Prompt/Answers.antt =====
-- src/secret-prompt.js: an answer settles the prompt, and what it resolves to is an answer given.
use kb_graph.Base.{Bool, true, List, [], ◌∷◌, ◌++◌, Text, ◌≡◌, refl, ◌∙◌, ◌⊎◌, inl, inr}
use kb_graph.Prompt.{
  Prompt, Event, write, answer, immediate, readline_error, readline_close, sigint, output_error,
  output_close, output_end, is_settled, ask_hidden, run_immediate, step, run,
}
use kb_graph.Prompt.Settling.{step-kept, step-queued, queued_after, settled-kept, immediate-settles}

-- Settled, or with an answer to come.
abbrev IsAnswered : Prompt → Type 0
IsAnswered s = (is_settled s.outcome ≡ true) ⊎ ((t : Text) × (ts : List Text) × (s.queued ≡ t ∷ ts))

stays_settled :
    (trims : Bool) (default : Text) (e : Event) (s : Prompt)
    → is_settled s.outcome ≡ true
    → is_settled (step trims default e s).outcome ≡ true
stays_settled trims default e s =
    settled-kept (step trims default e) s (λ o. step-kept trims default e o s)

run-settled :
    (trims : Bool) (default : Text) (es : List Event) (s : Prompt)
    → is_settled s.outcome ≡ true
    → is_settled (run trims default es s).outcome ≡ true
unfolding run
run-settled trims default [] s h = h
run-settled trims default (e ∷ es) s h =
    run-settled trims default es (step trims default e s) (stays_settled trims default e s h)

run_immediate-settles :
    (trims : Bool) (default t : Text) (ts : List Text) (s : Prompt)
    → s.queued ≡ t ∷ ts
    → is_settled (step trims default immediate s).outcome ≡ true
unfolding step run_immediate
run_immediate-settles trims default t ts s e =
    rw (e, immediate-settles trims default t (record s { queued = ts })) refl

still_queued :
    (trims : Bool) (default : Text) (e : Event) (s : Prompt) (t : Text) (ts : List Text)
    → s.queued ≡ t ∷ ts
    → IsAnswered (step trims default e s)
unfolding queued_after
still_queued trims default immediate s t ts q = inl (run_immediate-settles trims default t ts s q)
still_queued trims default (answer u) s t ts q =
    inr (t, ts ++ (u ∷ []), rw (step-queued trims default (answer u) s, q) refl)
still_queued trims default (write u) s t ts q =
    inr (t, ts, rw (step-queued trims default (write u) s, q) refl)
still_queued trims default readline_error s t ts q =
    inr (t, ts, step-queued trims default readline_error s ∙ q)
still_queued trims default readline_close s t ts q =
    inr (t, ts, step-queued trims default readline_close s ∙ q)
still_queued trims default sigint s t ts q = inr (t, ts, step-queued trims default sigint s ∙ q)
still_queued trims default output_error s t ts q =
    inr (t, ts, step-queued trims default output_error s ∙ q)
still_queued trims default output_end s t ts q =
    inr (t, ts, step-queued trims default output_end s ∙ q)
still_queued trims default output_close s t ts q =
    inr (t, ts, step-queued trims default output_close s ∙ q)

step-IsAnswered :
    (trims : Bool) (default : Text) (e : Event) (s : Prompt)
    → IsAnswered s
    → IsAnswered (step trims default e s)
step-IsAnswered trims default e s (inl h) = inl (stays_settled trims default e s h)
step-IsAnswered trims default e s (inr (t, ts, q)) = still_queued trims default e s t ts q

run-IsAnswered :
    (trims : Bool) (default : Text) (es : List Event) (s : Prompt)
    → IsAnswered s
    → IsAnswered (run trims default es s)
unfolding run
run-IsAnswered trims default [] s h = h
run-IsAnswered trims default (e ∷ es) s h =
    run-IsAnswered trims default es (step trims default e s) (step-IsAnswered trims default e s h)

run-append :
    (trims : Bool) (default : Text) (es fs : List Event) (s : Prompt)
    → run trims default (es ++ fs) s ≡ run trims default fs (run trims default es s)
unfolding run
run-append trims default [] fs s = refl
run-append trims default (e ∷ es) fs s = run-append trims default es fs (step trims default e s)

immediate_settles :
    (trims : Bool) (default : Text) (s : Prompt)
    → IsAnswered s
    → is_settled (step trims default immediate s).outcome ≡ true
immediate_settles trims default s (inl h) = stays_settled trims default immediate s h
immediate_settles trims default s (inr (t, ts, q)) = run_immediate-settles trims default t ts s q

answer-IsAnswered :
    (trims : Bool) (default t : Text) (s : Prompt) → IsAnswered (step trims default (answer t) s)
unfolding step
answer-IsAnswered trims default t s = inr (go s.queued)
  where
    go : (ts : List Text) → (u : Text) × (us : List Text) × (ts ++ (t ∷ []) ≡ u ∷ us)
    go [] = (t, [], refl)
    go (u ∷ us) = (u, us ++ (t ∷ []), refl)

-- Once an answer is given and, at any later time, its `setImmediate` has run, the prompt is settled,
-- whatever else happens before, between and after.
pub run-settles :
    (throws trims : Bool) (default t : Text) (before between after : List Event)
    → is_settled
        (run trims default
          (before ++ (answer t ∷ (between ++ (immediate ∷ after))))
          (ask_hidden throws)).outcome
      ≡ true
unfolding run
run-settles throws trims default t before between after =
    let s = run trims default before (ask_hidden throws) in
    let a = step trims default (answer t) s in
    let b = run trims default between a in
    rw
      (
        run-append trims default before (answer t ∷ (between ++ (immediate ∷ after)))
            (ask_hidden throws),
        run-append trims default between (immediate ∷ after) a,
      )
      (run-settled trims default after (step trims default immediate b) (
        immediate_settles trims default b
          (run-IsAnswered trims default between a (answer-IsAnswered trims default t s))))
