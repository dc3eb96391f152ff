-- ===== src/Prompt/Tests.antt =====
-- src/secret-prompt.js: a secret is typed, with the echo of readline.
use kb_graph.Base.{false, true, List, [], ◌∷◌, ◌++◌, codes, ◌≡◌}
use kb_graph.Prompt.{Event, write, answer, immediate, sigint, is_settled, ask_hidden, run}
use kb_graph.Prompt.Echo.{IsGuarded, run-IsGuarded}
use kb_graph.Prompt.Answers.{run-settles}

-- The echo of two units, the line end, and the answer.
abbrev typed : List Event
typed =
    write (codes "s") ∷ write (codes "k") ∷ write (10 ∷ []) ∷ answer (codes " sk ") ∷ immediate ∷ []

run-IsGuarded_example : IsGuarded (run true [] typed (ask_hidden false))
run-IsGuarded_example = run-IsGuarded false true [] typed

run-settles_example :
    is_settled
      (run true []
        ((write (codes "s") ∷ []) ++ (answer (codes "s") ∷ ([] ++ (immediate ∷ sigint ∷ []))))
        (ask_hidden false)).outcome
    ≡ true
run-settles_example =
    run-settles false true [] (codes "s") (write (codes "s") ∷ []) [] (sigint ∷ [])
