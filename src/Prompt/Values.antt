-- ===== src/Prompt/Values.antt =====
-- src/secret-prompt.js: what a prompt resolves to is made of an answer that was given.
use kb_graph.Base.{Bool, Option, none, some, Text, ◌≡◌, All}
use kb_graph.Prompt.{
  Outcome, resolved, rejected, Prompt, Event, write, answer, immediate, readline_error,
  readline_close, sigint, output_error, output_close, output_end, value_of,
}

-- The outcome is a failure, is still to come, or is the value of a text with the property.
abbrev IsToldBy : (Text → Type 0) → Bool → Text → Option Outcome → Type 0
IsToldBy P trims default none = Unit
IsToldBy P trims default (some (rejected why)) = Unit
IsToldBy P trims default (some (resolved v)) = (t : Text) × P t × (v ≡ value_of trims default t)

-- An answer that has the property may come; anything else may always come.
abbrev MayCome : (Text → Type 0) → Event → Type 0
MayCome P (answer t) = P t
MayCome P (write value) = Unit
MayCome P immediate = Unit
MayCome P readline_error = Unit
MayCome P readline_close = Unit
MayCome P sigint = Unit
MayCome P output_error = Unit
MayCome P output_end = Unit
MayCome P output_close = Unit

module _ (P : Text → Type 0) (trims : Bool) (default : Text) where
  -- The waiting answers have the property, and so has the one that the outcome is made of.
  abbrev IsTold : Prompt → Type 0
  IsTold s = All P s.queued × IsToldBy P trims default s.outcome
