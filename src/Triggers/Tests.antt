-- ===== src/Triggers/Tests.antt =====
-- src/trigger-match.js and src/cli/trigger-hook.js on a small index.
use kb_graph.Base.{
  find, List, ◌≤◌, true, false, [], ◌∷◌, none, some, Text, codes, ◌≡◌, refl, In, inl, ◌⊎◌, join,
  any, filter, trim, fold_spaces, to_lower, split_on, all, includes, put_front, take_while,
  drop_end, drop_while, is_space, keep_end, lower_unit, starts_with, text_dec, ℕ_discrete,
}
use kb_graph.Triggers.Split.{
  single_quote, quote_aware_split, chunks_of, scan, scan_unit, append, break_len, break_or_append,
  prev_non_space, read_unit, rest_of, segment_break_len, word_break_len,
}
use kb_graph.Triggers.Split.Words.{
  Piece, ordinary, escape, single, double, gap, bare, slashed, render, words,
  quote_aware_split-words,
}
use kb_graph.Triggers.Sweep.{
  after_sweep, sweep_old_trigger_files, sweep_files, sweep_file, sweep_aged, max_age,
}
use kb_graph.Triggers.Command.{
  command_segments, flatten, strip_heredocs, strip_lines, openers, opener_at, delimiter, drop_dash,
  drop_wrappers, env_assignment, is_wrapper, strip_wrappers, word_before,
}
use kb_graph.Triggers.Match.{
  fires_before, Pattern, Entry, Fired, pattern_fires, match_command, has_id, fired_of,
  fired_entries, put_fired, rarest_hits, is_spent, sort_fired, insert_fired, appears_as_token,
  part_appears, pattern_matches_segment,
}
use kb_graph.Triggers.Match.Policy.{match_command_fires, match_command_only}
use kb_graph.Triggers.Hook.{
  deliver_decision, decide_and_record, decide_command, deliver, decide, append_marker,
  deliver_marked, mode_of, resolve_session, write_marker, ToolCall, Disk, denial,
  compute_trigger_hook,
}
use kb_graph.Triggers.Hook.Denial.{compute_trigger_hook_denies}
use kb_graph.Triggers.Hook.Session.{run_session, Step}
use kb_graph.Predicates.Spelling.{ends_with}

-- The runs' definitions, under one name.
program : Unit {0}
unfolding run_session compute_trigger_hook deliver_decision decide_and_record text_dec
    decide_command deliver decide find match_command sort_fired fired_entries is_spent any put_fired
    rarest_hits pattern_fires all filter fold_spaces includes join put_front split_on take_while
    drop_end drop_while is_space keep_end lower_unit starts_with to_lower trim ends_with
    command_segments delimiter drop_dash drop_wrappers env_assignment flatten is_wrapper opener_at
    openers strip_heredocs strip_lines strip_wrappers word_before append_marker deliver_marked
    mode_of resolve_session write_marker appears_as_token fires_before insert_fired part_appears
    pattern_matches_segment append break_len break_or_append chunks_of prev_non_space
    quote_aware_split read_unit rest_of scan scan_unit segment_break_len word_break_len after_sweep
    max_age sweep_aged sweep_file sweep_files sweep_old_trigger_files ℕ_discrete
program = tt

abbrev push : Text
push = codes "git push"

abbrev push_pattern : Pattern
push_pattern = record { parts = codes "git push" ∷ []; hits = 3 }

abbrev push_policy : Entry
push_policy = record {
  id = 7;
  title = codes "no push";
  tier = none;
  block = true;
  excerpt = none;
  patterns = push_pattern ∷ [];
}

-- git 'a  b' "c \" '" e\ f
abbrev quoted_pieces : List Piece
quoted_pieces =
    ordinary b'g'
    ∷ gap
    ∷ single (codes "a  b")
    ∷ gap
    ∷ double (bare b'c' ∷ bare b' ' ∷ slashed b'"' ∷ bare b' ' ∷ bare single_quote ∷ [])
    ∷ gap
    ∷ ordinary b'e'
    ∷ escape b' '
    ∷ ordinary b'f'
    ∷ []

quote_aware_split-words_example :
    (join (b' ' ∷ []) (quote_aware_split (codes "it's a 'b c'") word_break_len)
      ≡ codes "it's a 'b c'")
    × (quote_aware_split (render quoted_pieces) word_break_len ≡ words quoted_pieces)
unfolding any
quote_aware_split-words_example = quote_aware_split-words (codes "it's a 'b c'") quoted_pieces (
  refl,
  (
    tt,
    (
      refl,
      (
        tt,
        (
          ((refl, refl), ((refl, refl), (tt, ((refl, refl), ((refl, refl), tt))))),
          (tt, (refl, (tt, (refl, tt)))),
        ),
      ),
    ),
  ),
)

four_words :
    words quoted_pieces ≡ codes "g" ∷ codes "'a  b'" ∷ codes "\"c \\\" '\"" ∷ codes "e\\ f" ∷ []
four_words = refl

push_fires : pattern_fires (command_segments push) push_pattern ≡ true
unfolding program
push_fires = refl

abbrev push_call : ToolCall
push_call = record {
  tool_name = codes "Bash";
  command = some push;
  session_id = some (codes "s");
  transcript_stem = none;
}

abbrev good_disk : Disk
good_disk = record { listing = some []; made = true; writes = true }

match_command_fires_example :
    (f : Fired) × In f (match_command push (push_policy ∷ []) [])
    × (f.id ≡ 7)
    × (f.block ≡ true)
    × (f.hits ≤ 3)
match_command_fires_example =
    match_command_fires push (push_policy ∷ []) [] push_policy push_pattern (inl refl) (inl refl)
      push_fires (inl refl)

push_match : (f : Fired) × In f (match_command push (push_policy ∷ []) [])
unfolding program
push_match = (fired_of push_policy 3, inl refl)

match_command_only_example :
    (e : Entry) × In e (push_policy ∷ [])
    × (push_match.0.id ≡ e.id)
    × (push_match.0.block ≡ e.block)
    × ((e.block ≡ true) ⊎ (has_id [] e.id ≡ false))
    × ((p : Pattern) × In p e.patterns
        × (pattern_fires (command_segments push) p ≡ true)
        × (p.hits ≡ push_match.0.hits))
match_command_only_example = match_command_only push (push_policy ∷ []) [] push_match.0 push_match.1

compute_trigger_hook_denies_example :
    (f : Fired) × (f.block ≡ true)
    × In f (match_command push (push_policy ∷ []) [])
    × (compute_trigger_hook push_call (push_policy ∷ []) [] true good_disk ≡ ([], denial f))
unfolding text_dec ℕ_discrete
compute_trigger_hook_denies_example =
    compute_trigger_hook_denies push_call (push_policy ∷ []) [] true good_disk push push_policy
      push_pattern refl refl (inl refl) refl (inl refl) push_fires

-- An advisory note on the same command.
abbrev push_note : Entry
push_note = record push_policy { id = 9; block = false }

abbrev push_step : Step
push_step = record { call = push_call; enabled = true; disk = good_disk }

-- The marker is eight days old when the hook writes it.
abbrev stale_step : Step
stale_step = record push_step {
  disk = record good_disk {
    listing = some (record { name = codes "s.json"; age = some 691200000; removable = true } ∷ []);
  };
}

-- One command: the note is warned of, and the marker names it behind what it named.
push_warns : run_session (push_note ∷ []) (push_step ∷ []) (4 ∷ []) ≡ (4 ∷ 9 ∷ [], 9 ∷ [])
unfolding program
push_warns = refl

-- With a stale marker the sweep takes what it named away first.
stale_warns : run_session (push_note ∷ []) (stale_step ∷ []) (4 ∷ []) ≡ (9 ∷ [], 9 ∷ [])
unfolding program
stale_warns = refl
