-- ===== src/Reconcile/Sources.antt =====
-- src/reconciliation.js: the transcripts that harvest sources name.
use kb_graph.Base.{
  ℕ, Bool, not, ◌&&◌, ◌||◌, leb, ◌==◌, List, [], ◌∷◌, Option, none, some, if◌then◌else◌, Text,
  codes, starts_with, drop, length, all, Dict, lookup, put,
}
use kb_graph.Tiers.Sources.{harvest_source_prefix, is_word, ends_with}

pub data Resolved : Type 0 where
  absent : Resolved
  unsupported_source : Text → Resolved
  invalid_session_id : Text → Resolved
  no_transcript : Text → Resolved
  missing_source : Text → Text → Resolved
  resolved_source : Text → Text → Resolved

-- `[A-Za-z0-9._-]`
unfoldable pub is_session_unit : ℕ → Bool
is_session_unit c = is_word c || ((c == b'.') || (c == b'-'))

-- `/^[A-Za-z0-9._-]{1,200}$/`
unfoldable pub is_session_id : Text → Bool
is_session_id id = all is_session_unit id && (leb 1 (length id) && leb (length id) 200)

-- The paths by session; `basename` is the one of the file system, without the extension.
unfoldable pub harvest_sources : (Text → Text) → List Text → Dict Text → Dict Text
harvest_sources basename [] out = out
harvest_sources basename (path ∷ paths) out =
    let with_path = harvest_sources basename paths (put (basename path) path out) in
    let without = harvest_sources basename paths out in
    if ends_with (codes ".jsonl") path then with_path else without

unfoldable pub on_disk : (Text → Bool) → Text → Option Text → Resolved
on_disk exists source none = no_transcript source
on_disk exists source (some []) = no_transcript source
on_disk exists source (some (c ∷ cs)) =
    if exists (c ∷ cs) then resolved_source source (c ∷ cs) else missing_source source (c ∷ cs)

unfoldable pub resolve_given : (Text → Bool) → Dict Text → Text → Resolved
resolve_given exists paths source =
    let session = drop (length harvest_source_prefix) source in
    if not (starts_with harvest_source_prefix source)
    then unsupported_source source
    else if not (is_session_id session)
    then invalid_session_id source
    else on_disk exists source (lookup session paths)

unfoldable pub resolve_harvest_source : (Text → Bool) → Dict Text → Option Text → Resolved
resolve_harvest_source exists paths none = absent
resolve_harvest_source exists paths (some []) = absent
resolve_harvest_source exists paths (some (c ∷ cs)) = resolve_given exists paths (c ∷ cs)
