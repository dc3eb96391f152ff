-- ===== src/Capture/Request.antt =====
-- src/session-capture.js: what a hook asks for. Times and modification times are numbers of
-- milliseconds; the file system, the hash and the checks of a transcript's path are a `World`.
use kb_graph.Base.{
  ℕ, ◌+◌, ◌*◌, Bool, false, not, ◌||◌, [], ◌∷◌, ◌++◌, Option, none, some, if◌then◌else◌, Text,
  codes, text_eq,
}
use kb_graph.Facts.Dates.{or_null, or_default}

pub data Reason : Type 0 where
  activity precompact session_end : Reason

unfoldable pub delay_ms : Reason → ℕ
delay_ms session_end = 0
delay_ms precompact = 5 * 60 * 1000
delay_ms activity = 30 * 60 * 1000

unfoldable pub reason_rank : Reason → ℕ
reason_rank activity = 1
reason_rank precompact = 2
reason_rank session_end = 3

-- A reason that no delay is kept for is plain activity.
unfoldable pub safe_reason : Text → Reason
safe_reason t =
    if text_eq t (codes "session_end")
    then session_end
    else if text_eq t (codes "precompact")
    then precompact
    else activity

pub record Request : Type 0 where
  pub agent : Text
  pub reason : Reason
  pub session_id : Option Text
  pub transcript_path : Option Text
  pub cwd : Option Text
  pub observed_mtime : Option ℕ
  pub observed_at : ℕ
  pub due_at : ℕ
  pub attempts : ℕ
  pub last_error : Option Text
  pub key : Text

-- The fields of a hook's input that name a session, in both spellings.
pub record HookInput : Type 0 where
  pub session_id : Option Text
  pub session_id_camel : Option Text
  pub conversation_id : Option Text
  pub conversation_id_camel : Option Text
  pub transcript_path : Option Text
  pub transcript_path_camel : Option Text
  pub cwd : Option Text

-- The answer of `validateCursorTranscriptPath`.
pub data CursorPath : Type 0 where
  valid : Text → CursorPath
  invalid : Text → Bool → CursorPath

pub record World : Type 0 where
  pub validate_cursor_path : Option Text → Option Text → CursorPath
  pub is_discoverable : Text → Bool
  pub is_subagent : Text → Bool
  pub mtime : Text → Option ℕ
  pub sha256 : Text → Text

pub data Created : Type 0 where
  created : Request → Created
  declined : Text → Created

-- `a || b`
unfoldable pub either : Option Text → Option Text → Option Text
either none b = b
either (some []) b = b
either (some (c ∷ cs)) b = some (c ∷ cs)

abbrev pub missing_identity : Created
missing_identity = declined (codes "missing_identity")

unfoldable pub capture_key : World → Text → Option Text → Option Text → Text
capture_key w agent session path =
    w.sha256
      (or_default (some agent) (codes "unknown") ++ (0 ∷ or_default (either session path) []))

unfoldable pub observed : World → Option Text → Option ℕ
observed w none = none
observed w (some path) = w.mtime path

-- A path that the sweep would not find, or a subagent's, is no identity.
unfoldable pub refuses_path : World → Option Text → Bool
refuses_path w none = false
refuses_path w (some path) = not (w.is_discoverable path) || w.is_subagent path

unfoldable pub build_request :
    World → HookInput → Text → Reason → ℕ → Option Text → Option Text → Request
build_request w input agent reason now session path = record {
  agent = agent;
  reason = reason;
  session_id = session;
  transcript_path = path;
  cwd = or_null input.cwd;
  observed_mtime = observed w path;
  observed_at = now;
  due_at = now + delay_ms reason;
  attempts = 0;
  last_error = none;
  key = capture_key w agent session path;
}

-- The identity is there: the checks of the path, then the request.
unfoldable pub check_identity :
    World → HookInput → Text → Reason → ℕ → Option Text → Option Text → Created
check_identity w input agent reason now none none = missing_identity
check_identity w input agent reason now session path =
    if refuses_path w path
    then missing_identity
    else created (build_request w input agent reason now session path)

unfoldable pub cursor_identity : World → HookInput → Text → Reason → ℕ → CursorPath → Created
cursor_identity w input agent reason now (valid path) =
    check_identity w input agent reason now input.conversation_id (some path)
cursor_identity w input agent reason now (invalid why retryable) = declined why

unfoldable pub create_capture_request : World → HookInput → Text → Text → ℕ → Created
create_capture_request w input agent reason now =
    if text_eq agent (codes "cursor")
    then cursor_identity w input agent (safe_reason reason) now
        (w.validate_cursor_path input.transcript_path input.conversation_id)
    else check_identity w input agent (safe_reason reason) now
        (either input.session_id (
          either input.session_id_camel
            (either input.conversation_id (or_null input.conversation_id_camel))))
        (either input.transcript_path (or_null input.transcript_path_camel))
