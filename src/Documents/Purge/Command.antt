-- ===== src/Documents/Purge/Command.antt =====
-- src/cli/vault-cli.js: the purge command, whose dry run must be confirmed before anything goes.
pub mod Confirmed
use kb_graph.Base.{
  ℕ, suc, zero, ◌+◌, ◌-◌, ◌*◌, ◌^◌, Bool, true, false, not, ◌&&◌, ◌||◌, ltb, leb, ◌==◌, List, [],
  ◌∷◌, ◌++◌, Option, none, some, if◌then◌else◌, Text, codes, text_eq, starts_with, find, filter,
  any, all, map, drop, length,
}
use kb_graph.Tiers.References.{is_digit, is_hex}
use kb_graph.Documents.Rows.{Store, is_null}
use kb_graph.Documents.Purge.{
  Purging, out_of_fuel, failed, finished, purge_loop, detached_document_purge_scope,
}

pub data UsageError : Type 0 where
  unexpected_option : Text → UsageError
  supplied_twice : Text → UsageError
  not_an_integer : Text → Text → UsageError
  token_supplied_twice : UsageError
  not_a_token : Text → UsageError
  apply_requires_both : UsageError
  require_apply : UsageError
  no_preview : UsageError
  rows_changed : UsageError
  not_the_count : ℕ → Option ℕ → UsageError

pub data Parsed {ℓ} (A : Type ℓ) : Type ℓ where
  parsed : A → Parsed A
  usage : UsageError → Parsed A

abbrev pub default_purge_grace_days : ℕ
default_purge_grace_days = 30

abbrev pub max_safe_integer : ℕ
max_safe_integer = 9007199254740991

unfoldable pub digits_value : ℕ → Text → ℕ
digits_value n [] = n
digits_value n (c ∷ cs) = digits_value (n * 10 + (c - 48)) cs

-- `/^[1-9][0-9]*$/`, and `0` alone where zero is allowed
unfoldable pub is_integer : Bool → Text → Bool
is_integer allow_zero [] = false
is_integer allow_zero (c ∷ cs) =
    ((leb 49 c && leb c 57) && all is_digit cs) || (allow_zero && text_eq (c ∷ cs) (codes "0"))

unfoldable pub integer_value : Text → Bool → Text → Parsed (Option ℕ)
integer_value name allow_zero raw =
    if is_integer allow_zero raw && leb (digits_value 0 raw) max_safe_integer
    then parsed (some (digits_value 0 raw))
    else usage (not_an_integer name raw)

unfoldable pub flag_values : Text → List Text → List Text
flag_values prefix args = map (drop (length prefix)) (filter (starts_with prefix) args)

unfoldable pub one_integer : Text → Option ℕ → Bool → List Text → Parsed (Option ℕ)
one_integer name fallback allow_zero [] = parsed fallback
one_integer name fallback allow_zero (raw ∷ []) = integer_value name allow_zero raw
one_integer name fallback allow_zero (a ∷ b ∷ rest) = usage (supplied_twice name)

unfoldable pub integer_flag : List Text → Text → Option ℕ → Bool → Parsed (Option ℕ)
integer_flag args name fallback allow_zero =
    one_integer name fallback allow_zero (flag_values (name ++ codes "=") args)

pub record Options : Type 0 where
  pub apply : Bool
  pub grace_days : Option ℕ
  pub confirm_purge : Option ℕ
  pub preview_token : Option Text
  pub before : Text

unfoldable pub is_expected : Text → Bool
is_expected arg =
    text_eq arg (codes "--apply")
    || (starts_with (codes "--grace-days=") arg
        || (starts_with (codes "--confirm-purge=") arg
            || starts_with (codes "--preview-token=") arg))

unfoldable pub drop_empty : List Text → Option Text
drop_empty [] = none
drop_empty ([] ∷ ts) = none
drop_empty ((c ∷ cs) ∷ ts) = some (c ∷ cs)

unfoldable pub is_more_than_one : List Text → Bool
is_more_than_one ts = ltb 1 (length ts)

-- A unit that the letter of a template allows: `h` any hexadecimal digit, `v` a version, `a` a
-- variant, and a dash itself.
unfoldable pub fits : ℕ → ℕ → Bool
fits t c =
    if t == b'h'
    then is_hex c
    else if t == b'v'
    then leb 49 c && leb c 53
    else if t == b'a'
    then any (λ d. d == c) (codes "89abAB")
    else t == c

unfoldable pub fits_all : Text → Text → Bool
fits_all [] [] = true
fits_all [] (c ∷ cs) = false
fits_all (t ∷ ts) [] = false
fits_all (t ∷ ts) (c ∷ cs) = fits t c && fits_all ts cs

unfoldable pub is_uuid : Text → Bool
is_uuid t = fits_all (codes "hhhhhhhh-hhhh-vhhh-ahhh-hhhhhhhhhhhh") t

unfoldable pub is_bad_token : Option Text → Bool
is_bad_token none = false
is_bad_token (some t) = not (is_uuid t)

unfoldable pub given_token : Option Text → Text
given_token none = []
given_token (some t) = t

-- `cutoff` is the time that many days ago.
module _ (cutoff : Option ℕ → Text) where
  unfoldable pub checked_options : Bool → Option ℕ → Option ℕ → List Text → Parsed Options
  checked_options apply grace confirm tokens =
      let token = drop_empty tokens in
      if is_more_than_one tokens
      then usage token_supplied_twice
      else if is_bad_token token
      then usage (not_a_token (given_token token))
      else if apply && (is_null confirm || is_null token)
      then usage apply_requires_both
      else if not apply && (not (is_null confirm) || not (is_null token))
      then usage require_apply
      else parsed (record {
        apply = apply;
        grace_days = grace;
        confirm_purge = confirm;
        preview_token = token;
        before = cutoff grace;
      })

  unfoldable pub with_confirm : Bool → Option ℕ → List Text → Parsed (Option ℕ) → Parsed Options
  with_confirm apply grace tokens (usage e) = usage e
  with_confirm apply grace tokens (parsed confirm) = checked_options apply grace confirm tokens

  unfoldable pub with_grace : List Text → Parsed (Option ℕ) → Parsed Options
  with_grace args (usage e) = usage e
  with_grace args (parsed grace) =
      with_confirm (any (λ a. text_eq a (codes "--apply")) args) grace
        (flag_values (codes "--preview-token=") args)
        (integer_flag args (codes "--confirm-purge") none true)

  unfoldable pub parse_expected : List Text → Option Text → Parsed Options
  parse_expected args (some bad) = usage (unexpected_option bad)
  parse_expected args none =
      with_grace args
        (integer_flag args (codes "--grace-days") (some default_purge_grace_days) false)

  unfoldable pub parse_detached_purge_args : List Text → Parsed Options
  parse_detached_purge_args args = parse_expected args (find (λ a. not (is_expected a)) args)

-- The lines of the audit log that can be read, the first first.
pub data Audit : Type 0 where
  previewed : Option ℕ → ℕ → ℕ → Text → Text → Audit
  confirmation_refused : ℕ → Option ℕ → Audit
  applied : ℕ → ℕ → Audit

unfoldable pub is_preview : Text → Audit → Bool
is_preview token (previewed grace eligible max before t) = text_eq t token
is_preview token (confirmation_refused eligible confirmed) = false
is_preview token (applied eligible purged) = false

-- The last preview with the token.
unfoldable pub read_purge_preview : Text → List Audit → Option Audit
read_purge_preview token [] = none
read_purge_preview token (a ∷ rest) =
    let later = read_purge_preview token rest in
    if not (is_null later) then later else if is_preview token a then some a else none

unfoldable pub same_number : Option ℕ → Option ℕ → Bool
same_number none none = true
same_number none (some n) = false
same_number (some m) none = false
same_number (some m) (some n) = m == n

pub data Outcome : Type 0 where
  report_preview : Audit → Outcome
  refused : UsageError → List Audit → Outcome
  stopped : Store → Outcome
  unfinished : Outcome
  report_applied : Store → ℕ → ℕ → Outcome

unfoldable pub purge_report : ℕ → Purging → Outcome
purge_report eligible out_of_fuel = unfinished
purge_report eligible (failed s) = stopped s
purge_report eligible (finished s n) = report_applied s eligible n

unfoldable pub preview_of : Option Text → List Audit → Option Audit
preview_of none log = none
preview_of (some token) log = read_purge_preview token log

module _ (now : Text) where
  unfoldable pub purge_scope : Text → ℕ → Store → Outcome
  purge_scope before max s =
      purge_report (detached_document_purge_scope before s).0
        (purge_loop (suc max) now before max 0 0 s)

  unfoldable pub confirm_preview : Options → Option Audit → Store → Outcome
  confirm_preview o none s = refused no_preview []
  confirm_preview o (some (confirmation_refused e c)) s = refused no_preview []
  confirm_preview o (some (applied e p)) s = refused no_preview []
  confirm_preview o (some (previewed grace eligible max before token)) s =
      let scope = detached_document_purge_scope before s in
      if not (same_number grace o.grace_days)
      then refused no_preview []
      else if not (scope.0 == eligible) || not (scope.1 == max)
      then refused rows_changed []
      else if not (same_number o.confirm_purge (some scope.0))
      then refused (not_the_count scope.0 o.confirm_purge)
          (confirmation_refused scope.0 o.confirm_purge ∷ [])
      else purge_scope before scope.1 s

  -- `uuid` is the token a dry run hands out.
  unfoldable pub vault_purge_detached : Text → Options → List Audit → Store → Outcome
  vault_purge_detached uuid o log s =
      let scope = detached_document_purge_scope o.before s in
      if not o.apply
      then report_preview (previewed o.grace_days scope.0 scope.1 o.before uuid)
      else confirm_preview o (preview_of o.preview_token log) s
