-- ===== src/Tiers/References.antt =====
-- src/tiers.js: the texts that name a commit, a pull request or a test file, by their shape.
pub mod Stored
use kb_graph.Base.{
  ℕ, suc, zero, ◌+◌, Bool, true, false, not, ◌&&◌, ◌||◌, ltb, leb, ◌==◌, List, [], ◌∷◌, ◌++◌,
  Option, none, some, if◌then◌else◌, Text, codes, text_eq, starts_with, to_lower, trim, is_space,
  drop, take, any, all, length, drop_while, drop_end, take_while, fold_spaces, split_on, filter,
}
use kb_graph.Tiers.Sources.{is_word, reversed}

abbrev pub ref_max_chars : ℕ
ref_max_chars = 500

unfoldable pub is_storable : Text → Bool
is_storable flat = ltb 0 (length flat) && leb (length flat) ref_max_chars

-- A reference is stored on one line; one that is too long is refused, not cut.
unfoldable pub normalize_ref : Option Text → Option Text
normalize_ref none = none
normalize_ref (some ref) =
    let flat = trim (fold_spaces false ref) in if is_storable flat then some flat else none

unfoldable pub is_one_of : Text → ℕ → Bool
is_one_of set c = any (λ d. c == d) set

-- `t.replace(TOKEN_EDGES, '')`
unfoldable pub strip_edges : Text → Text
strip_edges t =
    drop_end (is_one_of (codes ")\"'`>],.;:!?")) (drop_while (is_one_of (codes "(\"'`<[")) t)

unfoldable pub is_hex_letter : ℕ → Bool
is_hex_letter c = (leb 97 c && leb c 102) || (leb 65 c && leb c 70)

unfoldable pub is_digit : ℕ → Bool
is_digit c = leb 48 c && leb c 57

unfoldable pub is_hex : ℕ → Bool
is_hex c = is_digit c || is_hex_letter c

-- `/^[0-9a-f]{7,40}$/i`
unfoldable pub bare_sha : Text → Bool
bare_sha t = all is_hex t && (leb 7 (length t) && leb (length t) 40)

unfoldable pub sha_labels : List Text
sha_labels =
    codes "commit:"
    ∷ codes "commit="
    ∷ codes "sha:"
    ∷ codes "sha="
    ∷ codes "git:"
    ∷ codes "git="
    ∷ []

unfoldable pub is_labelled_by : Text → Text → Bool
is_labelled_by t label = starts_with label (to_lower t) && bare_sha (drop (length label) t)

unfoldable pub labelled_sha : Text → Bool
labelled_sha t = any (is_labelled_by t) sha_labels

unfoldable pub is_number : Text → Bool
is_number [] = false
is_number (c ∷ cs) = (leb 49 c && leb c 57) && all is_digit cs

unfoldable pub starts_number : Text → Bool
starts_number [] = false
starts_number (c ∷ cs) = leb 49 c && leb c 57

unfoldable pub pr_parts : List Text
pr_parts =
    codes "/pull/" ∷ codes "/pulls/" ∷ codes "/merge_requests/" ∷ codes "/pull-requests/" ∷ []

unfoldable pub is_pr_part : Text → Text → Bool
is_pr_part t part = starts_with part (to_lower t) && starts_number (drop (length part) t)

-- `PR_URL`, anywhere in the token
unfoldable pub pr_url : Text → Bool
pr_url [] = false
pr_url (c ∷ cs) = any (is_pr_part (c ∷ cs)) pr_parts || pr_url cs

-- `[\w.-]`
unfoldable pub is_name_unit : ℕ → Bool
is_name_unit c = is_word c || is_one_of (codes ".-") c

unfoldable pub is_name : Text → Bool
is_name [] = false
is_name (c ∷ cs) = all is_name_unit (c ∷ cs)

unfoldable pub is_repo_name : List Text → Bool
is_repo_name (owner ∷ name ∷ []) = is_name owner && is_name name
is_repo_name [] = false
is_repo_name (one ∷ []) = false
is_repo_name (a ∷ b ∷ c ∷ rest) = false

unfoldable pub is_hash_number : Text → Bool
is_hash_number [] = false
is_hash_number (c ∷ cs) = c == b'#' && is_number cs

unfoldable pub before_hash : Text → Text
before_hash t = take_while (λ c. not (c == b'#')) t

-- `PR_NUMBER`: what stands before the first `#` is nothing or an owner and a name.
unfoldable pub pr_number : Text → Bool
pr_number t =
    let repo = before_hash t in
    is_hash_number (drop (length repo) t) && (text_eq repo [] || is_repo_name (split_on b'/' repo))

unfoldable pub is_letter : ℕ → Bool
is_letter c = (leb 65 c && leb c 90) || (leb 97 c && leb c 122)

unfoldable pub is_path_unit : ℕ → Bool
is_path_unit c = is_name_unit c || c == b'/'

unfoldable pub is_dot_then_path : Text → Bool
is_dot_then_path [] = false
is_dot_then_path (c ∷ []) = false
is_dot_then_path (c ∷ d ∷ ds) = c == b'.' && all is_path_unit (d ∷ ds)

-- `FILE_PATH`, read from its end: the extension, its dot, and a path that is not empty.
unfoldable pub file_path : Text → Bool
file_path t =
    let ext = length (take_while is_letter (reversed t)) in
    (leb 1 ext && leb ext 5) && is_dot_then_path (drop ext (reversed t))

unfoldable pub is_delimiter : ℕ → Bool
is_delimiter c = is_one_of (codes "/._-") c

unfoldable pub ends_or_delimits : Text → Bool
ends_or_delimits [] = true
ends_or_delimits (c ∷ cs) = is_delimiter c

unfoldable pub test_words : List Text
test_words = codes "test" ∷ codes "tests" ∷ codes "spec" ∷ codes "specs" ∷ codes "__tests__" ∷ []

unfoldable pub is_test_word : Text → Text → Bool
is_test_word t word = starts_with word (to_lower t) && ends_or_delimits (drop (length word) t)

unfoldable pub starts_test : Text → Bool
starts_test t = any (is_test_word t) test_words

unfoldable pub test_after : Text → Bool
test_after [] = false
test_after (c ∷ cs) = (is_delimiter c && starts_test cs) || test_after cs

-- `TEST_PART`, at the start or after a delimiter
unfoldable pub test_part : Text → Bool
test_part t = starts_test t || test_after t

unfoldable pub token_is_reference : Text → Bool
token_is_reference token =
    let t = strip_edges token in
    if text_eq t []
    then false
    else if labelled_sha t
    then true
    else if bare_sha t && any is_hex_letter t
    then true
    else if pr_url t
    then true
    else if pr_number t
    then true
    else file_path t && test_part t

unfoldable pub tokens_of : Text → List Text
tokens_of flat = split_on b' ' flat

unfoldable pub if_named : Option Text → Option Text
if_named none = none
if_named (some flat) = if any token_is_reference (tokens_of flat) then some flat else none

-- The reference in its stored form if one of its tokens names something, by shape only.
unfoldable pub reference_in : Option Text → Option Text
reference_in ref = if_named (normalize_ref ref)
