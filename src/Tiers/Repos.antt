-- ===== src/Tiers/Repos.antt =====
-- src/tiers.js: the repositories in reach, and the references that resolve in one of them. The file
-- system, the paths and git stand in the record `Host`, whose fields are arguments of the model.
use kb_graph.Base.{
  Bool, true, false, not, ◌&&◌, ◌||◌, List, [], ◌∷◌, ◌++◌, Option, none, some, if◌then◌else◌, Text,
  codes, text_eq, starts_with, trim, any, filter, map, split_on, length, ◌==◌,
}
use kb_graph.Tiers.References.{
  normalize_ref, strip_edges, pr_url, pr_number, file_path, test_part, labelled_sha,
  token_is_reference, tokens_of,
}

-- `read_dir` lists the names in a directory with whether each is a directory, and is nothing where
-- the directory cannot be read; `has_commit` is `git cat-file -e` with success as true.
pub record Host : Type 0 where
  pub exists : Text → Bool
  pub read_dir : Text → Option (List (Text × Bool))
  pub join_path : Text → Text → Text
  pub resolve : Text → Text → Text
  pub relative : Text → Text → Text
  pub is_absolute : Text → Bool
  pub sep : Text
  pub has_commit : Text → Text → Bool

unfoldable pub or_cwd : Text → List Text → List Text
or_cwd cwd [] = cwd ∷ []
or_cwd cwd (r ∷ rs) = r ∷ rs

unfoldable pub is_filled : Text → Bool
is_filled [] = false
is_filled (c ∷ cs) = true

unfoldable pub roots_of : Text → Text → List Text
roots_of cwd [] = cwd ∷ []
roots_of cwd (c ∷ cs) = or_cwd cwd (filter is_filled (map trim (split_on b':' (c ∷ cs))))

-- The roots that `KB_REPO_ROOTS` names; the working directory where it names none.
unfoldable pub repo_roots : Text → Option Text → List Text
repo_roots cwd none = cwd ∷ []
repo_roots cwd (some raw) = roots_of cwd (trim raw)

unfoldable pub concat_map : (Text → List Text) → List Text → List Text
concat_map f [] = []
concat_map f (t ∷ ts) = f t ++ concat_map f ts

unfoldable pub is_directory : Text × Bool → Bool
is_directory (name, directory) = directory

unfoldable pub after_label : Text → Text
after_label [] = []
after_label (c ∷ cs) = if (c == b':') || (c == b'=') then cs else after_label cs

unfoldable pub sha_of : Text → Text
sha_of t = if labelled_sha t then after_label t else t

unfoldable pub resolves_by_shape : Text → Bool
resolves_by_shape token = let t = strip_edges token in pr_url t || pr_number t

module _ (host : Host) where
  unfoldable pub is_git_repo : Text → Bool
  is_git_repo dir = host.exists (host.join_path dir (codes ".git"))

  unfoldable pub child_of : Text → Text × Bool → Text
  child_of root (name, directory) = host.join_path root name

  unfoldable pub repos_among : Text → Option (List (Text × Bool)) → List Text
  repos_among root none = []
  repos_among root (some entries) =
      filter is_git_repo (map (child_of root) (filter is_directory entries))

  unfoldable pub repos_under : Text → List Text
  repos_under root = if is_git_repo root then root ∷ [] else repos_among root (host.read_dir root)

  unfoldable pub search_dirs : List Text → List Text
  search_dirs roots = concat_map repos_under roots

  unfoldable pub escapes : Text → Bool
  escapes rel =
      text_eq rel (codes "..") || (starts_with (codes ".." ++ host.sep) rel || host.is_absolute rel)

  unfoldable pub token_resolves : Text → Text → Bool
  token_resolves dir token =
      let t = strip_edges token in
      let target = host.resolve dir t in
      if pr_url t || pr_number t
      then true
      else if file_path t && test_part t
      then not (escapes (host.relative dir target)) && host.exists target
      else host.has_commit dir (sha_of t)

  unfoldable pub resolves_in : List Text → Text → Bool
  resolves_in tokens dir = any (token_resolves dir) tokens

  unfoldable pub if_resolved : List Text → Option Text → Option Text
  if_resolved roots none = none
  if_resolved roots (some flat) =
      let tokens = filter token_is_reference (tokens_of flat) in
      if length tokens == 0
      then none
      else if any resolves_by_shape tokens
      then some flat
      else if any (resolves_in tokens) (search_dirs roots)
      then some flat
      else none

  unfoldable pub resolved_reference_in : Option Text → List Text → Option Text
  resolved_reference_in ref roots = if_resolved roots (normalize_ref ref)
