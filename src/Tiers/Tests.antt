-- ===== src/Tiers/Tests.antt =====
-- src/tiers.js on a host with one repository.
use kb_graph.Base.{
  Bool, true, false, List, [], ◌∷◌, Option, none, some, Text, codes, text_eq, ◌≡◌, refl, ◌↔◌,
  text_dec,
}
use kb_graph.Tiers.{Tier, observed, coerce_tier, text_of}
use kb_graph.Tiers.References.{normalize_ref, reference_in}
use kb_graph.Tiers.Repos.{Host, resolved_reference_in}
use kb_graph.Tiers.Claims.{Standing, resolve_tier, accepted, assert_tier}
use kb_graph.Tiers.Claims.Warrant.{IsWarranted, assert_tier-IsWarranted}
use kb_graph.Tiers.Claims.Landing.{resolve_tier_idem, resolved_reference_in-reference_in}

-- A host whose one repository is `/r`, with one commit and no files.
abbrev small_host : Host
small_host = record {
  exists = λ path. text_eq path (codes "/r/.git");
  read_dir = λ path. none;
  join_path = λ a b. codes "/r/.git";
  resolve = λ a b. b;
  relative = λ a b. b;
  is_absolute = λ path. false;
  sep = codes "/";
  has_commit = λ dir sha. text_eq sha (codes "abc1234");
}

abbrev observed_only : Standing
observed_only = record { tier = observed; ref = none }

assert_tier-IsWarranted_example :
    (assert_tier small_host (some (codes "verified")) (some (codes "#42")) none (codes "/r" ∷ [])
      ≡ accepted observed_only)
    ↔ (IsWarranted small_host (some (codes "verified")) (some (codes "#42")) none (codes "/r" ∷ [])
        × (observed_only ≡ record {
          tier = coerce_tier (some (codes "verified"));
          ref = normalize_ref (some (codes "#42"));
        }))
assert_tier-IsWarranted_example =
    assert_tier-IsWarranted small_host (some (codes "verified")) (some (codes "#42")) none
      (codes "/r" ∷ []) observed_only

resolve_tier_idem_example :
    resolve_tier
      (some (text_of (resolve_tier (some (codes "verified")) (some (codes " see  #42 "))).tier))
      (resolve_tier (some (codes "verified")) (some (codes " see  #42 "))).ref
    ≡ resolve_tier (some (codes "verified")) (some (codes " see  #42 "))
resolve_tier_idem_example = resolve_tier_idem (some (codes "verified")) (some (codes " see  #42 "))

resolved_reference_in-reference_in_example : reference_in (some (codes "#42")) ≡ some (codes "#42")
unfolding resolved_reference_in kb_graph.Tiers.Repos.if_resolved normalize_ref
    kb_graph.Tiers.References.is_storable kb_graph.Base.trim kb_graph.Base.fold_spaces
    kb_graph.Base.filter kb_graph.Tiers.References.tokens_of kb_graph.Base.split_on
    kb_graph.Tiers.References.token_is_reference text_dec kb_graph.Tiers.References.strip_edges
    kb_graph.Tiers.References.is_one_of kb_graph.Base.any kb_graph.Tiers.References.labelled_sha
    kb_graph.Tiers.References.sha_labels kb_graph.Tiers.References.is_labelled_by
    kb_graph.Base.starts_with kb_graph.Base.all kb_graph.Base.put_front kb_graph.Base.take_while
    kb_graph.Base.drop_end kb_graph.Base.drop_while kb_graph.Base.is_space kb_graph.Base.keep_end
    kb_graph.Base.lower_unit kb_graph.Base.to_lower kb_graph.Tiers.References.bare_sha
    kb_graph.Tiers.References.before_hash kb_graph.Tiers.References.ends_or_delimits
    kb_graph.Tiers.References.file_path kb_graph.Tiers.References.is_delimiter
    kb_graph.Tiers.References.is_digit kb_graph.Tiers.References.is_dot_then_path
    kb_graph.Tiers.References.is_hash_number kb_graph.Tiers.References.is_hex
    kb_graph.Tiers.References.is_hex_letter kb_graph.Tiers.References.is_letter
    kb_graph.Tiers.References.is_name kb_graph.Tiers.References.is_name_unit
    kb_graph.Tiers.References.is_number kb_graph.Tiers.References.is_path_unit
    kb_graph.Tiers.References.is_pr_part kb_graph.Tiers.References.is_repo_name
    kb_graph.Tiers.References.is_test_word kb_graph.Tiers.References.pr_number
    kb_graph.Tiers.References.pr_parts kb_graph.Tiers.References.pr_url
    kb_graph.Tiers.References.starts_number kb_graph.Tiers.References.starts_test
    kb_graph.Tiers.References.test_after kb_graph.Tiers.References.test_part
    kb_graph.Tiers.References.test_words kb_graph.Tiers.Repos.after_label
    kb_graph.Tiers.Repos.child_of kb_graph.Tiers.Repos.concat_map kb_graph.Tiers.Repos.escapes
    kb_graph.Tiers.Repos.is_directory kb_graph.Tiers.Repos.is_git_repo
    kb_graph.Tiers.Repos.repos_among kb_graph.Tiers.Repos.repos_under
    kb_graph.Tiers.Repos.resolves_by_shape kb_graph.Tiers.Repos.resolves_in
    kb_graph.Tiers.Repos.search_dirs kb_graph.Tiers.Repos.sha_of kb_graph.Tiers.Repos.token_resolves
    kb_graph.Tiers.Sources.is_word kb_graph.Tiers.Sources.reversed kb_graph.Base.ℕ_discrete
resolved_reference_in-reference_in_example =
    resolved_reference_in-reference_in small_host (some (codes "#42")) (codes "/r" ∷ [])
      (codes "#42") refl
