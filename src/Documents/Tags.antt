-- ===== src/Documents/Tags.antt =====
-- src/tags.js: tags in a text, separated by commas.
use kb_graph.Base.{
  List, [], ◌∷◌, ◌++◌, Option, none, some, if◌then◌else◌, Text, codes, text_eq, trim, to_lower, any,
  split_on, join,
}

unfoldable pub add_tag : List Text → Text → List Text
add_tag seen [] = seen
add_tag seen (c ∷ cs) = if any (text_eq (c ∷ cs)) seen then seen else seen ++ ((c ∷ cs) ∷ [])

unfoldable pub add_tags : List Text → List Text → List Text
add_tags seen [] = seen
add_tags seen (raw ∷ raws) = add_tags (add_tag seen (to_lower (trim raw))) raws

-- The tags in the order in which they first come; a missing text has none.
unfoldable pub split_tags : Option Text → List Text
split_tags none = []
split_tags (some t) = add_tags [] (split_on b',' t)

unfoldable pub normalize_tag_string : Option Text → Text
normalize_tag_string t = join (codes ", ") (split_tags t)
