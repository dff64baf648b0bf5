-- ===== src/Util.antt =====
-- internal/util: comma-separated lists.
use ovpn.Prelude.{List, [], ◌∷◌, Text, codes, text_eq, if◌then◌else◌}
use ovpn.Strings.{trim_space, split, join, is_blank}

unfoldable pub trimmed_parts : List Text → List Text
trimmed_parts [] = []
trimmed_parts (p ∷ parts) =
    let rest = trimmed_parts parts in
    if text_eq (trim_space p) [] then rest else trim_space p ∷ rest

unfoldable pub parse_csv : Text → List Text
unfolding trimmed_parts
parse_csv v = if is_blank v then [] else trimmed_parts (split v 44)

unfoldable pub join_csv : List Text → Text
join_csv [] = []
join_csv (x ∷ xs) = join (x ∷ xs) (codes ",")
