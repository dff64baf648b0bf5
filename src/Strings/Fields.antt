-- ===== src/Strings/Fields.antt =====
-- Cutting texts apart with Go's package `strings`.
use ovpn.Prelude.{
  ℕ, suc, Bool, true, false, ◌||◌, Option, none, some, List, [], ◌∷◌, Text, ◌==◌, if◌then◌else◌,
}
use ovpn.Strings.{is_space, push_char}

abbrev starts_blank : Text → Bool
starts_blank [] = true
starts_blank (c ∷ s) = is_space c

-- strings.Fields
unfoldable pub fields : Text → List Text
unfolding is_space
fields [] = []
fields (c ∷ s) =
    let rest = fields s in
    if is_space c then rest else if starts_blank s then (c ∷ []) ∷ rest else push_char c rest

abbrev one_of : ℕ → Text → Bool
one_of c [] = false
one_of c (d ∷ cutset) = c == d || one_of c cutset

unfoldable pub trim_left_any : Text → Text → Text
trim_left_any [] cutset = []
trim_left_any (c ∷ s) cutset =
    let rest = trim_left_any s cutset in if one_of c cutset then rest else c ∷ s

abbrev cons_unless_cut : ℕ → Text → Text → Text
cons_unless_cut c cutset [] = if one_of c cutset then [] else c ∷ []
cons_unless_cut c cutset (d ∷ s) = c ∷ d ∷ s

unfoldable pub trim_right_any : Text → Text → Text
trim_right_any [] cutset = []
trim_right_any (c ∷ s) cutset = cons_unless_cut c cutset (trim_right_any s cutset)

-- strings.Trim
unfoldable pub trim_any : Text → Text → Text
unfolding trim_left_any trim_right_any
trim_any s cutset = trim_right_any (trim_left_any s cutset) cutset

abbrev before : ℕ → Option (Text × Text) → Option (Text × Text)
before c none = none
before c (some (s, t)) = some (c ∷ s, t)

-- What stands before and after the first place of a character (strings.Index).
unfoldable pub cut_first : Text → ℕ → Option (Text × Text)
cut_first [] sep = none
cut_first (c ∷ s) sep =
    let rest = cut_first s sep in if c == sep then some ([], s) else before c rest

abbrev cut_here : ℕ → ℕ → Text → Option (Text × Text) → Option (Text × Text)
cut_here c sep s none = if c == sep then some ([], s) else none
cut_here c sep s (some (a, b)) = some (c ∷ a, b)

-- The same at its last place (strings.LastIndex).
unfoldable pub cut_last : Text → ℕ → Option (Text × Text)
cut_last [] sep = none
cut_last (c ∷ s) sep = cut_here c sep s (cut_last s sep)

-- strings.Count of one character
unfoldable pub count_char : Text → ℕ → ℕ
count_char [] sep = 0
count_char (c ∷ s) sep = let rest = count_char s sep in if c == sep then suc rest else rest
