-- ===== src/Model/Version.antt =====
-- internal/model/reality.go: the minimum client version, `x.y.z` with bytes for components.
use ovpn.Prelude.{
  ℕ, ◌+◌, ◌-◌, ◌*◌, ◌≡◌, refl, sym, ◌↔◌, ◌⊎◌, inl, inr, Bool, true, false, ◌&&◌, not, Option, none,
  some, List, [], ◌∷◌, Text, codes, arith, leb, length, ◌==◌, if◌then◌else◌,
}
use ovpn.Strings.{split, join}
use ovpn.Strings.Split.{lacks, join-split, split-join}

abbrev pub version_error : Text
version_error =
    codes
      "reality_min_client_version must be x.y.z with each component between 0 and 255, or empty for the Xray default"

unfoldable pub all_digits : Text → Bool
all_digits [] = true
all_digits (c ∷ s) = (leb 48 c && leb c 57) && all_digits s

-- strconv.ParseUint(part, 10, 8) of digits: an error past 255, however long the text is.
unfoldable pub decimal : ℕ → Text → ℕ
decimal n [] = n
decimal n (c ∷ s) = decimal (n * 10 + (c - 48)) s

unfoldable pub is_octet : Text → Bool
unfolding all_digits decimal
is_octet [] = false
is_octet (c ∷ s) = all_digits (c ∷ s) && leb (decimal 0 (c ∷ s)) 255

unfoldable pub all_octets : List Text → Bool
all_octets [] = true
all_octets (part ∷ parts) = is_octet part && all_octets parts

unfoldable pub validate_parts : List Text → Option Text
unfolding all_octets
validate_parts parts =
    if not (length parts == 3)
    then some version_error
    else if all_octets parts
    then none
    else some version_error

unfoldable pub validate_min_client_version : Text → Option Text
unfolding validate_parts
validate_min_client_version [] = none
validate_min_client_version (c ∷ s) = validate_parts (split (c ∷ s) 46)

-- Three decimal bytes with dots between them.
abbrev pub IsVersion : Text → Type 0
IsVersion v =
    (x y z : Text) × (v ≡ join (x ∷ y ∷ z ∷ []) (46 ∷ []))
    × (is_octet x ≡ true)
    × (is_octet y ≡ true)
    × (is_octet z ≡ true)

validate_parts-IsVersion :
    (v : Text) (parts : List Text)
    → join parts (46 ∷ []) ≡ v
    → validate_parts parts ≡ none
    → IsVersion v
unfolding validate_parts
validate_parts-IsVersion v [] e h = absurd (ground arith)
validate_parts-IsVersion v (x ∷ []) e h = absurd (ground arith)
validate_parts-IsVersion v (x ∷ y ∷ []) e h = absurd (ground arith)
validate_parts-IsVersion v (x ∷ y ∷ z ∷ []) e h =
    (x, y, z, sym e, ground arith, ground arith, ground arith)
validate_parts-IsVersion v (x ∷ y ∷ z ∷ w ∷ rest) e h = absurd (ground arith)

all_digits-lacks_dot : (s : Text) → all_digits s ≡ true → lacks 46 s ≡ true
unfolding all_digits lacks
all_digits-lacks_dot [] h = refl
all_digits-lacks_dot (c ∷ s) h = ground (arith, all_digits-lacks_dot s)

is_octet-lacks_dot : (s : Text) → is_octet s ≡ true → lacks 46 s ≡ true
unfolding is_octet
is_octet-lacks_dot [] h = absurd (ground arith)
is_octet-lacks_dot (c ∷ s) h = ground (arith, all_digits-lacks_dot (c ∷ s))

validate_split :
    (v x y z : Text)
    → split v 46 ≡ x ∷ y ∷ z ∷ []
    → is_octet x ≡ true
    → is_octet y ≡ true
    → is_octet z ≡ true
    → validate_min_client_version v ≡ none
unfolding validate_min_client_version
validate_split [] x y z e hx hy hz = refl
validate_split (c ∷ s) x y z e hx hy hz = rw (e, hx, hy, hz) refl

IsVersion-validate : (v : Text) → IsVersion v → validate_min_client_version v ≡ none
IsVersion-validate v (x, y, z, e, hx, hy, hz) =
    validate_split v x y z
      (rw e (
        split-join x (y ∷ z ∷ []) 46 (is_octet-lacks_dot x hx)
          (is_octet-lacks_dot y hy, (is_octet-lacks_dot z hz, tt))))
      hx hy hz

accepted_parts :
    (c : ℕ) (s : Text)
    → validate_min_client_version (c ∷ s) ≡ none
    → validate_parts (split (c ∷ s) 46) ≡ none
unfolding validate_min_client_version
accepted_parts c s h = h

validate_empty : validate_min_client_version [] ≡ none
unfolding validate_min_client_version
validate_empty = refl

-- The minimum client version is accepted exactly when it is empty or is three decimal bytes with
-- dots between them.
pub validate-IsVersion_iff :
    (v : Text) → (validate_min_client_version v ≡ none) ↔ ((v ≡ []) ⊎ IsVersion v)
validate-IsVersion_iff v = (accepted v, valid v)
  where
    accepted : (u : Text) → validate_min_client_version u ≡ none → (u ≡ []) ⊎ IsVersion u
    accepted [] h = inl refl
    accepted (c ∷ s) h = inr (
        validate_parts-IsVersion (c ∷ s) (split (c ∷ s) 46) (join-split (c ∷ s) 46)
          (accepted_parts c s h))

    valid : (u : Text) → (u ≡ []) ⊎ IsVersion u → validate_min_client_version u ≡ none
    valid u (inl e) = rw e validate_empty
    valid u (inr h) = IsVersion-validate u h
