-- ===== src/Dict.antt =====
-- A Go map with text keys, as the list of its entries. A missing key reads as the zero value that the
-- caller names.
use ovpn.Prelude.{
  ◌≡◌, refl, Option, none, some, List, [], ◌∷◌, Text, arith, text_eq, text_eq_iff, if◌then◌else◌,
}

module _ {V : Type 0} where
  -- m[k] = v
  unfoldable pub put : Text → V → List (Text × V) → List (Text × V)
  put k v [] = (k, v) ∷ []
  put k v ((j, w) ∷ m) = if text_eq j k then (j, v) ∷ m else (j, w) ∷ put k v m

  -- v, ok := m[k]
  unfoldable pub get? : Text → List (Text × V) → Option V
  get? k [] = none
  get? k ((j, v) ∷ m) = if text_eq j k then some v else get? k m

  unfoldable pub or_zero : V → Option V → V
  or_zero zero_value none = zero_value
  or_zero zero_value (some v) = v

  -- m[k]
  unfoldable pub get : V → Text → List (Text × V) → V
  unfolding get? or_zero
  get zero_value k m = or_zero zero_value (get? k m)

  unfoldable pub keys : List (Text × V) → List Text
  keys [] = []
  keys ((k, v) ∷ m) = k ∷ keys m

  pub get?-put :
      (k j : Text) (v : V) (m : List (Text × V))
      → get? j (put k v m) ≡ (if text_eq k j then some v else get? j m)
  unfolding get? put
  get?-put k j v [] = refl
  get?-put k j v ((i, w) ∷ m) =
      ground (arith, get?-put k j v m, text_eq_iff i k, text_eq_iff i j, text_eq_iff k j)
