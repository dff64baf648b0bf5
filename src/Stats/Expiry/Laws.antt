-- ===== src/Stats/Expiry/Laws.antt =====
-- What is relied on of Xray's answers to a removal, and how a row of a user stands to Xray.
use ovpn.Prelude.{
  ℕ, ◌*◌, ◌<◌, ◌≡◌, ◌⊎◌, inl, inr, Bool, true, false, Option, none, some, Text, codes, arith,
  Bool-cases, refl, sym, ap, ◌∙◌, List, [], ◌∷◌, ◌++◌,
}
use ovpn.Strings.{trim_space, to_lower, contains}
use ovpn.Remote.{UserPolicyRow, nanos_per_second}
use ovpn.Model.Types.{Time}
use ovpn.Stats.{RuntimeManager, is_missing}

-- An error's text holds a piece of text, its letters' case aside.
abbrev pub Says : Text → Text → Type 0
Says e piece = contains (to_lower (trim_space e)) piece ≡ true

-- Xray's documented behaviour on a removal: after one that succeeds, or that answers "User … not
-- found.", the inbound does not serve the user; and none adds a user. Of other errors nothing is said.
pub record IsRemoval {S : Type 0} (r : RuntimeManager S) (has : S → Text → Text → Bool)
    : Type 0 where
  pub removed :
      (tag email : Text) (s : S)
      → (r.remove_user tag email s).0 ≡ none
      → has (r.remove_user tag email s).1 tag email ≡ false
  pub not_found :
      (tag email : Text) (s : S) (e : Text)
      → (r.remove_user tag email s).0 ≡ some e
      → Says e (codes "not found")
      → has (r.remove_user tag email s).1 tag email ≡ false
  pub adds_none :
      (tag email : Text) (s : S) (t m : Text)
      → has s t m ≡ false
      → has (r.remove_user tag email s).1 t m ≡ false

-- An error that does not say whether the inbound serves the user.
abbrev pub IsUnclear : Text → Type 0
IsUnclear e =
    Says e (codes "not exist") ⊎ (Says e (codes "failed to remove") × Says e (codes "user"))

pub missing_cases : (e : Text) → is_missing e ≡ true → Says e (codes "not found") ⊎ IsUnclear e
unfolding is_missing
missing_cases e h = elim (Bool-cases (contains (to_lower (trim_space e)) (codes "not found"))) [
  | inl found ↦ inl found
  | inr other ↦ elim (Bool-cases (contains (to_lower (trim_space e)) (codes "not exist"))) [
    | inl absent ↦ inr (inl absent)
    | inr neither ↦ inr (inr (ground arith, ground arith))
  ]
]

module _ {S : Type 0} (r : RuntimeManager S) (has : S → Text → Text → Bool) where
  -- Xray after the removals of these users, each from an inbound.
  abbrev pub after_removals : List (Text × Text) → S → S
  after_removals [] s = s
  after_removals ((tag, email) ∷ rest) s = after_removals rest (r.remove_user tag email s).1

  abbrev pub IsReached : S → S → Type 0
  IsReached s t = (calls : List (Text × Text)) × (t ≡ after_removals calls s)

  after_removals-append :
      (before after : List (Text × Text)) (s : S)
      → after_removals (before ++ after) s ≡ after_removals after (after_removals before s)
  after_removals-append [] after s = refl
  after_removals-append ((tag, email) ∷ before) after s =
      after_removals-append before after (r.remove_user tag email s).1

  pub IsReached-trans : {s t u : S} → IsReached s t → IsReached t u → IsReached s u
  IsReached-trans {s} (before, to_t) (after, to_u) = (
    before ++ after,
    to_u ∙ (ap (after_removals after) to_t ∙ sym (after_removals-append before after s)),
  )

  -- Among the removals that led from the one state to the other, the user's own was answered with an
  -- unclear error.
  abbrev pub IsAnsweredUnclearly : S → S → Text → Text → Type 0
  IsAnsweredUnclearly start end tag email =
      (at : S) × (e : Text) × IsReached start at
      × ((r.remove_user tag email at).0 ≡ some e)
      × IsUnclear e
      × IsReached (r.remove_user tag email at).1 end

  -- At the end the inbound does not serve the user, or the user's removal since the start was answered
  -- with an unclear error.
  abbrev pub IsGone : S → S → Text → Text → Type 0
  IsGone start end tag email = (has end tag email ≡ false) ⊎ IsAnsweredUnclearly start end tag email

  -- No expiry, or one that lies ahead.
  abbrev pub IsAhead : Time → Option ℕ → Type 0
  IsAhead now none = Unit
  IsAhead now (some seconds) = now < seconds * nanos_per_second

  -- The row is of a user who is enabled and has not expired, or who is gone from the row's inbound.
  abbrev pub IsSettled : Time → S → S → UserPolicyRow → Type 0
  IsSettled now start end row =
      ((row.enabled ≡ 1) × IsAhead now row.expiry_at) ⊎ IsGone start end row.inbound_tag row.email
