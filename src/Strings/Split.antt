-- ===== src/Strings/Split.antt =====
-- Splitting at a character and joining with it undo one another.
use ovpn.Prelude.{
  ℕ, inl, inr, Bool-cases, ◌≡◌, refl, ap, ◌∙◌, Bool, true, List, [], ◌∷◌, ◌++◌, Text, arith, All,
  ◌==◌, ◌&&◌, not,
}
use ovpn.Strings.{split, join, push_char}

unfoldable pub lacks : ℕ → Text → Bool
lacks sep [] = true
lacks sep (c ∷ s) = not (c == sep) && lacks sep s

join-push_char :
    (c sep : ℕ) (parts : List Text)
    → join (push_char c parts) (sep ∷ []) ≡ c ∷ join parts (sep ∷ [])
unfolding join
join-push_char c sep [] = refl
join-push_char c sep (p ∷ []) = refl
join-push_char c sep (p ∷ q ∷ ps) = refl

push_char_cases :
    (c : ℕ) (parts : List Text) → (p : Text) × (ps : List Text) × (push_char c parts ≡ p ∷ ps)
push_char_cases c [] = (c ∷ [], [], refl)
push_char_cases c (p ∷ ps) = (c ∷ p, ps, refl)

pub split_cases : (s : Text) (sep : ℕ) → (p : Text) × (ps : List Text) × (split s sep ≡ p ∷ ps)
unfolding split
split_cases [] sep = ([], [], refl)
split_cases (c ∷ s) sep = elim (Bool-cases (c == sep)) [
  | inl e ↦ ([], split s sep, rw e refl)
  | inr e ↦ rw e (push_char_cases c (split s sep))
]

join-nil_cons :
    (sep : ℕ) (parts : List Text) (p : Text) (ps : List Text)
    → parts ≡ p ∷ ps
    → join ([] ∷ parts) (sep ∷ []) ≡ sep ∷ join parts (sep ∷ [])
unfolding join
join-nil_cons sep parts p ps e = rw e refl

-- The parts of a text, joined by the separator, are the text.
pub join-split : (s : Text) (sep : ℕ) → join (split s sep) (sep ∷ []) ≡ s
unfolding split
join-split [] sep = unfold join in refl
join-split (c ∷ s) sep = elim (Bool-cases (c == sep)) [
  | inl e ↦ rw e (
      join-nil_cons sep (split s sep) (split_cases s sep).0 (split_cases s sep).1
        (split_cases s sep).2
      ∙ ground (arith, join-split s sep))
  | inr e ↦ rw e (join-push_char c sep (split s sep) ∙ ap (λ r. c ∷ r) (join-split s sep))
]

pub split_of_lacks : (s : Text) (sep : ℕ) → lacks sep s ≡ true → split s sep ≡ s ∷ []
unfolding split lacks
split_of_lacks [] sep h = refl
split_of_lacks (c ∷ s) sep h = ground (arith, split_of_lacks s sep)

split-append :
    (s t : Text) (sep : ℕ) → lacks sep s ≡ true → split (s ++ sep ∷ t) sep ≡ s ∷ split t sep
unfolding split lacks
split-append [] t sep h = ground arith
split-append (c ∷ s) t sep h = ground (arith, split-append s t sep)

-- Parts that do not hold the separator come back from their join.
pub split-join :
    (x : Text) (xs : List Text) (sep : ℕ)
    → lacks sep x ≡ true
    → All (λ y. lacks sep y ≡ true) xs
    → split (join (x ∷ xs) (sep ∷ [])) sep ≡ x ∷ xs
unfolding join
split-join x [] sep h hs = split_of_lacks x sep h
split-join x (y ∷ ys) sep h hs =
    split-append x (join (y ∷ ys) (sep ∷ [])) sep h
    ∙ ap (λ r. x ∷ r) (split-join y ys sep hs.0 hs.1)
