-- ===== src/Strings/Laws.antt =====
-- Trimming is idempotent, and a trimmed text has no white space at its ends.
use ovpn.Prelude.{ℕ, ◌≡◌, refl, false, [], ◌∷◌, Text, arith}
use ovpn.Strings.{is_space, trim_left, trim_right, trim_space, cons_unless_blank}

abbrev StartsSolid : Text → Type 0
StartsSolid [] = Unit
StartsSolid (c ∷ s) = is_space c ≡ false

StartsSolid-trim_left : (s : Text) → StartsSolid (trim_left s)
unfolding trim_left
StartsSolid-trim_left [] = tt
StartsSolid-trim_left (c ∷ s) = ground (arith, StartsSolid-trim_left s)

trim_left_of_StartsSolid : (s : Text) → StartsSolid s → trim_left s ≡ s
unfolding trim_left
trim_left_of_StartsSolid [] h = refl
trim_left_of_StartsSolid (c ∷ s) h = rw h

StartsSolid-cons_unless_blank :
    (c : ℕ) (r : Text) → is_space c ≡ false → StartsSolid (cons_unless_blank c r)
StartsSolid-cons_unless_blank c [] h = rw h h
StartsSolid-cons_unless_blank c (d ∷ r) h = h

StartsSolid-trim_right : (s : Text) → StartsSolid s → StartsSolid (trim_right s)
unfolding trim_right
StartsSolid-trim_right [] h = tt
StartsSolid-trim_right (c ∷ s) h = StartsSolid-cons_unless_blank c (trim_right s) h

trim_right-cons_unless_blank :
    (c : ℕ) (r : Text)
    → trim_right r ≡ r
    → trim_right (cons_unless_blank c r) ≡ cons_unless_blank c r
unfolding trim_right
trim_right-cons_unless_blank c [] h = ground arith
trim_right-cons_unless_blank c (d ∷ r) h = rw h

trim_right-trim_right : (s : Text) → trim_right (trim_right s) ≡ trim_right s
unfolding trim_right
trim_right-trim_right [] = refl
trim_right-trim_right (c ∷ s) =
    trim_right-cons_unless_blank c (trim_right s) (trim_right-trim_right s)

-- What is trimmed once stays as it is when it is trimmed again.
pub trim_space-trim_space : (s : Text) → trim_space (trim_space s) ≡ trim_space s
unfolding trim_space
trim_space-trim_space s =
    rw
      (trim_left_of_StartsSolid (trim_right (trim_left s))
        (StartsSolid-trim_right (trim_left s) (StartsSolid-trim_left s)))
      (trim_right-trim_right (trim_left s))
