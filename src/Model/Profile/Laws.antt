-- ===== src/Model/Profile/Laws.antt =====
-- Which profile names the program works with, and in which order it lists them.
use ovpn.Prelude.{
  ◌≡◌, refl, ap, ◌∙◌, subst, not, ◌&&◌, ◌⊎◌, inl, inr, Bool, true, false, ◌||◌, List, [], ◌∷◌,
  append-nil, Text, arith, text_eq, text_eq_refl, text_eq_iff, Member, All, if◌then◌else◌,
}
use ovpn.Strings.{text_mem, split, is_blank, trim_space, to_lower}
use ovpn.Model.Types.{reality_tcp_vision, plain_xhttp, tls_self_sni_web, vless_enc_xhttp}
use ovpn.Model.Profile.{
  profile_of_name, normalize_transport_profile, transport_profiles, known_order, unknown_once,
  unique_profiles, sort_by_known_order, or_default, normalize_enabled_profiles,
}

abbrev pub known_names : List Text
known_names = reality_tcp_vision ∷ plain_xhttp ∷ tls_self_sni_web ∷ vless_enc_xhttp ∷ []

abbrev pub IsKnown : Text → Type 0
IsKnown name = Member name known_names

profile_of_name_cases : (n : Text) → (profile_of_name n ≡ []) ⊎ IsKnown (profile_of_name n)
unfolding profile_of_name
profile_of_name_cases n = ground arith

-- A normalized name is empty or one of the four names.
pub normalize_cases :
    (n : Text) → (normalize_transport_profile n ≡ []) ⊎ IsKnown (normalize_transport_profile n)
unfolding normalize_transport_profile
normalize_cases n = profile_of_name_cases (to_lower (trim_space n))

-- A name of the table is its own normal form.
pub normalize_of_IsKnown : (n : Text) → IsKnown n → normalize_transport_profile n ≡ n
unfolding normalize_transport_profile to_lower trim_space text_eq text_mem
normalize_of_IsKnown n (inl e) = subst (λ m. normalize_transport_profile m ≡ m) e refl
normalize_of_IsKnown n (inr (inl e)) = subst (λ m. normalize_transport_profile m ≡ m) e refl
normalize_of_IsKnown n (inr (inr (inl e))) = subst (λ m. normalize_transport_profile m ≡ m) e refl
normalize_of_IsKnown n (inr (inr (inr (inl e)))) =
    subst (λ m. normalize_transport_profile m ≡ m) e refl
normalize_of_IsKnown n (inr (inr (inr (inr h)))) = absurd h

-- Whether some candidate names the profile `k`.
unfoldable pub wanted : Text → List Text → Bool
wanted k [] = false
wanted k (c ∷ cs) = text_eq (normalize_transport_profile c) k || wanted k cs

text_mem_unique :
    (k : Text) (seen cs : List Text)
    → text_eq k [] ≡ false
    → text_mem k (unique_profiles seen cs) ≡ (not (text_mem k seen) && wanted k cs)
unfolding unique_profiles text_mem wanted
text_mem_unique k seen [] solid = ground arith
text_mem_unique k seen (c ∷ cs) solid =
    let n = normalize_transport_profile c in
    ground (
      arith,
      text_eq_iff n [],
      text_eq_iff n k,
      text_eq_iff k [],
      text_mem_unique k seen cs,
      text_mem_unique k (n ∷ seen) cs,
    )

unique-IsKnown : (seen cs : List Text) → All IsKnown (unique_profiles seen cs)
unfolding unique_profiles
unique-IsKnown seen [] = tt
unique-IsKnown seen (c ∷ cs) =
    let n = normalize_transport_profile c in
    ground (
      arith,
      text_eq_iff n [],
      normalize_cases c,
      unique-IsKnown seen cs,
      unique-IsKnown (n ∷ seen) cs,
    )

or_default-IsKnown : (xs : List Text) → All IsKnown xs → All IsKnown (or_default xs)
or_default-IsKnown [] h = (inl refl, tt)
or_default-IsKnown (x ∷ xs) h = h

-- The four names that a test picks, in display order.
unfoldable pub select : (Text → Bool) → List Text → List Text
select f [] = []
select f (k ∷ ks) = let rest = select f ks in if f k then k ∷ rest else rest

known_order-eq-select :
    (xs : List Text) → known_order transport_profiles xs ≡ select (λ k. text_mem k xs) known_names
unfolding known_order select
known_order-eq-select xs = refl

abbrev known_of : List Text → List Text
known_of xs = select (λ k. text_mem k xs) known_names

text_mem-select :
    (x : Text) (f : Text → Bool) (ks : List Text)
    → Member x ks
    → f x ≡ true
    → text_mem x (select f ks) ≡ true
unfolding select text_mem
text_mem-select x f [] m h = absurd m
text_mem-select x f (k ∷ ks) (inl e) h = ground (arith, ap f e, text_eq_iff k x)
text_mem-select x f (k ∷ ks) (inr m) h = ground (arith, text_mem-select x f ks m h)

unknown_once-nil :
    (gone xs : List Text) → All (λ x. text_mem x gone ≡ true) xs → unknown_once gone xs ≡ []
unfolding unknown_once
unknown_once-nil gone [] h = refl
unknown_once-nil gone (x ∷ xs) h = rw (h.0) (unknown_once-nil gone xs h.1)

All-known_of :
    (xs all : List Text)
    → ((x : Text) → text_mem x xs ≡ true → text_mem x all ≡ true)
    → All IsKnown xs
    → All (λ x. text_mem x (known_of all) ≡ true) xs
unfolding text_mem
All-known_of [] all sub h = tt
All-known_of (x ∷ xs) all sub h = (
  text_mem-select x (λ k. text_mem k all) known_names h.0 (sub x (rw (text_eq_refl x) refl)),
  All-known_of xs all (λ y m. sub y (ground arith)) h.1,
)

sort-eq-known_of : (xs : List Text) → All IsKnown xs → sort_by_known_order xs ≡ known_of xs
unfolding sort_by_known_order
sort-eq-known_of xs h = rw (known_order-eq-select xs) (
    rw (unknown_once-nil (known_of xs) xs (All-known_of xs xs (λ x m. m) h))
      (append-nil (known_of xs)))

pub select_ext :
    (f g : Text → Bool) (ks : List Text) → All (λ k. f k ≡ g k) ks → select f ks ≡ select g ks
unfolding select
select_ext f g [] h = refl
select_ext f g (k ∷ ks) h = rw (h.0, select_ext f g ks h.1)

unfoldable pub candidates : Text → Text → List Text
candidates primary raw = primary ∷ (if is_blank raw then [] else split raw 44)

-- Whether some candidate names a profile at all.
unfoldable pub any_wanted : List Text → Bool
any_wanted [] = false
any_wanted (c ∷ cs) = not (text_eq (normalize_transport_profile c) []) || any_wanted cs

-- What `k` must meet to be listed: a candidate names it, or none names any and it is the default.
abbrev pub listed : List Text → Text → Bool
listed cs k = wanted k cs || (not (any_wanted cs) && text_eq reality_tcp_vision k)

abbrev is_nil : List Text → Bool
is_nil [] = true
is_nil (x ∷ xs) = false

is_nil_unique : (cs : List Text) → is_nil (unique_profiles [] cs) ≡ not (any_wanted cs)
unfolding unique_profiles any_wanted text_mem
is_nil_unique [] = refl
is_nil_unique (c ∷ cs) = ground (arith, is_nil_unique cs)

text_mem-or_default :
    (k : Text) (u : List Text) (b : Bool)
    → is_nil u ≡ not b
    → text_mem k (or_default u) ≡ (text_mem k u || (not b && text_eq reality_tcp_vision k))
unfolding text_mem
text_mem-or_default k [] b h = ground arith
text_mem-or_default k (x ∷ u) b h = ground arith

mem_default-eq-listed :
    (k : Text) (cs : List Text)
    → text_eq k [] ≡ false
    → text_mem k (or_default (unique_profiles [] cs)) ≡ listed cs k
unfolding text_mem
mem_default-eq-listed k cs solid =
    rw (text_mem-or_default k (unique_profiles [] cs) (any_wanted cs) (is_nil_unique cs))
      (rw (text_mem_unique k [] cs solid) refl)

-- The names listed are those of the four, in display order and each once, that a candidate names,
-- or the default profile alone where the candidates name none.
pub normalize_enabled-eq-select :
    (primary raw : Text)
    → normalize_enabled_profiles primary raw ≡ select (listed (candidates primary raw)) known_names
unfolding normalize_enabled_profiles candidates text_eq
normalize_enabled-eq-select primary raw =
    let cs = candidates primary raw in
    let u = or_default (unique_profiles [] cs) in
    sort-eq-known_of u (or_default-IsKnown (unique_profiles [] cs) (unique-IsKnown [] cs))
    ∙ select_ext (λ k. text_mem k u) (listed cs) known_names
        (
          mem_default-eq-listed reality_tcp_vision cs refl,
          (
            mem_default-eq-listed plain_xhttp cs refl,
            (
              mem_default-eq-listed tls_self_sni_web cs refl,
              (mem_default-eq-listed vless_enc_xhttp cs refl, tt),
            ),
          ),
        )
