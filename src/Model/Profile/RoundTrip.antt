-- ===== src/Model/Profile/RoundTrip.antt =====
-- The list of enabled profiles that is stored as comma-separated text comes back when it is read.
use ovpn.Prelude.{
  ◌≡◌, refl, Bool, true, false, ◌||◌, ◌&&◌, not, ◌∙◌, List, [], ◌∷◌, Text, codes, arith, text_eq,
  text_eq_iff, if◌then◌else◌,
}
use ovpn.Strings.{text_mem, split, join, is_blank, trim_space, to_lower}
use ovpn.Model.Types.{reality_tcp_vision, plain_xhttp, tls_self_sni_web, vless_enc_xhttp}
use ovpn.Model.Profile.{
  normalize_transport_profile, normalize_enabled_profiles, enabled_profiles_csv,
}
use ovpn.Model.Profile.Laws.{
  known_names, normalize_cases, wanted, any_wanted, select, listed, select_ext, candidates,
  normalize_enabled-eq-select,
}

-- The four names picked by four tests.
pick : Bool → Bool → Bool → Bool → List Text
pick a b c d =
    let none_more : List Text = [] in
    let from_d = if d then vless_enc_xhttp ∷ none_more else none_more in
    let from_c = if c then tls_self_sni_web ∷ from_d else from_d in
    let from_b = if b then plain_xhttp ∷ from_c else from_c in
    if a then reality_tcp_vision ∷ from_b else from_b

select-eq-pick :
    (f : Text → Bool)
    → select f known_names
      ≡ pick (f reality_tcp_vision) (f plain_xhttp) (f tls_self_sni_web) (f vless_enc_xhttp)
unfolding select pick
select-eq-pick f = refl

abbrev stored : List Text → Text
stored names = join names (codes ",")

pick_stored :
    (a b c d : Bool)
    → (a || b || c || d) ≡ true
    → (is_blank (stored (pick a b c d)) ≡ false) × (split (stored (pick a b c d)) 44 ≡ pick a b c d)
unfolding pick join split trim_space text_eq
pick_stored false false false false h = cc
pick_stored true true true true h = (refl, refl)
pick_stored true true true false h = (refl, refl)
pick_stored true true false true h = (refl, refl)
pick_stored true true false false h = (refl, refl)
pick_stored true false true true h = (refl, refl)
pick_stored true false true false h = (refl, refl)
pick_stored true false false true h = (refl, refl)
pick_stored true false false false h = (refl, refl)
pick_stored false true true true h = (refl, refl)
pick_stored false true true false h = (refl, refl)
pick_stored false true false true h = (refl, refl)
pick_stored false true false false h = (refl, refl)
pick_stored false false true true h = (refl, refl)
pick_stored false false true false h = (refl, refl)
pick_stored false false false true h = (refl, refl)

wanted-pick :
    (a b c d : Bool)
    → (wanted reality_tcp_vision (pick a b c d) ≡ a)
      × (wanted plain_xhttp (pick a b c d) ≡ b)
      × (wanted tls_self_sni_web (pick a b c d) ≡ c)
      × (wanted vless_enc_xhttp (pick a b c d) ≡ d)
      × (any_wanted (pick a b c d) ≡ (a || b || c || d))
unfolding pick wanted any_wanted normalize_transport_profile to_lower trim_space text_eq text_mem
wanted-pick true true true true = (refl, refl, refl, refl, refl)
wanted-pick true true true false = (refl, refl, refl, refl, refl)
wanted-pick true true false true = (refl, refl, refl, refl, refl)
wanted-pick true true false false = (refl, refl, refl, refl, refl)
wanted-pick true false true true = (refl, refl, refl, refl, refl)
wanted-pick true false true false = (refl, refl, refl, refl, refl)
wanted-pick true false false true = (refl, refl, refl, refl, refl)
wanted-pick true false false false = (refl, refl, refl, refl, refl)
wanted-pick false true true true = (refl, refl, refl, refl, refl)
wanted-pick false true true false = (refl, refl, refl, refl, refl)
wanted-pick false true false true = (refl, refl, refl, refl, refl)
wanted-pick false true false false = (refl, refl, refl, refl, refl)
wanted-pick false false true true = (refl, refl, refl, refl, refl)
wanted-pick false false true false = (refl, refl, refl, refl, refl)
wanted-pick false false false true = (refl, refl, refl, refl, refl)
wanted-pick false false false false = (refl, refl, refl, refl, refl)

abbrev some_known : (Text → Bool) → Bool
some_known f = f reality_tcp_vision || f plain_xhttp || f tls_self_sni_web || f vless_enc_xhttp

some_known-wanted : (cs : List Text) → any_wanted cs ≡ true → some_known (λ k. wanted k cs) ≡ true
unfolding any_wanted wanted
some_known-wanted [] h = cc
some_known-wanted (c ∷ cs) h =
    let n = normalize_transport_profile c in
    ground (
      arith,
      normalize_cases c,
      text_eq_iff n [],
      text_eq_iff n reality_tcp_vision,
      text_eq_iff n plain_xhttp,
      text_eq_iff n tls_self_sni_web,
      text_eq_iff n vless_enc_xhttp,
      some_known-wanted cs,
    )

some_known-listed : (cs : List Text) → some_known (listed cs) ≡ true
unfolding text_eq
some_known-listed cs = ground (arith, some_known-wanted cs)

absorb : (e y z n t : Bool) → ((e || ((e || y) || z)) || (not (n || true) && t)) ≡ ((e || y) || z)
absorb e y z n t = ground arith

module _ (p : Text) (rest : List Text) where
  abbrev f : Text → Bool
  f = listed (p ∷ rest)

  abbrev out : List Text
  out = select f known_names

  candidates_stored : candidates p (stored out) ≡ p ∷ out
  unfolding candidates
  candidates_stored =
      let (solid, back) =
        pick_stored (f reality_tcp_vision) (f plain_xhttp) (f tls_self_sni_web) (f vless_enc_xhttp)
          (some_known-listed (p ∷ rest)) in
      rw (select-eq-pick f) (rw (solid, back) refl)

  listed_again : (k : Text) → wanted k out ≡ f k → any_wanted out ≡ true → listed (p ∷ out) k ≡ f k
  unfolding wanted any_wanted
  listed_again k w any =
      rw (w, any)
        (absorb (text_eq (normalize_transport_profile p) k) (wanted k rest)
          (not (any_wanted (p ∷ rest)) && text_eq reality_tcp_vision k)
          (not (text_eq (normalize_transport_profile p) [])) (text_eq reality_tcp_vision k))

  listed_stored : select (listed (p ∷ out)) known_names ≡ out
  listed_stored =
      let (wa, wb, wc, wd, any) = wanted_out in
      select_ext (listed (p ∷ out)) f known_names (
        listed_again reality_tcp_vision wa any,
        (
          listed_again plain_xhttp wb any,
          (listed_again tls_self_sni_web wc any, (listed_again vless_enc_xhttp wd any, tt)),
        ),
      )
    where
      wanted_out :
          (wanted reality_tcp_vision out ≡ f reality_tcp_vision)
          × (wanted plain_xhttp out ≡ f plain_xhttp)
          × (wanted tls_self_sni_web out ≡ f tls_self_sni_web)
          × (wanted vless_enc_xhttp out ≡ f vless_enc_xhttp)
          × (any_wanted out ≡ true)
      wanted_out =
          let (wa, wb, wc, wd, any) =
            wanted-pick (f reality_tcp_vision) (f plain_xhttp) (f tls_self_sni_web)
              (f vless_enc_xhttp) in
          rw (select-eq-pick f) (wa, wb, wc, wd, any ∙ some_known-listed (p ∷ rest))

-- Reading back the list that was stored as text gives the list, whatever the stored text held.
pub enabled_round_trip :
    (primary raw : Text)
    → normalize_enabled_profiles primary (enabled_profiles_csv primary raw)
      ≡ normalize_enabled_profiles primary raw
unfolding enabled_profiles_csv candidates
enabled_round_trip primary raw =
    let rest = if is_blank raw then [] else split raw 44 in
    rw (normalize_enabled-eq-select primary raw) (
      normalize_enabled-eq-select primary (stored (out primary rest))
      ∙ rw (candidates_stored primary rest) (listed_stored primary rest))
