-- ===== src/Tests/Texts.antt =====
-- Runs of the text functions and of the parsers on them.
use ovpn.Prelude.{◌≡◌, refl, true, [], ◌∷◌, none, some, codes, text_eq}
use ovpn.Strings.{trim_space, to_lower, split, contains, text_mem}
use ovpn.Model.Types.{reality_tcp_vision, tls_self_sni_web}
use ovpn.Model.Version.{validate_min_client_version, is_octet, version_error}
use ovpn.Model.Profile.{normalize_transport_profile, normalize_enabled_profiles}

version_test : validate_min_client_version (codes "1.8.24") ≡ none
unfolding validate_min_client_version is_octet split
version_test = refl

version_wide : validate_min_client_version (codes "1.256.0") ≡ some version_error
unfolding validate_min_client_version is_octet split
version_wide = refl

normalize_test : normalize_transport_profile (codes " TLS ") ≡ tls_self_sni_web
unfolding normalize_transport_profile to_lower trim_space text_eq text_mem
normalize_test = refl

enabled_test :
    normalize_enabled_profiles (codes "tls") (codes "bogus, reality,tls")
    ≡ reality_tcp_vision ∷ tls_self_sni_web ∷ []
unfolding normalize_enabled_profiles normalize_transport_profile to_lower trim_space text_eq
    text_mem split
enabled_test = refl

trim_test : trim_space (codes "  Ab c\t") ≡ codes "Ab c"
unfolding trim_space
trim_test = refl

split_test : split (codes "a,,b") 44 ≡ codes "a" ∷ [] ∷ codes "b" ∷ []
unfolding split
split_test = refl

contains_test : contains (codes "User already exists.") (codes "already exist") ≡ true
unfolding contains
contains_test = refl
