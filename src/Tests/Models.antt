-- ===== src/Tests/Models.antt =====
-- The theorems on the records at concrete values.
use ovpn.Prelude.{◌≡◌, refl, ◌⊎◌, ◌↔◌, none, [], codes, text_eq}
use ovpn.Strings.{trim_space, to_lower, split, contains, text_mem}
use ovpn.Model.Types.{reality_tcp_vision}
use ovpn.Model.Version.{validate_min_client_version, IsVersion, validate-IsVersion_iff, is_octet}
use ovpn.Model.Profile.{
  normalize_enabled_profiles, normalize_transport_profile, enabled_profiles_csv,
  is_transport_profile_enabled, normalized_enabled_profiles, normalized_primary_profile,
}
use ovpn.Model.Profile.Laws.{candidates, listed, select, known_names, normalize_enabled-eq-select}
use ovpn.Model.Profile.RoundTrip.{enabled_round_trip}
use ovpn.Model.Role.{normalize_server_role}
use ovpn.Model.Validate.{validate_server, server_problems}
use ovpn.Model.Validate.Laws.{IsDeployable, validate_server-IsDeployable}
use ovpn.Tests.Fixtures.{server}

server_accepted : validate_server server ≡ none
unfolding validate_server server_problems validate_min_client_version normalize_server_role
    normalize_enabled_profiles normalize_transport_profile is_transport_profile_enabled is_octet
    split contains to_lower trim_space text_eq text_mem normalized_enabled_profiles
    normalized_primary_profile
server_accepted = refl

validate_server-IsDeployable_example : IsDeployable server
validate_server-IsDeployable_example = validate_server-IsDeployable server server_accepted

validate-IsVersion_iff_example :
    (validate_min_client_version (codes "1.256.0") ≡ none)
    ↔ ((codes "1.256.0" ≡ []) ⊎ IsVersion (codes "1.256.0"))
validate-IsVersion_iff_example = validate-IsVersion_iff (codes "1.256.0")

enabled_round_trip_example :
    normalize_enabled_profiles reality_tcp_vision
      (enabled_profiles_csv reality_tcp_vision (codes "tls, bogus"))
    ≡ normalize_enabled_profiles reality_tcp_vision (codes "tls, bogus")
enabled_round_trip_example = enabled_round_trip reality_tcp_vision (codes "tls, bogus")

normalize_enabled-eq-select_example :
    normalize_enabled_profiles (codes "tls") (codes "tls, reality")
    ≡ select (listed (candidates (codes "tls") (codes "tls, reality"))) known_names
normalize_enabled-eq-select_example =
    normalize_enabled-eq-select (codes "tls") (codes "tls, reality")
