-- ===== src/Model/Profile.antt =====
-- internal/model/transport_profile.go
pub mod Laws
pub mod RoundTrip
use ovpn.Prelude.{
  ℕ, ◌≡◌, refl, Bool, true, false, ◌&&◌, ◌||◌, not, Option, none, some, List, [], ◌∷◌, ◌++◌, map,
  Text, codes, text_eq, if◌then◌else◌,
}
use ovpn.Strings.{trim_space, to_lower, has_prefix, contains, split, join, is_blank, text_mem}
use ovpn.Model.Types.{
  TransportProfile, Server, reality_tcp_vision, plain_xhttp, tls_self_sni_web, vless_enc_xhttp,
}

abbrev pub client_prefix : Text
client_prefix = codes "mlkem768x25519plus.native.0rtt."

abbrev pub server_prefix : Text
server_prefix = codes "mlkem768x25519plus.native.600s."

-- strings.ContainsAny(value, " \t\r\n")
abbrev contains_break : Text → Bool
contains_break value =
    contains value (codes " ")
    || contains value (codes "\t")
    || contains value (codes "\r")
    || contains value (codes "\n")

-- strings.TrimPrefix, of a text that has the prefix or not
unfoldable pub trim_prefix : Text → Text → Text
trim_prefix value prefix = if has_prefix value prefix then after value prefix else value
  where
    after : Text → Text → Text
    after s [] = s
    after [] (p ∷ ps) = []
    after (c ∷ s) (p ∷ ps) = after s ps

unfoldable pub is_valid_encryption_value : Text → Text → Bool
is_valid_encryption_value raw prefix =
    let value = trim_space raw in
    has_prefix value prefix
    && not (is_blank (trim_prefix value prefix))
    && not (contains_break value)

unfoldable pub is_valid_client_value : Text → Bool
is_valid_client_value value = is_valid_encryption_value value client_prefix

unfoldable pub is_valid_server_value : Text → Bool
is_valid_server_value value = is_valid_encryption_value value server_prefix

abbrev pub reality_description : Text
reality_description =
    codes
      "Default VLESS over TCP with REALITY and xtls-rprx-vision flow; kept for compatibility and as the baseline REALITY profile."

abbrev pub xhttp_description : Text
xhttp_description =
    codes
      "VLESS over XHTTP without stream security on a high port; operator-controlled fallback for degraded REALITY paths."

abbrev pub tls_description : Text
tls_description =
    codes
      "VLESS over TCP/TLS with xtls-rprx-vision and HTTPS fallback to a normal internal web service."

abbrev pub enc_description : Text
enc_description =
    codes "Experimental VLESS Encryption over XHTTP with ML-KEM-768/X25519 and ticket-based 0-RTT."

-- The table, in display order.
abbrev pub transport_profiles : List TransportProfile
transport_profiles =
    record {
      name = reality_tcp_vision;
      kind = codes "reality";
      status = codes "default";
      port = 443;
      inbound_tag = codes "vless-reality";
      description = reality_description;
    }
    ∷ record {
      name = plain_xhttp;
      kind = codes "plain-xhttp";
      status = codes "fallback";
      port = 13179;
      inbound_tag = codes "vless-xhttp-plain";
      description = xhttp_description;
    }
    ∷ record {
      name = tls_self_sni_web;
      kind = codes "tls-selfsni-web";
      status = codes "camouflage";
      port = 443;
      inbound_tag = codes "vless-tcp-tls-selfsni-web";
      description = tls_description;
    }
    ∷ record {
      name = vless_enc_xhttp;
      kind = codes "vless-encryption-xhttp";
      status = codes "experimental";
      port = 13180;
      inbound_tag = codes "vless-xhttp-vlessenc";
      description = enc_description;
    }
    ∷ []

abbrev pub supported_profiles_text : Text
supported_profiles_text = join (map (λ p. p.name) transport_profiles) (codes ", ")

abbrev reality_names : List Text
reality_names =
    []
    ∷ codes "default"
    ∷ codes "tcp"
    ∷ codes "reality"
    ∷ codes "vision"
    ∷ codes "vless-reality"
    ∷ reality_tcp_vision
    ∷ []

abbrev xhttp_names : List Text
xhttp_names = codes "plain-xhttp" ∷ codes "xhttp-plain" ∷ codes "emergency-xhttp" ∷ plain_xhttp ∷ []

abbrev tls_names : List Text
tls_names =
    codes "tls"
    ∷ codes "selfsni"
    ∷ codes "self-sni"
    ∷ codes "tls-selfsni"
    ∷ codes "tls-selfsni-web"
    ∷ codes "vless-tls"
    ∷ tls_self_sni_web
    ∷ []

abbrev enc_names : List Text
enc_names =
    codes "vlessenc"
    ∷ codes "vless-enc"
    ∷ codes "xhttp-vlessenc"
    ∷ codes "vlessenc-xhttp"
    ∷ vless_enc_xhttp
    ∷ []

-- The `switch` on the lowered name.
profile_of_name : Text → Text
profile_of_name name =
    if text_mem name reality_names
    then reality_tcp_vision
    else if text_mem name xhttp_names
    then plain_xhttp
    else if text_mem name tls_names
    then tls_self_sni_web
    else if text_mem name enc_names
    then vless_enc_xhttp
    else []

unfoldable pub normalize_transport_profile : Text → Text
unfolding profile_of_name
normalize_transport_profile name = profile_of_name (to_lower (trim_space name))

find_profile : Text → List TransportProfile → Option TransportProfile
find_profile name [] = none
find_profile name (p ∷ ps) = if text_eq p.name name then some p else find_profile name ps

unfoldable pub lookup_transport_profile : Text → Option TransportProfile
unfolding find_profile
lookup_transport_profile name = find_profile (normalize_transport_profile name) transport_profiles

-- The loop over the candidates; `seen` holds what `out` holds.
unique_profiles : List Text → List Text → List Text
unique_profiles seen [] = []
unique_profiles seen (candidate ∷ rest) =
    let name = normalize_transport_profile candidate in
    let skip = unique_profiles seen rest in
    let keep = name ∷ unique_profiles (name ∷ seen) rest in
    if text_eq name [] || text_mem name seen then skip else keep

-- The second loop of `sortProfilesByKnownOrder`: names that the table does not know, each once.
unknown_once : List Text → List Text → List Text
unknown_once gone [] = []
unknown_once gone (item ∷ rest) =
    let skip = unknown_once gone rest in
    let keep = item ∷ unknown_once (item ∷ gone) rest in if text_mem item gone then skip else keep

known_order : List TransportProfile → List Text → List Text
known_order [] names = []
known_order (p ∷ ps) names =
    let rest = known_order ps names in if text_mem p.name names then p.name ∷ rest else rest

sort_by_known_order : List Text → List Text
unfolding known_order unknown_once
sort_by_known_order names =
    let known = known_order transport_profiles names in known ++ unknown_once known names

abbrev or_default : List Text → List Text
or_default [] = reality_tcp_vision ∷ []
or_default (x ∷ xs) = x ∷ xs

unfoldable pub normalize_enabled_profiles : Text → Text → List Text
unfolding unique_profiles sort_by_known_order
normalize_enabled_profiles primary raw =
    let candidates = if is_blank raw then [] else split raw 44 in
    sort_by_known_order (or_default (unique_profiles [] (primary ∷ candidates)))

pub enabled_profiles_csv : Text → Text → Text
enabled_profiles_csv primary raw = join (normalize_enabled_profiles primary raw) (codes ",")

unfoldable pub normalized_primary_profile : Server → Text
normalized_primary_profile s =
    let primary = normalize_transport_profile s.primary_profile in
    if text_eq primary [] then reality_tcp_vision else primary

unfoldable pub normalized_enabled_profiles : Server → List Text
normalized_enabled_profiles s =
    normalize_enabled_profiles (normalized_primary_profile s) s.enabled_profiles

unfoldable pub is_transport_profile_enabled : Server → Text → Bool
is_transport_profile_enabled s profile =
    let name = normalize_transport_profile profile in
    if text_eq name [] then false else text_mem name (normalized_enabled_profiles s)
