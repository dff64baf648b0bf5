-- ===== src/Model/Validate.antt =====
-- internal/model/validate.go: each record's problems, joined to one error. `net/mail`'s address
-- parser is a parameter: whether it accepts a text.
pub mod Laws
use ovpn.Prelude.{
  ℕ, ℤ, pos, ltb_ℤ, leb_ℤ, ◌≡◌, refl, Bool, true, false, ◌&&◌, ◌||◌, not, Option, none, some, List,
  [], ◌∷◌, ◌++◌, Text, codes, text_eq, if◌then◌else◌,
}
use ovpn.Strings.{trim_space, contains, split, join, is_blank, text_mem}
use ovpn.Model.Types.{Server, User, role_vpn, role_proxy, vless_enc_xhttp}
use ovpn.Model.Profile.{
  normalize_transport_profile, normalize_enabled_profiles, is_transport_profile_enabled,
}
use ovpn.Model.Role.{normalize_server_role, normalize_proxy_preset, supported_presets_text}
use ovpn.Model.Version.{validate_min_client_version}

-- `if test { errs = append(errs, message) }`
abbrev check : Bool → Text → List Text
check true message = message ∷ []
check false message = []

abbrev concat : List (List Text) → List Text
concat [] = []
concat (xs ∷ rest) = xs ++ concat rest

-- `errors.New(strings.Join(errs, "; "))`, or nil where there is no problem.
abbrev joined : List Text → Option Text
joined [] = none
joined (e ∷ errs) = some (join (e ∷ errs) (codes "; "))

abbrev of_error : Option Text → List Text
of_error none = []
of_error (some e) = e ∷ []

unfoldable pub server_name_problems : Text → List Text
server_name_problems name =
    if is_blank name
    then codes "reality_server_name is required" ∷ []
    else check (contains name (codes "*"))
        (codes "reality_server_name must not contain wildcard '*'")

unfoldable pub unsupported_profiles : List Text → List Text
unsupported_profiles [] = []
unsupported_profiles (part ∷ parts) =
    let raw = trim_space part in
    let rest = unsupported_profiles parts in
    if not (text_eq raw []) && text_eq (normalize_transport_profile raw) []
    then (codes "enabled_profiles contains unsupported transport profile " ++ raw) ∷ rest
    else rest

unfoldable pub preset_problems : Text → Text → List Text
preset_problems role preset =
    if text_eq role role_proxy
    then check (text_eq (normalize_proxy_preset preset) [])
        (codes "proxy_preset must be one of: " ++ supported_presets_text)
    else check (not (is_blank preset)) (codes "proxy_preset is only supported for proxy role")

-- The problems in the order in which `Server.Validate` appends them.
unfoldable pub server_problems : Server → List (List Text)
unfolding server_name_problems unsupported_profiles preset_problems
server_problems s =
    let role = normalize_server_role s.role in
    let has_client = not (is_blank s.vless_client_encryption) in
    let has_server = not (is_blank s.vless_server_decryption) in
    let primary = normalize_transport_profile s.primary_profile in
    let enabled = normalize_enabled_profiles primary s.enabled_profiles in
    let enc = is_transport_profile_enabled s vless_enc_xhttp in
    check (text_eq role []) (codes "role must be \"vpn\" or \"proxy\"")
    ∷ check (is_blank s.name) (codes "name is required")
    ∷ check (is_blank s.host) (codes "host is required")
    ∷ check (is_blank s.domain) (codes "domain is required")
    ∷ check (is_blank s.ssh_user) (codes "ssh_user is required")
    ∷ check (ltb_ℤ s.ssh_port (pos 1) || ltb_ℤ (pos 65535) s.ssh_port)
        (codes "ssh_port must be between 1 and 65535")
    ∷ check (is_blank s.xray_version) (codes "xray_version is required")
    ∷ check (is_blank s.reality_private_key) (codes "reality_private_key is required")
    ∷ check (is_blank s.reality_public_key) (codes "reality_public_key is required")
    ∷ check (is_blank s.reality_short_ids) (codes "reality_short_ids is required")
    ∷ server_name_problems s.reality_server_name
    ∷ check (is_blank s.reality_target) (codes "reality_target is required")
    ∷ of_error (validate_min_client_version s.reality_min_client_version)
    ∷ check ((has_client && not has_server) || (not has_client && has_server))
        (codes "vless encryption client and server values must be configured together")
    ∷ check (text_eq primary []) (codes "primary_profile must be a supported transport profile")
    ∷ check (no_names enabled)
        (codes "enabled_profiles must contain at least one supported transport profile")
    ∷ (if is_blank s.enabled_profiles
        then []
        else unsupported_profiles (split s.enabled_profiles 44))
    ∷ check (not (text_eq primary []) && not (text_mem primary enabled))
        (codes "enabled_profiles must include primary_profile")
    ∷ check (enc && not (text_eq role role_vpn))
        (vless_enc_xhttp ++ codes " is only supported for vpn role")
    ∷ check (enc && (not has_client || not has_server))
        (vless_enc_xhttp ++ codes " requires generated VLESS encryption values")
    ∷ preset_problems role s.proxy_preset
    ∷ []
  where
    no_names : List Text → Bool
    no_names [] = true
    no_names (x ∷ xs) = false

unfoldable pub validate_server : Server → Option Text
unfolding server_problems
validate_server s = joined (concat (server_problems s))

module _ (parse_address : Text → Bool) where
  unfoldable pub email_problems : Text → List Text
  email_problems email =
      if is_blank email
      then codes "email is required" ∷ []
      else check (not (parse_address email)) (codes "email is invalid")

  abbrev limit_negative : Option ℤ → Bool
  limit_negative none = false
  limit_negative (some limit) = ltb_ℤ limit (pos 0)

  unfoldable pub user_problems : User → List (List Text)
  unfolding email_problems
  user_problems u =
      check (leb_ℤ u.server_id (pos 0)) (codes "server_id is required")
      ∷ check (is_blank u.username) (codes "username is required")
      ∷ check (is_blank u.uuid) (codes "uuid is required")
      ∷ email_problems u.email
      ∷ check (limit_negative u.traffic_limit_byte) (codes "traffic_limit_byte must be >= 0")
      ∷ []

  unfoldable pub validate_user : User → Option Text
  unfolding user_problems
  validate_user u = joined (concat (user_problems u))
