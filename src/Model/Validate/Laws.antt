-- ===== src/Model/Validate/Laws.antt =====
-- What a record that passed validation is known to hold.
use ovpn.Prelude.{
  pos, ◌≤ℤ◌, ◌≡◌, refl, ◌≢◌, ◌⊎◌, inl, inr, Bool-cases, true, false, none, List, [], ◌∷◌, ◌++◌,
  Text, arith, All, codes, text_eq, text_eq_iff,
}
use ovpn.Strings.{is_blank, contains, text_mem}
use ovpn.Model.Types.{Server, role_vpn, role_proxy, vless_enc_xhttp}
use ovpn.Model.Profile.{
  normalize_transport_profile, normalize_enabled_profiles, is_transport_profile_enabled,
}
use ovpn.Model.Role.{normalize_server_role, normalize_proxy_preset, role_cases}
use ovpn.Model.Version.{IsVersion, validate-IsVersion_iff}
use ovpn.Model.Validate.{concat, joined, server_problems, validate_server}

append-eq-nil : (xs ys : List Text) → xs ++ ys ≡ [] → (xs ≡ []) × (ys ≡ [])
append-eq-nil [] ys h = (refl, h)
append-eq-nil (x ∷ xs) ys h = absurd (ground arith)

concat-eq-nil : (xss : List (List Text)) → concat xss ≡ [] → All (λ xs. xs ≡ []) xss
concat-eq-nil [] h = tt
concat-eq-nil (xs ∷ xss) h =
    let (here, rest) = append-eq-nil xs (concat xss) h in (here, concat-eq-nil xss rest)

joined-eq-none : (xs : List Text) → joined xs ≡ none → xs ≡ []
joined-eq-none [] h = refl
joined-eq-none (x ∷ xs) h = absurd (ground arith)

no_problem : (s : Server) → validate_server s ≡ none → All (λ xs. xs ≡ []) (server_problems s)
unfolding validate_server
no_problem s h = concat-eq-nil (server_problems s) (joined-eq-none (concat (server_problems s)) h)

-- What is known of a server that was accepted.
pub record IsDeployable (s : Server) : Type 0 where
  pub role : (normalize_server_role s.role ≡ role_vpn) ⊎ (normalize_server_role s.role ≡ role_proxy)
  pub port : (pos 1 ≤ℤ s.ssh_port) × (s.ssh_port ≤ℤ pos 65535)
  pub addressed :
      (is_blank s.name ≡ false)
      × (is_blank s.host ≡ false)
      × (is_blank s.domain ≡ false)
      × (is_blank s.ssh_user ≡ false)
  pub keyed :
      (is_blank s.reality_private_key ≡ false)
      × (is_blank s.reality_public_key ≡ false)
      × (is_blank s.reality_short_ids ≡ false)
      × (is_blank s.reality_target ≡ false)
  pub server_name :
      (is_blank s.reality_server_name ≡ false)
      × (contains s.reality_server_name (codes "*") ≡ false)
  pub version : (s.reality_min_client_version ≡ []) ⊎ IsVersion s.reality_min_client_version
  pub encryption : is_blank s.vless_client_encryption ≡ is_blank s.vless_server_decryption
  pub primary : normalize_transport_profile s.primary_profile ≢ []
  pub listed :
      text_mem (normalize_transport_profile s.primary_profile) (
        normalize_enabled_profiles
          (normalize_transport_profile s.primary_profile)
          s.enabled_profiles)
      ≡ true
  pub enc_needs_vpn :
      (is_transport_profile_enabled s vless_enc_xhttp ≡ false)
      ⊎ ((normalize_server_role s.role ≡ role_vpn) × (is_blank s.vless_client_encryption ≡ false))
  pub preset :
      ((normalize_server_role s.role ≡ role_proxy) × (normalize_proxy_preset s.proxy_preset ≢ []))
      ⊎ ((normalize_server_role s.role ≡ role_vpn) × (is_blank s.proxy_preset ≡ true))

vpn-ne-proxy : text_eq role_vpn role_proxy ≡ false
unfolding text_eq
vpn-ne-proxy = refl

-- A server that `Validate` accepts has: the role vpn or proxy; an SSH port from 1 to 65535; a
-- name, host, domain, SSH user, private and public key, short ids and target that are not blank; a
-- server name that is not blank and has no `*`; a minimum client version that is empty or three
-- decimal bytes with dots; both VLESS encryption values or neither; a known primary profile, which
-- is among its enabled ones; the VLESS Encryption profile off, or the vpn role and its client
-- value set; and a supported preset under the proxy role, none under the vpn role.
pub validate_server-IsDeployable : (s : Server) → validate_server s ≡ none → IsDeployable s
unfolding server_problems
validate_server-IsDeployable s h =
    let facts = no_problem s h in
    let role = normalize_server_role s.role in
    record {
      role = ground (arith, role_cases s.role, text_eq_iff role []);
      port = (ground arith, ground arith);
      addressed = (ground arith, ground arith, ground arith, ground arith);
      keyed = (ground arith, ground arith, ground arith, ground arith);
      server_name = (ground arith, ground arith);
      version = (validate-IsVersion_iff s.reality_min_client_version).0 (ground arith);
      encryption = ground arith;
      primary = ground (arith, text_eq_iff (normalize_transport_profile s.primary_profile) []);
      listed = ground (arith, text_eq_iff (normalize_transport_profile s.primary_profile) []);
      enc_needs_vpn = elim (Bool-cases (is_transport_profile_enabled s vless_enc_xhttp)) [
        | inl e ↦ inr (ground (arith, text_eq_iff role role_vpn), ground arith)
        | inr e ↦ inl e
      ];
      preset = elim (Bool-cases (text_eq role role_proxy)) [
        | inl e ↦ inl (
          (text_eq_iff role role_proxy).0 e,
          ground (arith, text_eq_iff (normalize_proxy_preset s.proxy_preset) []),
        )
        | inr e ↦ inr (
          ground (arith, role_cases s.role, text_eq_iff role role_proxy, text_eq_iff role []),
          ground arith,
        )
      ];
    }
