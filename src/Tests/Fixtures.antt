-- ===== src/Tests/Fixtures.antt =====
-- Test data: a store, exact fractions in the place of float64, and an Xray that serves the pairs of
-- inbound and user that its state says.
use ovpn.Prelude.{
  [], ℕ, ℤ, pos, negsuc, ◌*◌, ◌^◌, leb, ◌≡◌, refl, inl, inr, Bool, true, false, ◌&&◌, Bool-cases,
  Option, none, some, List, Text, codes, arith, text_eq, text_eq_refl, if◌then◌else◌,
}
use ovpn.Model.Types.{Server}
use ovpn.Float.{Float64}
use ovpn.Remote.{World, empty_db, nanos_per_second}
use ovpn.Stats.{RuntimeManager}
use ovpn.Stats.Quota.Membership.{IsMembership}
use ovpn.Stats.Expiry.Laws.{IsRemoval}

abbrev pub noon : ℕ
noon = 1000000 * nanos_per_second

abbrev pub store_with : List (Option Text) → World
store_with outcomes = record {
  db = empty_db;
  now = noon;
  outcomes = outcomes;
  conflict = codes "UNIQUE constraint failed";
}

abbrev numerator_of : ℤ → ℕ × ℕ
numerator_of (pos n) = (n, 1)
numerator_of (negsuc n) = (0, 1)

abbrev fraction_div : ℕ × ℕ → ℕ × ℕ → ℕ × ℕ
fraction_div (a, b) (c, d) = (a * d, b * c)

abbrev fraction_mul : ℕ × ℕ → ℕ × ℕ → ℕ × ℕ
fraction_mul (a, b) (c, d) = (a * c, b * d)

abbrev fraction_at_most : ℕ × ℕ → ℕ × ℕ → Bool
fraction_at_most (a, b) (c, d) = leb (a * d) (c * b)

abbrev fraction_hours : ℕ × ℕ → ℕ × ℕ
fraction_hours (a, b) = (a, b * (3600 * nanos_per_second))

abbrev pub fractions : Float64
fractions = record {
  F = ℕ × ℕ;
  of_int64 = numerator_of;
  mul = fraction_mul;
  div = fraction_div;
  at_most = fraction_at_most;
  literal = λ m k. (m, 10 ^ k);
  hours = λ z. fraction_hours (numerator_of z);
}

abbrev pub Served : Type 0
Served = Text → Text → Bool

abbrev serve : Text → Text → Bool → Served → Served
serve tag email b s t m = if text_eq t tag && text_eq m email then b else s t m

abbrev pub everyone : Served
everyone t m = true

abbrev pub nobody : Served
nobody t m = false

abbrev pub xray : RuntimeManager Served
xray = record {
  add_user = λ tag email uuid s.
      if s tag email
      then (some (codes "user already exists"), s)
      else (none, serve tag email true s);
  remove_user = λ tag email s.
      if s tag email then (none, serve tag email false s) else (some (codes "user not found"), s);
}

abbrev pub has_served : Served → Text → Text → Bool
has_served s t m = s t m

serve_self : (tag email : Text) (b : Bool) (s : Served) → serve tag email b s tag email ≡ b
serve_self tag email b s = rw (text_eq_refl tag) (rw (text_eq_refl email) refl)

pub xray-IsMembership : IsMembership xray has_served
xray-IsMembership = record {
  removed = λ tag email s. elim (Bool-cases (s tag email)) [
    | inl e ↦ rw e (λ h. serve_self tag email false s)
    | inr e ↦ rw e (λ h. absurd (ground arith))
  ];
  remove_others = λ tag email s t m ne. elim (Bool-cases (s tag email)) [
    | inl e ↦ rw e (rw ne refl)
    | inr e ↦ rw e refl
  ];
  added = λ tag email uuid s. elim (Bool-cases (s tag email)) [
    | inl e ↦ rw e (λ h. absurd (ground arith))
    | inr e ↦ rw e (λ h. serve_self tag email true s)
  ];
  present = λ tag email uuid s x. elim (Bool-cases (s tag email)) [
    | inl e ↦ rw e (λ h p. e)
    | inr e ↦ rw e (λ h p. serve_self tag email true s)
  ];
  add_others = λ tag email uuid s t m ne. elim (Bool-cases (s tag email)) [
    | inl e ↦ rw e refl
    | inr e ↦ rw e (rw ne refl)
  ];
}

pub xray-IsRemoval : IsRemoval xray has_served
xray-IsRemoval = record {
  removed = λ tag email s. elim (Bool-cases (s tag email)) [
    | inl e ↦ rw e (λ h. serve_self tag email false s)
    | inr e ↦ rw e (λ h. absurd (ground arith))
  ];
  not_found = λ tag email s x. elim (Bool-cases (s tag email)) [
    | inl e ↦ rw e (λ h p. serve_self tag email false s)
    | inr e ↦ rw e (λ h p. e)
  ];
  adds_none = λ tag email s t m h. elim (Bool-cases (s tag email)) [
    | inl e ↦ rw e (ground arith)
    | inr e ↦ rw e h
  ];
}

abbrev pub server : Server
server = record {
  id = pos 1;
  name = codes "main";
  role = codes "VPN";
  host = codes "192.0.2.1";
  domain = codes "vpn.example";
  ssh_user = codes "root";
  ssh_port = pos 22;
  ssh_identity_file = [];
  ssh_known_hosts_file = [];
  ssh_strict_host_key = true;
  xray_version = codes "26.3.27";
  reality_private_key = codes "k";
  reality_public_key = codes "p";
  reality_short_ids = codes "a1";
  reality_server_name = codes "www.example";
  reality_target = codes "www.example:443";
  reality_min_client_version = codes "1.8.24";
  vless_client_encryption = [];
  vless_server_decryption = [];
  primary_profile = codes "reality";
  enabled_profiles = codes "tls, reality";
  proxy_preset = [];
  proxy_service_uuid = [];
  enabled = true;
  created_at = noon;
  updated_at = noon;
  last_deploy_at = none;
}
