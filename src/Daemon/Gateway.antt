-- ===== src/Daemon/Gateway.antt =====
-- cmd/ovpn-agent/runtime_gateway.go: the daemon's calls of Xray. `connect` is the error of a new
-- gRPC client, and the calls of a client are Xray's to answer. The gauge that a call sets is kept
-- beside the inbounds.
pub mod Effect
use ovpn.Prelude.{
  ◌≡◌, refl, Bool, true, false, Option, none, some, List, [], ◌∷◌, ◌++◌, Text, codes, arith,
  Bool-cases, Option-cases, inl, inr, ap, ◌∙◌, if◌then◌else◌,
}
use ovpn.Strings.{is_blank}
use ovpn.Stats.{Event, xray_reachable, RuntimeManager, is_missing}
use ovpn.Daemon.Runtime.{is_runtime_user_already_present_error}

pub record XrayClient (S : Type 0) : Type 0 where
  pub connect : S → Option Text
  pub calls : RuntimeManager S

abbrev pub default_tag : Text → Text
default_tag tag = if is_blank tag then codes "vless-reality" else tag

module _ {S : Type 0} (c : XrayClient S) where
  abbrev pub Gateway : Type 0
  Gateway = S × List Event

  abbrev seen_reachable : Bool → List Event → List Event
  seen_reachable reachable seen = seen ++ xray_reachable reachable ∷ []

  -- What a new client that fails gives, and else what its call does.
  abbrev pub reached : Option Text → Option Text × Gateway → Gateway → Option Text × Gateway
  reached none answer g = answer
  reached (some e) answer (s, seen) = (some e, (s, seen_reachable false seen))

  abbrev pub gateway_added : Option Text × S → List Event → Option Text × Gateway
  gateway_added (none, s) seen = (none, (s, seen_reachable true seen))
  gateway_added (some e, s) seen =
      if is_runtime_user_already_present_error e
      then (none, (s, seen_reachable true seen))
      else (some e, (s, seen))

  abbrev pub removed_user : Option Text × S → List Event → Option Text × Gateway
  removed_user (none, s) seen = (none, (s, seen_reachable true seen))
  removed_user (some e, s) seen = (some e, (s, seen))

  unfoldable pub gateway_add_user : Text → Text → Text → Gateway → Option Text × Gateway
  unfolding is_blank is_runtime_user_already_present_error
  gateway_add_user tag email uuid (s, seen) =
      reached (c.connect s) (gateway_added (c.calls.add_user (default_tag tag) email uuid s) seen)
        (s, seen)

  unfoldable pub gateway_remove_user : Text → Text → Gateway → Option Text × Gateway
  unfolding is_blank
  gateway_remove_user tag email (s, seen) =
      reached (c.connect s) (removed_user (c.calls.remove_user (default_tag tag) email s) seen)
        (s, seen)

  abbrev pub runtime_gateway : RuntimeManager Gateway
  runtime_gateway = record { add_user = gateway_add_user; remove_user = gateway_remove_user }
