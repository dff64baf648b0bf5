-- ===== src/Daemon.antt =====
-- cmd/ovpn-agent: the daemon's HTTP interface. A request and a response are data; net/http's routing
-- and encoding/json's decoding belong to Go's libraries. The gauges that a handler sets stand in the
-- trace of the agent (Stats); log lines are left out.
pub mod Auth
pub mod Sync
pub mod Runtime
pub mod Reading
pub mod Reports
pub mod Gauges
pub mod Gateway
pub mod Reset
pub mod Serve
pub mod Rules
pub mod Admission
pub mod Synced
use ovpn.Prelude.{
  ℕ, ℤ, ◌≡◌, Bool, true, false, Option, none, some, List, [], ◌∷◌, Text, codes, Exec, Result, ok,
  err, text_eq, if◌then◌else◌,
}
use ovpn.Model.Types.{
  Time, UserTraffic, QuotaUserPolicy, UserPolicy, QuotaStatusResponse, UserStatusResponse,
  ConnectionDebugSession, ConnectionDebugEvent, UserDiagnosticsResponse,
}
use ovpn.Stats.{Event, db_write_error, RuntimeManager, Agent, emit}
use ovpn.Stats.Quota.{QuotaEnforcer}
use ovpn.Stats.Expiry.{ExpiryEnforcer}

pub record Request : Type 0 where
  pub verb : Text
  pub path : Text
  pub authorization : Text
  pub query : Text → Text
  pub body : Text

pub record RuntimeReq : Type 0 where
  pub inbound_tag : Text
  pub email : Text
  pub uuid : Text

pub record DebugStartReq : Type 0 where
  pub email : Text
  pub duration : Text

-- json.Decoder on each type of request; nothing where it fails.
pub record Decoders : Type 0 where
  pub runtime_req : Text → Option RuntimeReq
  pub quota_sync_req : Text → Option (List QuotaUserPolicy)
  pub users_sync_req : Text → Option (List UserPolicy)
  pub quota_reset_req : Text → Option Text
  pub debug_start_req : Text → Option DebugStartReq
  pub debug_stop_req : Text → Option Text

pub record Health : Type 0 where
  pub xray_error : Option Text
  pub last_collect_at : Text
  pub last_reset_at : Text
  pub time : ℕ

-- The JSON payloads, `F` being the type of float64.
pub data Payload (F : Type 0) : Type 0 where
  failure : Text → Payload F
  user_failure : Text → Text → Payload F
  done : Payload F
  done_users : ℕ → Payload F
  done_email : Text → Payload F
  absent : Payload F
  reset_done : Text → Bool → Payload F
  traffic : List UserTraffic → Payload F
  quotas : QuotaStatusResponse → Payload F
  accesses : UserStatusResponse F → Payload F
  policies : List QuotaUserPolicy → Payload F
  session : ConnectionDebugSession → Payload F
  sessions : ℕ → List ConnectionDebugSession → Payload F
  events : Text → ℕ → ℕ → List ConnectionDebugEvent → Payload F
  diagnostics : UserDiagnosticsResponse F → Payload F
  health : Health → Payload F
  elsewhere : Payload F

pub record Response (F : Type 0) : Type 0 where
  pub status : ℕ
  pub payload : Payload F

-- routeDeps. `refresh_once` sets gauges from the store; `collector` is the collector's CollectOnce.
pub record RouteDeps (S : Type 0) : Type 0 where
  pub decoders : Decoders
  pub quota : QuotaEnforcer S
  pub expiry : Option (ExpiryEnforcer S)
  pub runtime : RuntimeManager S
  pub collect_once : Option (Exec (Agent S) (Unit {0}))
  pub collector : Option (Exec (Agent S) (Unit {0}))
  pub refresh_once : Agent S → Agent S
  pub api_error : S → Option Text

abbrev pub Served : Type 0 → Type 0 → Type 0
Served F S = Response F × Agent S

module _ {F S : Type 0} where
  abbrev pub respond : ℕ → Payload F → Agent S → Served F S
  respond status payload a = (record { status = status; payload = payload }, a)

  abbrev pub method_not_allowed : Agent S → Served F S
  method_not_allowed a = respond 405 (Payload.failure (codes "method not allowed")) a

  abbrev pub invalid_request : Agent S → Served F S
  invalid_request a = respond 400 (Payload.failure (codes "invalid request")) a

  abbrev pub server_error : Text → Agent S → Served F S
  server_error e a = respond 500 (Payload.failure e) a

  -- An error of the store, counted by its operation.
  abbrev pub store_error : Text → Text → Agent S → Served F S
  store_error operation e a = server_error e (emit true (db_write_error operation) a)

  -- `if err != nil { …; return }`, with what comes next.
  abbrev pub attempt :
      {A : Type 0}
      → Result A × Agent S
      → (Text → Agent S → Served F S)
      → (A → Agent S → Served F S)
      → Served F S
  attempt (ok x, a) bad good = good x a
  attempt (err e, a) bad good = bad e a

  -- A request with the verb and a body that decodes.
  abbrev pub decoded : {A : Type 0} → Option A → (A → Agent S → Served F S) → Agent S → Served F S
  decoded none next a = invalid_request a
  decoded (some x) next a = next x a

abbrev pub is_post : Request → Bool
is_post r = text_eq r.verb (codes "POST")

abbrev pub is_get : Request → Bool
is_get r = text_eq r.verb (codes "GET")
