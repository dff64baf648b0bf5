-- ===== src/Tests/Routes.antt =====
-- The theorems on the daemon's routes at requests that meet their hypotheses.
use ovpn.Prelude.{
  pos, ◌≡◌, refl, ◌⊎◌, inl, inr, true, false, none, some, [], ◌∷◌, Text, codes, text_eq,
}
use ovpn.Strings.{trim_space, text_mem}
use ovpn.Sql.{first_row, insert_row, order_by}
use ovpn.Model.Types.{Time, UserPolicy}
use ovpn.Remote.{nanos_per_second}
use ovpn.Model.Expiry.{is_effectively_enabled}
use ovpn.Remote.Users.{user_in, replace_user_policies, user_policy_row}
use ovpn.Stats.{Agent}
use ovpn.Stats.Quota.{QuotaEnforcer}
use ovpn.Stats.Expiry.{ExpiryEnforcer}
use ovpn.Daemon.{Request, RuntimeReq, Decoders, RouteDeps}
use ovpn.Daemon.Auth.{read_only_agent_paths, bearer_token_matches}
use ovpn.Daemon.Reading.{TimeParsers}
use ovpn.Daemon.Gauges.{metrics_refresh}
use ovpn.Daemon.Gauges.Quiet.{metrics_refresh-IsQuiet}
use ovpn.Daemon.Reset.{IsUnblocked, reset_quota-IsUnblocked}
use ovpn.Remote.Quota.{set_quota_blocked}
use ovpn.Daemon.Gateway.{XrayClient, gateway_add_user, gateway_remove_user}
use ovpn.Daemon.Gateway.Effect.{TakesEffect, runtime_gateway-TakesEffect}
use ovpn.Daemon.Serve.{serve}
use ovpn.Daemon.Serve.ReadOnly.{Keeps, serve-Keeps}
use ovpn.Daemon.Runtime.{reset_quota, runtime_add_route, is_refused_now}
use ovpn.Daemon.Admission.{IsKeptOut, IsQuiet, runtime_add_route-IsKeptOut}
use ovpn.Daemon.Sync.{sync_users}
use ovpn.Daemon.Synced.{IsSynced, sync_users-IsSynced}
use ovpn.Tests.Fixtures.{
  store_with, Served, everyone, xray, nobody, has_served, xray-IsMembership, xray-IsRemoval,
  fractions,
}

abbrev ann : Text
ann = codes "ann@a"

-- Ann's access ended long before noon.
abbrev expired_user : UserPolicy
expired_user = record {
  username = codes "ann";
  email = ann;
  uuid = codes "u1";
  enabled = true;
  expiry_at = some nanos_per_second;
  inbound_tag = codes "vless-reality";
}

abbrev quota_enforcer : QuotaEnforcer Served
quota_enforcer = record {
  runtime = some xray;
  default_window_30d_quota_byte = pos 0;
  window = pos 0;
  on_event = true;
  on_blocked_users = true;
  on_usage_bands = true;
  on_notify = true;
}

abbrev expiry_enforcer : ExpiryEnforcer Served
expiry_enforcer = record { runtime = some xray }

abbrev runtime_request : RuntimeReq
runtime_request = record { inbound_tag = codes "vless-reality"; email = ann; uuid = codes "u1" }

abbrev decoders : Decoders
decoders = record {
  runtime_req = λ body. some runtime_request;
  quota_sync_req = λ body. some [];
  users_sync_req = λ body. some (expired_user ∷ []);
  quota_reset_req = λ body. some ann;
  debug_start_req = λ body. none;
  debug_stop_req = λ body. none;
}

abbrev no_time : Time → Text
no_time t = []

abbrev deps : RouteDeps Served
deps = record {
  decoders = decoders;
  quota = quota_enforcer;
  expiry = some expiry_enforcer;
  runtime = xray;
  collect_once = none;
  collector = none;
  refresh_once = λ a. (metrics_refresh fractions no_time a).1;
  api_error = λ s. none;
}

deps-IsQuiet : IsQuiet deps.refresh_once
deps-IsQuiet = metrics_refresh-IsQuiet fractions no_time

abbrev request_to : Text → Text → Request
request_to path authorization = record {
  verb = codes "POST";
  path = path;
  authorization = authorization;
  query = λ key. [];
  body = [];
}

abbrev agent : Agent Served
agent = record { world = store_with []; runtime = everyone; trace = [] }

abbrev parsers : TimeParsers
parsers = record { duration = λ t. none; instant = λ t. none; day = λ t. none }

abbrev token : Text
token = codes "secret"

abbrev intruder : Request
intruder = request_to (codes "/runtime/user/add") (codes "Bearer wrong")

token_is_set : text_eq (trim_space token) [] ≡ false
unfolding text_eq trim_space
token_is_set = refl

wrong_token : bearer_token_matches intruder.authorization (trim_space token) ≡ false
unfolding bearer_token_matches text_eq trim_space
wrong_token = refl

serve-Keeps_example :
    Keeps agent (serve parsers fractions no_time deps token intruder agent)
    × ((text_mem intruder.path read_only_agent_paths ≡ true)
        ⊎ (((serve parsers fractions no_time deps token intruder agent).0.status ≡ 401)
            × ((serve parsers fractions no_time deps token intruder agent).1 ≡ agent)))
serve-Keeps_example =
    serve-Keeps parsers fractions no_time deps token intruder agent token_is_set wrong_token

-- Ann has been mirrored, as expired.
abbrev with_ann : Agent Served
with_ann = record agent { world = (replace_user_policies (expired_user ∷ []) (store_with [])).1 }

ann_expired :
    is_refused_now (user_in (trim_space runtime_request.email) with_ann.world.db) with_ann.world.now
    ≡ true
unfolding replace_user_policies insert_row user_policy_row text_eq trim_space first_row
    is_effectively_enabled
ann_expired = refl

runtime_add_route-IsKeptOut_example :
    IsKeptOut with_ann (runtime_add_route {F = fractions.F} deps intruder with_ann)
runtime_add_route-IsKeptOut_example =
    runtime_add_route-IsKeptOut fractions.F deps deps-IsQuiet intruder with_ann runtime_request refl
      (inr ann_expired)

sync_answers : (sync_users fractions deps (expired_user ∷ []) agent).0.status ≡ 200
unfolding sync_users insert_row order_by user_policy_row text_eq trim_space
sync_answers = refl

sync_users-IsSynced_example :
    IsSynced fractions deps expiry_enforcer xray has_served xray-IsRemoval refl refl deps-IsQuiet
      (expired_user ∷ [])
      agent
      (sync_users fractions deps (expired_user ∷ []) agent).1
sync_users-IsSynced_example =
    sync_users-IsSynced fractions deps expiry_enforcer xray has_served xray-IsRemoval refl refl
      deps-IsQuiet (expired_user ∷ []) agent sync_answers

abbrev client : XrayClient Served
client = record { connect = λ s. none; calls = xray }

blank : trim_space [] ≡ []
unfolding trim_space
blank = refl

runtime_gateway-TakesEffect_example :
    TakesEffect client has_served xray-IsMembership
      (codes "vless-reality")
      ann
      true
      nobody
      (gateway_add_user client [] ann (codes "u1") (nobody, []))
    × TakesEffect client has_served xray-IsMembership
        (codes "vless-reality")
        ann
        false
        nobody
        (gateway_remove_user client [] ann (nobody, []))
runtime_gateway-TakesEffect_example =
    runtime_gateway-TakesEffect client has_served xray-IsMembership [] (codes "vless-reality") ann
      (codes "u1") nobody [] (inl (blank, refl))

-- Ann is blocked.
abbrev with_block : Agent Served
with_block = record agent { world = (set_quota_blocked ann true none (store_with [])).1 }

reset_answers : (reset_quota {F = fractions.F} deps ann with_block).0.status ≡ 200
unfolding reset_quota first_row
reset_answers = refl

reset_quota-IsUnblocked_example :
    IsUnblocked ann (reset_quota {F = fractions.F} deps ann with_block).1
reset_quota-IsUnblocked_example =
    reset_quota-IsUnblocked deps fractions.F deps-IsQuiet ann with_block reset_answers
