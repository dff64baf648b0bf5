-- ===== src/Daemon/Runtime.antt =====
-- The routes that change one user's place in Xray (cmd/ovpn-agent/http_routes.go).
use ovpn.Prelude.{
  Bool, true, false, ◌&&◌, ◌||◌, not, Option, none, some, List, [], ◌∷◌, Text, codes, Exec, ok, err,
  pure, ◌>>=◌, text_eq, if◌then◌else◌,
}
use ovpn.Strings.{trim_space, contains, is_blank}
use ovpn.Remote.Quota.{
  QuotaState, get_quota_state, get_quota_policy, set_quota_blocked, list_quota_policies,
}
use ovpn.Remote.Users.{get_user_policy}
use ovpn.Model.Types.{Time, QuotaUserPolicy, UserPolicy}
use ovpn.Model.Expiry.{is_effectively_enabled}
use ovpn.Stats.{quota_event, runtime_event, xray_reachable, Agent, on_store, emit, error_lower}
use ovpn.Daemon.{
  Request, RuntimeReq, RouteDeps, failure, user_failure, done, absent, reset_done, Served, respond,
  method_not_allowed, invalid_request, server_error, store_error, attempt, decoded, is_post,
}

unfoldable pub is_runtime_user_absent_error : Text → Bool
is_runtime_user_absent_error e =
    let text = error_lower e in
    contains text (codes "not found")
    || contains text (codes "not exist")
    || (contains text (codes "failed to remove") && contains text (codes "user"))

unfoldable pub is_runtime_user_already_present_error : Text → Bool
is_runtime_user_already_present_error e =
    let text = error_lower e in
    contains text (codes "already exists") || contains text (codes "already exist")

abbrev pub manual_reset : Text
manual_reset = codes "manual_reset"

abbrev pub add_word : Text
add_word = codes "add"

abbrev pub remove_word : Text
remove_word = codes "remove"

abbrev pub is_enabled_now : Option UserPolicy → Time → Bool
is_enabled_now none now = false
is_enabled_now (some u) now = is_effectively_enabled u.enabled u.expiry_at now

abbrev pub is_refused_now : Option UserPolicy → Time → Bool
is_refused_now none now = false
is_refused_now (some u) now = not (is_effectively_enabled u.enabled u.expiry_at now)

abbrev pub is_blocked : Option QuotaState → Bool
is_blocked none = false
is_blocked (some s) = s.blocked

abbrev pub quota_disabled : Option QuotaUserPolicy → Bool
quota_disabled none = true
quota_disabled (some p) = not p.quota_enabled

abbrev pub trimmed_runtime : RuntimeReq → RuntimeReq
trimmed_runtime q = record {
  inbound_tag = trim_space q.inbound_tag;
  email = trim_space q.email;
  uuid = trim_space q.uuid;
}

module _ {S : Type 0} where
  abbrev pub observe_runtime : Text → Text → Agent S → Agent S
  observe_runtime action outcome a = emit true (runtime_event action outcome) a

module _ {S : Type 0} (d : RouteDeps S) where
  -- What AddUser's result makes of the loop: whether a user was put back.
  abbrev pub readded : Option Text × S → Exec (Agent S) Bool
  readded (none, s) a = (ok true, record a { runtime = s })
  readded (some e, s) a =
      if is_runtime_user_already_present_error e
      then (ok true, record a { runtime = s })
      else (err e, emit true (quota_event manual_reset (codes "error")) (record a { runtime = s }))

  unfoldable pub readd_policy : Text → QuotaUserPolicy → Bool → Exec (Agent S) Bool
  unfolding is_runtime_user_already_present_error emit
  readd_policy email p seen a =
      if not (text_eq p.email email) || is_blank p.uuid
      then (ok seen, a)
      else readded (d.runtime.add_user p.inbound_tag p.email p.uuid a.runtime) a

  unfoldable pub readd_policies : Text → List QuotaUserPolicy → Bool → Exec (Agent S) Bool
  unfolding ◌>>=◌ pure readd_policy
  readd_policies email [] seen = pure seen
  readd_policies email (p ∷ ps) seen =
      readd_policy email p seen >>= λ now_seen. readd_policies email ps now_seen

module _ {F S : Type 0} (d : RouteDeps S) where
  abbrev pub reset_answer : Text → Bool → Agent S → Served F S
  reset_answer email seen a = respond 200 (reset_done email seen) (
      d.refresh_once (if seen then emit true (quota_event manual_reset (codes "success")) a else a))

  unfoldable pub reset_quota : Text → Agent S → Served F S
  unfolding on_store set_quota_blocked list_quota_policies get_user_policy readd_policies
      is_effectively_enabled emit
  reset_quota email a =
      attempt (on_store (set_quota_blocked email false none) a) (store_error (codes "quota_reset"))
        (λ _ b.
          attempt (on_store list_quota_policies b) (store_error (codes "quota_list_policy"))
            (λ listed c.
              attempt (on_store (get_user_policy email) c) (store_error (codes "user_get_policy"))
                (λ found e.
                  if is_enabled_now found e.world.now
                  then attempt (readd_policies d email listed false e) server_error
                      (reset_answer email)
                  else reset_answer email false e)))

  abbrev with_email : Text → (Text → Agent S → Served F S) → Agent S → Served F S
  with_email given next a =
      let email = trim_space given in
      if text_eq email [] then respond 400 (failure (codes "email is required")) a else next email a

  -- POST /quota/reset
  unfoldable pub quota_reset_route : Request → Agent S → Served F S
  unfolding reset_quota trim_space
  quota_reset_route r a =
      if is_post r
      then decoded (d.decoders.quota_reset_req r.body) (λ given. with_email given reset_quota) a
      else method_not_allowed a

  -- An error of the store on the way to an addition.
  abbrev pub add_store_error : Text → Text → Agent S → Served F S
  add_store_error operation e a =
      let (answer, b) : Served F S = store_error operation e a in
      (answer, observe_runtime add_word (codes "error") b)

  abbrev pub add_answer : Option Text × S → Agent S → Served F S
  add_answer (none, s) a = respond 200 done (
      emit true (xray_reachable true)
        (observe_runtime add_word (codes "success") (record a { runtime = s })))
  add_answer (some e, s) a =
      server_error e (observe_runtime add_word (codes "error") (record a { runtime = s }))

  -- The user's expiry decides, and then Xray is called.
  unfoldable pub add_unless_expired : RuntimeReq → Agent S → Served F S
  unfolding on_store get_user_policy is_effectively_enabled emit
  add_unless_expired q a =
      attempt (on_store (get_user_policy q.email) a) (add_store_error (codes "user_get_policy"))
        (λ found b.
          if is_refused_now found b.world.now
          then respond 409 (user_failure (codes "user is disabled or expired") q.email)
              (observe_runtime add_word (codes "blocked_by_expiry") b)
          else add_answer (d.runtime.add_user q.inbound_tag q.email q.uuid b.runtime) b)

  -- A block that the policy no longer asks for is lifted; any other refuses the user.
  unfoldable pub add_blocked : RuntimeReq → Agent S → Served F S
  unfolding on_store get_quota_policy set_quota_blocked add_unless_expired emit
  add_blocked q a =
      attempt (on_store (get_quota_policy q.email) a) (add_store_error (codes "quota_get_policy"))
        (λ policy b.
          if quota_disabled policy
          then attempt (on_store (set_quota_blocked q.email false none) b)
              (add_store_error (codes "quota_set_blocked"))
              (λ _ c. add_unless_expired q (d.refresh_once c))
          else respond 409 (user_failure (codes "user is blocked by rolling 30d quota") q.email)
              (observe_runtime add_word (codes "blocked_by_quota") b))

  unfoldable pub add_runtime_user : RuntimeReq → Agent S → Served F S
  unfolding on_store get_quota_state add_blocked add_unless_expired emit
  add_runtime_user q a =
      attempt (on_store (get_quota_state q.email) a) (add_store_error (codes "quota_get_state"))
        (λ state b. if is_blocked state then add_blocked q b else add_unless_expired q b)

  abbrev pub add_decoded : Option RuntimeReq → Agent S → Served F S
  add_decoded none a = invalid_request (observe_runtime add_word (codes "bad_request") a)
  add_decoded (some given) a =
      let q = trimmed_runtime given in
      if text_eq q.email [] || text_eq q.uuid []
      then respond 400 (failure (codes "email and uuid are required"))
          (observe_runtime add_word (codes "bad_request") a)
      else add_runtime_user q a

  -- POST /runtime/user/add
  unfoldable pub runtime_add_route : Request → Agent S → Served F S
  unfolding add_runtime_user trim_space emit
  runtime_add_route r a =
      if is_post r
      then add_decoded (d.decoders.runtime_req r.body) a
      else method_not_allowed (observe_runtime add_word (codes "method_not_allowed") a)

  abbrev remove_answer : Option Text × S → Agent S → Served F S
  remove_answer (none, s) a = respond 200 done (
      emit true (xray_reachable true)
        (observe_runtime remove_word (codes "success") (record a { runtime = s })))
  remove_answer (some e, s) a =
      if is_runtime_user_absent_error e
      then respond 200 absent (
          emit true (xray_reachable true)
            (observe_runtime remove_word (codes "already_absent") (record a { runtime = s })))
      else server_error e (observe_runtime remove_word (codes "error") (record a { runtime = s }))

  abbrev remove_decoded : Option RuntimeReq → Agent S → Served F S
  remove_decoded none a = invalid_request (observe_runtime remove_word (codes "bad_request") a)
  remove_decoded (some given) a =
      let tag = trim_space given.inbound_tag in
      let email = trim_space given.email in
      if text_eq email []
      then respond 400 (failure (codes "email is required"))
          (observe_runtime remove_word (codes "bad_request") a)
      else remove_answer (d.runtime.remove_user tag email a.runtime) a

  -- POST /runtime/user/remove
  unfoldable pub runtime_remove_route : Request → Agent S → Served F S
  unfolding is_runtime_user_absent_error trim_space emit
  runtime_remove_route r a =
      if is_post r
      then remove_decoded (d.decoders.runtime_req r.body) a
      else method_not_allowed (observe_runtime remove_word (codes "method_not_allowed") a)
