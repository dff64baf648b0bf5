-- ===== src/Daemon/Sync.antt =====
-- The routes that take the operator's users and policies over, and the one that collects
-- (cmd/ovpn-agent/http_routes.go).
use ovpn.Float.{Float64}
use ovpn.Prelude.{Option, none, some, List, codes, Exec, ok, length, if◌then◌else◌}
use ovpn.Remote.Quota.{replace_quota_policies}
use ovpn.Remote.Users.{replace_user_policies}
use ovpn.Model.Types.{Time, QuotaUserPolicy, UserPolicy}
use ovpn.Stats.{Agent, on_store}
use ovpn.Stats.Quota.Loop.{enforce}
use ovpn.Stats.Expiry.{ExpiryEnforcer, enforce_expiry}
use ovpn.Daemon.{
  Request, RouteDeps, done, done_users, Served, respond, method_not_allowed, server_error,
  store_error, attempt, decoded, is_post,
}

abbrev first_set : {A : Type 0} → Option A → Option A → Option A
first_set none other = other
first_set (some x) other = some x

module _ (f : Float64) {S : Type 0} (d : RouteDeps S) where
  abbrev collect_with : Option (Exec (Agent S) (Unit {0})) → Agent S → Served f.F S
  collect_with none a = server_error (codes "collector is not configured") a
  collect_with (some collect) a = attempt (collect a) server_error (λ _. respond 200 done)

  -- POST /collect
  unfoldable pub collect_route : Request → Agent S → Served f.F S
  collect_route r a =
      if is_post r
      then collect_with (first_set d.collect_once d.collector) a
      else method_not_allowed a

  unfoldable pub sync_quota : List QuotaUserPolicy → Agent S → Served f.F S
  unfolding on_store replace_quota_policies enforce
  sync_quota users a =
      attempt (on_store (replace_quota_policies users) a)
        (store_error (codes "replace_quota_policy"))
        (λ _ b.
          attempt (enforce f d.quota b.world.now b) server_error
            (λ _ c. respond 200 (done_users (length users)) (d.refresh_once c)))

  -- POST /quota/sync
  unfoldable pub quota_sync_route : Request → Agent S → Served f.F S
  unfolding sync_quota
  quota_sync_route r a =
      if is_post r
      then decoded (d.decoders.quota_sync_req r.body) sync_quota a
      else method_not_allowed a

  abbrev pub enforce_if_set : Option (ExpiryEnforcer S) → Time → Exec (Agent S) (Unit {0})
  enforce_if_set none now a = (ok tt, a)
  enforce_if_set (some x) now a = enforce_expiry x now a

  unfoldable pub sync_users : List UserPolicy → Agent S → Served f.F S
  unfolding on_store replace_user_policies enforce_expiry
  sync_users users a =
      attempt (on_store (replace_user_policies users) a) (store_error (codes "replace_user_policy"))
        (λ _ b.
          attempt (enforce_if_set d.expiry b.world.now b) server_error
            (λ _ c. respond 200 (done_users (length users)) (d.refresh_once c)))

  -- POST /users/sync
  unfoldable pub users_sync_route : Request → Agent S → Served f.F S
  unfolding sync_users
  users_sync_route r a =
      if is_post r
      then decoded (d.decoders.users_sync_req r.body) sync_users a
      else method_not_allowed a
