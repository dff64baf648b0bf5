-- ===== src/Daemon/Gauges/Quiet.antt =====
-- The refresh of the gauges reads (cmd/ovpn-agent/http_routes.go, newMetricsRefreshFunc).
use ovpn.Float.{Float64}
use ovpn.Prelude.{refl, ◌∙◌, [], Text, Exec, Result, ok, err}
use ovpn.Driver.Reads.{Reads}
use ovpn.Remote.{World}
use ovpn.Remote.Reading.{
  Reads-totals, Reads-quota_status, Reads-user_status, Reads-metric_snapshots,
}
use ovpn.Remote.Traffic.{list_totals}
use ovpn.Remote.Status.{quota_status}
use ovpn.Remote.UserStatus.{user_status}
use ovpn.Remote.Reports.{list_connection_metric_snapshots}
use ovpn.Model.Types.{Time}
use ovpn.Stats.{Agent, on_store, emit}
use ovpn.Stats.Quota.{default_quota_bytes}
use ovpn.Daemon.Reading.{default_quota_window}
use ovpn.Daemon.Rules.{SameAgent}
use ovpn.Daemon.Admission.{IsQuiet}
use ovpn.Daemon.Gauges.{
  Refreshed, gauges_or, refresh_connections, refresh_users, refresh_quota, refresh_totals,
  metrics_refresh,
}

module _ (f : Float64) (date_text : Time → Text) {S : Type 0} where
  abbrev IsQuietRun : (Agent S → Refreshed f.F S) → Type 0
  IsQuietRun run = (a : Agent S) → SameAgent a (run a).1

  gauges_or_quiet :
      {A : Type 0} (operation : Text) (next : A → Agent S → Refreshed f.F S)
      (run : Result A × Agent S) (a : Agent S)
      → SameAgent a run.1
      → ((x : A) → IsQuietRun (next x))
      → SameAgent a (gauges_or operation next run).1
  unfolding emit
  gauges_or_quiet operation next (err e, b) a same quiet = same
  gauges_or_quiet operation next (ok x, b) a (db, now, runtime) quiet =
      let (db', now', runtime') = quiet x b in (db' ∙ db, now' ∙ now, runtime' ∙ runtime)

  read_quiet :
      {A : Type 0} (m : Exec World A) (operation : Text) (next : A → Agent S → Refreshed f.F S)
      → Reads m
      → ((x : A) → IsQuietRun (next x))
      → IsQuietRun (λ a. gauges_or operation next (on_store m a))
  unfolding on_store
  read_quiet m operation next reads quiet a =
      let (db, now) = reads a.world in
      gauges_or_quiet operation next (on_store m a) a (db, now, refl) quiet

  totals_quiet : IsQuietRun (refresh_totals f date_text)
  unfolding refresh_totals
  totals_quiet = read_quiet list_totals _ _ Reads-totals (λ rows b. (refl, refl, refl))

  connections_quiet : (now : Time) → IsQuietRun (refresh_connections f date_text now)
  unfolding refresh_connections
  connections_quiet now =
      read_quiet (list_connection_metric_snapshots _ now) _ _ (Reads-metric_snapshots _ now)
        (λ rows b. (refl, refl, refl))

  users_quiet : (now : Time) → IsQuietRun (refresh_users f date_text now)
  unfolding refresh_users
  users_quiet now =
      read_quiet (user_status f date_text now default_quota_window default_quota_bytes []) _ _
        (Reads-user_status f date_text now default_quota_window default_quota_bytes [])
        (λ status. connections_quiet now)

  quota_quiet : (now : Time) → IsQuietRun (refresh_quota f date_text now)
  unfolding refresh_quota
  quota_quiet now =
      read_quiet (quota_status now default_quota_window default_quota_bytes []) _ _
        (Reads-quota_status now default_quota_window default_quota_bytes [])
        (λ status. users_quiet now)

  -- Whatever the store answers, the refresh of the gauges leaves the database, the clock and Xray as
  -- they were: it is a refresh such as /runtime/user/add and /users/sync need.
  pub metrics_refresh-IsQuiet : IsQuiet (λ (a : Agent S). (metrics_refresh f date_text a).1)
  unfolding metrics_refresh
  metrics_refresh-IsQuiet a =
      let (db, now, runtime) = totals_quiet a in
      let b = (refresh_totals f date_text a).1 in
      let (db', now', runtime') = quota_quiet b.world.now b in
      (db' ∙ db, now' ∙ now, runtime' ∙ runtime)
