-- ===== src/Remote/Reading.antt =====
-- The calls of the store that read leave its tables and its clock as they are.
use ovpn.Float.{Float64}
use ovpn.Prelude.{ℕ, ℤ, refl, [], Text, pure, List, ◌∷◌}
use ovpn.Driver.Reads.{Reads, Reads-query, Reads-bind}
use ovpn.Remote.Meta.{get_meta}
use ovpn.Remote.Traffic.{list_totals, list_daily}
use ovpn.Remote.Quota.{list_quota_policies, list_quota_states, list_usage_between}
use ovpn.Remote.Users.{get_user_policy, list_user_policies}
use ovpn.Remote.Status.{quota_status}
use ovpn.Remote.UserStatus.{user_status}
use ovpn.Remote.Sessions.{get_debug_session}
use ovpn.Remote.Reports.{
  connection_top_ports, connection_report, connection_diagnostics, snapshots,
  list_connection_metric_snapshots, user_traffic_between, rows_within, connection_rows,
  source_networks, snapshot_networks,
}
use ovpn.Remote.{ConnectionRow, query}
use ovpn.Model.Types.{Time}

pub Reads-usage : (since until : Time) → Reads (list_usage_between since until)
unfolding list_usage_between
Reads-usage since until = Reads-query _

pub Reads-policies : Reads list_quota_policies
unfolding list_quota_policies
Reads-policies = Reads-query _

pub Reads-states : Reads list_quota_states
unfolding list_quota_states
Reads-states = Reads-query _

pub Reads-users : Reads list_user_policies
unfolding list_user_policies
Reads-users = Reads-query _

pub Reads-user : (email : Text) → Reads (get_user_policy email)
unfolding get_user_policy
Reads-user email = Reads-query _

pub Reads-totals : Reads list_totals
unfolding list_totals
Reads-totals = Reads-query _

pub Reads-daily : (day : Time) → Reads (list_daily day)
unfolding list_daily
Reads-daily day = Reads-query _

pub Reads-meta : (key : Text) → Reads (get_meta key)
unfolding get_meta
Reads-meta key = Reads-query _

pub Reads-quota_status :
    (now : Time) (window default_quota : ℤ) (email : Text)
    → Reads (quota_status now window default_quota email)
unfolding quota_status pure
Reads-quota_status now window default_quota email =
    Reads-bind list_quota_policies _ Reads-policies (λ policies.
      Reads-bind list_quota_states _ Reads-states (λ states.
        Reads-bind (list_usage_between _ now) _ (Reads-usage _ now) (λ usage w. (refl, refl))))

pub Reads-user_status :
    (f : Float64) (date_text : Time → Text) (now : Time) (window default_quota : ℤ) (email : Text)
    → Reads (user_status f date_text now window default_quota email)
unfolding user_status pure
Reads-user_status f date_text now window default_quota email =
    Reads-bind list_user_policies _ Reads-users (λ users.
      Reads-bind (quota_status now window default_quota []) _
        (Reads-quota_status now window default_quota []) (λ quota w. (refl, refl)))

pub Reads-debug_session : (email : Text) (now : Time) → Reads (get_debug_session email now)
unfolding get_debug_session
Reads-debug_session email now = Reads-query _

pub Reads-top_ports :
    (email : Text) (since until : Time) (limit : ℕ)
    → Reads (connection_top_ports email since until limit)
unfolding connection_top_ports
Reads-top_ports email since until limit = Reads-query _

Reads-report :
    (email : Text) (since until : Time) (limit : ℕ)
    → Reads (connection_report email since until limit)
unfolding connection_report pure
Reads-report email since until limit =
    Reads-bind (query (connection_rows email since until)) _ (Reads-query _) (λ rows.
      Reads-bind (query (source_networks email since until)) _ (Reads-query _) (λ sources.
        Reads-bind (connection_top_ports email since until limit) _
          (Reads-top_ports email since until limit)
          (λ ports.
            Reads-bind (get_debug_session email until) _ (Reads-debug_session email until)
              (λ session w. (refl, refl)))))

pub Reads-diagnostics :
    (email : Text) (since until : Time) (limit : ℤ)
    → Reads (connection_diagnostics email since until limit)
unfolding connection_diagnostics
Reads-diagnostics email since until limit w = Reads-report _ _ _ _ w

pub Reads-traffic_between :
    (email : Text) (since until : Time) → Reads (user_traffic_between email since until)
unfolding user_traffic_between
Reads-traffic_between email since until = Reads-query _

Reads-snapshots :
    (since until : Time) (all : List ConnectionRow) (emails : List Text)
    → Reads (snapshots since until all emails)
unfolding snapshots pure
Reads-snapshots since until all [] = λ w. (refl, refl)
Reads-snapshots since until all (email ∷ emails) =
    Reads-bind (query (snapshot_networks email since until)) _ (Reads-query _) (λ sources.
      Reads-bind (snapshots since until all emails) _ (Reads-snapshots since until all emails)
        (λ rest w. (refl, refl)))

pub Reads-metric_snapshots :
    (since until : Time) → Reads (list_connection_metric_snapshots since until)
unfolding list_connection_metric_snapshots
Reads-metric_snapshots since until =
    Reads-bind (query (rows_within since until)) _ (Reads-query _)
      (λ rows. Reads-snapshots since until rows _)
