-- ===== src/Tests/Cycle.antt =====
-- The theorems on the collection cycle at a run in which the driver refuses a call.
use ovpn.Prelude.{
  ℕ, pos, ◌+◌, ◌≡◌, refl, true, Option, none, some, List, [], ◌∷◌, ◌++◌, Text, codes, text_eq,
  arith, ok, if◌then◌else◌,
}
use ovpn.Dict.{get?}
use ovpn.Strings.Split.{lacks}
use ovpn.Sql.{first_row, upsert}
use ovpn.Sql.Laws.{total_of}
use ovpn.Remote.Books.{total_up}
use ovpn.Model.Types.{Time}
use ovpn.Stats.{Agent}
use ovpn.Stats.Quota.{QuotaEnforcer}
use ovpn.Stats.Expiry.{ExpiryEnforcer}
use ovpn.Stats.Collector.{Collector, consume_counter, uplink_key, downlink_key, parse_from}
use ovpn.Stats.Collector.Tracking.{IsTracked, IsGrowing, uplink_cycles, read_uplink, total_exact}
use ovpn.Stats.Collector.Keys.{parse_from-keys}
use ovpn.Tests.Fixtures.{noon, store_with, Served, everyone, xray}

abbrev ann : Text
ann = codes "ann@a"

abbrev no_time : Time → Text
no_time t = []

abbrev quota_enforcer : QuotaEnforcer Served
quota_enforcer = record {
  runtime = some xray;
  default_window_30d_quota_byte = pos 0;
  window = pos 0;
  on_event = true;
  on_blocked_users = true;
  on_usage_bands = true;
  on_notify = true;
}

abbrev expiry_enforcer : ExpiryEnforcer Served
expiry_enforcer = record { runtime = some xray }

abbrev collector : Collector Served
collector = record {
  spike_delta_bytes = pos 0;
  observed = true;
  quota = some quota_enforcer;
  expiry = some expiry_enforcer;
}

abbrev agent_with : List (Option Text) → Agent Served
agent_with outcomes = record { world = store_with outcomes; runtime = everyone; trace = [] }

-- The ninth call of the driver is refused, within the second cycle.
abbrev refused_in_second : Agent Served
refused_in_second =
    agent_with (
      none
      ∷ none
      ∷ none
      ∷ none
      ∷ none
      ∷ none
      ∷ none
      ∷ none
      ∷ some (codes "database is locked")
      ∷ [])

abbrev two_cycles : List (ℕ × Time)
two_cycles = (5, noon) ∷ (9, noon + 1) ∷ []

third_fine :
    (read_uplink collector no_time ann 12
      (noon + 2)
      (uplink_cycles collector no_time ann two_cycles refused_in_second)).0
    ≡ ok (pos 7)
unfolding uplink_cycles consume_counter text_eq first_row upsert
third_fine = refl

two_cycles_grow : IsGrowing 0 (two_cycles ++ (12, noon + 2) ∷ [])
two_cycles_grow =
    (omega arith, omega arith, (omega arith, omega arith, (omega arith, omega arith, tt)))

nothing_read : IsTracked ann refused_in_second.world.db 0
unfolding first_row total_of
nothing_read = record { stored = refl; total = refl }

total_exact_example :
    total_of
      (total_up ann)
      (read_uplink collector no_time ann 12 (noon + 2) (
        uplink_cycles collector no_time ann two_cycles
          refused_in_second)).1.world.db.user_traffic_total
    ≡ pos 12
total_exact_example =
    total_exact collector no_time ann two_cycles 0 12 (noon + 2) refused_in_second nothing_read
      two_cycles_grow third_fine

parse_from-keys_example :
    (get? ann (parse_from ((uplink_key ann, pos 3) ∷ (downlink_key ann, pos 4) ∷ []) []) ≡ (
      if text_eq ann ann
      then some (record { email = ann; uplink = pos 3; downlink = pos 4 })
      else get? ann []))
    × (get? ann (parse_from ((downlink_key ann, pos 4) ∷ (uplink_key ann, pos 3) ∷ []) []) ≡ (
        if text_eq ann ann
        then some (record { email = ann; uplink = pos 3; downlink = pos 4 })
        else get? ann []))
parse_from-keys_example = parse_from-keys ann (pos 3) (pos 4) [] ann ann_lacks
  where
    ann_lacks : lacks 62 ann ≡ true
    ann_lacks = unfold lacks in refl
