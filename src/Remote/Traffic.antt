-- ===== src/Remote/Traffic.antt =====
-- internal/store/remote/store.go: the hourly, daily and total traffic of each user.
use ovpn.Prelude.{
  ℕ, ℤ, pos, ltb_ℤ, ◌+ℤ◌, ◌*◌, ◌/◌, Bool, ◌&&◌, ◌||◌, List, map, codes, Text, Exec, text_eq, pure,
  ◌==◌, ◌>>◌, if◌then◌else◌,
}
use ovpn.Sql.{upsert, select_rows, order_by}
use ovpn.Remote.{
  Db, World, TrafficRow, TotalRow, nanos_per_second, rfc3339, exec_statement, query, transact,
}
use ovpn.Remote.Meta.{upsert_counter_tx}
use ovpn.Model.Types.{Time, UserTraffic}

-- ts.UTC().Truncate(time.Hour), and midnight of its day
abbrev pub hour_of : Time → Time
hour_of t = t / (3600 * nanos_per_second) * (3600 * nanos_per_second)

abbrev pub day_of : Time → Time
day_of t = t / (86400 * nanos_per_second) * (86400 * nanos_per_second)

abbrev pub same_window : TrafficRow → TrafficRow → Bool
same_window new old = text_eq old.email new.email && old.window_start == new.window_start

-- The sums are exact here and in add_total. In SQLite a sum that leaves int64 becomes a float.
abbrev pub add_window : TrafficRow → TrafficRow → TrafficRow
add_window old new = record old {
  uplink_bytes = old.uplink_bytes +ℤ new.uplink_bytes;
  downlink_bytes = old.downlink_bytes +ℤ new.downlink_bytes;
}

abbrev pub same_user : TotalRow → TotalRow → Bool
same_user new old = text_eq old.email new.email

abbrev pub add_total : TotalRow → TotalRow → TotalRow
add_total old new = record old {
  uplink_bytes = old.uplink_bytes +ℤ new.uplink_bytes;
  downlink_bytes = old.downlink_bytes +ℤ new.downlink_bytes;
  updated_at = new.updated_at;
}

abbrev window_row : Text → ℤ → ℤ → ℕ → TrafficRow
window_row email up down start = record {
  email = email;
  window_start = start;
  uplink_bytes = up;
  downlink_bytes = down;
}

abbrev pub write_hourly : Text → ℤ → ℤ → Time → Db → Db
write_hourly email up down ts db = record db {
  user_traffic_hourly =
      upsert same_window add_window (window_row email up down (rfc3339 (hour_of ts)))
        db.user_traffic_hourly;
}

abbrev pub write_daily : Text → ℤ → ℤ → Time → Db → Db
write_daily email up down ts db = record db {
  user_traffic_daily =
      upsert same_window add_window (window_row email up down (rfc3339 (day_of ts)))
        db.user_traffic_daily;
}

abbrev pub write_total : Text → ℤ → ℤ → ℕ → Db → Db
write_total email up down now db = record db {
  user_traffic_total =
      upsert same_user add_total
        (record { email = email; uplink_bytes = up; downlink_bytes = down; updated_at = now })
        db.user_traffic_total;
}

unfoldable pub add_delta_tx : Text → ℤ → ℤ → Time → Exec World (Unit {0})
unfolding exec_statement
add_delta_tx email up down ts w =
    (exec_statement (write_hourly email up down ts)
        >> exec_statement (write_daily email up down ts)
        >> exec_statement (write_total email up down (rfc3339 w.now)))
      w

unfoldable pub add_delta : Text → ℤ → ℤ → Time → Exec World (Unit {0})
unfolding transact add_delta_tx
add_delta email up down ts = transact (add_delta_tx email up down ts)

unfoldable pub add_delta_if_any : Text → ℤ → ℤ → Time → Exec World (Unit {0})
unfolding pure add_delta_tx
add_delta_if_any email up down ts =
    if ltb_ℤ (pos 0) up || ltb_ℤ (pos 0) down then add_delta_tx email up down ts else pure tt

unfoldable pub add_delta_and_advance_counter :
    Text → ℤ → ℤ → Time → Text → ℤ → Exec World (Unit {0})
unfolding transact add_delta_if_any upsert_counter_tx
add_delta_and_advance_counter email up down ts counter_name counter_value w =
    transact
      (add_delta_if_any email up down ts
        >> upsert_counter_tx counter_name counter_value (rfc3339 w.now))
      w

abbrev traffic_of_total : TotalRow → UserTraffic
traffic_of_total row = record {
  server_id = pos 0;
  email = row.email;
  window_start = 0;
  window_type = codes "total";
  uplink_bytes = row.uplink_bytes;
  downlink_bytes = row.downlink_bytes;
}

unfoldable pub list_totals : Exec World (List UserTraffic)
unfolding query order_by
list_totals =
    query
      (λ db. map traffic_of_total (order_by (λ (row : TotalRow). row.email) db.user_traffic_total))

abbrev traffic_of_day : TrafficRow → UserTraffic
traffic_of_day row = record {
  server_id = pos 0;
  email = row.email;
  window_start = row.window_start * nanos_per_second;
  window_type = codes "daily";
  uplink_bytes = row.uplink_bytes;
  downlink_bytes = row.downlink_bytes;
}

unfoldable pub list_daily : Time → Exec World (List UserTraffic)
unfolding query order_by select_rows
list_daily day = query (λ db. map traffic_of_day (
    order_by (λ (row : TrafficRow). row.email)
      (select_rows (λ (row : TrafficRow). row.window_start == rfc3339 (day_of day))
        db.user_traffic_daily)))
