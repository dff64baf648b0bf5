-- ===== src/Local/Records.antt =====
-- internal/store/local/store_backup_stats.go. The time 0 is Go's zero time.
pub mod Cached
use ovpn.Prelude.{
  ℕ, ℤ, pos, ◌+◌, ◌*◌, ◌++◌, ◌==◌, ◌&&◌, ◌||◌, ltb, not, Bool, true, false, Option, none, some,
  List, [], ◌∷◌, map, Text, Exec, Result, ok, err, pure, ◌>>=◌, ◌>>◌, text_eq, if◌then◌else◌,
}
use ovpn.Sql.{upsert, select_rows, text_leb}
use ovpn.Driver.{nanos_per_second}
use ovpn.Local.{
  LocalDb, LocalWorld, ServerRow, RevisionRow, BackupRow, StatsRow, same_id, has_server,
  update_rows, last_result, rfc3339, exec_statement, exec_checked, query,
}
use ovpn.Model.Types.{Time, UserTraffic, DeployRevision, BackupRecord}

abbrev or_now : Time → Time → Time
or_now at now = if at == 0 then now else at

unfoldable pub revision_row : DeployRevision → Time → RevisionRow
revision_row rev at = record {
  server_id = rev.server_id;
  revision = rev.revision;
  config_hash = rev.config_hash;
  applied_by = rev.applied_by;
  applied_at = rfc3339 at;
  status = rev.status;
  description = rev.description;
}

-- The INSERT, which a server that is not there refuses.
unfoldable pub insert_revision : RevisionRow → LocalDb → Option LocalDb
insert_revision row db =
    if has_server row.server_id db.servers
    then some (record db { deploy_revisions = db.deploy_revisions ++ row ∷ [] })
    else none

unfoldable pub touch_server : ℤ → ℕ → LocalDb → LocalDb
touch_server id now db = record db {
  servers =
      update_rows (λ (row : ServerRow). same_id row.id id) (λ row. record row { updated_at = now })
        db.servers;
}

unfoldable pub add_deploy_revision : DeployRevision → Exec LocalWorld (Unit {0})
unfolding ◌>>=◌ exec_checked exec_statement insert_revision revision_row touch_server
add_deploy_revision rev w =
    (exec_checked (insert_revision (revision_row rev (or_now rev.applied_at w.now)))
        >> exec_statement (touch_server rev.server_id (rfc3339 w.now)))
      w

abbrev nullable_id : ℤ → Option ℤ
nullable_id id = if same_id id (pos 0) then none else some id

unfoldable pub backup_row : ℕ → BackupRecord → Time → BackupRow
backup_row id rec at = record {
  id = pos id;
  server_id = nullable_id rec.server_id;
  kind = rec.kind;
  path = rec.path;
  sha256 = rec.sha256;
  created_at = rfc3339 at;
  created_by = rec.created_by;
  remote_path = rec.remote_path;
}

unfoldable pub insert_backup : BackupRecord → Time → LocalDb → LocalDb
unfolding backup_row
insert_backup rec at db = record db {
  backup_records = db.backup_records ++ backup_row (db.backup_seq + 1) rec at ∷ [];
  backup_seq = db.backup_seq + 1;
}

-- `rec.ID, _ = res.LastInsertId()`
abbrev stored_record :
    BackupRecord → Time → Result ℤ × LocalWorld → Result BackupRecord × LocalWorld
stored_record rec at (ok id, w) = (ok (record rec { id = id; created_at = at }), w)
stored_record rec at (err e, w) = (ok (record rec { id = pos 0; created_at = at }), w)

-- The record as the call leaves it.
unfoldable pub add_backup_record : BackupRecord → Exec LocalWorld BackupRecord
unfolding ◌>>=◌ exec_statement insert_backup last_result
add_backup_record rec w =
    let at = or_now rec.created_at w.now in
    (exec_statement (insert_backup rec at)
        >> (λ v. stored_record rec at (last_result (λ db. pos db.backup_seq) v)))
      w

abbrev of_server : ℤ → Option ℤ → Bool
of_server id none = true
of_server id (some owner) = same_id owner id

abbrev id_or_0 : Option ℤ → ℤ
id_or_0 none = pos 0
id_or_0 (some id) = id

abbrev record_of_row : BackupRow → BackupRecord
record_of_row row = record {
  id = row.id;
  server_id = id_or_0 row.server_id;
  kind = row.kind;
  path = row.path;
  sha256 = row.sha256;
  created_at = row.created_at * nanos_per_second;
  created_by = row.created_by;
  remote_path = row.remote_path;
}

-- ORDER BY id DESC: the rows stand in the order of their ids.
unfoldable pub newest_first : List BackupRow → List BackupRow
newest_first [] = []
newest_first (row ∷ rows) = newest_first rows ++ row ∷ []

unfoldable pub list_backup_records : ℤ → Exec LocalWorld (List BackupRecord)
unfolding query select_rows newest_first
list_backup_records id = query (λ db. map record_of_row (
    newest_first (select_rows (λ (row : BackupRow). of_server id row.server_id) db.backup_records)))

-- UNIQUE(server_id, email, window_type, window_start)
abbrev pub same_window : StatsRow → StatsRow → Bool
same_window new old =
    same_id new.server_id old.server_id
    && text_eq new.email old.email
    && text_eq new.window_type old.window_type
    && new.window_start == old.window_start

abbrev pub merge_cached : StatsRow → StatsRow → StatsRow
merge_cached old new = record old {
  uplink_bytes = new.uplink_bytes;
  downlink_bytes = new.downlink_bytes;
  updated_at = new.updated_at;
}

abbrev pub stats_row : UserTraffic → ℕ → StatsRow
stats_row t now = record {
  server_id = t.server_id;
  email = t.email;
  window_type = t.window_type;
  window_start = rfc3339 t.window_start;
  uplink_bytes = t.uplink_bytes;
  downlink_bytes = t.downlink_bytes;
  updated_at = now;
}

unfoldable pub cache_row : StatsRow → LocalDb → Option LocalDb
unfolding upsert
cache_row row db =
    if has_server row.server_id db.servers
    then some (record db { stats_cache = upsert same_window merge_cached row db.stats_cache })
    else none

unfoldable pub upsert_stats_cache : UserTraffic → Exec LocalWorld (Unit {0})
unfolding exec_checked cache_row
upsert_stats_cache t w = exec_checked (cache_row (stats_row t (rfc3339 w.now))) w

-- ORDER BY email, window_start
abbrev before : StatsRow → StatsRow → Bool
before a b =
    if text_eq a.email b.email
    then not (ltb b.window_start a.window_start)
    else text_leb a.email b.email

unfoldable pub insert_cached : StatsRow → List StatsRow → List StatsRow
insert_cached row [] = row ∷ []
insert_cached row (next ∷ rows) =
    let rest = insert_cached row rows in if before row next then row ∷ next ∷ rows else next ∷ rest

unfoldable pub order_cached : List StatsRow → List StatsRow
unfolding insert_cached
order_cached [] = []
order_cached (row ∷ rows) = insert_cached row (order_cached rows)

abbrev pub cached_traffic : StatsRow → UserTraffic
cached_traffic row = record {
  server_id = row.server_id;
  email = row.email;
  window_start = row.window_start * nanos_per_second;
  window_type = row.window_type;
  uplink_bytes = row.uplink_bytes;
  downlink_bytes = row.downlink_bytes;
}

abbrev pub cached_for : ℤ → Text → StatsRow → Bool
cached_for id window_type row = same_id row.server_id id && text_eq row.window_type window_type

abbrev pub cached_rows : ℤ → Text → LocalDb → List UserTraffic
cached_rows id window_type db =
    map cached_traffic (order_cached (select_rows (cached_for id window_type) db.stats_cache))

unfoldable pub list_stats_cache : ℤ → Text → Exec LocalWorld (List UserTraffic)
unfolding query select_rows order_cached
list_stats_cache id window_type = query (cached_rows id window_type)
