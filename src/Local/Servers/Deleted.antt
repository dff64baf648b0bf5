-- ===== src/Local/Servers/Deleted.antt =====
-- DeleteServerByName (internal/store/local/store_servers.go).
use ovpn.Prelude.{ℤ, ◌≡◌, false, ◌||◌, Option, none, some, All}
use ovpn.Local.{LocalDb, ServerRow, UserRow, RevisionRow, BackupRow, StatsRow, BackendRow, same_id}
use ovpn.Local.Servers.{belongs, delete_records, delete_server_row}

abbrev pub without_server : ℤ → LocalDb → LocalDb
without_server id db = delete_server_row id (delete_records id db)

abbrev pub removed : Option ServerRow → LocalDb → LocalDb
removed none db = db
removed (some row) db = without_server row.id db

-- No row of a table names the server.
pub record IsForgotten (id : ℤ) (db : LocalDb) : Type 0 where
  pub servers : All (λ (row : ServerRow). same_id row.id id ≡ false) db.servers
  pub users : All (λ (row : UserRow). same_id row.server_id id ≡ false) db.users
  pub revisions : All (λ (row : RevisionRow). same_id row.server_id id ≡ false) db.deploy_revisions
  pub backups : All (λ (row : BackupRow). belongs id row.server_id ≡ false) db.backup_records
  pub stats : All (λ (row : StatsRow). same_id row.server_id id ≡ false) db.stats_cache
  pub backends :
      All
        (λ (row : BackendRow).
          (same_id row.proxy_server_id id || same_id row.backend_server_id id) ≡ false)
        db.proxy_backends
