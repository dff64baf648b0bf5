-- ===== src/Local.antt =====
-- internal/store/local: the operator's SQLite database (store_migrate.go's tables). Ids that nothing
-- reads are left out; AUTOINCREMENT's counters are columns of the database, below 2 ^ 63. A stored
-- time is the number of its whole seconds, as in the agent's store.
pub mod Secrets
pub mod Users
pub mod Servers
pub mod Records
use ovpn.Prelude.{
  ℕ, ℤ, pos, negsuc, Bool, false, ◌||◌, ◌&&◌, Option, none, some, List, [], ◌∷◌, Text, Exec, fail,
  pure, codes, ◌>>=◌, ◌>>◌, ◌==◌, if◌then◌else◌,
}
use ovpn.Driver.{DbWorld}
use ovpn.Model.Types.{Time}
pub use ovpn.Driver.{rfc3339}
unfoldable pub use ovpn.Driver.{driver_call, exec_statement, exec_checked, read_db, query, transact}

pub record ServerRow : Type 0 where
  pub id : ℤ
  pub name : Text
  pub role : Text
  pub host : Text
  pub domain : Text
  pub ssh_user : Text
  pub ssh_port : ℤ
  pub ssh_identity_file : Text
  pub ssh_known_hosts_file : Text
  pub ssh_strict_host_key : ℕ
  pub xray_version : Text
  pub reality_private_key : Text
  pub reality_public_key : Text
  pub reality_short_ids : Text
  pub reality_server_name : Text
  pub reality_target : Text
  pub reality_min_client_version : Text
  pub vless_client_encryption : Text
  pub vless_server_decryption : Text
  pub primary_profile : Text
  pub enabled_profiles : Text
  pub proxy_preset : Text
  pub proxy_service_uuid : Text
  pub enabled : ℕ
  pub created_at : ℕ
  pub updated_at : ℕ
  pub last_deploy_at : Option ℕ

pub record UserRow : Type 0 where
  pub id : ℤ
  pub server_id : ℤ
  pub username : Text
  pub uuid : Text
  pub email : Text
  pub enabled : ℕ
  pub expiry_date : Option ℕ
  pub traffic_limit_byte : Option ℤ
  pub quota_enabled : ℕ
  pub quota_blocked : ℕ
  pub quota_blocked_at : Option ℕ
  pub notes : Text
  pub tags_csv : Text
  pub created_at : ℕ
  pub updated_at : ℕ

pub record TagRow : Type 0 where
  pub user_id : ℤ
  pub tag : Text

pub record RevisionRow : Type 0 where
  pub server_id : ℤ
  pub revision : Text
  pub config_hash : Text
  pub applied_by : Text
  pub applied_at : ℕ
  pub status : Text
  pub description : Text

pub record BackupRow : Type 0 where
  pub id : ℤ
  pub server_id : Option ℤ
  pub kind : Text
  pub path : Text
  pub sha256 : Text
  pub created_at : ℕ
  pub created_by : Text
  pub remote_path : Text

pub record StatsRow : Type 0 where
  pub server_id : ℤ
  pub email : Text
  pub window_type : Text
  pub window_start : ℕ
  pub uplink_bytes : ℤ
  pub downlink_bytes : ℤ
  pub updated_at : ℕ

pub record BackendRow : Type 0 where
  pub id : ℤ
  pub proxy_server_id : ℤ
  pub backend_server_id : ℤ
  pub enabled : ℕ
  pub priority : ℤ
  pub created_at : ℕ
  pub updated_at : ℕ

pub record LocalDb : Type 0 where
  pub servers : List ServerRow
  pub users : List UserRow
  pub user_tags : List TagRow
  pub deploy_revisions : List RevisionRow
  pub backup_records : List BackupRow
  pub stats_cache : List StatsRow
  pub proxy_backends : List BackendRow
  pub server_seq : ℕ
  pub user_seq : ℕ
  pub backup_seq : ℕ
  pub backend_seq : ℕ

abbrev pub LocalWorld : Type 0
LocalWorld = DbWorld LocalDb

abbrev pub same_id : ℤ → ℤ → Bool
same_id (pos a) (pos b) = a == b
same_id (negsuc a) (negsuc b) = a == b
same_id (pos a) (negsuc b) = false
same_id (negsuc a) (pos b) = false

-- A foreign key on `servers`.
abbrev pub has_server : ℤ → List ServerRow → Bool
has_server id [] = false
has_server id (row ∷ rows) = same_id row.id id || has_server id rows

-- UPDATE … WHERE
abbrev pub update_rows : {R : Type 0} → (R → Bool) → (R → R) → List R → List R
update_rows test change [] = []
update_rows test change (row ∷ rows) =
    let rest = update_rows test change rows in if test row then change row ∷ rest else row ∷ rest

-- Where the row of a query is missing.
abbrev pub or_not_found : {A : Type 0} → Option A → Exec LocalWorld A
or_not_found none = fail (codes "not found")
or_not_found (some a) = pure a

-- `if err := …; err != nil { return err }`
abbrev pub check_error : Option Text → Exec LocalWorld (Unit {0})
check_error none = pure tt
check_error (some e) = fail e

-- LastInsertId or RowsAffected of the statement before, which the driver may refuse.
unfoldable pub last_result : {A : Type 0} → (LocalDb → A) → Exec LocalWorld A
unfolding driver_call read_db ◌>>=◌
last_result f = driver_call >> read_db f
