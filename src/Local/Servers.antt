-- ===== src/Local/Servers.antt =====
-- internal/store/local/store_servers.go, with the scan of a server of store_scan.go. `random` gives the
-- nonces that one operation draws, in order.
pub mod Cluster
pub mod Deleted
use ovpn.Prelude.{
  ℕ, ℤ, pos, ◌*◌, ◌+◌, ◌≡◌, Bool, true, false, ◌&&◌, ◌||◌, not, Option, none, some, List, [], ◌∷◌,
  ◌++◌, map, Text, codes, Exec, Result, ok, err, pure, fail, ◌>>=◌, ◌>>◌, ◌==◌, text_eq,
  if◌then◌else◌,
}
use ovpn.Strings.{trim_space}
use ovpn.Sql.{select_rows, insert_row, exists_row, first_row}
use ovpn.Driver.{nanos_per_second}
use ovpn.Local.{
  LocalDb, LocalWorld, ServerRow, same_id, update_rows, or_not_found, check_error, last_result,
  rfc3339, driver_call, exec_statement, exec_checked, query, transact,
}
use ovpn.Local.Secrets.{
  Bytes, Codec, Aead, KeySource, encrypt_sensitive_field, decrypt_sensitive_field,
}
use ovpn.Remote.Quota.{bool_to_int, parsed_time}
use ovpn.Model.Types.{Server, Time, role_vpn, role_proxy}
use ovpn.Model.Role.{normalize_server_role, normalize_proxy_preset, is_proxy}
use ovpn.Model.Profile.{normalized_primary_profile, enabled_profiles_csv}
use ovpn.Model.Validate.{validate_server}

abbrev pub role_or_vpn : Text → Text
role_or_vpn role = if text_eq role [] then role_vpn else role

-- Server.EnabledProfilesCSV
unfoldable pub server_profiles_csv : Server → Text
server_profiles_csv s = enabled_profiles_csv (normalized_primary_profile s) s.enabled_profiles

unfoldable pub normalize_server_for_storage : Server → Server
unfolding server_profiles_csv
normalize_server_for_storage s =
    let role = role_or_vpn (normalize_server_role s.role) in
    let named = record s { primary_profile = normalized_primary_profile s } in
    record s {
      reality_min_client_version = trim_space s.reality_min_client_version;
      role = role;
      proxy_preset =
          if text_eq role role_proxy then normalize_proxy_preset s.proxy_preset else s.proxy_preset;
      primary_profile = normalized_primary_profile s;
      enabled_profiles = server_profiles_csv named;
    }

-- The three columns that are kept sealed.
pub record Sealed : Type 0 where
  pub private_key : Text
  pub client_encryption : Text
  pub server_decryption : Text

unfoldable pub server_row : ℤ → ℕ → Sealed → Server → ServerRow
server_row id now secrets s = record {
  id = id;
  name = s.name;
  role = s.role;
  host = s.host;
  domain = s.domain;
  ssh_user = s.ssh_user;
  ssh_port = s.ssh_port;
  ssh_identity_file = s.ssh_identity_file;
  ssh_known_hosts_file = s.ssh_known_hosts_file;
  ssh_strict_host_key = bool_to_int s.ssh_strict_host_key;
  xray_version = s.xray_version;
  reality_private_key = secrets.private_key;
  reality_public_key = s.reality_public_key;
  reality_short_ids = s.reality_short_ids;
  reality_server_name = s.reality_server_name;
  reality_target = s.reality_target;
  reality_min_client_version = s.reality_min_client_version;
  vless_client_encryption = secrets.client_encryption;
  vless_server_decryption = secrets.server_decryption;
  primary_profile = s.primary_profile;
  enabled_profiles = s.enabled_profiles;
  proxy_preset = s.proxy_preset;
  proxy_service_uuid = s.proxy_service_uuid;
  enabled = bool_to_int s.enabled;
  created_at = now;
  updated_at = now;
  last_deploy_at = none;
}

abbrev same_name : ServerRow → ServerRow → Bool
same_name new old = text_eq old.name new.name

abbrev pub with_server : LocalDb → Option (List ServerRow) → Option LocalDb
with_server db none = none
with_server db (some rows) = some (record db { servers = rows; server_seq = db.server_seq + 1 })

unfoldable pub insert_server : Server → ℕ → Sealed → LocalDb → Option LocalDb
unfolding insert_row server_row
insert_server s now secrets db =
    with_server db
      (insert_row same_name (server_row (pos (db.server_seq + 1)) now secrets s) db.servers)

-- An UPDATE by id keeps the name, the creation time and the time of the last deployment.
unfoldable pub changed_server : Server → ℕ → Sealed → ServerRow → ServerRow
unfolding server_row
changed_server s now secrets row = record (server_row row.id now secrets s) {
  name = row.name;
  created_at = row.created_at;
  last_deploy_at = row.last_deploy_at;
}

unfoldable pub change_servers : ℤ → (ServerRow → ServerRow) → LocalDb → LocalDb
change_servers id change db = record db {
  servers = update_rows (λ (row : ServerRow). same_id row.id id) change db.servers;
}

unfoldable pub set_server_last_deploy : ℤ → Exec LocalWorld (Unit {0})
unfolding exec_statement change_servers
set_server_last_deploy id w =
    exec_statement
      (change_servers id
        (λ row. record row { last_deploy_at = some (rfc3339 w.now); updated_at = rfc3339 w.now }))
      w

-- The row, with the fields that `scanServer` normalises again, still sealed.
unfoldable pub stored_server : ServerRow → Server
stored_server row = record {
  id = row.id;
  name = row.name;
  role = row.role;
  host = row.host;
  domain = row.domain;
  ssh_user = row.ssh_user;
  ssh_port = row.ssh_port;
  ssh_identity_file = row.ssh_identity_file;
  ssh_known_hosts_file = row.ssh_known_hosts_file;
  ssh_strict_host_key = row.ssh_strict_host_key == 1;
  xray_version = row.xray_version;
  reality_private_key = row.reality_private_key;
  reality_public_key = row.reality_public_key;
  reality_short_ids = row.reality_short_ids;
  reality_server_name = row.reality_server_name;
  reality_target = row.reality_target;
  reality_min_client_version = row.reality_min_client_version;
  vless_client_encryption = row.vless_client_encryption;
  vless_server_decryption = row.vless_server_decryption;
  primary_profile = row.primary_profile;
  enabled_profiles = row.enabled_profiles;
  proxy_preset = row.proxy_preset;
  proxy_service_uuid = row.proxy_service_uuid;
  enabled = row.enabled == 1;
  created_at = row.created_at * nanos_per_second;
  updated_at = row.updated_at * nanos_per_second;
  last_deploy_at = parsed_time row.last_deploy_at;
}

unfoldable pub normalize_scanned : Server → Server
unfolding is_proxy server_profiles_csv
normalize_scanned s =
    let named = record s { primary_profile = normalized_primary_profile s } in
    record s {
      role = normalize_server_role s.role;
      proxy_preset =
          if is_proxy (record s { role = normalize_server_role s.role })
          then normalize_proxy_preset s.proxy_preset
          else s.proxy_preset;
      primary_profile = normalized_primary_profile s;
      enabled_profiles = server_profiles_csv named;
    }

abbrev pub belongs : ℤ → Option ℤ → Bool
belongs id none = false
belongs id (some server) = same_id server id

unfoldable pub delete_records : ℤ → LocalDb → LocalDb
unfolding select_rows
delete_records id db = record db {
  backup_records = select_rows (λ row. not (belongs id row.server_id)) db.backup_records;
}

-- ON DELETE CASCADE of every table that refers to servers, and of the tags of its users.
unfoldable pub delete_server_row : ℤ → LocalDb → LocalDb
unfolding select_rows exists_row
delete_server_row id db =
    let users = select_rows (λ row. not (same_id row.server_id id)) db.users in
    record db {
      servers = select_rows (λ row. not (same_id row.id id)) db.servers;
      users = users;
      user_tags =
          select_rows (λ tag. exists_row (λ row. same_id row.id tag.user_id) users) db.user_tags;
      deploy_revisions = select_rows (λ row. not (same_id row.server_id id)) db.deploy_revisions;
      stats_cache = select_rows (λ row. not (same_id row.server_id id)) db.stats_cache;
      proxy_backends =
          select_rows
            (λ row. not (same_id row.proxy_server_id id || same_id row.backend_server_id id))
            db.proxy_backends;
    }

abbrev pub row_named : Text → LocalDb → Option ServerRow
row_named name db = first_row (λ (row : ServerRow). text_eq row.name name) db.servers

unfoldable pub delete_found : Option ServerRow → Exec LocalWorld (Unit {0})
unfolding fail ◌>>=◌ exec_statement delete_records delete_server_row
delete_found none = fail (codes "not found")
delete_found (some row) =
    exec_statement (delete_records row.id) >> exec_statement (delete_server_row row.id)

unfoldable pub delete_server_by_name : Text → Exec LocalWorld (Unit {0})
unfolding ◌>>=◌ transact query first_row delete_found
delete_server_by_name name = transact (query (row_named name) >>= delete_found)

module _ (x : Codec) (a : Aead) (k : KeySource) where
  unfoldable pub seal_field : Text → Result Bytes → Exec LocalWorld Text
  unfolding encrypt_sensitive_field
  seal_field plain nonce w = (encrypt_sensitive_field x a k plain nonce, w)

  unfoldable pub open_field : Text → Exec LocalWorld Text
  unfolding decrypt_sensitive_field
  open_field value w = (decrypt_sensitive_field x a k value, w)

  unfoldable pub seal_fields : (ℕ → Result Bytes) → Server → Exec LocalWorld Sealed
  unfolding ◌>>=◌ pure seal_field
  seal_fields random s = do
    key ← seal_field s.reality_private_key (random 0)
    client ← seal_field s.vless_client_encryption (random 1)
    server ← seal_field s.vless_server_decryption (random 2)
    pure (record { private_key = key; client_encryption = client; server_decryption = server })

  unfoldable pub add_server : (ℕ → Result Bytes) → Server → Exec LocalWorld Server
  unfolding ◌>>=◌ pure fail normalize_server_for_storage seal_fields exec_checked insert_server
      last_result
  add_server random given w =
      (let s = normalize_server_for_storage given in
          do
            check_error (validate_server s)
            secrets ← seal_fields random s
            exec_checked (insert_server s (rfc3339 w.now) secrets)
            id ← last_result (λ db. pos db.server_seq)
            pure (record s { id = id }))
        w

  unfoldable pub update_server : (ℕ → Result Bytes) → Server → Exec LocalWorld (Unit {0})
  unfolding ◌>>=◌ pure fail normalize_server_for_storage seal_fields exec_statement change_servers
      changed_server
  update_server random given w =
      (let s = normalize_server_for_storage given in
          do
            check_error (validate_server s)
            secrets ← seal_fields random s
            exec_statement (change_servers s.id (changed_server s (rfc3339 w.now) secrets)))
        w

  unfoldable pub scan_server : ServerRow → Exec LocalWorld Server
  unfolding ◌>>=◌ pure stored_server normalize_scanned open_field
  scan_server row =
      let s = normalize_scanned (stored_server row) in
      do
        key ← open_field s.reality_private_key
        client ← open_field s.vless_client_encryption
        server ← open_field s.vless_server_decryption
        pure (record s {
          reality_private_key = key;
          vless_client_encryption = client;
          vless_server_decryption = server;
        })

  unfoldable pub scan_found : Option ServerRow → Exec LocalWorld Server
  unfolding ◌>>=◌ fail pure scan_server
  scan_found row = or_not_found row >>= scan_server

  unfoldable pub get_server_by_name : Text → Exec LocalWorld Server
  unfolding ◌>>=◌ query scan_found first_row
  get_server_by_name name = query (row_named name) >>= scan_found

  unfoldable pub get_server_by_id : ℤ → Exec LocalWorld Server
  unfolding ◌>>=◌ query scan_found first_row
  get_server_by_id id =
      query (λ (db : LocalDb). first_row (λ (row : ServerRow). same_id row.id id) db.servers)
      >>= scan_found

  unfoldable pub scan_servers : List ServerRow → Exec LocalWorld (List Server)
  unfolding ◌>>=◌ pure scan_server
  scan_servers [] = pure []
  scan_servers (row ∷ rows) = do s ← scan_server row; rest ← scan_servers rows; pure (s ∷ rest)

  -- The rows stand in the order of their ids.
  unfoldable pub list_servers : Exec LocalWorld (List Server)
  unfolding ◌>>=◌ query scan_servers
  list_servers = query (λ (db : LocalDb). db.servers) >>= scan_servers
