-- ===== src/Local/Servers/Cluster.antt =====
-- SetVLESSEncryptionForServers (internal/store/local/store_servers.go): one pair for a set of servers.
-- `format_id` prints an id (`%d` of package `fmt`).
pub mod Paired
pub mod AllOrNothing
use ovpn.Prelude.{
  ℕ, suc, ℤ, pos, ◌+◌, ◌≡◌, refl, sym, ap, ◌∙◌, ◌⊎◌, inl, inr, Bool, true, false, ◌||◌, List, [],
  ◌∷◌, ◌++◌, map, Text, codes, Exec, Result, ok, err, arith, pure, fail, ◌>>=◌, ◌>>◌, ◌==◌,
  if◌then◌else◌, All,
}
use ovpn.Local.{
  LocalDb, LocalWorld, ServerRow, same_id, update_rows, last_result, rfc3339, exec_statement,
  transact, driver_call, read_db,
}
use ovpn.Driver.Atomic.{Writes, IsAtomic, Writes-exec, Writes-then, Writes-ext, transact-IsAtomic}
use ovpn.Local.Secrets.{Bytes, Codec, Aead, KeySource, encrypt_sensitive_field}
use ovpn.Local.Servers.{change_servers, seal_field}
use ovpn.Model.Types.{Time}

abbrev pub with_pair : Text → Text → ℕ → ServerRow → ServerRow
with_pair client server now row = record row {
  vless_client_encryption = client;
  vless_server_decryption = server;
  updated_at = now;
}

-- RowsAffected of an UPDATE by id.
unfoldable pub rows_with_id : ℤ → List ServerRow → ℕ
rows_with_id id [] = 0
rows_with_id id (row ∷ rows) =
    let rest = rows_with_id id rows in if same_id row.id id then suc rest else rest

module _ (format_id : ℤ → Text) where
  abbrev one_row : ℤ → ℕ → Exec LocalWorld (Unit {0})
  one_row id affected =
      if affected == 1
      then pure tt
      else fail (codes "server id " ++ (format_id id ++ codes " not found"))

  unfoldable pub check_affected : ℤ → Exec LocalWorld (Unit {0})
  unfolding ◌>>=◌ pure fail last_result rows_with_id
  check_affected id = last_result (λ (db : LocalDb). rows_with_id id db.servers) >>= one_row id

  unfoldable pub set_pairs : Text → Text → ℕ → List ℤ → Exec LocalWorld (Unit {0})
  unfolding ◌>>=◌ pure exec_statement change_servers check_affected
  set_pairs client server now [] = pure tt
  set_pairs client server now (id ∷ ids) =
      exec_statement (change_servers id (with_pair client server now))
      >> check_affected id
      >> set_pairs client server now ids

  module _ (x : Codec) (a : Aead) (k : KeySource) where
    unfoldable pub set_vless_encryption_for_servers :
        (ℕ → Result Bytes) → List ℤ → Text → Text → Exec LocalWorld (Unit {0})
    unfolding ◌>>=◌ fail seal_field
    set_vless_encryption_for_servers random [] client server w =
        fail (codes "at least one server is required") w
    set_vless_encryption_for_servers random (id ∷ ids) client server w =
        (do
          sealed_client ← seal_field x a k client (random 0)
          sealed_server ← seal_field x a k server (random 1)
          transact (set_pairs sealed_client sealed_server (rfc3339 w.now) (id ∷ ids)))
          w
