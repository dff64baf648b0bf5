-- ===== src/Local/Users.antt =====
-- internal/store/local/store_users.go, with the scan of a user of store_scan.go. `net/mail`'s address
-- parser is a parameter of the validation.
use ovpn.Prelude.{
  ℕ, ℤ, pos, ◌*◌, ◌+◌, Bool, true, ◌&&◌, ◌||◌, not, Option, none, some, List, [], ◌∷◌, map, Text,
  codes, Exec, pure, fail, ◌>>=◌, ◌>>◌, ◌==◌, text_eq, if◌then◌else◌,
}
use ovpn.Sql.{select_rows, exists_row, insert_row, first_row, order_by}
use ovpn.Util.{parse_csv}
use ovpn.Driver.{nanos_per_second}
use ovpn.Local.{
  LocalDb, LocalWorld, UserRow, TagRow, same_id, has_server, update_rows, or_not_found, check_error,
  last_result, rfc3339, exec_statement, exec_checked, query, transact,
}
use ovpn.Remote.Quota.{bool_to_int, nullable_time, parsed_time}
use ovpn.Model.Types.{User}
use ovpn.Model.Validate.{validate_user}

-- UNIQUE(server_id, username) and UNIQUE(server_id, email)
abbrev pub clashing_user : UserRow → UserRow → Bool
clashing_user new old =
    same_id old.server_id new.server_id
    && (text_eq old.username new.username || text_eq old.email new.email)

unfoldable pub user_row : ℕ → ℕ → User → UserRow
user_row id now u = record {
  id = pos id;
  server_id = u.server_id;
  username = u.username;
  uuid = u.uuid;
  email = u.email;
  enabled = bool_to_int u.enabled;
  expiry_date = nullable_time u.expiry_date;
  traffic_limit_byte = u.traffic_limit_byte;
  quota_enabled = bool_to_int u.quota_enabled;
  quota_blocked = bool_to_int u.quota_blocked;
  quota_blocked_at = nullable_time u.quota_blocked_at;
  notes = u.notes;
  tags_csv = u.tags_csv;
  created_at = now;
  updated_at = now;
}

abbrev with_user : LocalDb → Option (List UserRow) → Option LocalDb
with_user db none = none
with_user db (some rows) = some (record db { users = rows; user_seq = db.user_seq + 1 })

-- The INSERT, which a taken name or address and a server that is not there refuse.
unfoldable pub insert_user : User → ℕ → LocalDb → Option LocalDb
unfolding insert_row user_row
insert_user u now db =
    if has_server u.server_id db.servers
    then with_user db (insert_row clashing_user (user_row (db.user_seq + 1) now u) db.users)
    else none

abbrev pub has_user : ℤ → List UserRow → Bool
has_user id rows = exists_row (λ (row : UserRow). same_id row.id id) rows

abbrev same_tag : TagRow → TagRow → Bool
same_tag new old = same_id old.user_id new.user_id && text_eq old.tag new.tag

abbrev with_tags : LocalDb → Option (List TagRow) → Option LocalDb
with_tags db none = none
with_tags db (some rows) = some (record db { user_tags = rows })

unfoldable pub insert_tag : ℤ → Text → LocalDb → Option LocalDb
unfolding insert_row exists_row
insert_tag id tag db =
    if has_user id db.users
    then with_tags db (insert_row same_tag (record { user_id = id; tag = tag }) db.user_tags)
    else none

unfoldable pub insert_tags : ℤ → List Text → Exec LocalWorld (Unit {0})
unfolding pure ◌>>=◌ exec_checked insert_tag
insert_tags id [] = pure tt
insert_tags id (tag ∷ tags) = exec_checked (insert_tag id tag) >> insert_tags id tags

unfoldable pub delete_tags : ℤ → LocalDb → LocalDb
unfolding select_rows
delete_tags id db = record db {
  user_tags = select_rows (λ row. not (same_id row.user_id id)) db.user_tags;
}

unfoldable pub sync_tags : User → Exec LocalWorld (Unit {0})
unfolding transact exec_statement fail insert_tags delete_tags parse_csv ◌>>=◌
sync_tags u =
    if same_id u.id (pos 0)
    then fail (codes "user ID is required")
    else transact (exec_statement (delete_tags u.id) >> insert_tags u.id (parse_csv u.tags_csv))

-- What an UPDATE of a user's row writes; the row keeps its id, its server and its creation time.
unfoldable pub changed_user : User → ℕ → UserRow → UserRow
unfolding user_row
changed_user u now row = record (user_row 0 now u) {
  id = row.id;
  server_id = row.server_id;
  created_at = row.created_at;
}

-- The other rows that the changed row of `u` would clash with.
abbrev update_clashes : User → ℕ → List UserRow → UserRow → Bool
update_clashes u now rows row =
    same_id row.id u.id
    && exists_row
        (λ (old : UserRow). not (same_id old.id u.id) && clashing_user (changed_user u now row) old)
        rows

unfoldable pub change_user : User → ℕ → LocalDb → Option LocalDb
unfolding exists_row changed_user
change_user u now db =
    if exists_row (update_clashes u now db.users) db.users
    then none
    else some (record db {
      users = update_rows (λ (row : UserRow). same_id row.id u.id) (changed_user u now) db.users;
    })

abbrev pub user_of_row : UserRow → User
user_of_row row = record {
  id = row.id;
  server_id = row.server_id;
  username = row.username;
  uuid = row.uuid;
  email = row.email;
  enabled = row.enabled == 1;
  expiry_date = parsed_time row.expiry_date;
  traffic_limit_byte = row.traffic_limit_byte;
  quota_enabled = row.quota_enabled == 1;
  quota_blocked = row.quota_blocked == 1;
  quota_blocked_at = parsed_time row.quota_blocked_at;
  notes = row.notes;
  tags_csv = row.tags_csv;
  created_at = row.created_at * nanos_per_second;
  updated_at = row.updated_at * nanos_per_second;
}

abbrev found_user : Option UserRow → Option User
found_user none = none
found_user (some row) = some (user_of_row row)

abbrev pub user_at : ℤ → Text → LocalDb → Option User
user_at server_id username db = found_user (
    first_row (λ (row : UserRow). same_id row.server_id server_id && text_eq row.username username)
      db.users)

unfoldable pub get_user : ℤ → Text → Exec LocalWorld User
unfolding query ◌>>=◌ pure fail first_row
get_user server_id username = do u ← query (user_at server_id username); or_not_found u

abbrev by_username : UserRow → Text
by_username row = row.username

unfoldable pub list_users : ℤ → Exec LocalWorld (List User)
unfolding query select_rows order_by
list_users server_id = query (λ db.
    map user_of_row
      (order_by by_username (select_rows (λ row. same_id row.server_id server_id) db.users)))

unfoldable pub list_enabled_users : ℤ → Exec LocalWorld (List User)
unfolding query select_rows order_by
list_enabled_users server_id = query (λ db. map user_of_row (
    order_by by_username
      (select_rows (λ row. same_id row.server_id server_id && row.enabled == 1) db.users)))

-- ON DELETE CASCADE of user_tags
unfoldable pub orphans_removed : LocalDb → LocalDb
unfolding select_rows exists_row
orphans_removed db = record db {
  user_tags = select_rows (λ row. has_user row.user_id db.users) db.user_tags;
}

unfoldable pub remove_user : ℤ → Text → LocalDb → LocalDb
unfolding select_rows orphans_removed
remove_user server_id username db = orphans_removed (record db {
  users =
      select_rows
        (λ (row : UserRow). not (same_id row.server_id server_id && text_eq row.username username))
        db.users;
})

unfoldable pub delete_user : ℤ → Text → Exec LocalWorld (Unit {0})
unfolding exec_statement remove_user
delete_user server_id username = exec_statement (remove_user server_id username)

module _ (parse_address : Text → Bool) where
  -- A user that is added has quota enforcement, whatever the caller asked for.
  unfoldable pub add_user : User → Exec LocalWorld User
  unfolding ◌>>=◌ pure fail exec_checked insert_user last_result sync_tags
  add_user given w =
      (let u = record given { quota_enabled = true } in
          do
            check_error (validate_user parse_address u)
            exec_checked (insert_user u (rfc3339 w.now))
            id ← last_result (λ db. pos db.user_seq)
            sync_tags (record u { id = id })
            pure (record u { id = id }))
        w

  unfoldable pub update_user : User → Exec LocalWorld (Unit {0})
  unfolding ◌>>=◌ pure fail exec_checked change_user sync_tags
  update_user u w =
      (do
        check_error (validate_user parse_address u)
        exec_checked (change_user u (rfc3339 w.now))
        sync_tags u)
        w
