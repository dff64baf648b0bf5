-- ===== src/Remote/Users.antt =====
-- internal/store/remote/users.go: the users mirrored from the operator's machine.
use ovpn.Prelude.{
  ℕ, Bool, ◌&&◌, Option, none, some, List, [], ◌∷◌, map, Text, Exec, text_eq, pure, ◌==◌, ◌>>=◌,
  ◌>>◌,
}
use ovpn.Strings.{trim_space}
use ovpn.Sql.{insert_row, first_row, order_by}
use ovpn.Remote.{Db, World, UserPolicyRow, rfc3339, exec_statement, exec_checked, query, transact}
use ovpn.Remote.Quota.{bool_to_int, nullable_time, parsed_time}
use ovpn.Model.Types.{UserPolicy}

abbrev pub same_user_policy : UserPolicyRow → UserPolicyRow → Bool
same_user_policy new old = text_eq old.email new.email && text_eq old.inbound_tag new.inbound_tag

unfoldable pub user_policy_row : ℕ → UserPolicy → UserPolicyRow
user_policy_row now u = record {
  email = trim_space u.email;
  username = trim_space u.username;
  uuid = trim_space u.uuid;
  enabled = bool_to_int u.enabled;
  expiry_at = nullable_time u.expiry_at;
  inbound_tag = trim_space u.inbound_tag;
  updated_at = now;
}

abbrev pub with_users : Db → Option (List UserPolicyRow) → Option Db
with_users db none = none
with_users db (some rows) = some (record db { user_policy = rows })

abbrev pub insert_user : UserPolicyRow → Db → Option Db
insert_user row db = with_users db (insert_row same_user_policy row db.user_policy)

unfoldable pub insert_users : ℕ → List UserPolicy → Exec World (Unit {0})
unfolding pure ◌>>=◌ exec_checked
insert_users now [] = pure tt
insert_users now (u ∷ users) =
    exec_checked (insert_user (user_policy_row now u)) >> insert_users now users

abbrev pub clear_users : Db → Db
clear_users db = record db { user_policy = [] }

unfoldable pub replace_user_policies : List UserPolicy → Exec World (Unit {0})
unfolding transact exec_statement insert_users
replace_user_policies users w =
    transact (exec_statement clear_users >> insert_users (rfc3339 w.now) users) w

abbrev pub user_of_row : UserPolicyRow → UserPolicy
user_of_row row = record {
  username = row.username;
  email = row.email;
  uuid = row.uuid;
  enabled = row.enabled == 1;
  expiry_at = parsed_time row.expiry_at;
  inbound_tag = row.inbound_tag;
}

abbrev pub users_of : Db → List UserPolicy
users_of db = map user_of_row (order_by (λ (row : UserPolicyRow). row.email) db.user_policy)

unfoldable pub list_user_policies : Exec World (List UserPolicy)
unfolding query
list_user_policies = query users_of

abbrev found_user : Option UserPolicyRow → Option UserPolicy
found_user none = none
found_user (some row) = some (user_of_row row)

-- A user has a row for each inbound. The query has no order, so which of them SQLite gives is left open;
-- the model takes the first one stored.
abbrev pub user_in : Text → Db → Option UserPolicy
user_in email db =
    found_user
      (first_row (λ (row : UserPolicyRow). text_eq row.email (trim_space email)) db.user_policy)

unfoldable pub get_user_policy : Text → Exec World (Option UserPolicy)
unfolding query
get_user_policy email = query (user_in email)
