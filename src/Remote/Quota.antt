-- ===== src/Remote/Quota.antt =====
-- internal/store/remote/quota.go: policies, block states and the usage in a window.
use ovpn.Prelude.{
  ℕ, ℤ, pos, ◌+ℤ◌, ◌*◌, Bool, true, false, ◌&&◌, not, Option, none, some, List, [], ◌∷◌, map, codes,
  Text, Exec, text_eq, pure, fail, leb, ltb, ◌==◌, ◌>>=◌, ◌>>◌, if◌then◌else◌, ◌++◌,
}
use ovpn.Strings.{trim_space, is_blank, text_mem}
use ovpn.Sql.{upsert, insert_row, select_rows, first_row, order_by, exists_row}
use ovpn.Dict.{put, get}
use ovpn.Remote.{
  Db, World, QuotaPolicyRow, QuotaStateRow, TrafficRow, nanos_per_second, rfc3339, exec_statement,
  exec_checked, query, transact,
}
use ovpn.Model.Types.{Time, QuotaUserPolicy}

pub record QuotaState : Type 0 where
  pub email : Text
  pub blocked : Bool
  pub blocked_at : Option Time

abbrev pub no_state : QuotaState
no_state = record { email = []; blocked = false; blocked_at = none }

abbrev pub bool_to_int : Bool → ℕ
bool_to_int true = 1
bool_to_int false = 0

abbrev pub nullable_time : Option Time → Option ℕ
nullable_time none = none
nullable_time (some t) = some (rfc3339 t)

abbrev pub parsed_time : Option ℕ → Option Time
parsed_time none = none
parsed_time (some seconds) = some (seconds * nanos_per_second)

abbrev pub state_of_row : QuotaStateRow → QuotaState
state_of_row row = record {
  email = row.email;
  blocked = row.blocked == 1;
  blocked_at = parsed_time row.blocked_at;
}

abbrev found_state : Option QuotaStateRow → Option QuotaState
found_state none = none
found_state (some row) = some (state_of_row row)

abbrev pub find_state : Text → Db → Option QuotaStateRow
find_state email db = first_row (λ row. text_eq row.email email) db.quota_state

abbrev pub state_in : Text → Db → Option QuotaState
state_in email db = found_state (find_state (trim_space email) db)

unfoldable pub get_quota_state : Text → Exec World (Option QuotaState)
unfolding query
get_quota_state email = query (state_in email)

abbrev pub same_policy : QuotaPolicyRow → QuotaPolicyRow → Bool
same_policy new old = text_eq old.email new.email && text_eq old.inbound_tag new.inbound_tag

-- The row that one policy of the new set is stored as.
unfoldable pub policy_row : ℕ → QuotaUserPolicy → QuotaPolicyRow
policy_row now u =
    let tag = trim_space u.inbound_tag in
    record {
      email = trim_space u.email;
      uuid = trim_space u.uuid;
      inbound_tag = if text_eq tag [] then codes "vless-reality" else tag;
      quota_enabled = bool_to_int u.quota_enabled;
      monthly_quota_byte = u.monthly_quota_byte;
      updated_at = now;
    }

abbrev pub with_policies : Db → Option (List QuotaPolicyRow) → Option Db
with_policies db none = none
with_policies db (some rows) = some (record db { quota_policy = rows })

abbrev pub insert_policy : QuotaPolicyRow → Db → Option Db
insert_policy row db = with_policies db (insert_row same_policy row db.quota_policy)

unfoldable pub insert_policies : ℕ → List QuotaUserPolicy → Exec World (Unit {0})
unfolding pure ◌>>=◌ exec_checked
insert_policies now [] = pure tt
insert_policies now (u ∷ users) =
    exec_checked (insert_policy (policy_row now u)) >> insert_policies now users

abbrev pub clear_policies : Db → Db
clear_policies db = record db { quota_policy = [] }

abbrev pub stored_emails : List QuotaUserPolicy → List Text
stored_emails [] = []
stored_emails (u ∷ users) = trim_space u.email ∷ stored_emails users

-- DELETE FROM quota_state, or with WHERE email NOT IN (…)
abbrev pub prune_states : List Text → Db → Db
prune_states emails db = record db {
  quota_state = select_rows (λ row. text_mem row.email emails) db.quota_state;
}

unfoldable pub replace_quota_policies : List QuotaUserPolicy → Exec World (Unit {0})
unfolding transact exec_statement insert_policies
replace_quota_policies users w =
    transact
      (exec_statement clear_policies
        >> (insert_policies (rfc3339 w.now) users
            >> exec_statement (prune_states (stored_emails users))))
      w

abbrev pub policy_of_row : QuotaPolicyRow → QuotaUserPolicy
policy_of_row row = record {
  email = row.email;
  uuid = row.uuid;
  inbound_tag = row.inbound_tag;
  quota_enabled = row.quota_enabled == 1;
  monthly_quota_byte = row.monthly_quota_byte;
}

abbrev pub policies_of : Db → List QuotaUserPolicy
policies_of db = map policy_of_row (order_by (λ (row : QuotaPolicyRow). row.email) db.quota_policy)

unfoldable pub list_quota_policies : Exec World (List QuotaUserPolicy)
unfolding query
list_quota_policies = query policies_of

abbrev found_policy : Option QuotaPolicyRow → Option QuotaUserPolicy
found_policy none = none
found_policy (some row) = some (policy_of_row row)

-- A user has a row for each inbound. The query has no order, so which of them SQLite gives is left open;
-- the model takes the first one stored.
abbrev pub policy_in : Text → Db → Option QuotaUserPolicy
policy_in email db =
    found_policy
      (first_row (λ (row : QuotaPolicyRow). text_eq row.email (trim_space email)) db.quota_policy)

unfoldable pub get_quota_policy : Text → Exec World (Option QuotaUserPolicy)
unfolding query
get_quota_policy email = query (policy_in email)

abbrev pub same_state : QuotaStateRow → QuotaStateRow → Bool
same_state new old = text_eq old.email new.email

abbrev pub replace_state : QuotaStateRow → QuotaStateRow → QuotaStateRow
replace_state old new = record old {
  blocked = new.blocked;
  blocked_month = new.blocked_month;
  blocked_at = new.blocked_at;
  updated_at = new.updated_at;
}

abbrev pub blocked_row : Text → Bool → Option Time → ℕ → QuotaStateRow
blocked_row email blocked blocked_at now = record {
  email = trim_space email;
  blocked = bool_to_int blocked;
  blocked_month = [];
  blocked_at = nullable_time (if blocked then blocked_at else none);
  updated_at = now;
}

abbrev pub write_blocked : QuotaStateRow → Db → Db
write_blocked row db = record db {
  quota_state = upsert same_state replace_state row db.quota_state;
}

unfoldable pub set_quota_blocked : Text → Bool → Option Time → Exec World (Unit {0})
unfolding exec_statement
set_quota_blocked email blocked blocked_at w =
    exec_statement (write_blocked (blocked_row email blocked blocked_at (rfc3339 w.now))) w

unfoldable pub states_of_rows :
    List QuotaStateRow → List (Text × QuotaState) → List (Text × QuotaState)
unfolding put
states_of_rows [] out = out
states_of_rows (row ∷ rows) out = states_of_rows rows (put row.email (state_of_row row) out)

unfoldable pub list_quota_states : Exec World (List (Text × QuotaState))
unfolding query states_of_rows
list_quota_states = query (λ db. states_of_rows db.quota_state [])

-- Σ(uplink + downlink) for each user with a row in the window. The sum is exact here; SQLite's SUM fails
-- where it leaves int64.
unfoldable pub usage_of_rows : ℕ → ℕ → List TrafficRow → List (Text × ℤ)
unfolding put get
usage_of_rows start end [] = []
usage_of_rows start end (row ∷ rows) =
    let rest = usage_of_rows start end rows in
    if leb start row.window_start && ltb row.window_start end
    then put row.email (get (pos 0) row.email rest +ℤ (row.uplink_bytes +ℤ row.downlink_bytes)) rest
    else rest

unfoldable pub list_usage_between : Time → Time → Exec World (List (Text × ℤ))
unfolding query usage_of_rows
list_usage_between start end =
    query (λ db. usage_of_rows (rfc3339 start) (rfc3339 end) db.user_traffic_daily)

abbrev delete_state : Text → Db → Db
delete_state email db = record db {
  quota_state = select_rows (λ row. not (text_eq row.email email)) db.quota_state;
}

-- RowsAffected of the DELETE, read after it.
abbrev report_missing : Bool → Text → Exec World (Unit {0})
report_missing true email = pure tt
report_missing false email = fail (codes "quota state not found for " ++ email)

abbrev delete_one : Text → Exec World (Unit {0})
delete_one email w =
    (exec_statement (delete_state email)
        >> report_missing (exists_row (λ row. text_eq row.email email) w.db.quota_state) email)
      w

unfoldable pub clear_quota_state : Text → Exec World (Unit {0})
unfolding exec_statement pure fail
clear_quota_state email =
    if is_blank email
    then exec_statement (λ db. record db { quota_state = [] })
    else delete_one (trim_space email)
