-- ===== src/Remote/Policies.antt =====
-- Replacing the policies: the whole new set is stored, or the database is as it was.
use ovpn.Prelude.{
  ◌/◌, ℕ, ◌≡◌, refl, ap, sym, some, List, [], ◌∷◌, ◌++◌, map, append_assoc, append-nil, arith, ◌>>◌,
}
use ovpn.Strings.{text_mem}
use ovpn.Sql.{insert_row, select_rows}
use ovpn.Remote.{
  Db, World, QuotaStateRow, nanos_per_second, QuotaPolicyRow, UserPolicyRow, rfc3339,
  exec_statement, exec_checked,
}
use ovpn.Remote.Quota.{
  policy_row, insert_policy, insert_policies, clear_policies, prune_states, stored_emails,
  replace_quota_policies,
}
use ovpn.Remote.Users.{
  user_policy_row, insert_user, insert_users, clear_users, replace_user_policies,
}
use ovpn.Remote.Atomic.{
  Writes-checked, Writes-ext, Writes, IsAtomic, Writes-exec, Writes-then, transact-IsAtomic,
}
use ovpn.Remote.Stored.{
  stored_policy, stored_user, is_named, policy_rows-eq-stored, user_rows-eq-stored,
  text_mem-stored_emails,
}
use ovpn.Model.Types.{Time, QuotaUserPolicy, UserPolicy}

kept_states :
    (users : List QuotaUserPolicy) (rows : List QuotaStateRow)
    → select_rows (λ (row : QuotaStateRow). text_mem row.email (stored_emails users)) rows
      ≡ select_rows (λ (row : QuotaStateRow). is_named row.email users) rows
unfolding select_rows
kept_states users [] = refl
kept_states users (row ∷ rows) =
    rw (text_mem-stored_emails row.email users, kept_states users rows) refl

abbrev append_policies : List QuotaPolicyRow → Db → Db
append_policies rows db = record db { quota_policy = db.quota_policy ++ rows }

insert_policy-appends :
    (row : QuotaPolicyRow) (db out : Db)
    → insert_policy row db ≡ some out
    → out ≡ append_policies (row ∷ []) db
unfolding insert_row
insert_policy-appends row db out h = ground arith

append_policies-append :
    (r : QuotaPolicyRow) (rows : List QuotaPolicyRow) (db : Db)
    → append_policies rows (append_policies (r ∷ []) db) ≡ append_policies (r ∷ rows) db
append_policies-append r rows db =
    ap (λ t. record db { quota_policy = t }) (append_assoc db.quota_policy (r ∷ []) rows)

Writes-insert_policies :
    (now : ℕ) (users : List QuotaUserPolicy)
    → Writes (insert_policies now users) (λ _. append_policies (map (policy_row now) users))
unfolding insert_policies
Writes-insert_policies now [] =
    λ w h. (ap (λ t. record w.db { quota_policy = t }) (sym (append-nil w.db.quota_policy)), refl)
Writes-insert_policies now (u ∷ users) =
    let row = policy_row now u in
    let rows = map (policy_row now) users in
    Writes-ext (exec_checked (insert_policy row) >> insert_policies now users)
      (λ _ db. append_policies rows (append_policies (row ∷ []) db))
      (λ _. append_policies (row ∷ rows))
      (Writes-then (exec_checked (insert_policy row)) (insert_policies now users)
        (λ _. append_policies (row ∷ [])) (λ _. append_policies rows)
        (Writes-checked (insert_policy row) (append_policies (row ∷ []))
          (insert_policy-appends row))
        (Writes-insert_policies now users))
      (λ _ db. append_policies-append row rows db)

abbrev stored_quota : List QuotaUserPolicy → ℕ → Db → Db
stored_quota users seconds db = record db {
  quota_policy = map (stored_policy seconds) users;
  quota_state = select_rows (λ (row : QuotaStateRow). is_named row.email users) db.quota_state;
}

-- The set given, trimmed and with the default tag, in its order; and the block states of its users.
abbrev pub with_quota_policies : List QuotaUserPolicy → Time → Db → Db
with_quota_policies users now db = stored_quota users (now / nanos_per_second) db

-- Whatever the driver refuses: replacing the quota policies stores exactly the policies given, in their
-- order, each with its texts trimmed, its flag as 1 or 0, its quota, and the default tag in place of a
-- blank one; and it keeps the block states of their users and drops those of every other user; or it
-- returns an error and the database is as it was.
pub replace_quota_policies-IsAtomic :
    (users : List QuotaUserPolicy) (w : World)
    → IsAtomic (replace_quota_policies users) w (with_quota_policies users)
unfolding replace_quota_policies
replace_quota_policies-IsAtomic users w =
    let now = rfc3339 w.now in
    let prune = prune_states (stored_emails users) in
    let body =
      exec_statement clear_policies >> (insert_policies now users >> exec_statement prune) in
    transact-IsAtomic body (λ _ db. stored_quota users now db)
      (Writes-ext body
        (λ _ db. prune (append_policies (map (policy_row now) users) (clear_policies db)))
        (λ _ db. stored_quota users now db)
        (Writes-then (exec_statement clear_policies)
          (insert_policies now users >> exec_statement prune) (λ _. clear_policies)
          (λ _ db. prune (append_policies (map (policy_row now) users) db))
          (Writes-exec clear_policies)
          (Writes-then (insert_policies now users) (exec_statement prune)
            (λ _. append_policies (map (policy_row now) users)) (λ _. prune)
            (Writes-insert_policies now users) (Writes-exec prune)))
        (λ _ db. rw (policy_rows-eq-stored now users, kept_states users db.quota_state) refl))
      w

abbrev append_users : List UserPolicyRow → Db → Db
append_users rows db = record db { user_policy = db.user_policy ++ rows }

insert_user-appends :
    (row : UserPolicyRow) (db out : Db)
    → insert_user row db ≡ some out
    → out ≡ append_users (row ∷ []) db
unfolding insert_row
insert_user-appends row db out h = ground arith

Writes-insert_users :
    (now : ℕ) (users : List UserPolicy)
    → Writes (insert_users now users) (λ _. append_users (map (user_policy_row now) users))
unfolding insert_users
Writes-insert_users now [] =
    λ w h. (ap (λ t. record w.db { user_policy = t }) (sym (append-nil w.db.user_policy)), refl)
Writes-insert_users now (u ∷ users) =
    let row = user_policy_row now u in
    let rows = map (user_policy_row now) users in
    Writes-ext (exec_checked (insert_user row) >> insert_users now users)
      (λ _ db. append_users rows (append_users (row ∷ []) db)) (λ _. append_users (row ∷ rows))
      (Writes-then (exec_checked (insert_user row)) (insert_users now users)
        (λ _. append_users (row ∷ [])) (λ _. append_users rows)
        (Writes-checked (insert_user row) (append_users (row ∷ [])) (insert_user-appends row))
        (Writes-insert_users now users))
      (λ _ db.
        ap (λ t. record db { user_policy = t }) (append_assoc db.user_policy (row ∷ []) rows))

abbrev pub with_user_policies : List UserPolicy → Time → Db → Db
with_user_policies users now db = record db {
  user_policy = map (stored_user (now / nanos_per_second)) users;
}

-- Whatever the driver refuses: replacing the mirrored users stores exactly the users given, in their
-- order, each with its texts trimmed, its flag as 1 or 0 and its expiry in whole seconds, or it returns
-- an error and the database is as it was.
pub replace_user_policies-IsAtomic :
    (users : List UserPolicy) (w : World)
    → IsAtomic (replace_user_policies users) w (with_user_policies users)
unfolding replace_user_policies
replace_user_policies-IsAtomic users w =
    let now = rfc3339 w.now in
    let body = exec_statement clear_users >> insert_users now users in
    let stored : Time → Db → Db = λ _ db. record db { user_policy = map (stored_user now) users } in
    transact-IsAtomic body stored
      (Writes-ext body (λ _ db. append_users (map (user_policy_row now) users) (clear_users db))
        stored
        (Writes-then (exec_statement clear_users) (insert_users now users) (λ _. clear_users)
          (λ _. append_users (map (user_policy_row now) users)) (Writes-exec clear_users)
          (Writes-insert_users now users))
        (λ _ db. rw (user_rows-eq-stored now users) refl))
      w
