-- ===== src/Remote/Accepts.antt =====
-- Replacing the quota policies succeeds where the driver accepts every call and no key comes twice.
use ovpn.Prelude.{◌/◌, subst, sym, ℕ, ◌≡◌, refl, false, List, [], ◌∷◌, ◌++◌, map, ok, ◌>>=◌, pure}
use ovpn.Sql.{insert_row, exists_row}
use ovpn.Remote.{
  World, nanos_per_second, QuotaPolicyRow, rfc3339, exec_statement, exec_checked, driver_call,
  write_db, write_checked, transact,
}
use ovpn.Remote.Quota.{
  policy_row, same_policy, insert_policies, clear_policies, replace_quota_policies,
}
use ovpn.Remote.Stored.{stored_policy, policy_rows-eq-stored}
use ovpn.Remote.Policies.{with_quota_policies, replace_quota_policies-IsAtomic}
use ovpn.Remote.Atomic.{atomic_ok}
use ovpn.Model.Types.{QuotaUserPolicy}

-- No row has the key of one that stands in the table or before it.
abbrev pub IsFresh : List QuotaPolicyRow → List QuotaPolicyRow → Type 0
IsFresh table [] = Unit
IsFresh table (row ∷ rows) =
    (exists_row (same_policy row) table ≡ false) × IsFresh (table ++ row ∷ []) rows

insert_accepts :
    (now : ℕ) (users : List QuotaUserPolicy) (w : World)
    → w.outcomes ≡ []
    → IsFresh w.db.quota_policy (map (policy_row now) users)
    → ((insert_policies now users w).0 ≡ ok tt) × ((insert_policies now users w).1.outcomes ≡ [])
unfolding insert_policies exec_checked driver_call write_checked insert_row ◌>>=◌ pure
insert_accepts now [] w quiet fresh = (refl, quiet)
insert_accepts now (u ∷ users) w quiet (new, fresh) = rw quiet (
    rw new (
      insert_accepts now users
        (record w {
          outcomes = [];
          db = record w.db { quota_policy = w.db.quota_policy ++ policy_row now u ∷ [] };
        })
        refl fresh))

replace_accepts :
    (users : List QuotaUserPolicy) (w : World)
    → w.outcomes ≡ []
    → IsFresh [] (map (policy_row (rfc3339 w.now)) users)
    → (replace_quota_policies users w).0 ≡ ok tt
unfolding replace_quota_policies transact exec_statement driver_call write_db ◌>>=◌
replace_accepts users w quiet fresh =
    let (done, still) =
      insert_accepts (rfc3339 w.now) users (record w { outcomes = []; db = clear_policies w.db })
        refl fresh in
    rw quiet (rw done (rw still refl))

-- Where the driver accepts every call, and no two policies have the same email and inbound tag once
-- they are trimmed and a blank tag is the default: the replacement succeeds, and the database holds
-- exactly the policies given, trimmed and with the default tag, and of the block states it held those
-- of their users.
pub replace_quota_policies-accepts :
    (users : List QuotaUserPolicy) (w : World)
    → w.outcomes ≡ []
    → IsFresh [] (map (stored_policy (w.now / nanos_per_second)) users)
    → ((replace_quota_policies users w).0 ≡ ok tt)
      × ((replace_quota_policies users w).1.db ≡ with_quota_policies users w.now w.db)
replace_quota_policies-accepts users w quiet fresh =
    let fine =
      replace_accepts users w quiet
        (subst (IsFresh []) (sym (policy_rows-eq-stored (rfc3339 w.now) users)) fresh) in
    (
      fine,
      atomic_ok (replace_quota_policies users) w (with_quota_policies users)
          (replace_quota_policies-IsAtomic users w) fine,
    )
