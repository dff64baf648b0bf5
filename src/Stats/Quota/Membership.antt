-- ===== src/Stats/Quota/Membership.antt =====
-- What the enforcer relies on in Xray's inbounds, and what its calls do to them and to the store.
use ovpn.Prelude.{
  ◌||◌, codes, ℕ, ◌≡◌, refl, ap, ◌∙◌, ◌⊎◌, inl, inr, Bool, true, false, ◌&&◌, Option, none, some,
  Text, arith, ok, Option-cases, Bool-cases, text_eq, text_eq_refl, text_eq_iff, ◌==◌,
}
use ovpn.Strings.{contains, to_lower, trim_space}
use ovpn.Sql.Laws.{first_row-upsert_self, first_row-upsert_other}
use ovpn.Remote.{Db, World, QuotaStateRow, rfc3339}
use ovpn.Remote.Quota.{
  find_state, set_quota_blocked, write_blocked, blocked_row, same_state, replace_state, bool_to_int,
}
use ovpn.Remote.Atomic.{IsAtomic, exec-IsAtomic, atomic_ok}
use ovpn.Model.Types.{Time}
use ovpn.Stats.{RuntimeManager, Agent, emit, is_already_present}
use ovpn.Stats.Quota.{QuotaEnforcer, runtime_add, runtime_remove}

-- Xray's documented behaviour: `has s tag email` is whether the inbound `tag` serves the user. A
-- removal that succeeds ends that, an addition that succeeds or finds the user there brings it about,
-- and neither changes it for another user or another inbound. Emails are compared exactly here, where
-- Xray folds their case: the laws are for users whose emails differ by more than the case.
pub record IsMembership {S : Type 0} (r : RuntimeManager S) (has : S → Text → Text → Bool)
    : Type 0 where
  pub removed :
      (tag email : Text) (s : S)
      → (r.remove_user tag email s).0 ≡ none
      → has (r.remove_user tag email s).1 tag email ≡ false
  pub remove_others :
      (tag email : Text) (s : S) (t m : Text)
      → (text_eq t tag && text_eq m email) ≡ false
      → has (r.remove_user tag email s).1 t m ≡ has s t m
  pub added :
      (tag email uuid : Text) (s : S)
      → (r.add_user tag email uuid s).0 ≡ none
      → has (r.add_user tag email uuid s).1 tag email ≡ true
  pub present :
      (tag email uuid : Text) (s : S) (e : Text)
      → (r.add_user tag email uuid s).0 ≡ some e
      → (contains (to_lower (trim_space e)) (codes "already exists")
          || contains (to_lower (trim_space e)) (codes "already exist"))
        ≡ true
      → has (r.add_user tag email uuid s).1 tag email ≡ true
  pub add_others :
      (tag email uuid : Text) (s : S) (t m : Text)
      → (text_eq t tag && text_eq m email) ≡ false
      → has (r.add_user tag email uuid s).1 t m ≡ has s t m

-- The block flag in the row that a query by email finds.
abbrev flag : Option QuotaStateRow → Bool
flag none = false
flag (some row) = row.blocked == 1

pub stored_blocked : Text → Db → Bool
stored_blocked email db = flag (find_state email db)

pub set_blocked-IsAtomic :
    (email : Text) (b : Bool) (at : Option Time) (w : World)
    → IsAtomic
        (set_quota_blocked email b at)
        w
        (λ now. write_blocked (blocked_row email b at (rfc3339 now)))
unfolding set_quota_blocked
set_blocked-IsAtomic email b at w =
    exec-IsAtomic (write_blocked (blocked_row email b at (rfc3339 w.now))) w

write_other :
    (row : QuotaStateRow) (db : Db) (m : Text)
    → text_eq m row.email ≡ false
    → stored_blocked m (write_blocked row db) ≡ stored_blocked m db
unfolding stored_blocked
write_other row db m ne = ap flag (
    first_row-upsert_other (λ (r : QuotaStateRow). text_eq r.email m) same_state replace_state row
      db.quota_state (ground (arith, text_eq_iff m row.email, text_eq_iff row.email m))
      (λ old same. both old same))
  where
    both :
        (old : QuotaStateRow)
        → text_eq old.email row.email ≡ true
        → (text_eq old.email m ≡ false) × (text_eq old.email m ≡ false)
    both old same =
        let apart : text_eq old.email m ≡ false = ground (
          arith,
          text_eq_iff old.email row.email,
          text_eq_iff old.email m,
          text_eq_iff m row.email,
        ) in
        (apart, apart)

flag_written : (b : Bool) → (bool_to_int b == 1) ≡ b
flag_written true = refl
flag_written false = refl

write_self :
    (email : Text) (b : Bool) (at : Option Time) (now : ℕ) (db : Db)
    → stored_blocked (trim_space email) (write_blocked (blocked_row email b at now) db) ≡ b
unfolding stored_blocked
write_self email b at now db =
    let new = blocked_row email b at now in
    let (row, found, which) =
      first_row-upsert_self (λ (r : QuotaStateRow). text_eq r.email (trim_space email)) same_state
        replace_state new db.quota_state (text_eq_refl (trim_space email)) (λ old. refl)
        (λ old h. h) in
    ap flag found ∙ flag_of row which
  where
    flag_of :
        (row : QuotaStateRow)
        → (row ≡ blocked_row email b at now)
          ⊎ ((old : QuotaStateRow) × (row ≡ replace_state old (blocked_row email b at now)))
        → flag (some row) ≡ b
    flag_of row (inl e) = rw e (flag_written b)
    flag_of row (inr (old, e)) = rw e (flag_written b)

pub set_blocked_other :
    (email : Text) (b : Bool) (at : Option Time) (w : World) (m : Text)
    → text_eq m (trim_space email) ≡ false
    → stored_blocked m (set_quota_blocked email b at w).1.db ≡ stored_blocked m w.db
set_blocked_other email b at w m ne = elim (set_blocked-IsAtomic email b at w) [
  | inl (done, e) ↦ rw e (write_other (blocked_row email b at (rfc3339 w.now)) w.db m ne)
  | inr (x, failed, e) ↦ rw e refl
]

-- A write of a flag does not end what it says, for any user.
pub set_blocked_stays :
    (email : Text) (b : Bool) (at : Option Time) (w : World) (m : Text)
    → stored_blocked m w.db ≡ b
    → stored_blocked m (set_quota_blocked email b at w).1.db ≡ b
set_blocked_stays email b at w m h = elim (set_blocked-IsAtomic email b at w) [
  | inr (x, failed, e) ↦ rw e h
  | inl (done, e) ↦ rw e (elim (Bool-cases (text_eq m (trim_space email))) [
    | inl same ↦
        ap (λ x. stored_blocked x (write_blocked (blocked_row email b at (rfc3339 w.now)) w.db))
          ((text_eq_iff m (trim_space email)).0 same)
        ∙ write_self email b at (rfc3339 w.now) w.db
    | inr ne ↦ write_other (blocked_row email b at (rfc3339 w.now)) w.db m ne ∙ h
  ])
]

pub set_blocked_self :
    (email : Text) (b : Bool) (at : Option Time) (w : World)
    → (set_quota_blocked email b at w).0 ≡ ok tt
    → stored_blocked (trim_space email) (set_quota_blocked email b at w).1.db ≡ b
set_blocked_self email b at w h =
    rw
      (atomic_ok (set_quota_blocked email b at) w
        (λ now. write_blocked (blocked_row email b at (rfc3339 now)))
        (set_blocked-IsAtomic email b at w) h)
      (write_self email b at (rfc3339 w.now) w.db)

-- The calls of the runtime leave the store alone, and whatever they do not name.
module _ {S : Type 0} (q : QuotaEnforcer S) where
  pub remove_world :
      (tag email : Text) (a : Agent S) → (runtime_remove q tag email a).1.world ≡ a.world
  unfolding runtime_remove emit
  remove_world tag email a = ground arith

  pub add_world :
      (tag email uuid : Text) (a : Agent S) → (runtime_add q tag email uuid a).1.world ≡ a.world
  unfolding runtime_add emit
  add_world tag email uuid a = ground arith

  module _ (r : RuntimeManager S) (has : S → Text → Text → Bool) (laws : IsMembership r has)
      (configured : q.runtime ≡ some r) where
    pub remove_done :
        (tag email : Text) (a : Agent S)
        → (runtime_remove q tag email a).0 ≡ none
        → has (runtime_remove q tag email a).1.runtime tag email ≡ false
    unfolding runtime_remove emit
    remove_done tag email a h = ground (arith, laws.removed tag email a.runtime)

    pub remove_other :
        (tag email : Text) (a : Agent S) (t m : Text)
        → (text_eq t tag && text_eq m email) ≡ false
        → has (runtime_remove q tag email a).1.runtime t m ≡ has a.runtime t m
    unfolding runtime_remove emit
    remove_other tag email a t m ne = ground (arith, laws.remove_others tag email a.runtime t m)

    pub add_done :
        (tag email uuid : Text) (a : Agent S)
        → (runtime_add q tag email uuid a).0 ≡ none
        → has (runtime_add q tag email uuid a).1.runtime tag email ≡ true
    unfolding runtime_add emit is_already_present
    add_done tag email uuid a h = elim (Option-cases (r.add_user tag email uuid a.runtime).0) [
      | inl e ↦ ground (arith, laws.added tag email uuid a.runtime)
      | inr (x, e) ↦ ground (arith, laws.present tag email uuid a.runtime x)
    ]

    pub add_other :
        (tag email uuid : Text) (a : Agent S) (t m : Text)
        → (text_eq t tag && text_eq m email) ≡ false
        → has (runtime_add q tag email uuid a).1.runtime t m ≡ has a.runtime t m
    unfolding runtime_add emit
    add_other tag email uuid a t m ne = ground (arith, laws.add_others tag email uuid a.runtime t m)
