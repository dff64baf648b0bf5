-- ===== src/Stats/Quota/Loop.antt =====
-- internal/stats/quota.go: the loop of `Enforce` over the policies, and `Enforce`.
use ovpn.Float.{Float64}
use ovpn.Prelude.{
  ℤ, pos, leb_ℤ, ltb_ℤ, Bool, true, false, not, Option, none, some, List, [], ◌∷◌, ◌++◌, codes,
  Text, Exec, Result, ok, err, length, ◌>>=◌, if◌then◌else◌,
}
use ovpn.Dict.{get}
use ovpn.Remote.Quota.{
  no_state, list_quota_policies, list_quota_states, list_usage_between, set_quota_blocked,
}
use ovpn.Remote.Window.{window_start, positive_or}
use ovpn.Model.Types.{Time, QuotaUserPolicy}
use ovpn.Stats.{result_of, blocked_users, usage_bands, Agent, on_store, emit, combine_first}
use ovpn.Stats.Quota.{
  default_quota_bytes, QuotaEnforcer, Snapshot, Pass, add_email, policy_quota, unblock_word,
  block_word, success_word, record_event, notify, runtime_add, runtime_remove,
}

abbrev reaches : (f : Float64) → f.F → ℤ → ℤ → Bool
reaches f point usage quota = f.at_most point (f.div (f.of_int64 usage) (f.of_int64 quota))

module _ {S : Type 0} where
  -- A failed unblock keeps the user in the set that is reported as blocked.
  abbrev pub unblock_failed : Text → Text → Agent S → Pass S → Pass S
  unblock_failed email message a l = record l {
    agent = a;
    blocked_emails = add_email email l.blocked_emails;
    first_err = combine_first l.first_err (some message);
  }

  abbrev pub unblock_stored :
      QuotaEnforcer S → Text → Text → Result (Unit {0}) × Agent S → Pass S → Pass S
  unblock_stored q email reason (err e, a) l =
      unblock_failed email (codes "clear quota block for " ++ (email ++ (codes ": " ++ e))) a l
  unblock_stored q email reason (ok _, a) l = record l {
    agent =
        notify q (codes "quota_unblock") (codes "quota unblock applied for " ++ (email ++ reason))
          (record_event q unblock_word success_word a);
  }

  abbrev pub unblock_added :
      QuotaEnforcer S → Text → Text → Text → Option Text × Agent S → Pass S → Pass S
  unblock_added q email blame reason (some e, a) l =
      unblock_failed email (codes "unblock " ++ (email ++ (blame ++ e))) a l
  unblock_added q email blame reason (none, a) l =
      unblock_stored q email reason (on_store (set_quota_blocked email false none) a) l

  unfoldable pub unblock : QuotaEnforcer S → QuotaUserPolicy → Text → Text → Pass S → Pass S
  unfolding runtime_add notify combine_first on_store set_quota_blocked add_email
  unblock q p blame reason l =
      unblock_added q p.email blame reason (runtime_add q p.inbound_tag p.email p.uuid l.agent) l

  abbrev pub block_failed : Text → Agent S → Pass S → Pass S
  block_failed message a l = record l {
    agent = a;
    first_err = combine_first l.first_err (some message);
  }

  abbrev pub block_stored : QuotaEnforcer S → Text → Result (Unit {0}) × Agent S → Pass S → Pass S
  block_stored q email (err e, a) l =
      block_failed (codes "persist quota block for " ++ (email ++ (codes ": " ++ e))) a l
  block_stored q email (ok _, a) l = record l {
    agent =
        notify q (codes "quota_block")
          (codes "quota block applied for " ++ (email ++ codes " in rolling 30d window"))
          (record_event q block_word success_word a);
    blocked_emails = add_email email l.blocked_emails;
  }

  abbrev pub block_removed : QuotaEnforcer S → Text → Time → Option Text × Agent S → Pass S → Pass S
  block_removed q email now (some e, a) l =
      block_failed (codes "block " ++ (email ++ (codes ": " ++ e))) a l
  block_removed q email now (none, a) l =
      block_stored q email (on_store (set_quota_blocked email true (some now)) a) l

  unfoldable pub block : QuotaEnforcer S → Time → QuotaUserPolicy → Pass S → Pass S
  unfolding runtime_remove notify combine_first on_store set_quota_blocked add_email
  block q now p l = block_removed q p.email now (runtime_remove q p.inbound_tag p.email l.agent) l

  -- The hooks after the loop, and the first error.
  unfoldable pub finish : QuotaEnforcer S → Pass S → Result (Unit {0}) × Agent S
  unfolding emit
  finish q l = (
    result_of l.first_err,
    emit q.on_usage_bands (usage_bands (length l.over_80) (length l.over_95))
        (emit q.on_blocked_users (blocked_users (length l.blocked_emails)) l.agent),
  )

  abbrev pub start_pass : Agent S → Pass S
  start_pass a = record {
    agent = a;
    blocked_emails = [];
    over_80 = [];
    over_95 = [];
    first_err = none;
  }

  module _ (f : Float64) where
    unfoldable pub mark_bands : Text → ℤ → ℤ → Pass S → Pass S
    unfolding add_email
    mark_bands email usage quota l = record l {
      over_80 =
          if reaches f (f.literal 80 2) usage quota then add_email email l.over_80 else l.over_80;
      over_95 =
          if reaches f (f.literal 95 2) usage quota then add_email email l.over_95 else l.over_95;
    }

    -- The part of the loop's body for a policy that is enforced.
    unfoldable pub enforce_enabled :
        QuotaEnforcer S → Time → QuotaUserPolicy → Bool → ℤ → ℤ → Pass S → Pass S
    unfolding block unblock
    enforce_enabled q now p is_blocked usage quota l =
        if is_blocked
        then (if leb_ℤ quota usage
            then record l { blocked_emails = add_email p.email l.blocked_emails }
            else unblock q p (codes ": ") (codes " when usage dropped below rolling 30d quota") l)
        else if ltb_ℤ usage quota
        then l
        else block q now p l

    -- One round of the loop.
    unfoldable pub enforce_policy :
        QuotaEnforcer S → Time → Snapshot → QuotaUserPolicy → Pass S → Pass S
    unfolding unblock enforce_enabled mark_bands
    enforce_policy q now snap p l =
        let quota = policy_quota snap.default_quota p.monthly_quota_byte in
        let is_blocked = (get no_state p.email snap.states).blocked in
        let usage = get (pos 0) p.email snap.usage in
        if not p.quota_enabled
        then (if not is_blocked
            then l
            else unblock q p (codes " after quota disabled: ")
                (codes " because enforcement is disabled") l)
        else if leb_ℤ quota (pos 0)
        then l
        else enforce_enabled q now p is_blocked usage quota (mark_bands p.email usage quota l)

    unfoldable pub enforce_policies :
        QuotaEnforcer S → Time → Snapshot → List QuotaUserPolicy → Pass S → Pass S
    unfolding enforce_policy
    enforce_policies q now snap [] l = l
    enforce_policies q now snap (p ∷ ps) l =
        enforce_policies q now snap ps (enforce_policy q now snap p l)

    unfoldable pub enforce : QuotaEnforcer S → Time → Exec (Agent S) (Unit {0})
    unfolding ◌>>=◌ on_store list_quota_policies list_quota_states list_usage_between
    enforce q now = do
      policies ← on_store list_quota_policies
      states ← on_store list_quota_states
      usage ← on_store (list_usage_between (window_start now q.window) now)
      λ a. finish q (
          enforce_policies q now
            (record {
              default_quota = positive_or q.default_window_30d_quota_byte default_quota_bytes;
              states = states;
              usage = usage;
            })
            policies (start_pass a))
