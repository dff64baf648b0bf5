-- ===== src/Stats/Quota.antt =====
-- internal/stats/quota.go: users over their rolling quota leave the live inbounds, and come back
-- when their usage has dropped below it.
pub mod Loop
pub mod Membership
pub mod Effect
pub mod Enforced
use ovpn.Prelude.{
  ℕ, ℤ, pos, negsuc, ◌*◌, ◌-◌, leb_ℤ, ltb_ℤ, ◌≡◌, Bool, true, false, ◌||◌, not, Option, none, some,
  List, [], ◌∷◌, ◌++◌, codes, Text, Exec, Result, ok, err, length, text_eq, pure, fail, ◌>>=◌, ◌>>◌,
  if◌then◌else◌,
}
use ovpn.Strings.{is_blank, text_mem}
use ovpn.Dict.{get}
use ovpn.Remote.{World, nanos_per_second}
use ovpn.Remote.Quota.{
  QuotaState, no_state, list_quota_policies, list_quota_states, list_usage_between,
  set_quota_blocked,
}
use ovpn.Model.Types.{Time, QuotaUserPolicy}
use ovpn.Stats.{
  Event, quota_event, notified, blocked_users, usage_bands, RuntimeManager, Agent, on_store, emit,
  combine_first, is_already_present, not_configured, identity_incomplete,
}

abbrev pub default_quota_bytes : ℤ
default_quota_bytes = pos (300 * 1024 * 1024 * 1024)

-- The flags say which of the optional hooks are set.
pub record QuotaEnforcer (S : Type 0) : Type 0 where
  pub runtime : Option (RuntimeManager S)
  pub default_window_30d_quota_byte : ℤ
  pub window : ℤ
  pub on_event : Bool
  pub on_blocked_users : Bool
  pub on_usage_bands : Bool
  pub on_notify : Bool

-- What a pass reads before its loop.
pub record Snapshot : Type 0 where
  pub default_quota : ℤ
  pub states : List (Text × QuotaState)
  pub usage : List (Text × ℤ)

pub record Pass (S : Type 0) : Type 0 where
  pub agent : Agent S
  pub blocked_emails : List Text
  pub over_80 : List Text
  pub over_95 : List Text
  pub first_err : Option Text

-- m[email] = true, with the set as the list of its members.
unfoldable pub add_email : Text → List Text → List Text
add_email email set = if text_mem email set then set else email ∷ set

unfoldable pub policy_quota : ℤ → Option ℤ → ℤ
policy_quota default_quota none = default_quota
policy_quota default_quota (some q) = if ltb_ℤ (pos 0) q then q else default_quota

abbrev pub unblock_word : Text
unblock_word = codes "unblock"

abbrev pub block_word : Text
block_word = codes "block"

abbrev pub success_word : Text
success_word = codes "success"

abbrev pub error_word : Text
error_word = codes "error"

module _ {S : Type 0} where
  unfoldable pub record_event : QuotaEnforcer S → Text → Text → Agent S → Agent S
  unfolding emit
  record_event q action result a = emit q.on_event (quota_event action result) a

  unfoldable pub notify : QuotaEnforcer S → Text → Text → Agent S → Agent S
  unfolding emit
  notify q event message a = emit q.on_notify (notified event message) a

  abbrev added : QuotaEnforcer S → Option Text × S → Agent S → Option Text × Agent S
  added q (none, s) a = (none, record a { runtime = s })
  added q (some e, s) a =
      if is_already_present e
      then (none, record a { runtime = s })
      else (some e, record_event q unblock_word error_word (record a { runtime = s }))

  abbrev add_by :
      Option (RuntimeManager S)
      → QuotaEnforcer S
      → Text
      → Text
      → Text
      → Agent S
      → Option Text × Agent S
  add_by none q tag email uuid a = (some not_configured, a)
  add_by (some r) q tag email uuid a =
      if is_blank tag || is_blank email || is_blank uuid
      then (some identity_incomplete, a)
      else added q (r.add_user tag email uuid a.runtime) a

  -- runtimeAdd
  unfoldable pub runtime_add :
      QuotaEnforcer S → Text → Text → Text → Agent S → Option Text × Agent S
  unfolding record_event
  runtime_add q tag email uuid a = add_by q.runtime q tag email uuid a

  abbrev removed : QuotaEnforcer S → Option Text × S → Agent S → Option Text × Agent S
  removed q (none, s) a = (none, record a { runtime = s })
  removed q (some e, s) a =
      (some e, record_event q block_word error_word (record a { runtime = s }))

  abbrev remove_by :
      Option (RuntimeManager S) → QuotaEnforcer S → Text → Text → Agent S → Option Text × Agent S
  remove_by none q tag email a = (some not_configured, a)
  remove_by (some r) q tag email a =
      if is_blank tag || is_blank email
      then (some identity_incomplete, a)
      else removed q (r.remove_user tag email a.runtime) a

  -- runtimeRemove
  unfoldable pub runtime_remove : QuotaEnforcer S → Text → Text → Agent S → Option Text × Agent S
  unfolding record_event
  runtime_remove q tag email a = remove_by q.runtime q tag email a
