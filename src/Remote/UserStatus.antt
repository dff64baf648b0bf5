-- ===== src/Remote/UserStatus.antt =====
-- internal/store/remote/users.go: `UserStatus`, users with their expiry and quota.
use ovpn.Float.{Float64}
use ovpn.Prelude.{
  ℕ, ℤ, pos, Bool, false, ◌&&◌, not, Option, none, some, List, [], ◌∷◌, map, codes, Text, Exec,
  pure, ◌>>=◌, if◌then◌else◌,
}
use ovpn.Strings.{trim_space, join}
use ovpn.Dict.{put, get?, get, keys}
use ovpn.Remote.{World, rfc3339}
use ovpn.Remote.Users.{list_user_policies}
use ovpn.Remote.Status.{
  sort_texts, keeps, add_tag, count_if, unique_strings, values_at, quota_status,
}
use ovpn.Model.Types.{Time, UserPolicy, QuotaUserStatus, UserAccessStatus, UserStatusResponse}
use ovpn.Model.Expiry.{is_expired_at, is_effectively_enabled, days_until_expiry, expiry_date_string}

unfoldable pub quota_by_email :
    List QuotaUserStatus → List (Text × QuotaUserStatus) → List (Text × QuotaUserStatus)
unfolding put
quota_by_email [] m = m
quota_by_email (row ∷ rows) m = quota_by_email rows (put row.email row m)

abbrev put_first : Text → UserPolicy → List (Text × UserPolicy) → List (Text × UserPolicy)
put_first k v m = elim (get? k m) [ none ↦ put k v m | some w ↦ m ]

unfoldable pub group_users :
    Text
    → List UserPolicy
    → List (Text × UserPolicy) × List (Text × List Text)
    → List (Text × UserPolicy) × List (Text × List Text)
unfolding put get
group_users filter [] groups = groups
group_users filter (p ∷ ps) (first, tags) = group_users filter ps (
    if keeps filter p.email
    then (put_first p.email p first, add_tag p.email p.inbound_tag tags)
    else (first, tags))

module _ (f : Float64) (date_text : Time → Text) where
  abbrev with_quota : Option QuotaUserStatus → UserAccessStatus f.F → UserAccessStatus f.F
  with_quota none row = row
  with_quota (some quota) row = record row {
    quota_enabled = quota.quota_enabled;
    window_30d_quota_byte = quota.window_30d_quota_byte;
    window_30d_usage_byte = quota.window_30d_usage_byte;
    blocked_by_quota = quota.blocked_by_quota;
    blocked_at = quota.blocked_at;
    has_runtime_identity = quota.has_runtime_identity;
  }

  unfoldable pub user_row :
      Time
      → List (Text × QuotaUserStatus)
      → List (Text × List Text)
      → UserPolicy
      → UserAccessStatus f.F
  unfolding is_effectively_enabled days_until_expiry expiry_date_string unique_strings get get?
  user_row now quotas tags p = with_quota (get? p.email quotas) (record {
    username = p.username;
    email = p.email;
    uuid = p.uuid;
    enabled = p.enabled;
    expiry_at = p.expiry_at;
    expiry_date = expiry_date_string date_text p.expiry_at;
    expired = is_expired_at p.expiry_at now;
    effective_enabled = is_effectively_enabled p.enabled p.expiry_at now;
    days_until_expiry = days_until_expiry f p.expiry_at now;
    inbound_tag = join (unique_strings (get [] p.email tags)) (codes ",");
    quota_enabled = false;
    window_30d_quota_byte = pos 0;
    window_30d_usage_byte = pos 0;
    blocked_by_quota = false;
    blocked_at = none;
    has_runtime_identity = false;
  })

  abbrev days_within_2 : Option f.F → Bool
  days_within_2 none = false
  days_within_2 (some days) = f.at_most (f.literal 0 0) days && f.at_most days (f.literal 2 0)

  abbrev pub expires_soon : UserAccessStatus f.F → Bool
  expires_soon row =
      days_within_2 row.days_until_expiry && (not row.expired && row.effective_enabled)

  unfoldable pub count_rows : (UserAccessStatus f.F → Bool) → List (UserAccessStatus f.F) → ℕ
  count_rows test [] = 0
  count_rows test (row ∷ rows) = count_if (test row) (count_rows test rows)

  unfoldable pub user_report :
      Time → Text → List UserPolicy → List QuotaUserStatus → List (UserAccessStatus f.F)
  unfolding group_users quota_by_email values_at keys user_row
  user_report now filter policies quotas =
      let (first, tags) = group_users filter policies ([], []) in
      map (user_row now (quota_by_email quotas []) tags) (values_at (sort_texts (keys first)) first)

  unfoldable pub user_response : Time → List (UserAccessStatus f.F) → UserStatusResponse f.F
  unfolding count_rows
  user_response now rows = record {
    time = rfc3339 now;
    effective_enabled_users = count_rows (λ row. row.effective_enabled) rows;
    expiring_2d_users = count_rows expires_soon rows;
    expired_users = count_rows (λ row. row.expired) rows;
    users = rows;
  }

  unfoldable pub user_status : Time → ℤ → ℤ → Text → Exec World (UserStatusResponse f.F)
  unfolding ◌>>=◌ pure list_user_policies quota_status user_response user_report
  user_status now window default_quota email = do
    policies ← list_user_policies
    quota ← quota_status now window default_quota []
    pure (user_response now (user_report now (trim_space email) policies quota.users))
