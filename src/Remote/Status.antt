-- ===== src/Remote/Status.antt =====
-- The status reports: `QuotaStatus` of internal/store/remote/quota.go and `UserStatus` of users.go.
use ovpn.Prelude.{
  ℕ, ℤ, pos, suc, leb_ℤ, Bool, true, false, ◌&&◌, ◌||◌, not, Option, none, some, List, [], ◌∷◌,
  ◌++◌, map, codes, Text, Exec, text_eq, pure, ◌>>=◌, if◌then◌else◌,
}
use ovpn.Strings.{trim_space, is_blank, join, text_mem}
use ovpn.Sql.{order_by}
use ovpn.Dict.{put, get?, get, keys}
use ovpn.Remote.{World, rfc3339}
use ovpn.Remote.Quota.{
  QuotaState, no_state, list_quota_policies, list_quota_states, list_usage_between,
}
use ovpn.Remote.Window.{window_start}
use ovpn.Model.Types.{Time, QuotaUserPolicy, QuotaUserStatus, QuotaStatusResponse}

abbrev pub sort_texts : List Text → List Text
sort_texts = order_by (λ t. t)

unfoldable pub unique_from : List Text → List Text → List Text
unique_from seen [] = []
unique_from seen (raw ∷ rest) =
    let value = trim_space raw in
    let skip = unique_from seen rest in
    let keep = value ∷ unique_from (value ∷ seen) rest in
    if text_eq value [] || text_mem value seen then skip else keep

-- uniqueStrings
unfoldable pub unique_strings : List Text → List Text
unfolding unique_from order_by
unique_strings texts = sort_texts (unique_from [] texts)

abbrev pub keeps : Text → Text → Bool
keeps filter email = text_eq filter [] || text_eq email filter

-- The first value of each key stays.
abbrev put_first :
    Text → QuotaUserPolicy → List (Text × QuotaUserPolicy) → List (Text × QuotaUserPolicy)
put_first k v m = elim (get? k m) [ none ↦ put k v m | some w ↦ m ]

abbrev pub add_tag : Text → Text → List (Text × List Text) → List (Text × List Text)
add_tag email tag m = if is_blank tag then m else put email (get [] email m ++ tag ∷ []) m

-- The rows of one report by email: the first policy, and the inbound tags.
unfoldable pub group_quota :
    Text
    → List QuotaUserPolicy
    → List (Text × QuotaUserPolicy) × List (Text × List Text)
    → List (Text × QuotaUserPolicy) × List (Text × List Text)
unfolding put get
group_quota filter [] groups = groups
group_quota filter (p ∷ ps) (first, tags) = group_quota filter ps (
    if keeps filter p.email
    then (put_first p.email p first, add_tag p.email p.inbound_tag tags)
    else (first, tags))

unfoldable pub status_quota : ℤ → Option ℤ → ℤ
status_quota default_quota none = default_quota
status_quota default_quota (some q) = if leb_ℤ (pos 1) q then q else default_quota

abbrev has_tags : List Text → Bool
has_tags [] = false
has_tags (t ∷ ts) = true

unfoldable pub quota_row :
    ℤ
    → List (Text × QuotaState)
    → List (Text × ℤ)
    → List (Text × List Text)
    → QuotaUserPolicy
    → QuotaUserStatus
unfolding status_quota get unique_strings
quota_row default_quota states usage tags p =
    let state = get no_state p.email states in
    let own_tags = get [] p.email tags in
    record {
      email = p.email;
      quota_enabled = p.quota_enabled;
      window_30d_quota_byte = status_quota default_quota p.monthly_quota_byte;
      window_30d_usage_byte = get (pos 0) p.email usage;
      blocked_by_quota = state.blocked;
      blocked_at = state.blocked_at;
      inbound_tag = join (unique_strings own_tags) (codes ",");
      has_runtime_identity = not (is_blank p.uuid) && has_tags own_tags;
    }

abbrev pub count_if : Bool → ℕ → ℕ
count_if true n = suc n
count_if false n = n

unfoldable pub values_at : {V : Type 0} → List Text → List (Text × V) → List V
unfolding get?
values_at [] m = []
values_at (k ∷ ks) m =
    let rest = values_at ks m in elim (get? k m) [ none ↦ rest | some v ↦ v ∷ rest ]

unfoldable pub count_quota : List QuotaUserStatus → ℕ
count_quota [] = 0
count_quota (row ∷ rows) = count_if row.quota_enabled (count_quota rows)

unfoldable pub count_blocked : List QuotaUserStatus → ℕ
count_blocked [] = 0
count_blocked (row ∷ rows) = count_if row.blocked_by_quota (count_blocked rows)

abbrev quota_response : ℕ → ℕ → ℤ → List QuotaUserStatus → QuotaStatusResponse
quota_response start end default_quota rows = record {
  window_30d_start = start;
  window_30d_end = end;
  default_quota_byte = default_quota;
  quota_enabled_users = count_quota rows;
  blocked_users = count_blocked rows;
  users = rows;
}

unfoldable pub quota_report :
    Text
    → ℤ
    → List QuotaUserPolicy
    → List (Text × QuotaState)
    → List (Text × ℤ)
    → List QuotaUserStatus
unfolding group_quota values_at keys quota_row
quota_report filter default_quota policies states usage =
    let (first, tags) = group_quota filter policies ([], []) in
    map (quota_row default_quota states usage tags) (values_at (sort_texts (keys first)) first)

-- `window` is in nanoseconds; 30 days where it is not above 0.
unfoldable pub quota_status : Time → ℤ → ℤ → Text → Exec World QuotaStatusResponse
unfolding ◌>>=◌ pure list_quota_policies list_quota_states list_usage_between quota_report
    count_quota count_blocked
quota_status now window default_quota email = do
  policies ← list_quota_policies
  states ← list_quota_states
  let start = window_start now window
  usage ← list_usage_between start now
  pure (
      quota_response (rfc3339 start) (rfc3339 now) default_quota
        (quota_report (trim_space email) default_quota policies states usage))
