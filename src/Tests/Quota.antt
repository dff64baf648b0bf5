-- ===== src/Tests/Quota.antt =====
-- The theorems on the two enforcers at a pass over three policies of two users.
use ovpn.Prelude.{
  ℤ, pos, leb_ℤ, ltb_ℤ, ◌≡◌, refl, inr, Bool, true, false, Option, none, some, List, [], ◌∷◌, All,
  Text, codes, text_eq, ok,
}
use ovpn.Strings.{trim_space, contains, to_lower}
use ovpn.Dict.{get}
use ovpn.Sql.{insert_row, order_by}
use ovpn.Remote.{nanos_per_second}
use ovpn.Remote.Quota.{QuotaState, no_state}
use ovpn.Remote.Users.{replace_user_policies, user_policy_row}
use ovpn.Model.Types.{Time, QuotaUserPolicy, UserPolicy}
use ovpn.Stats.{Agent}
use ovpn.Stats.Quota.{QuotaEnforcer, Snapshot, Pass, policy_quota, default_quota_bytes}
use ovpn.Stats.Quota.Loop.{start_pass, enforce_policies}
use ovpn.Stats.Quota.Membership.{stored_blocked}
use ovpn.Stats.Quota.Enforced.{
  IsOther, IsUnder, enforce_policies-blocks_over, enforce_policies-unblocks_under,
}
use ovpn.Stats.Expiry.{ExpiryEnforcer, enforce_expiry}
use ovpn.Stats.{is_missing}
use ovpn.Stats.Expiry.Laws.{IsSettled}
use ovpn.Stats.Expiry.Removes.{enforce_expiry-removes}
use ovpn.Tests.Fixtures.{
  noon, store_with, Served, everyone, nobody, xray, has_served, xray-IsMembership, xray-IsRemoval,
  fractions,
}

abbrev ann : Text
ann = codes "ann@a"

abbrev bob : Text
bob = codes "bob@b"

abbrev policy_of : Text → Text → QuotaUserPolicy
policy_of email tag = record {
  email = email;
  uuid = codes "u1";
  inbound_tag = tag;
  quota_enabled = true;
  monthly_quota_byte = some (pos 1000);
}

abbrev tcp : Text
tcp = codes "vless-reality"

abbrev xhttp : Text
xhttp = codes "vless-xhttp"

abbrev quota_enforcer : QuotaEnforcer Served
quota_enforcer = record {
  runtime = some xray;
  default_window_30d_quota_byte = pos 0;
  window = pos 0;
  on_event = true;
  on_blocked_users = true;
  on_usage_bands = true;
  on_notify = true;
}

abbrev state_of : Bool → QuotaState
state_of b = record { email = ann; blocked = b; blocked_at = none }

abbrev snapshot : Bool → ℤ → Snapshot
snapshot was n = record {
  default_quota = default_quota_bytes;
  states = (ann, state_of was) ∷ [];
  usage = (ann, n) ∷ [];
}

abbrev pass_from : Served → Pass Served
pass_from s = start_pass (record { world = store_with []; runtime = s; trace = [] })

abbrev the_policies : List QuotaUserPolicy
the_policies = policy_of bob tcp ∷ policy_of ann tcp ∷ policy_of ann xhttp ∷ []

xhttp-IsOther : All (IsOther tcp ann) (policy_of ann xhttp ∷ [])
unfolding text_eq trim_space
xhttp-IsOther = ((refl, refl), tt)

over_fine :
    (enforce_policies fractions quota_enforcer noon
      (snapshot false (pos 2000))
      the_policies
      (pass_from everyone)).first_err
    ≡ none
unfolding enforce_policies get text_eq policy_quota trim_space
over_fine = refl

ann_trimmed : trim_space ann ≡ ann
unfolding trim_space
ann_trimmed = refl

under_fine :
    (enforce_policies fractions quota_enforcer noon
      (snapshot true (pos 10))
      the_policies
      (pass_from nobody)).first_err
    ≡ none
unfolding enforce_policies get text_eq policy_quota trim_space
under_fine = refl

positive : leb_ℤ (policy_quota default_quota_bytes (some (pos 1000))) (pos 0) ≡ false
unfolding policy_quota
positive = refl

ann_free : (get no_state ann (snapshot false (pos 2000)).states).blocked ≡ false
unfolding get text_eq
ann_free = refl

ann_blocked : (get no_state ann (snapshot true (pos 10)).states).blocked ≡ true
unfolding get text_eq
ann_blocked = refl

over :
    ltb_ℤ
      (get (pos 0) ann (snapshot false (pos 2000)).usage)
      (policy_quota default_quota_bytes (some (pos 1000)))
    ≡ false
unfolding get text_eq policy_quota
over = refl

ann-IsUnder : IsUnder (snapshot true (pos 10)) (policy_of ann tcp)
unfolding get text_eq policy_quota
ann-IsUnder = inr (refl, refl, refl)

enforce_policies-blocks_over_example :
    (let l' =
        enforce_policies fractions quota_enforcer noon
          (snapshot false (pos 2000))
          the_policies
          (pass_from everyone) in
      (has_served l'.agent.runtime tcp ann ≡ false) × (stored_blocked ann l'.agent.world.db ≡ true))
enforce_policies-blocks_over_example =
    enforce_policies-blocks_over quota_enforcer fractions xray has_served xray-IsMembership refl
      noon (snapshot false (pos 2000)) (policy_of bob tcp ∷ []) (policy_of ann xhttp ∷ [])
      (policy_of ann tcp) (pass_from everyone) ann_trimmed refl positive ann_free over xhttp-IsOther
      over_fine

enforce_policies-unblocks_under_example :
    (let l' =
        enforce_policies fractions quota_enforcer noon
          (snapshot true (pos 10))
          the_policies
          (pass_from nobody) in
      (has_served l'.agent.runtime tcp ann ≡ true) × (stored_blocked ann l'.agent.world.db ≡ false))
enforce_policies-unblocks_under_example =
    enforce_policies-unblocks_under quota_enforcer fractions xray has_served xray-IsMembership refl
      noon (snapshot true (pos 10)) (policy_of bob tcp ∷ []) (policy_of ann xhttp ∷ [])
      (policy_of ann tcp) (pass_from nobody) ann_trimmed ann_blocked ann-IsUnder xhttp-IsOther
      under_fine

abbrev user_in : Text → Option Time → UserPolicy
user_in email expiry = record {
  username = email;
  email = email;
  uuid = codes "u1";
  enabled = true;
  expiry_at = expiry;
  inbound_tag = tcp;
}

abbrev expiry_enforcer : ExpiryEnforcer Served
expiry_enforcer = record { runtime = some xray }

-- One user's access has ended by noon, the other's has no end.
abbrev with_users : Agent Served
with_users = record {
  world =
      (replace_user_policies (user_in ann (some (nanos_per_second)) ∷ user_in bob none ∷ [])
        (store_with [])).1;
  runtime = everyone;
  trace = [];
}

expiry_fine : (enforce_expiry expiry_enforcer noon with_users).0 ≡ ok tt
unfolding enforce_expiry replace_user_policies text_eq insert_row user_policy_row trim_space
    order_by
expiry_fine = refl

enforce_expiry-removes_example :
    All
      (IsSettled xray has_served noon with_users.runtime
        (enforce_expiry expiry_enforcer noon with_users).1.runtime)
      with_users.world.db.user_policy
enforce_expiry-removes_example =
    enforce_expiry-removes expiry_enforcer xray has_served xray-IsRemoval refl noon with_users
      expiry_fine

-- Xray fails to remove anybody, and says so in words that the enforcer takes for a missing user.
abbrev unable : ExpiryEnforcer Served
unable = record {
  runtime = some (record {
    add_user = λ tag email uuid s. (none, s);
    remove_user = λ tag email s. (some (codes "failed to remove user: xray returned 500"), s);
  });
}

-- The pass returns no error, and Ann, who has expired, is served still.
failed_removal_passed :
    ((enforce_expiry unable noon with_users).0 ≡ ok tt)
    × ((enforce_expiry unable noon with_users).1.runtime tcp ann ≡ true)
unfolding enforce_expiry replace_user_policies text_eq insert_row user_policy_row trim_space
    order_by is_missing contains to_lower
failed_removal_passed = (refl, refl)
