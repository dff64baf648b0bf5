-- ===== src/Tests/Store.antt =====
-- The store's theorems at concrete calls, with a driver that refuses some of them.
use ovpn.Prelude.{
  pos, ◌+◌, ◌≡◌, refl, ok, true, none, some, List, [], ◌∷◌, map, Text, codes, text_eq,
}
use ovpn.Strings.{trim_space}
use ovpn.Remote.{World, empty_db, rfc3339}
use ovpn.Remote.Quota.{replace_quota_policies}
use ovpn.Remote.Users.{replace_user_policies}
use ovpn.Remote.Traffic.{add_delta_and_advance_counter}
use ovpn.Sql.{exists_row}
use ovpn.Sql.Laws.{total_of}
use ovpn.Remote.Atomic.{IsAtomic, with_reading, add_delta_and_advance-IsAtomic}
use ovpn.Remote.Stored.{stored_policy}
use ovpn.Remote.Policies.{
  with_quota_policies, with_user_policies, replace_quota_policies-IsAtomic,
  replace_user_policies-IsAtomic,
}
use ovpn.Remote.Accepts.{IsFresh, replace_quota_policies-accepts}
use ovpn.Remote.Books.{IsBalanced}
use ovpn.Remote.Books.Steps.{
  StoreCall, delta, reading, blocked, recorded, session_started, session_stopped, cleanup,
  run_calls, run_calls-IsBalanced,
}
use ovpn.Model.Types.{Time, QuotaUserPolicy, UserPolicy, ConnectionEvent}
use ovpn.Tests.Fixtures.{noon, store_with}

abbrev ann : Text
ann = codes "ann@a"

abbrev policy_in : Text → QuotaUserPolicy
policy_in tag = record {
  email = ann;
  uuid = codes "u1";
  inbound_tag = tag;
  quota_enabled = true;
  monthly_quota_byte = some (pos 1000);
}

abbrev two_policies : List QuotaUserPolicy
two_policies = policy_in (codes "vless-reality") ∷ policy_in (codes "vless-xhttp") ∷ []

abbrev one_user : List UserPolicy
one_user =
    record {
      username = codes "ann";
      email = ann;
      uuid = codes "u1";
      enabled = true;
      expiry_at = none;
      inbound_tag = codes "vless-reality";
    }
    ∷ []

empty_db-IsBalanced : IsBalanced empty_db
unfolding total_of
empty_db-IsBalanced = record {
  hourly_up = λ e. refl;
  hourly_down = λ e. refl;
  daily_up = λ e. refl;
  daily_down = λ e. refl;
}

abbrev access : ConnectionEvent
access = record {
  timestamp = none;
  result = codes "accepted";
  email = ann;
  source_network = codes "192.0.2.0/24";
  destination = codes "example.org";
  destination_port = pos 443;
  destination_family = codes "domain";
  raw_destination_hint = [];
}

abbrev no_hash : Text → Text
no_hash network = network

abbrev some_calls : List (Time × StoreCall)
some_calls =
    (noon, delta ann (pos 5) (pos 7) noon)
    ∷ (noon + 1, reading ann (pos 3) (pos 0) noon (codes "up") (pos 8))
    ∷ (noon + 2, blocked ann true (some noon))
    ∷ (noon + 3, session_started ann (pos 0) (noon + 3))
    ∷ (noon + 4, recorded (access ∷ []) (pos 0) (pos 0) (noon + 4))
    ∷ (noon + 5, cleanup (noon + 5) (pos 0))
    ∷ (noon + 6, session_stopped ann)
    ∷ []

-- The fourth call of the driver is refused, within the first operation.
abbrev one_refusal : World
one_refusal = store_with (none ∷ none ∷ none ∷ some (codes "database is locked") ∷ [])

run_calls-IsBalanced_example : IsBalanced (run_calls no_hash some_calls one_refusal).db
run_calls-IsBalanced_example =
    run_calls-IsBalanced no_hash some_calls one_refusal empty_db-IsBalanced

replace_quota_policies-IsAtomic_example :
    IsAtomic (replace_quota_policies two_policies) one_refusal (with_quota_policies two_policies)
replace_quota_policies-IsAtomic_example = replace_quota_policies-IsAtomic two_policies one_refusal

replace_user_policies-IsAtomic_example :
    IsAtomic (replace_user_policies one_user) one_refusal (with_user_policies one_user)
replace_user_policies-IsAtomic_example = replace_user_policies-IsAtomic one_user one_refusal

add_delta_and_advance-IsAtomic_example :
    IsAtomic
      (add_delta_and_advance_counter ann (pos 3) (pos 0) noon (codes "up") (pos 8))
      one_refusal
      (with_reading ann (pos 3) (pos 0) noon (codes "up") (pos 8))
add_delta_and_advance-IsAtomic_example =
    add_delta_and_advance-IsAtomic ann (pos 3) (pos 0) noon (codes "up") (pos 8) one_refusal

two_policies-IsFresh : IsFresh [] (map (stored_policy (rfc3339 noon)) two_policies)
unfolding text_eq trim_space exists_row
two_policies-IsFresh = (refl, (refl, tt))

replace_quota_policies-accepts_example :
    ((replace_quota_policies two_policies (store_with [])).0 ≡ ok tt)
    × ((replace_quota_policies two_policies (store_with [])).1.db
        ≡ with_quota_policies two_policies noon empty_db)
replace_quota_policies-accepts_example =
    replace_quota_policies-accepts two_policies (store_with []) refl two_policies-IsFresh
