-- ===== src/Remote/Stored.antt =====
-- How the store is to hold the policies and the users it was given (quota.go and users.go), said field
-- by field and apart from the rows that the code builds.
use ovpn.Prelude.{
  ◌/◌, Text, Bool, true, false, none, Option, codes, ◌||◌, text_eq, if◌then◌else◌, ℕ, ◌≡◌, refl,
  some, List, [], ◌∷◌, map,
}
use ovpn.Strings.{text_mem, trim_space}
use ovpn.Remote.{nanos_per_second, QuotaPolicyRow, UserPolicyRow}
use ovpn.Remote.Quota.{bool_to_int, nullable_time, policy_row, stored_emails}
use ovpn.Remote.Users.{user_policy_row}
use ovpn.Model.Types.{Time, QuotaUserPolicy, UserPolicy}

-- How the store is to hold what it was given, said field by field.
abbrev one_if_set : Bool → ℕ
one_if_set true = 1
one_if_set false = 0

-- A tag without its outer spaces, and the default one in place of none.
abbrev tag_or_default : Text → Text
tag_or_default [] = codes "vless-reality"
tag_or_default (c ∷ tag) = c ∷ tag

abbrev pub stored_policy : ℕ → QuotaUserPolicy → QuotaPolicyRow
stored_policy seconds u = record {
  email = trim_space u.email;
  uuid = trim_space u.uuid;
  inbound_tag = tag_or_default (trim_space u.inbound_tag);
  quota_enabled = one_if_set u.quota_enabled;
  monthly_quota_byte = u.monthly_quota_byte;
  updated_at = seconds;
}

abbrev whole_seconds : Option Time → Option ℕ
whole_seconds none = none
whole_seconds (some at) = some (at / nanos_per_second)

abbrev pub stored_user : ℕ → UserPolicy → UserPolicyRow
stored_user seconds u = record {
  email = trim_space u.email;
  username = trim_space u.username;
  uuid = trim_space u.uuid;
  enabled = one_if_set u.enabled;
  expiry_at = whole_seconds u.expiry_at;
  inbound_tag = trim_space u.inbound_tag;
  updated_at = seconds;
}

-- A policy among them is of the email.
abbrev pub is_named : Text → List QuotaUserPolicy → Bool
is_named email [] = false
is_named email (u ∷ users) = text_eq (trim_space u.email) email || is_named email users

one_if_set_lem : (b : Bool) → bool_to_int b ≡ one_if_set b
one_if_set_lem true = refl
one_if_set_lem false = refl

whole_seconds_lem : (t : Option Time) → nullable_time t ≡ whole_seconds t
whole_seconds_lem none = refl
whole_seconds_lem (some at) = refl

tag_or_default_lem :
    (tag : Text) → (if text_eq tag [] then codes "vless-reality" else tag) ≡ tag_or_default tag
unfolding text_eq
tag_or_default_lem [] = refl
tag_or_default_lem (c ∷ tag) = refl

pub policy_row-eq-stored : (now : ℕ) (u : QuotaUserPolicy) → policy_row now u ≡ stored_policy now u
unfolding policy_row
policy_row-eq-stored now u =
    rw (one_if_set_lem u.quota_enabled, tag_or_default_lem (trim_space u.inbound_tag)) refl

pub user_row-eq-stored : (now : ℕ) (u : UserPolicy) → user_policy_row now u ≡ stored_user now u
unfolding user_policy_row
user_row-eq-stored now u = rw (one_if_set_lem u.enabled, whole_seconds_lem u.expiry_at) refl

pub policy_rows-eq-stored :
    (now : ℕ) (users : List QuotaUserPolicy)
    → map (policy_row now) users ≡ map (stored_policy now) users
policy_rows-eq-stored now [] = refl
policy_rows-eq-stored now (u ∷ users) =
    rw (policy_row-eq-stored now u, policy_rows-eq-stored now users) refl

pub user_rows-eq-stored :
    (now : ℕ) (users : List UserPolicy)
    → map (user_policy_row now) users ≡ map (stored_user now) users
user_rows-eq-stored now [] = refl
user_rows-eq-stored now (u ∷ users) =
    rw (user_row-eq-stored now u, user_rows-eq-stored now users) refl

pub text_mem-stored_emails :
    (email : Text) (users : List QuotaUserPolicy)
    → text_mem email (stored_emails users) ≡ is_named email users
unfolding text_mem
text_mem-stored_emails email [] = refl
text_mem-stored_emails email (u ∷ users) = rw (text_mem-stored_emails email users) refl
