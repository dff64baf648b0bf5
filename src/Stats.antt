-- ===== src/Stats.antt =====
-- internal/stats: the agent's collection cycle and the two enforcers that follow it.
pub mod Delta
pub mod Quota
pub mod Expiry
pub mod Collector
use ovpn.Prelude.{
  ℕ, ℤ, ◌≡◌, Bool, true, false, ◌&&◌, ◌||◌, Option, none, some, List, [], ◌∷◌, ◌++◌, Text, codes,
  Exec, Result, ok, err, if◌then◌else◌,
}
use ovpn.Strings.{trim_space, to_lower, contains}
use ovpn.Remote.{World}

-- What the hooks and the observer are called with, the newest last.
pub data Event : Type 0 where
  quota_event : Text → Text → Event
  notified : Text → Text → Event
  blocked_users : ℕ → Event
  usage_bands : ℕ → ℕ → Event
  collect_start : Event
  collect_finish : ℕ → Option Text → Event
  counter_reset : Event
  db_write_error : Text → Event
  xray_reachable : Bool → Event
  users_active : ℕ → Event
  user_spike : ℤ → Event
  runtime_event : Text → Text → Event
  health_checked : Text → Event

-- The live Xray inbounds, which the program reaches through `RuntimeManager`. `S` is their state; an
-- error comes as its text, and `none` is success.
pub record RuntimeManager (S : Type 0) : Type 0 where
  pub add_user : Text → Text → Text → S → Option Text × S
  pub remove_user : Text → Text → S → Option Text × S

pub record Agent (S : Type 0) : Type 0 where
  pub world : World
  pub runtime : S
  pub trace : List Event

module _ {S : Type 0} where
  -- A call of the store.
  unfoldable pub on_store : {A : Type 0} → Exec World A → Exec (Agent S) A
  on_store m a = let (r, w) = m a.world in (r, record a { world = w })

  -- A call of a hook, where one is set.
  unfoldable pub emit : Bool → Event → Agent S → Agent S
  emit hooked e a = if hooked then record a { trace = a.trace ++ e ∷ [] } else a

abbrev pub result_of : Option Text → Result (Unit {0})
result_of none = ok tt
result_of (some e) = err e

-- combineFirst
unfoldable pub combine_first : Option Text → Option Text → Option Text
combine_first none next = next
combine_first (some e) next = some e

abbrev pub error_lower : Text → Text
error_lower e = to_lower (trim_space e)

unfoldable pub is_already_present : Text → Bool
is_already_present e =
    contains (error_lower e) (codes "already exists")
    || contains (error_lower e) (codes "already exist")

unfoldable pub is_missing : Text → Bool
is_missing e =
    let text = error_lower e in
    contains text (codes "not found")
    || contains text (codes "not exist")
    || (contains text (codes "failed to remove") && contains text (codes "user"))

abbrev pub not_configured : Text
not_configured = codes "runtime manager is not configured"

abbrev pub identity_incomplete : Text
identity_incomplete = codes "runtime identity is incomplete"
