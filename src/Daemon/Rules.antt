-- ===== src/Daemon/Rules.antt =====
-- How a handler's answer follows from what a call of the store found (cmd/ovpn-agent/http_routes.go).
use ovpn.Prelude.{subst, arith, ◌≡◌, refl, ◌⊎◌, inl, inr, Text, Exec, Result, ok, err}
use ovpn.Driver.Reads.{Finds, Finds-query}
use ovpn.Remote.{Db, World}
use ovpn.Remote.Quota.{
  get_quota_state, state_in, get_quota_policy, policy_in, list_quota_policies, policies_of,
}
use ovpn.Remote.Users.{get_user_policy, user_in}
use ovpn.Stats.{Agent, on_store}
use ovpn.Daemon.{Served, attempt}

-- The database, the clock and Xray are as they were.
abbrev pub SameAgent : {S : Type 0} → Agent S → Agent S → Type 0
SameAgent a b = (b.world.db ≡ a.world.db) × (b.world.now ≡ a.world.now) × (b.runtime ≡ a.runtime)

pub Finds-state : (email : Text) → Finds (get_quota_state email) (state_in email)
unfolding get_quota_state
Finds-state email = Finds-query (state_in email)

pub Finds-policy : (email : Text) → Finds (get_quota_policy email) (policy_in email)
unfolding get_quota_policy
Finds-policy email = Finds-query (policy_in email)

pub Finds-user : (email : Text) → Finds (get_user_policy email) (user_in email)
unfolding get_user_policy
Finds-user email = Finds-query (user_in email)

pub Finds-policies : Finds list_quota_policies policies_of
unfolding list_quota_policies
Finds-policies = Finds-query policies_of

module _ {F S A : Type 0} (P : Served F S → Type 0) (bad : Text → Agent S → Served F S)
    (good : A → Agent S → Served F S) where
  attempt_cases :
      (run : Result A × Agent S) (a : Agent S) (x : A)
      → ((run.0 ≡ ok x) ⊎ ((e : Text) × (run.0 ≡ err e)))
      → SameAgent a run.1
      → ((e : Text) (b : Agent S) → SameAgent a b → P (bad e b))
      → ((b : Agent S) → SameAgent a b → P (good x b))
      → P (attempt run bad good)
  attempt_cases (ok y, b) a x (inl e) same on_bad on_good =
      let found : x ≡ y = ground arith in subst (λ z. P (good z b)) found (on_good b same)
  attempt_cases (ok y, b) a x (inr (z, e)) same on_bad on_good = absurd (ground arith)
  attempt_cases (err y, b) a x found same on_bad on_good = on_bad y b same

  -- What holds of the answer to an error, and of the answer to what was found.
  pub attempt_found :
      (m : Exec World A) (f : Db → A) (a : Agent S)
      → Finds m f
      → ((e : Text) (b : Agent S) → SameAgent a b → P (bad e b))
      → ((b : Agent S) → SameAgent a b → P (good (f a.world.db) b))
      → P (attempt (on_store m a) bad good)
  unfolding on_store
  attempt_found m f a finds on_bad on_good =
      let (found, db, now) = finds a.world in
      attempt_cases (on_store m a) a (f a.world.db) found (db, now, refl) on_bad on_good

  -- What holds of both answers, at the state that the call left.
  pub attempt_split :
      (run : Result A × Agent S)
      → ((e : Text) → run.0 ≡ err e → P (bad e run.1))
      → ((x : A) → run.0 ≡ ok x → P (good x run.1))
      → P (attempt run bad good)
  attempt_split (ok x, b) on_bad on_good = on_good x refl
  attempt_split (err e, b) on_bad on_good = on_bad e refl
