-- ===== src/Daemon/Admission.antt =====
-- Whom /runtime/user/add keeps out of Xray (cmd/ovpn-agent/http_routes.go).
use ovpn.Prelude.{
  some, [], text_eq, ◌||◌, ◌≡◌, refl, ap, ◌∙◌, ◌⊎◌, inl, inr, true, false, none, ◌==◌, ◌>>=◌, Text,
  codes, arith, Bool-cases, if◌then◌else◌,
}
use ovpn.Remote.{driver_call, write_db}
use ovpn.Remote.Quota.{set_quota_blocked, get_quota_state, state_in, get_quota_policy, policy_in}
use ovpn.Remote.Users.{get_user_policy, user_in}
use ovpn.Stats.{Agent, emit, on_store}
use ovpn.Strings.{trim_space}
use ovpn.Daemon.{Request, RouteDeps, RuntimeReq, Served, attempt}
use ovpn.Daemon.Rules.{
  SameAgent, Finds-state, Finds-policy, Finds-user, attempt_found, attempt_split,
}
use ovpn.Daemon.Runtime.{
  is_blocked, quota_disabled, is_refused_now, add_runtime_user, add_unless_expired, add_blocked,
  add_store_error, add_decoded, trimmed_runtime, runtime_add_route,
}

-- The answer is not 200, and Xray is as it was.
abbrev pub IsKeptOut : {F S : Type 0} → Agent S → Served F S → Type 0
IsKeptOut a (answer, b) = (b.runtime ≡ a.runtime) × ((answer.status == 200) ≡ false)

-- What the refresh of the gauges leaves as it was.
abbrev pub IsQuiet : {S : Type 0} → (Agent S → Agent S) → Type 0
IsQuiet {S} refresh = (a : Agent S) → SameAgent a (refresh a)

SameAgent-trans : {S : Type 0} (a b c : Agent S) → SameAgent a b → SameAgent b c → SameAgent a c
SameAgent-trans a b c (db, now, runtime) (db', now', runtime') =
    (db' ∙ db, now' ∙ now, runtime' ∙ runtime)

-- Lifting a quota block leaves the user's policy.
abbrev Lifted : {S : Type 0} → Text → Agent S → Agent S → Type 0
Lifted email a b =
    (user_in email b.world.db ≡ user_in email a.world.db)
    × (b.world.now ≡ a.world.now)
    × (b.runtime ≡ a.runtime)

lift_block :
    {S : Type 0} (email : Text) (a : Agent S)
    → Lifted email a (on_store (set_quota_blocked email false none) a).1
unfolding on_store set_quota_blocked driver_call write_db ◌>>=◌
lift_block email a = ground arith

-- Whom the request may not bring into Xray: a user whose block the quota policy still asks for, and
-- one who is disabled or expired.
abbrev pub IsBarred : {S : Type 0} → Text → Agent S → Type 0
IsBarred email a =
    ((is_blocked (state_in email a.world.db) ≡ true)
      × (quota_disabled (policy_in email a.world.db) ≡ false))
    ⊎ (is_refused_now (user_in email a.world.db) a.world.now ≡ true)

IsBarred-same :
    {S : Type 0} (email : Text) (a b : Agent S)
    → SameAgent a b
    → IsBarred email a
    → IsBarred email b
IsBarred-same email a b (db, now, runtime) barred = rw (db, now) barred

module _ (F : Type 0) {S : Type 0} (d : RouteDeps S) (q : RuntimeReq) where
  error_KeptOut :
      (operation e : Text) (a b : Agent S)
      → b.runtime ≡ a.runtime
      → IsKeptOut a (add_store_error {F = F} d operation e b)
  unfolding emit
  error_KeptOut operation e a b runtime = (runtime, refl)

  expired_KeptOut :
      (a : Agent S)
      → is_refused_now (user_in q.email a.world.db) a.world.now ≡ true
      → IsKeptOut a (add_unless_expired {F = F} d q a)
  unfolding add_unless_expired emit
  expired_KeptOut a refused =
      attempt_found (IsKeptOut a) (add_store_error {F = F} d (codes "user_get_policy")) _
        (get_user_policy q.email) (user_in q.email) a (Finds-user q.email)
        (λ e b (db, now, runtime). error_KeptOut (codes "user_get_policy") e a b runtime)
        (λ b (db, now, runtime). rw (now, refused) (runtime, refl))

  KeptOut-later :
      (a b : Agent S) (run : Served F S) → b.runtime ≡ a.runtime → IsKeptOut b run → IsKeptOut a run
  KeptOut-later a b run runtime (kept, status) = (kept ∙ runtime, status)

  module _ (quiet : IsQuiet d.refresh_once) where
    expired_after_lift :
        (a b : Agent S)
        → SameAgent a b
        → is_refused_now (user_in q.email a.world.db) a.world.now ≡ true
        → IsKeptOut a (
            attempt
              (on_store (set_quota_blocked q.email false none) b)
              (add_store_error {F = F} d (codes "quota_set_blocked"))
              (λ _ c. add_unless_expired {F = F} d q (d.refresh_once c)))
    expired_after_lift a b (db, now, runtime) refused =
        let run = on_store (set_quota_blocked q.email false none) b in
        let (user, later, still) = lift_block q.email b in
        let (db', now', runtime') = quiet run.1 in
        let same_user = ap (user_in q.email) db' ∙ (user ∙ ap (user_in q.email) db) in
        let same_now = now' ∙ (later ∙ now) in
        attempt_split (IsKeptOut a) (add_store_error {F = F} d (codes "quota_set_blocked"))
          (λ _ c. add_unless_expired {F = F} d q (d.refresh_once c)) run
          (λ e h. error_KeptOut (codes "quota_set_blocked") e a run.1 (still ∙ runtime))
          (λ x h.
            KeptOut-later a (d.refresh_once run.1)
              (add_unless_expired {F = F} d q (d.refresh_once run.1)) (runtime' ∙ (still ∙ runtime))
              (expired_KeptOut (d.refresh_once run.1) (rw (same_user, same_now) refused)))

    add_blocked-expired :
        (a : Agent S)
        → is_refused_now (user_in q.email a.world.db) a.world.now ≡ true
        → IsKeptOut a (add_blocked {F = F} d q a)
    unfolding add_blocked emit
    add_blocked-expired a refused =
        attempt_found (IsKeptOut a) (add_store_error {F = F} d (codes "quota_get_policy")) _
          (get_quota_policy q.email) (policy_in q.email) a (Finds-policy q.email)
          (λ e b (db, now, runtime). error_KeptOut (codes "quota_get_policy") e a b runtime)
          (λ b same. elim (Bool-cases (quota_disabled (policy_in q.email a.world.db))) [
            | inl off ↦ rw off (expired_after_lift a b same refused)
            | inr on ↦ rw on (same.2, refl)
          ])

    add_blocked-asked :
        (a : Agent S)
        → quota_disabled (policy_in q.email a.world.db) ≡ false
        → IsKeptOut a (add_blocked {F = F} d q a)
    unfolding add_blocked emit
    add_blocked-asked a asked =
        attempt_found (IsKeptOut a) (add_store_error {F = F} d (codes "quota_get_policy")) _
          (get_quota_policy q.email) (policy_in q.email) a (Finds-policy q.email)
          (λ e b (db, now, runtime). error_KeptOut (codes "quota_get_policy") e a b runtime)
          (λ b same. rw asked (same.2, refl))

    barred_blocked : (a : Agent S) → IsBarred q.email a → IsKeptOut a (add_blocked {F = F} d q a)
    barred_blocked a (inl (blocked, asked)) = add_blocked-asked a asked
    barred_blocked a (inr refused) = add_blocked-expired a refused

    barred_unblocked :
        (a : Agent S)
        → is_blocked (state_in q.email a.world.db) ≡ false
        → IsBarred q.email a
        → IsKeptOut a (add_unless_expired {F = F} d q a)
    barred_unblocked a free (inl (blocked, asked)) = absurd (ground arith)
    barred_unblocked a free (inr refused) = expired_KeptOut a refused

    add_runtime_user-IsKeptOut :
        (a : Agent S) → IsBarred q.email a → IsKeptOut a (add_runtime_user {F = F} d q a)
    unfolding add_runtime_user
    add_runtime_user-IsKeptOut a barred =
        attempt_found (IsKeptOut a) (add_store_error {F = F} d (codes "quota_get_state"))
          (λ state b.
            if is_blocked state
            then add_blocked {F = F} d q b
            else add_unless_expired {F = F} d q b)
          (get_quota_state q.email) (state_in q.email) a (Finds-state q.email)
          (λ e b (db, now, runtime). error_KeptOut (codes "quota_get_state") e a b runtime)
          (λ b same. elim (Bool-cases (is_blocked (state_in q.email a.world.db))) [
            | inl yes_ ↦ rw yes_ (
                KeptOut-later a b (add_blocked {F = F} d q b) same.2
                  (barred_blocked b (IsBarred-same q.email a b same barred)))
            | inr free ↦ rw free (
                KeptOut-later a b (add_unless_expired {F = F} d q b) same.2 (
                  barred_unblocked b (ap (λ db. is_blocked (state_in q.email db)) same.0 ∙ free)
                    (IsBarred-same q.email a b same barred)))
          ])

module _ (F : Type 0) {S : Type 0} (d : RouteDeps S) (quiet : IsQuiet d.refresh_once) where
  decoded_KeptOut :
      (given : RuntimeReq) (a : Agent S)
      → IsBarred (trimmed_runtime given).email a
      → IsKeptOut a (add_decoded {F = F} d (some given) a)
  unfolding emit
  decoded_KeptOut given a barred =
      elim (Bool-cases
        (text_eq (trim_space given.email) [] || text_eq (trim_space given.uuid) [])) [
          | inl blank ↦ rw blank (refl, refl)
          | inr full ↦
              rw full (add_runtime_user-IsKeptOut F d (trimmed_runtime given) quiet a barred)
        ]

  -- Whatever the driver refuses: a request to add a user whose quota block the policy still asks for,
  -- or who is disabled or expired, is not answered 200 and leaves Xray as it was.
  pub runtime_add_route-IsKeptOut :
      (r : Request) (a : Agent S) (given : RuntimeReq)
      → d.decoders.runtime_req r.body ≡ some given
      → IsBarred (trim_space given.email) a
      → IsKeptOut a (runtime_add_route {F = F} d r a)
  unfolding runtime_add_route emit
  runtime_add_route-IsKeptOut r a given body barred =
      elim (Bool-cases (text_eq r.verb (codes "POST"))) [
        | inl post ↦ rw (post, body) (decoded_KeptOut given a barred)
        | inr other ↦ rw other (refl, refl)
      ]
