-- ===== src/Daemon/Synced.antt =====
-- What /users/sync leaves behind (cmd/ovpn-agent/http_routes.go, internal/stats/expiry.go).
use ovpn.Float.{Float64}
use ovpn.Prelude.{
  sym, ◌/◌, length, ◌≡◌, refl, ap, ◌∙◌, inl, inr, Bool, Option, none, some, List, [], ◌∷◌, map,
  Text, codes, All, arith, ok, bind_cases,
}
use ovpn.Driver.Reads.{Finds, Finds-query}
use ovpn.Remote.{Db, World, nanos_per_second}
use ovpn.Remote.Users.{replace_user_policies, list_user_policies, users_of}
use ovpn.Remote.Atomic.{atomic_ok}
use ovpn.Remote.Stored.{stored_user}
use ovpn.Remote.Policies.{with_user_policies, replace_user_policies-IsAtomic}
use ovpn.Model.Types.{Time, UserPolicy}
use ovpn.Stats.{RuntimeManager, Agent, on_store}
use ovpn.Stats.Expiry.{
  ExpiryEnforcer, remove_expired, noted, expire_policy, expire_policies, as_result, enforce_expiry,
}
use ovpn.Stats.Expiry.Removes.{enforce_expiry-removes}
use ovpn.Stats.Expiry.Laws.{IsRemoval, IsSettled}
use ovpn.Daemon.{Served, respond, server_error, store_error, done_users, RouteDeps, attempt}
use ovpn.Daemon.Sync.{sync_users}
use ovpn.Daemon.Rules.{attempt_split}
use ovpn.Daemon.Admission.{IsQuiet}

module _ {S : Type 0} (x : ExpiryEnforcer S) (now : Time) where
  noted_world :
      (email : Text) (first : Option Text) (run : Option Text × Agent S)
      → (noted email first run).1.world ≡ run.1.world
  noted_world email first (none, a) = refl
  noted_world email first (some e, a) = refl

  remove_world : (tag email : Text) (a : Agent S) → (remove_expired x tag email a).1.world ≡ a.world
  unfolding remove_expired
  remove_world tag email a = ground arith

  expire_policy_world :
      (p : UserPolicy) (s : Option Text × Agent S) → (expire_policy x now p s).1.world ≡ s.1.world
  unfolding expire_policy
  expire_policy_world p s = ground (
    arith,
    noted_world p.email s.0 (remove_expired x p.inbound_tag p.email s.1),
    remove_world p.inbound_tag p.email s.1,
  )

  expire_policies_world :
      (ps : List UserPolicy) (s : Option Text × Agent S)
      → (expire_policies x now ps s).1.world ≡ s.1.world
  unfolding expire_policies
  expire_policies_world [] s = refl
  expire_policies_world (p ∷ ps) s =
      expire_policies_world ps (expire_policy x now p s) ∙ expire_policy_world p s

  Finds-users : Finds list_user_policies users_of
  unfolding list_user_policies
  Finds-users = Finds-query users_of

  -- A pass of the expiry enforcer leaves the database and the clock.
  pub enforce_expiry_world :
      (a : Agent S)
      → ((enforce_expiry x now a).1.world.db ≡ a.world.db)
        × ((enforce_expiry x now a).1.world.now ≡ a.world.now)
  unfolding enforce_expiry on_store
  enforce_expiry_world a =
      let then_ =
        λ (ps : List UserPolicy) (b : Agent S). as_result (expire_policies x now ps (none, b)) in
      let (found, db, same_now) = Finds-users a.world in
      elim (bind_cases (on_store list_user_policies) then_ a) [
        | inl (ps, read, rest) ↦
            let world = expire_policies_world ps (none, (on_store list_user_policies a).1) in
            rw rest
              (ap (λ (w : World). w.db) world ∙ db, ap (λ (w : World). w.now) world ∙ same_now)
        | inr (e, failed, rest) ↦ rw rest (db, same_now)
      ]

module _ (f : Float64) {S : Type 0} (d : RouteDeps S) (x : ExpiryEnforcer S) (r : RuntimeManager S)
    (has : S → Text → Text → Bool) (laws : IsRemoval r has) (configured : x.runtime ≡ some r)
    (set : d.expiry ≡ some x) (quiet : IsQuiet d.refresh_once) where
  -- The users given are the ones stored, and each of them is settled since the agent `a`.
  abbrev pub IsSynced : List UserPolicy → Agent S → Agent S → Type 0
  IsSynced users a b =
      (b.world.db.user_policy ≡ map (stored_user (a.world.now / nanos_per_second)) users)
      × All (IsSettled r has b.world.now a.runtime b.runtime) b.world.db.user_policy

  enforced :
      (now : Time) (b : Agent S)
      → (enforce_expiry x now b).0 ≡ ok tt
      → b.world.now ≡ now
      → let c = d.refresh_once (enforce_expiry x now b).1 in
        (c.world.db ≡ b.world.db)
        × All (IsSettled r has c.world.now b.runtime c.runtime) c.world.db.user_policy
  enforced now b fine at =
      let (db, same_now) = enforce_expiry_world x now b in
      let (db', now', runtime') = quiet (enforce_expiry x now b).1 in
      (
        db' ∙ db,
        rw (db' ∙ db, now' ∙ (same_now ∙ at), runtime')
            (enforce_expiry-removes x r has laws configured now b fine),
      )

  stored_users :
      (users : List UserPolicy) (a : Agent S)
      → (on_store (replace_user_policies users) a).0 ≡ ok tt
      → (on_store (replace_user_policies users) a).1.world.db
        ≡ with_user_policies users a.world.now a.world.db
  unfolding on_store
  stored_users users a h =
      atomic_ok (replace_user_policies users) a.world (with_user_policies users)
        (replace_user_policies-IsAtomic users a.world) h

  same_runtime :
      (users : List UserPolicy) (a : Agent S)
      → (on_store (replace_user_policies users) a).1.runtime ≡ a.runtime
  unfolding on_store
  same_runtime users a = refl

  abbrev IsSyncedIf200 : List UserPolicy → Agent S → Served f.F S → Type 0
  IsSyncedIf200 users a (answer, b) = answer.status ≡ 200 → IsSynced users a b

  after_store :
      (users : List UserPolicy) (a b : Agent S)
      → b.world.db ≡ with_user_policies users a.world.now a.world.db
      → b.runtime ≡ a.runtime
      → IsSyncedIf200 users a (
          attempt
            (enforce_expiry x b.world.now b)
            server_error
            (λ _ c. respond {F = f.F} 200 (done_users (length users)) (d.refresh_once c)))
  after_store users a b stored same =
      attempt_split (IsSyncedIf200 users a) server_error
        (λ _ c. respond {F = f.F} 200 (done_users (length users)) (d.refresh_once c))
        (enforce_expiry x b.world.now b) (λ e failed h. absurd (ground arith))
        (λ u fine h.
          let (db, out) = enforced b.world.now b fine refl in
          (ap (λ (db : Db). db.user_policy) (db ∙ stored), rw (sym same) out))

  -- When /users/sync answers 200, where a removal that Xray answers without an error, or with one that
  -- says the user was not found, leaves the user out, and no removal adds a user: the users stored are
  -- those of the request, in their order, each with its texts trimmed, its flag as 1 or 0 and its expiry
  -- in whole seconds; and every stored user is enabled and has not expired, or Xray's inbound of the
  -- policy does not serve it, or Xray answered its removal, one of those between the states before and
  -- after, with an error that speaks of a failed removal or of what does not exist, which the enforcer
  -- passes over.
  pub sync_users-IsSynced :
      (users : List UserPolicy) (a : Agent S)
      → (sync_users f d users a).0.status ≡ 200
      → IsSynced users a (sync_users f d users a).1
  unfolding sync_users
  sync_users-IsSynced users a = rw set (
      attempt_split (IsSyncedIf200 users a) (store_error (codes "replace_user_policy")) _
        (on_store (replace_user_policies users) a) (λ e failed h. absurd (ground arith))
        (λ u stored.
          after_store users a (on_store (replace_user_policies users) a).1
            (stored_users users a stored) (same_runtime users a)))
