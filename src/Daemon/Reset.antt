-- ===== src/Daemon/Reset.antt =====
-- What /quota/reset leaves (cmd/ovpn-agent/http_routes.go).
use ovpn.Prelude.{
  ◌≡◌, refl, ap, ◌∙◌, Bool, true, false, Option, none, some, List, [], ◌∷◌, Text, codes, arith,
  Bool-cases, bind_cases, pure, ◌||◌, not, text_eq, inl, inr, if◌then◌else◌,
}
use ovpn.Strings.{trim_space, is_blank}
use ovpn.Remote.Quota.{set_quota_blocked, list_quota_policies}
use ovpn.Remote.Reading.{Reads-policies, Reads-user}
use ovpn.Remote.Users.{get_user_policy}
use ovpn.Stats.{Agent, quota_event, on_store, emit}
use ovpn.Model.Types.{QuotaUserPolicy, UserPolicy}
use ovpn.Stats.Quota.Membership.{stored_blocked, set_blocked_self}
use ovpn.Daemon.{Served, RouteDeps, attempt, server_error, store_error}
use ovpn.Daemon.Rules.{attempt_split}
use ovpn.Daemon.Runtime.{
  readded, is_enabled_now, manual_reset, readd_policy, readd_policies, reset_answer, reset_quota,
}
use ovpn.Daemon.Admission.{IsQuiet}

-- No quota block of the user is stored.
abbrev pub IsUnblocked : {S : Type 0} → Text → Agent S → Type 0
IsUnblocked email a = stored_blocked (trim_space email) a.world.db ≡ false

module _ {S : Type 0} (d : RouteDeps S) where
  readded_keeps : (run : Option Text × S) (a : Agent S) → (readded d run a).1.world.db ≡ a.world.db
  unfolding emit
  readded_keeps (none, s) a = refl
  readded_keeps (some e, s) a = ground arith

  readd_policy_keeps :
      (email : Text) (p : QuotaUserPolicy) (seen : Bool) (a : Agent S)
      → (readd_policy d email p seen a).1.world.db ≡ a.world.db
  unfolding readd_policy
  readd_policy_keeps email p seen a =
      elim (Bool-cases (not (text_eq p.email email) || is_blank p.uuid)) [
        | inl other ↦ rw other refl
        | inr own ↦
            rw own (readded_keeps (d.runtime.add_user p.inbound_tag p.email p.uuid a.runtime) a)
      ]

  readd_policies_keeps :
      (email : Text) (ps : List QuotaUserPolicy) (seen : Bool) (a : Agent S)
      → (readd_policies d email ps seen a).1.world.db ≡ a.world.db
  unfolding readd_policies pure
  readd_policies_keeps email [] seen a = refl
  readd_policies_keeps email (p ∷ ps) seen a =
      elim (bind_cases (readd_policy d email p seen) (readd_policies d email ps) a) [
        | inl (now_seen, done, same) ↦ rw same (
            readd_policies_keeps email ps now_seen (readd_policy d email p seen a).1
            ∙ readd_policy_keeps email p seen a)
        | inr (e, failed, same) ↦ rw same (readd_policy_keeps email p seen a)
      ]

  module _ (F : Type 0) (quiet : IsQuiet d.refresh_once) (email : Text) where
    abbrev UnblocksOn200 : Served F S → Type 0
    UnblocksOn200 (answer, a) = answer.status ≡ 200 → IsUnblocked email a

    answer_unblocks :
        (seen : Bool) (a : Agent S)
        → IsUnblocked email a
        → UnblocksOn200 (reset_answer {F = F} d email seen a)
    unfolding emit
    answer_unblocks true a h s =
        let (db, now, runtime) = quiet (emit true (quota_event manual_reset (codes "success")) a) in
        ap (stored_blocked (trim_space email)) db ∙ h
    answer_unblocks false a h s =
        let (db, now, runtime) = quiet a in ap (stored_blocked (trim_space email)) db ∙ h

    readded_unblocks :
        (listed : List QuotaUserPolicy) (found : Option UserPolicy) (a : Agent S)
        → IsUnblocked email a
        → UnblocksOn200 (
            if is_enabled_now found a.world.now
            then attempt
                (readd_policies d email listed false a)
                server_error
                (reset_answer {F = F} d email)
            else reset_answer {F = F} d email false a)
    readded_unblocks listed found a h = elim (Bool-cases (is_enabled_now found a.world.now)) [
      | inr off ↦ rw off (answer_unblocks false a h)
      | inl on ↦ rw on (
          attempt_split UnblocksOn200 server_error (reset_answer {F = F} d email)
            (readd_policies d email listed false a) (λ e failed s. absurd (ground arith))
            (λ seen done. answer_unblocks seen (readd_policies d email listed false a).1 (
              ap (stored_blocked (trim_space email)) (readd_policies_keeps email listed false a)
              ∙ h)))
    ]

    -- Where the refresh of the gauges leaves the database: after a reset that is answered 200, the
    -- user's quota block is not stored any more, whatever Xray answered.
    pub reset_quota-IsUnblocked :
        (a : Agent S)
        → (reset_quota {F = F} d email a).0.status ≡ 200
        → IsUnblocked email (reset_quota {F = F} d email a).1
    unfolding reset_quota on_store emit
    reset_quota-IsUnblocked a =
        attempt_split UnblocksOn200 (store_error (codes "quota_reset")) _
          (on_store (set_quota_blocked email false none) a) (λ e failed s. absurd (ground arith))
          (λ _ written.
            let b = (on_store (set_quota_blocked email false none) a).1 in
            let free : IsUnblocked email b = set_blocked_self email false none a.world written in
            attempt_split UnblocksOn200 (store_error (codes "quota_list_policy")) _
              (on_store list_quota_policies b) (λ e failed s. absurd (ground arith))
              (λ listed read.
                let c = (on_store list_quota_policies b).1 in
                let kept : IsUnblocked email c =
                  ap (stored_blocked (trim_space email)) (Reads-policies b.world).0 ∙ free in
                attempt_split UnblocksOn200 (store_error (codes "user_get_policy")) _
                  (on_store (get_user_policy email) c) (λ e failed s. absurd (ground arith))
                  (λ found got.
                    readded_unblocks listed found (on_store (get_user_policy email) c).1 (
                      ap (stored_blocked (trim_space email)) (Reads-user email c.world).0 ∙ kept))))
