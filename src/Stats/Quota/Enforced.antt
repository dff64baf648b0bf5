-- ===== src/Stats/Quota/Enforced.antt =====
-- The loop of a pass: what it does to a user over the quota, whatever it does to the others.
use ovpn.Float.{Float64}
use ovpn.Prelude.{
  ℤ, pos, ltb_ℤ, leb_ℤ, ◌≡◌, refl, sym, ap, ◌∙◌, inl, inr, ◌⊎◌, Bool, true, false, not, ◌&&◌,
  Option, none, some, List, [], ◌∷◌, ◌++◌, codes, Text, Bool-cases, text_eq, text_eq_iff, All,
}
use ovpn.Strings.{trim_space}
use ovpn.Dict.{get}
use ovpn.Remote.{World}
use ovpn.Remote.Quota.{QuotaState, no_state, set_quota_blocked}
use ovpn.Model.Types.{Time, QuotaUserPolicy}
use ovpn.Stats.{RuntimeManager}
use ovpn.Stats.Quota.{QuotaEnforcer, Snapshot, Pass, policy_quota}
use ovpn.Stats.Quota.Loop.{mark_bands, enforce_enabled, enforce_policy, enforce_policies}
use ovpn.Stats.Quota.Membership.{IsMembership, stored_blocked, set_blocked_other, set_blocked_stays}
use ovpn.Stats.Quota.Effect.{Keeps, block-Keeps, unblock-Keeps, block_effect, unblock_effect}

-- The policy is another user's, or the user's in another inbound.
abbrev pub IsOther : Text → Text → QuotaUserPolicy → Type 0
IsOther tag email p =
    ((text_eq tag p.inbound_tag && text_eq email p.email) ≡ false) × (trim_space p.email ≡ p.email)

-- The quota is off for the user, or it is on and the usage below it.
abbrev pub IsUnder : Snapshot → QuotaUserPolicy → Type 0
IsUnder snap p =
    let quota = policy_quota snap.default_quota p.monthly_quota_byte in
    (p.quota_enabled ≡ false)
    ⊎ ((p.quota_enabled ≡ true)
        × (leb_ℤ quota (pos 0) ≡ false)
        × (leb_ℤ quota (get (pos 0) p.email snap.usage) ≡ false))

module _ {S : Type 0} (q : QuotaEnforcer S) (f : Float64) (r : RuntimeManager S)
    (has : S → Text → Text → Bool) (laws : IsMembership r has)
    (configured : q.runtime ≡ some r) where
  Keeps-refl : (b : Bool) (t m : Text) (l : Pass S) → Keeps q has b t m l l
  Keeps-refl b t m l = record { live = refl; stored = λ h. h; fine = λ h. h }

  Keeps-trans :
      (b : Bool) (t m : Text) (x y z : Pass S)
      → Keeps q has b t m x y
      → Keeps q has b t m y z
      → Keeps q has b t m x z
  Keeps-trans b t m x y z h k = record {
    live = k.live ∙ h.live;
    stored = λ e. k.stored (h.stored e);
    fine = λ e. h.fine (k.fine e);
  }

  mark-Keeps :
      (b : Bool) (t m email : Text) (usage quota : ℤ) (l : Pass S)
      → Keeps q has b t m l (mark_bands f email usage quota l)
  unfolding mark_bands
  mark-Keeps b t m email usage quota l = record { live = refl; stored = λ h. h; fine = λ h. h }

  -- A write for `p` of a flag that is `b` where the user is `m` leaves `m` at `b`.
  flag_stays :
      (p : QuotaUserPolicy) (m : Text) (at : Option Time) (b c : Bool)
      → trim_space p.email ≡ p.email
      → (text_eq m p.email ≡ false) ⊎ (c ≡ b)
      → (w : World) → stored_blocked m w.db ≡ b
      → stored_blocked m (set_quota_blocked p.email c at w).1.db ≡ b
  flag_stays p m at b c trimmed (inl ne) w h =
      set_blocked_other p.email c at w m (ap (λ x. text_eq m x) trimmed ∙ ne) ∙ h
  flag_stays p m at b c trimmed (inr e) w h =
      ap (λ x. stored_blocked m (set_quota_blocked p.email x at w).1.db) e
      ∙ set_blocked_stays p.email b at w m h

  -- A snapshot that has `m` the other way sets no flag of `m` but `b`.
  way :
      (states : List (Text × QuotaState)) (email m : Text) (b : Bool)
      → (get no_state m states).blocked ≡ not b
      → (text_eq m email ≡ false) ⊎ (not (get no_state email states).blocked ≡ b)
  way states email m b h = elim (Bool-cases (text_eq m email)) [
    | inr ne ↦ inl ne
    | inl same ↦ inr (
        ap (λ x. not (get no_state x states).blocked) (sym ((text_eq_iff m email).0 same))
        ∙ (ap not h ∙ not_not b))
  ]
    where
      not_not : (c : Bool) → not (not c) ≡ c
      not_not true = refl
      not_not false = refl

  enabled-Keeps :
      (now : Time) (p : QuotaUserPolicy) (was : Bool) (usage quota : ℤ) (l : Pass S) (b : Bool)
      (t m : Text)
      → IsOther t m p
      → (text_eq m p.email ≡ false) ⊎ (not was ≡ b)
      → Keeps q has b t m l (enforce_enabled f q now p was usage quota l)
  unfolding enforce_enabled
  enabled-Keeps now p true usage quota l b t m (ne, trimmed) sets =
      elim (Bool-cases (leb_ℤ quota usage)) [
        | inl e ↦ rw e (record { live = refl; stored = λ h. h; fine = λ h. h })
        | inr e ↦ rw e (
            unblock-Keeps q r has laws configured p (codes ": ")
              (codes " when usage dropped below rolling 30d quota") l b t m ne
              (flag_stays p m none b false trimmed sets))
      ]
  enabled-Keeps now p false usage quota l b t m (ne, trimmed) sets =
      elim (Bool-cases (ltb_ℤ usage quota)) [
        | inl e ↦ rw e (Keeps-refl b t m l)
        | inr e ↦ rw e (
            block-Keeps q r has laws configured now p l b t m ne
              (flag_stays p m (some now) b true trimmed sets))
      ]

  policy-Keeps :
      (now : Time) (snap : Snapshot) (p : QuotaUserPolicy) (l : Pass S) (b : Bool) (t m : Text)
      → (get no_state m snap.states).blocked ≡ not b
      → IsOther t m p
      → Keeps q has b t m l (enforce_policy f q now snap p l)
  unfolding enforce_policy
  policy-Keeps now snap p l b t m was (ne, trimmed) =
      let quota = policy_quota snap.default_quota p.monthly_quota_byte in
      let is_blocked = (get no_state p.email snap.states).blocked in
      let usage = get (pos 0) p.email snap.usage in
      let sets = way snap.states p.email m b was in
      elim (Bool-cases p.quota_enabled) [
        | inr off ↦ elim (Bool-cases is_blocked) [
          | inr e ↦ rw off (rw e (Keeps-refl b t m l))
          | inl e ↦ rw off (
              rw e (
                unblock-Keeps q r has laws configured p (codes " after quota disabled: ")
                  (codes " because enforcement is disabled") l b t m ne
                  (flag_stays p m none b false trimmed (elim sets [
                    | inl other ↦ inl other
                    | inr same ↦ inr (ap not (sym e) ∙ same)
                  ]))))
        ]
        | inl on ↦ elim (Bool-cases (leb_ℤ quota (pos 0))) [
          | inl e ↦ rw on (rw e (Keeps-refl b t m l))
          | inr e ↦ rw on (
              rw e (
                Keeps-trans b t m l _ _ (mark-Keeps b t m p.email usage quota l)
                  (enabled-Keeps now p is_blocked usage quota _ b t m (ne, trimmed) sets)))
        ]
      ]

  policies_keep :
      (now : Time) (snap : Snapshot) (ps : List QuotaUserPolicy) (l : Pass S) (b : Bool)
      (t m : Text)
      → (get no_state m snap.states).blocked ≡ not b
      → All (IsOther t m) ps
      → Keeps q has b t m l (enforce_policies f q now snap ps l)
  unfolding enforce_policies
  policies_keep now snap [] l b t m was h = Keeps-refl b t m l
  policies_keep now snap (p ∷ ps) l b t m was h =
      Keeps-trans b t m l _ _ (policy-Keeps now snap p l b t m was h.0)
        (policies_keep now snap ps _ b t m was h.1)

  over_policy :
      (now : Time) (snap : Snapshot) (p : QuotaUserPolicy) (l : Pass S)
      → trim_space p.email ≡ p.email
      → p.quota_enabled ≡ true
      → leb_ℤ (policy_quota snap.default_quota p.monthly_quota_byte) (pos 0) ≡ false
      → (get no_state p.email snap.states).blocked ≡ false
      → ltb_ℤ
          (get (pos 0) p.email snap.usage)
          (policy_quota snap.default_quota p.monthly_quota_byte)
        ≡ false
      → (enforce_policy f q now snap p l).first_err ≡ none
      → (has (enforce_policy f q now snap p l).agent.runtime p.inbound_tag p.email ≡ false)
        × (stored_blocked p.email (enforce_policy f q now snap p l).agent.world.db ≡ true)
  unfolding enforce_policy enforce_enabled
  over_policy now snap p l trimmed on positive free over = rw on (
      rw positive (rw free (rw over (λ h. block_effect q r has laws configured now p _ trimmed h))))

  -- A pass over policies, one of which is a user's in an inbound, where the email of it and of the
  -- later policies is trimmed and no later policy is the same user's in the same inbound; the quota
  -- is enabled and positive, the user was not blocked in the snapshot and used at least the quota.
  -- If no error is noted at the end of the pass, that inbound of Xray does not serve the user, and
  -- the store has the user as blocked.
  pub enforce_policies-blocks_over :
      (now : Time) (snap : Snapshot) (before after : List QuotaUserPolicy) (p : QuotaUserPolicy)
      (l : Pass S)
      → trim_space p.email ≡ p.email
      → p.quota_enabled ≡ true
      → leb_ℤ (policy_quota snap.default_quota p.monthly_quota_byte) (pos 0) ≡ false
      → (get no_state p.email snap.states).blocked ≡ false
      → ltb_ℤ
          (get (pos 0) p.email snap.usage)
          (policy_quota snap.default_quota p.monthly_quota_byte)
        ≡ false
      → All (IsOther p.inbound_tag p.email) after
      → (enforce_policies f q now snap (before ++ p ∷ after) l).first_err ≡ none
      → (let l' = enforce_policies f q now snap (before ++ p ∷ after) l in
          (has l'.agent.runtime p.inbound_tag p.email ≡ false)
          × (stored_blocked p.email l'.agent.world.db ≡ true))
  unfolding enforce_policies
  enforce_policies-blocks_over now snap [] after p l trimmed on positive free over others h =
      let kept =
        policies_keep now snap after (enforce_policy f q now snap p l) true p.inbound_tag p.email
          free others in
      let (out, blocked) = over_policy now snap p l trimmed on positive free over (kept.fine h) in
      (kept.live ∙ out, kept.stored blocked)
  enforce_policies-blocks_over now snap (x ∷ before) after p l trimmed on positive free over others
        h =
      enforce_policies-blocks_over now snap before after p (enforce_policy f q now snap x l) trimmed
        on positive free over others h

  under_policy :
      (now : Time) (snap : Snapshot) (p : QuotaUserPolicy) (l : Pass S)
      → trim_space p.email ≡ p.email
      → (get no_state p.email snap.states).blocked ≡ true
      → IsUnder snap p
      → (enforce_policy f q now snap p l).first_err ≡ none
      → (has (enforce_policy f q now snap p l).agent.runtime p.inbound_tag p.email ≡ true)
        × (stored_blocked p.email (enforce_policy f q now snap p l).agent.world.db ≡ false)
  unfolding enforce_policy enforce_enabled
  under_policy now snap p l trimmed blocked (inl off) = rw off (
      rw blocked (λ h.
        unblock_effect q r has laws configured p (codes " after quota disabled: ")
          (codes " because enforcement is disabled") l trimmed h))
  under_policy now snap p l trimmed blocked (inr (on, positive, under)) = rw on (
      rw positive (
        rw blocked (
          rw under (λ h.
            unblock_effect q r has laws configured p (codes ": ")
              (codes " when usage dropped below rolling 30d quota") _ trimmed h))))

  -- A pass over policies, one of which is a user's in an inbound, where the email of it and of the
  -- later policies is trimmed and no later policy is the same user's in the same inbound; the user was
  -- blocked in the snapshot, and the quota is disabled, or enabled and positive with a usage below it.
  -- If no error is noted at the end of the pass, that inbound of Xray serves the user, and the store
  -- has the user as not blocked.
  pub enforce_policies-unblocks_under :
      (now : Time) (snap : Snapshot) (before after : List QuotaUserPolicy) (p : QuotaUserPolicy)
      (l : Pass S)
      → trim_space p.email ≡ p.email
      → (get no_state p.email snap.states).blocked ≡ true
      → IsUnder snap p
      → All (IsOther p.inbound_tag p.email) after
      → (enforce_policies f q now snap (before ++ p ∷ after) l).first_err ≡ none
      → (let l' = enforce_policies f q now snap (before ++ p ∷ after) l in
          (has l'.agent.runtime p.inbound_tag p.email ≡ true)
          × (stored_blocked p.email l'.agent.world.db ≡ false))
  unfolding enforce_policies
  enforce_policies-unblocks_under now snap [] after p l trimmed blocked under others h =
      let kept =
        policies_keep now snap after (enforce_policy f q now snap p l) false p.inbound_tag p.email
          blocked others in
      let (back, free) = under_policy now snap p l trimmed blocked under (kept.fine h) in
      (kept.live ∙ back, kept.stored free)
  enforce_policies-unblocks_under now snap (x ∷ before) after p l trimmed blocked under others h =
      enforce_policies-unblocks_under now snap before after p (enforce_policy f q now snap x l)
        trimmed blocked under others h
