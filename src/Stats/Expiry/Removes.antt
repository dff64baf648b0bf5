-- ===== src/Stats/Expiry/Removes.antt =====
-- What a pass of the expiry enforcer does to Xray's inbounds.
use ovpn.Prelude.{
  ◌≡◌, map, subst, refl, sym, ap, ◌∙◌, ◌⊎◌, inl, inr, Bool, true, false, Option, none, some,
  Option-cases, Bool-cases, List, [], ◌∷◌, Text, ok, All, arith, bind_cases, ◌>>=◌, All-imp,
}
use ovpn.Stats.Expiry.Laws.{IsRemoval, IsGone, IsReached, IsReached-trans, IsSettled, missing_cases}
use ovpn.Sql.Laws.{order_by-All}
use ovpn.Remote.{UserPolicyRow, World, query, driver_call, read_db}
use ovpn.Remote.Users.{list_user_policies, users_of, user_of_row}
use ovpn.Model.Types.{Time, UserPolicy}
use ovpn.Model.Expiry.{is_effectively_enabled, is_expired_at}
use ovpn.Stats.{RuntimeManager, Agent, on_store, combine_first, is_missing, result_of}
use ovpn.Stats.Expiry.{
  ExpiryEnforcer, remove_expired, noted, expire_policy, expire_policies, as_result, enforce_expiry,
}

module _ {S : Type 0} (x : ExpiryEnforcer S) (r : RuntimeManager S) (has : S → Text → Text → Bool)
    (laws : IsRemoval r has) (configured : x.runtime ≡ some r) where
  removed_at :
      (tag email : Text) (a : Agent S)
      → (remove_expired x tag email a).0 ≡ none
      → (remove_expired x tag email a).1.runtime ≡ (r.remove_user tag email a.runtime).1
  unfolding remove_expired
  removed_at tag email a h = ground arith

  remove_done :
      (tag email : Text) (a : Agent S)
      → (remove_expired x tag email a).0 ≡ none
      → IsGone r has a.runtime (remove_expired x tag email a).1.runtime tag email
  unfolding remove_expired
  remove_done tag email a h = elim (Option-cases (r.remove_user tag email a.runtime).0) [
    | inl e ↦ inl (ground (arith, laws.removed tag email a.runtime))
    | inr (y, e) ↦
        let swallowed : is_missing y ≡ true = ground arith in
        elim (missing_cases y swallowed) [
          | inl found ↦ inl (ground (arith, laws.not_found tag email a.runtime y e found))
          | inr unclear ↦ inr (a.runtime, y, ([], refl), e, unclear, ([], removed_at tag email a h))
        ]
  ]

  remove_out :
      (tag email : Text) (a : Agent S) (t m : Text)
      → has a.runtime t m ≡ false
      → has (remove_expired x tag email a).1.runtime t m ≡ false
  unfolding remove_expired
  remove_out tag email a t m h = ground (arith, laws.adds_none tag email a.runtime t m)

  noted_fine :
      (email : Text) (e : Option Text) (res : Option Text) (a : Agent S)
      → (noted email e (res, a)).0 ≡ none
      → (e ≡ none) × (res ≡ none) × ((noted email e (res, a)).1 ≡ a)
  unfolding combine_first
  noted_fine email e none a h = (h, refl, refl)
  noted_fine email e (some y) a h = absurd (ground arith)

  noted_agent :
      (email : Text) (e : Option Text) (res : Option Text) (a : Agent S)
      → (noted email e (res, a)).1 ≡ a
  noted_agent email e none a = refl
  noted_agent email e (some y) a = refl

  -- The policy is of a user who is enabled at the time, or who is gone from the inbound.
  abbrev IsOutOrEnabled : Time → S → S → UserPolicy → Type 0
  IsOutOrEnabled now start end p =
      (is_effectively_enabled p.enabled p.expiry_at now ≡ true)
      ⊎ IsGone r has start end p.inbound_tag p.email

  -- A round without an error afterwards had none before, and its user is out where it is expired.
  policy_round :
      (now : Time) (p : UserPolicy) (s : Option Text × Agent S)
      → (expire_policy x now p s).0 ≡ none
      → (s.0 ≡ none)
        × IsOutOrEnabled now s.1.runtime (expire_policy x now p s).1.runtime p
        × IsReached r has s.1.runtime (expire_policy x now p s).1.runtime
  unfolding expire_policy
  policy_round now p (e, a) = elim (Bool-cases (is_effectively_enabled p.enabled p.expiry_at now)) [
    | inl on ↦ rw on (λ h. (h, inl refl, ([], refl)))
    | inr off ↦ rw off (λ h.
        let (res, a1) = remove_expired x p.inbound_tag p.email a in
        let (fine, done, same) = noted_fine p.email e res a1 h in
        (
          fine,
          inr (
              subst (λ (b : Agent S). IsGone r has a.runtime b.runtime p.inbound_tag p.email)
                (sym same) (remove_done p.inbound_tag p.email a done)),
          (
            (p.inbound_tag, p.email) ∷ [],
            ap (λ (b : Agent S). b.runtime) same ∙ removed_at p.inbound_tag p.email a done,
          ),
        ))
  ]

  policy_out :
      (now : Time) (p : UserPolicy) (s : Option Text × Agent S) (t m : Text)
      → has s.1.runtime t m ≡ false
      → has (expire_policy x now p s).1.runtime t m ≡ false
  unfolding expire_policy
  policy_out now p (e, a) t m =
      elim (Bool-cases (is_effectively_enabled p.enabled p.expiry_at now)) [
        | inl on ↦ rw on (λ h. h)
        | inr off ↦ rw off (λ h.
            let (res, a1) = remove_expired x p.inbound_tag p.email a in
            ap (λ (b : Agent S). has b.runtime t m) (noted_agent p.email e res a1)
            ∙ remove_out p.inbound_tag p.email a t m h)
      ]

  policies_out :
      (now : Time) (ps : List UserPolicy) (s : Option Text × Agent S) (t m : Text)
      → has s.1.runtime t m ≡ false
      → has (expire_policies x now ps s).1.runtime t m ≡ false
  unfolding expire_policies
  policies_out now [] s t m h = h
  policies_out now (p ∷ ps) s t m h =
      policies_out now ps (expire_policy x now p s) t m (policy_out now p s t m h)

  IsGone-after :
      (now : Time) (ps : List UserPolicy) (s : Option Text × Agent S) (t m : Text)
      → (start : S) → IsReached r has s.1.runtime (expire_policies x now ps s).1.runtime
      → IsGone r has start s.1.runtime t m
      → IsGone r has start (expire_policies x now ps s).1.runtime t m
  IsGone-after now ps s t m start on (inl out) = inl (policies_out now ps s t m out)
  IsGone-after now ps s t m start on (inr (at, e, to, answer, unclear, from)) =
      inr (at, e, to, answer, unclear, IsReached-trans r has from on)

  IsOutOrEnabled-since :
      (now : Time) (start mid end : S) (p : UserPolicy)
      → IsReached r has start mid
      → IsOutOrEnabled now mid end p
      → IsOutOrEnabled now start end p
  IsOutOrEnabled-since now start mid end p to (inl on) = inl on
  IsOutOrEnabled-since now start mid end p to (inr (inl out)) = inr (inl out)
  IsOutOrEnabled-since now start mid end p to (inr (inr (at, e, on, answer, unclear, from))) =
      inr (inr (at, e, IsReached-trans r has to on, answer, unclear, from))

  policies-All :
      (now : Time) (ps : List UserPolicy) (s : Option Text × Agent S)
      → (expire_policies x now ps s).0 ≡ none
      → (s.0 ≡ none)
        × All (IsOutOrEnabled now s.1.runtime (expire_policies x now ps s).1.runtime) ps
        × IsReached r has s.1.runtime (expire_policies x now ps s).1.runtime
  unfolding expire_policies
  policies-All now [] s h = (h, tt, ([], refl))
  policies-All now (p ∷ ps) s h =
      let (fine, rest, on) = policies-All now ps (expire_policy x now p s) h in
      let (before, out, to) = policy_round now p s fine in
      (
        before,
        (
          elim out [
            | inl on ↦ inl on
            | inr gone ↦ inr (
                IsGone-after now ps (expire_policy x now p s) p.inbound_tag p.email s.1.runtime on
                  gone)
          ],
          All-imp _ _ _ (λ q. IsOutOrEnabled-since now _ _ _ q to) rest,
        ),
        IsReached-trans r has to on,
      )

  listed :
      (w : World) (ps : List UserPolicy) → (list_user_policies w).0 ≡ ok ps → ps ≡ users_of w.db
  unfolding list_user_policies query driver_call read_db ◌>>=◌
  listed w ps h = ground arith

  result_fine : (e : Option Text) → result_of e ≡ ok tt → e ≡ none
  result_fine none h = refl
  result_fine (some e) h = absurd (ground arith)

  IsSettled-of :
      (now : Time) (s t : S) (row : UserPolicyRow)
      → IsOutOrEnabled now s t (user_of_row row)
      → IsSettled r has now s t row
  unfolding is_effectively_enabled is_expired_at
  IsSettled-of now s t row (inr gone) = inr gone
  IsSettled-of now s t row (inl on) = elim (Option-cases row.expiry_at) [
    | inl e ↦ inl (ground arith, rw e tt)
    | inr (seconds, e) ↦ inl (ground arith, rw e (ground arith))
  ]

  IsSettled-All :
      (now : Time) (s t : S) (rows : List UserPolicyRow)
      → All (IsOutOrEnabled now s t) (map user_of_row rows)
      → All (IsSettled r has now s t) rows
  IsSettled-All now s t [] h = tt
  IsSettled-All now s t (row ∷ rows) (p, ps) =
      (IsSettled-of now s t row p, IsSettled-All now s t rows ps)

  -- A pass of the expiry enforcer that returns no error, where a removal that Xray answers without an
  -- error, or with one that says the user was not found, leaves the user out, and no removal adds a
  -- user: every stored user is enabled and has not expired, or Xray's inbound of the policy does not
  -- serve it any more, or Xray answered its removal, one of those between the states before and after,
  -- with an error that speaks of a failed removal or of what does not exist, which the enforcer passes
  -- over.
  pub enforce_expiry-removes :
      (now : Time) (a : Agent S)
      → (enforce_expiry x now a).0 ≡ ok tt
      → All
          (IsSettled r has now a.runtime (enforce_expiry x now a).1.runtime)
          a.world.db.user_policy
  unfolding enforce_expiry on_store
  enforce_expiry-removes now a =
      let then_ =
        λ (ps : List UserPolicy) (b : Agent S). as_result (expire_policies x now ps (none, b)) in
      elim (bind_cases (on_store list_user_policies) then_ a) [
        | inl (ps, read, rest) ↦ rw rest (λ h.
            let b = (on_store list_user_policies a).1 in
            let out = (policies-All now ps (none, b) (result_fine _ h)).1 in
            order_by-All (λ (row : UserPolicyRow). row.email) _ a.world.db.user_policy
              (IsSettled-All now _ _ _
                (subst (All (IsOutOrEnabled now _ _)) (listed a.world ps read) out)))
        | inr (e, failed, rest) ↦ rw rest (λ h. absurd (ground arith))
      ]
