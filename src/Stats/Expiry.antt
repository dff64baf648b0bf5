-- ===== src/Stats/Expiry.antt =====
-- internal/stats/expiry.go: users who are disabled or have expired leave the live inbounds.
pub mod Laws
pub mod Removes
use ovpn.Prelude.{
  ◌||◌, Option, none, some, List, [], ◌∷◌, ◌++◌, codes, Text, Exec, Result, ◌>>=◌, if◌then◌else◌,
}
use ovpn.Strings.{is_blank}
use ovpn.Remote.Users.{list_user_policies}
use ovpn.Model.Types.{Time, UserPolicy}
use ovpn.Model.Expiry.{is_effectively_enabled}
use ovpn.Stats.{
  result_of, RuntimeManager, Agent, on_store, combine_first, is_missing, not_configured,
  identity_incomplete,
}

pub record ExpiryEnforcer (S : Type 0) : Type 0 where
  pub runtime : Option (RuntimeManager S)

module _ {S : Type 0} where
  abbrev removed : Option Text × S → Agent S → Option Text × Agent S
  removed (none, s) a = (none, record a { runtime = s })
  removed (some e, s) a = (if is_missing e then none else some e, record a { runtime = s })

  abbrev remove_by : Option (RuntimeManager S) → Text → Text → Agent S → Option Text × Agent S
  remove_by none tag email a = (some not_configured, a)
  remove_by (some r) tag email a =
      if is_blank tag || is_blank email
      then (some identity_incomplete, a)
      else removed (r.remove_user tag email a.runtime) a

  -- runtimeRemove
  unfoldable pub remove_expired : ExpiryEnforcer S → Text → Text → Agent S → Option Text × Agent S
  remove_expired x tag email a = remove_by x.runtime tag email a

  abbrev pub noted : Text → Option Text → Option Text × Agent S → Option Text × Agent S
  noted email first_err (none, a) = (first_err, a)
  noted email first_err (some e, a) = (
    combine_first first_err
        (some (codes "remove expired/disabled " ++ (email ++ (codes ": " ++ e)))),
    a,
  )

  unfoldable pub expire_policy :
      ExpiryEnforcer S → Time → UserPolicy → Option Text × Agent S → Option Text × Agent S
  unfolding remove_expired combine_first is_effectively_enabled
  expire_policy x now p (first_err, a) =
      if is_effectively_enabled p.enabled p.expiry_at now
      then (first_err, a)
      else noted p.email first_err (remove_expired x p.inbound_tag p.email a)

  unfoldable pub expire_policies :
      ExpiryEnforcer S → Time → List UserPolicy → Option Text × Agent S → Option Text × Agent S
  unfolding expire_policy
  expire_policies x now [] state = state
  expire_policies x now (p ∷ ps) state = expire_policies x now ps (expire_policy x now p state)

  abbrev pub as_result : Option Text × Agent S → Result (Unit {0}) × Agent S
  as_result (e, a) = (result_of e, a)

  unfoldable pub enforce_expiry : ExpiryEnforcer S → Time → Exec (Agent S) (Unit {0})
  unfolding ◌>>=◌ on_store list_user_policies expire_policies
  enforce_expiry x now = do
    policies ← on_store list_user_policies
    λ a. as_result (expire_policies x now policies (none, a))
