-- ===== src/Daemon/Gateway/Effect.antt =====
-- What a call of the gateway does to Xray (cmd/ovpn-agent/runtime_gateway.go).
use ovpn.Strings.{trim_space}
use ovpn.Prelude.{
  subst, [], codes, ◌⊎◌, ◌≢◌, text_eq_refl, text_eq→eq, ◌≡◌, refl, Bool, true, false, ◌&&◌, Option,
  none, some, List, Text, arith, Bool-cases, inl, inr, text_eq,
}
use ovpn.Stats.{Event, is_already_present}
use ovpn.Stats.Quota.Membership.{IsMembership}
use ovpn.Daemon.Runtime.{is_runtime_user_already_present_error}
use ovpn.Daemon.Gateway.{
  XrayClient, default_tag, Gateway, reached, gateway_added, removed_user, gateway_add_user,
  gateway_remove_user,
}

module _ {S : Type 0} (c : XrayClient S) (has : S → Text → Text → Bool)
    (laws : IsMembership c.calls has) where
  -- What a call may touch is one user of one inbound.
  abbrev TouchesOnly : Text → Text → S → S → Type 0
  TouchesOnly tag email s s' =
      (t m : Text) → (text_eq t tag && text_eq m email) ≡ false → has s' t m ≡ has s t m

  abbrev pub TakesEffect : Text → Text → Bool → S → Option Text × Gateway c → Type 0
  TakesEffect tag email served s (answer, g) =
      (answer ≡ none → has g.0 tag email ≡ served) × TouchesOnly tag email s g.0

  reached_effect :
      (tag email : Text) (served : Bool) (connected : Option Text)
      (answer : Option Text × Gateway c) (s : S) (seen : List Event)
      → TakesEffect tag email served s answer
      → TakesEffect tag email served s (reached c connected answer (s, seen))
  reached_effect tag email served none answer s seen effect = effect
  reached_effect tag email served (some e) answer s seen effect =
      (λ h. absurd (ground arith), λ t m ne. refl)

  removed_effect :
      (tag email : Text) (run : Option Text × S) (s : S) (seen : List Event)
      → (run.0 ≡ none → has run.1 tag email ≡ false)
      → TouchesOnly tag email s run.1
      → TakesEffect tag email false s (removed_user c run seen)
  removed_effect tag email (none, s') s seen done others = (done, others)
  removed_effect tag email (some e, s') s seen done others = (λ h. absurd (ground arith), others)

  added_effect :
      (tag email : Text) (run : Option Text × S) (s : S) (seen : List Event)
      → (run.0 ≡ none → has run.1 tag email ≡ true)
      → ((e : Text) → run.0 ≡ some e → is_already_present e ≡ true → has run.1 tag email ≡ true)
      → TouchesOnly tag email s run.1
      → TakesEffect tag email true s (gateway_added c run seen)
  unfolding is_runtime_user_already_present_error is_already_present
  added_effect tag email (none, s') s seen done present others = (done, others)
  added_effect tag email (some e, s') s seen done present others =
      elim (Bool-cases (is_already_present e)) [
        | inl there ↦ rw there (λ h. present e refl there, others)
        | inr other ↦ rw other (λ h. absurd (ground arith), others)
      ]

  -- The inbound that a tag names: the tag itself, and vless-reality for a blank one.
  abbrev pub Names : Text → Text → Type 0
  Names tag inbound =
      ((trim_space tag ≡ []) × (inbound ≡ codes "vless-reality"))
      ⊎ ((trim_space tag ≢ []) × (inbound ≡ tag))

  named_inbound : (tag inbound : Text) → Names tag inbound → default_tag tag ≡ inbound
  named_inbound tag inbound (inl (blank, is)) =
      let empty : text_eq (trim_space tag) [] ≡ true = rw blank (text_eq_refl []) in
      rw (empty, is) refl
  named_inbound tag inbound (inr (some_tag, is)) = elim (Bool-cases (text_eq (trim_space tag) [])) [
    | inl empty ↦ absurd (some_tag (text_eq→eq (trim_space tag) [] empty))
    | inr full ↦ rw (full, is) refl
  ]

  added_default :
      (tag email uuid : Text) (s : S) (seen : List Event)
      → TakesEffect (default_tag tag) email true s (gateway_add_user c tag email uuid (s, seen))
  unfolding gateway_add_user is_already_present
  added_default tag email uuid s seen =
      let inbound = default_tag tag in
      reached_effect inbound email true (c.connect s) _ s seen (
        added_effect inbound email (c.calls.add_user inbound email uuid s) s seen
          (laws.added inbound email uuid s) (laws.present inbound email uuid s)
          (laws.add_others inbound email uuid s))

  removed_default :
      (tag email : Text) (s : S) (seen : List Event)
      → TakesEffect (default_tag tag) email false s (gateway_remove_user c tag email (s, seen))
  unfolding gateway_remove_user
  removed_default tag email s seen =
      let inbound = default_tag tag in
      reached_effect inbound email false (c.connect s) _ s seen (
        removed_effect inbound email (c.calls.remove_user inbound email s) s seen
          (laws.removed inbound email s) (laws.remove_others inbound email s))

  -- Where Xray behaves as documented: an addition through the gateway that returns no error has put
  -- the user in the inbound that the tag names, also where Xray answered that the user was there; a
  -- removal that returns none has taken the user out of it; a blank tag names vless-reality; and
  -- whatever either returns, no other user of an inbound is touched.
  pub runtime_gateway-TakesEffect :
      (tag inbound email uuid : Text) (s : S) (seen : List Event)
      → Names tag inbound
      → TakesEffect inbound email true s (gateway_add_user c tag email uuid (s, seen))
        × TakesEffect inbound email false s (gateway_remove_user c tag email (s, seen))
  runtime_gateway-TakesEffect tag inbound email uuid s seen names =
      let is = named_inbound tag inbound names in
      (
        subst (λ t. TakesEffect t email true s (gateway_add_user c tag email uuid (s, seen))) is
            (added_default tag email uuid s seen),
        subst (λ t. TakesEffect t email false s (gateway_remove_user c tag email (s, seen))) is
            (removed_default tag email s seen),
      )
