-- ===== src/Stats/Quota/Effect.antt =====
-- What one pass of the enforcer does to a user: the loop's body, and the rest of the loop.
use ovpn.Prelude.{
  ◌≡◌, refl, sym, ap, ◌∙◌, ◌⊎◌, inl, inr, Bool, true, false, ◌&&◌, Option, none, some, Text, arith,
  Result, ok, err, text_eq,
}
use ovpn.Strings.{trim_space}
use ovpn.Remote.{World}
use ovpn.Remote.Quota.{set_quota_blocked}
use ovpn.Model.Types.{Time, QuotaUserPolicy}
use ovpn.Stats.{RuntimeManager, Agent, on_store, emit, combine_first}
use ovpn.Stats.Quota.{QuotaEnforcer, Pass, runtime_add, runtime_remove, notify, record_event}
use ovpn.Stats.Quota.Loop.{
  unblock, unblock_added, unblock_stored, block_stored, block, block_removed,
}
use ovpn.Stats.Quota.Membership.{
  IsMembership, stored_blocked, set_blocked_self, remove_world, remove_done, remove_other,
  add_world, add_other, add_done,
}

module _ {S : Type 0} (q : QuotaEnforcer S) where
  unblock_stored_agent :
      (email reason : Text) (res : Result (Unit {0})) (a : Agent S) (l : Pass S)
      → ((unblock_stored q email reason (res, a) l).agent.runtime ≡ a.runtime)
        × ((unblock_stored q email reason (res, a) l).agent.world ≡ a.world)
  unfolding notify record_event emit
  unblock_stored_agent email reason (ok x) a l = (ground arith, ground arith)
  unblock_stored_agent email reason (err e) a l = (refl, refl)

  block_stored_agent :
      (email : Text) (res : Result (Unit {0})) (a : Agent S) (l : Pass S)
      → ((block_stored q email (res, a) l).agent.runtime ≡ a.runtime)
        × ((block_stored q email (res, a) l).agent.world ≡ a.world)
  unfolding notify record_event emit
  block_stored_agent email (ok x) a l = (ground arith, ground arith)
  block_stored_agent email (err e) a l = (refl, refl)

  -- The agent after an unblock is the one after the addition, with the write of the flag or without.
  unblock_agent :
      (email blame reason : Text) (res : Option Text) (a : Agent S) (l : Pass S)
      → (let l' = unblock_added q email blame reason (res, a) l in
          (l'.agent.runtime ≡ a.runtime)
          × ((l'.agent.world ≡ a.world)
              ⊎ (l'.agent.world ≡ (set_quota_blocked email false none a.world).1)))
  unfolding on_store
  unblock_agent email blame reason (some e) a l = (refl, inl refl)
  unblock_agent email blame reason none a l =
      let (res, w) = set_quota_blocked email false none a.world in
      let (rt, world) = unblock_stored_agent email reason res (record a { world = w }) l in
      (rt, inr world)

  block_agent :
      (email : Text) (now : Time) (res : Option Text) (a : Agent S) (l : Pass S)
      → (let l' = block_removed q email now (res, a) l in
          (l'.agent.runtime ≡ a.runtime)
          × ((l'.agent.world ≡ a.world)
              ⊎ (l'.agent.world ≡ (set_quota_blocked email true (some now) a.world).1)))
  unfolding on_store
  block_agent email now (some e) a l = (refl, inl refl)
  block_agent email now none a l =
      let (res, w) = set_quota_blocked email true (some now) a.world in
      let (rt, world) = block_stored_agent email res (record a { world = w }) l in (rt, inr world)

  combine_none : (x : Option Text) (e : Text) → combine_first x (some e) ≡ none → ⊥
  unfolding combine_first
  combine_none x e h = ground arith

  block_stored_done :
      (email : Text) (res : Result (Unit {0})) (a : Agent S) (l : Pass S)
      → (block_stored q email (res, a) l).first_err ≡ none
      → (res ≡ ok tt) × ((block_stored q email (res, a) l).agent.world ≡ a.world)
  block_stored_done email (ok x) a l h = (refl, (block_stored_agent email (ok x) a l).1)
  block_stored_done email (err e) a l h = absurd (combine_none l.first_err _ h)

  -- A block that leaves no error has removed the user and stored the flag.
  block_done :
      (email : Text) (now : Time) (res : Option Text) (a : Agent S) (l : Pass S)
      → (block_removed q email now (res, a) l).first_err ≡ none
      → (let set = set_quota_blocked email true (some now) a.world in
          (res ≡ none)
          × (set.0 ≡ ok tt)
          × ((block_removed q email now (res, a) l).agent.world ≡ set.1))
  unfolding on_store
  block_done email now (some e) a l h = absurd (combine_none l.first_err _ h)
  block_done email now none a l h =
      let (res, w) = set_quota_blocked email true (some now) a.world in
      let (fine, world) = block_stored_done email res (record a { world = w }) l h in
      (refl, fine, world)

  unblock_stored_done :
      (email reason : Text) (res : Result (Unit {0})) (a : Agent S) (l : Pass S)
      → (unblock_stored q email reason (res, a) l).first_err ≡ none
      → (res ≡ ok tt) × ((unblock_stored q email reason (res, a) l).agent.world ≡ a.world)
  unblock_stored_done email reason (ok x) a l h =
      (refl, (unblock_stored_agent email reason (ok x) a l).1)
  unblock_stored_done email reason (err e) a l h = absurd (combine_none l.first_err _ h)

  -- An unblock that leaves no error has added the user and stored the flag.
  unblock_done :
      (email blame reason : Text) (res : Option Text) (a : Agent S) (l : Pass S)
      → (unblock_added q email blame reason (res, a) l).first_err ≡ none
      → (let set = set_quota_blocked email false none a.world in
          (res ≡ none)
          × (set.0 ≡ ok tt)
          × ((unblock_added q email blame reason (res, a) l).agent.world ≡ set.1))
  unfolding on_store
  unblock_done email blame reason (some e) a l h = absurd (combine_none l.first_err _ h)
  unblock_done email blame reason none a l h =
      let (res, w) = set_quota_blocked email false none a.world in
      let (fine, world) = unblock_stored_done email reason res (record a { world = w }) l h in
      (refl, fine, world)

  combine_fine : (x : Option Text) (e : Text) → combine_first x (some e) ≡ none → x ≡ none
  combine_fine x e h = absurd (combine_none x e h)

  block_stored_err :
      (email : Text) (res : Result (Unit {0})) (a : Agent S) (l : Pass S)
      → (block_stored q email (res, a) l).first_err ≡ none
      → l.first_err ≡ none
  block_stored_err email (ok x) a l h = h
  block_stored_err email (err e) a l h = combine_fine l.first_err _ h

  block_err :
      (email : Text) (now : Time) (res : Option Text) (a : Agent S) (l : Pass S)
      → (block_removed q email now (res, a) l).first_err ≡ none
      → l.first_err ≡ none
  unfolding on_store
  block_err email now (some e) a l h = combine_fine l.first_err _ h
  block_err email now none a l h =
      let (res, w) = set_quota_blocked email true (some now) a.world in
      block_stored_err email res (record a { world = w }) l h

  unblock_stored_err :
      (email reason : Text) (res : Result (Unit {0})) (a : Agent S) (l : Pass S)
      → (unblock_stored q email reason (res, a) l).first_err ≡ none
      → l.first_err ≡ none
  unblock_stored_err email reason (ok x) a l h = h
  unblock_stored_err email reason (err e) a l h = combine_fine l.first_err _ h

  unblock_err :
      (email blame reason : Text) (res : Option Text) (a : Agent S) (l : Pass S)
      → (unblock_added q email blame reason (res, a) l).first_err ≡ none
      → l.first_err ≡ none
  unfolding on_store
  unblock_err email blame reason (some e) a l h = combine_fine l.first_err _ h
  unblock_err email blame reason none a l h =
      let (res, w) = set_quota_blocked email false none a.world in
      unblock_stored_err email reason res (record a { world = w }) l h

  -- What a round leaves of the user `m` in the inbound `t` (the flag where it is `b`), and of the
  -- first error.
  pub record Keeps (has : S → Text → Text → Bool) (b : Bool) (t m : Text) (l l' : Pass S)
      : Type 0 where
    pub live : has l'.agent.runtime t m ≡ has l.agent.runtime t m
    pub stored : stored_blocked m l.agent.world.db ≡ b → stored_blocked m l'.agent.world.db ≡ b
    pub fine : l'.first_err ≡ none → l.first_err ≡ none

  module _ (r : RuntimeManager S) (has : S → Text → Text → Bool) (laws : IsMembership r has)
      (configured : q.runtime ≡ some r) where
    pub block-Keeps :
        (now : Time) (p : QuotaUserPolicy) (l : Pass S) (b : Bool) (t m : Text)
        → (text_eq t p.inbound_tag && text_eq m p.email) ≡ false
        → ((w : World)
            → stored_blocked m w.db ≡ b
            → stored_blocked m (set_quota_blocked p.email true (some now) w).1.db ≡ b)
        → Keeps has b t m l (block q now p l)
    unfolding block
    block-Keeps now p l b t m ne stays =
        let (res, a) = runtime_remove q p.inbound_tag p.email l.agent in
        let (rt, world) = block_agent p.email now res a l in
        let same = remove_world q p.inbound_tag p.email l.agent in
        record {
          live =
              ap (λ s. has s t m) rt
              ∙ remove_other q r has laws configured p.inbound_tag p.email l.agent t m ne;
          stored = λ h. elim world [
            | inl e ↦ ap (λ (w : World). stored_blocked m w.db) (e ∙ same) ∙ h
            | inr e ↦
                ap (λ (w : World). stored_blocked m w.db) e
                ∙ stays a.world (ap (λ (w : World). stored_blocked m w.db) same ∙ h)
          ];
          fine = block_err p.email now res a l;
        }

    pub unblock-Keeps :
        (p : QuotaUserPolicy) (blame reason : Text) (l : Pass S) (b : Bool) (t m : Text)
        → (text_eq t p.inbound_tag && text_eq m p.email) ≡ false
        → ((w : World)
            → stored_blocked m w.db ≡ b
            → stored_blocked m (set_quota_blocked p.email false none w).1.db ≡ b)
        → Keeps has b t m l (unblock q p blame reason l)
    unfolding unblock
    unblock-Keeps p blame reason l b t m ne stays =
        let (res, a) = runtime_add q p.inbound_tag p.email p.uuid l.agent in
        let (rt, world) = unblock_agent p.email blame reason res a l in
        let same = add_world q p.inbound_tag p.email p.uuid l.agent in
        record {
          live =
              ap (λ s. has s t m) rt
              ∙ add_other q r has laws configured p.inbound_tag p.email p.uuid l.agent t m ne;
          stored = λ h. elim world [
            | inl e ↦ ap (λ (w : World). stored_blocked m w.db) (e ∙ same) ∙ h
            | inr e ↦
                ap (λ (w : World). stored_blocked m w.db) e
                ∙ stays a.world (ap (λ (w : World). stored_blocked m w.db) same ∙ h)
          ];
          fine = unblock_err p.email blame reason res a l;
        }

    -- A block that leaves no error: the user is out of the inbound and stored as blocked.
    pub block_effect :
        (now : Time) (p : QuotaUserPolicy) (l : Pass S)
        → trim_space p.email ≡ p.email
        → (block q now p l).first_err ≡ none
        → (has (block q now p l).agent.runtime p.inbound_tag p.email ≡ false)
          × (stored_blocked p.email (block q now p l).agent.world.db ≡ true)
    unfolding block
    block_effect now p l trimmed h =
        let (res, a) = runtime_remove q p.inbound_tag p.email l.agent in
        let (rt, world) = block_agent p.email now res a l in
        let (out, set, final) = block_done p.email now res a l h in
        (
          ap (λ s. has s p.inbound_tag p.email) rt
              ∙ remove_done q r has laws configured p.inbound_tag p.email l.agent out,
          ap (λ (w : World). stored_blocked p.email w.db) final
              ∙ ap (λ x. stored_blocked x (set_quota_blocked p.email true (some now) a.world).1.db)
                  (sym trimmed)
              ∙ set_blocked_self p.email true (some now) a.world set,
        )

    -- An unblock that leaves no error: the inbound serves the user, who is stored as not blocked.
    pub unblock_effect :
        (p : QuotaUserPolicy) (blame reason : Text) (l : Pass S)
        → trim_space p.email ≡ p.email
        → (unblock q p blame reason l).first_err ≡ none
        → (has (unblock q p blame reason l).agent.runtime p.inbound_tag p.email ≡ true)
          × (stored_blocked p.email (unblock q p blame reason l).agent.world.db ≡ false)
    unfolding unblock
    unblock_effect p blame reason l trimmed h =
        let (res, a) = runtime_add q p.inbound_tag p.email p.uuid l.agent in
        let (rt, world) = unblock_agent p.email blame reason res a l in
        let (back, set, final) = unblock_done p.email blame reason res a l h in
        (
          ap (λ s. has s p.inbound_tag p.email) rt
              ∙ add_done q r has laws configured p.inbound_tag p.email p.uuid l.agent back,
          ap (λ (w : World). stored_blocked p.email w.db) final
              ∙ ap (λ x. stored_blocked x (set_quota_blocked p.email false none a.world).1.db)
                  (sym trimmed)
              ∙ set_blocked_self p.email false none a.world set,
        )
