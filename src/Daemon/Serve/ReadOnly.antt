-- ===== src/Daemon/Serve/ReadOnly.antt =====
-- What a request without the token can do (cmd/ovpn-agent/http_helpers.go, requireAgentToken).
use ovpn.Float.{Float64}
use ovpn.Prelude.{
  ◌≡◌, refl, ap, ◌∙◌, ◌⊎◌, inl, inr, Bool, true, false, ◌||◌, Option, none, some, List, [], ◌∷◌,
  Text, codes, arith, Exec, Result, ok, err, All, Bool-cases, text_eq,
}
use ovpn.Strings.{trim_space, text_mem}
use ovpn.Dict.{get?, keys}
use ovpn.Driver.Reads.{Reads}
use ovpn.Remote.{World}
use ovpn.Remote.Reading.{
  Reads-policies, Reads-totals, Reads-daily, Reads-meta, Reads-quota_status, Reads-user_status,
}
use ovpn.Remote.Meta.{get_meta}
use ovpn.Remote.Traffic.{list_totals, list_daily}
use ovpn.Remote.Quota.{list_quota_policies}
use ovpn.Remote.Status.{quota_status}
use ovpn.Remote.UserStatus.{user_status}
use ovpn.Model.Types.{Time}
use ovpn.Stats.{Event, db_write_error, Agent, on_store, emit}
use ovpn.Daemon.{
  store_error, quotas, accesses, policies, Request, RouteDeps, Served, attempt, respond,
}
use ovpn.Daemon.Auth.{read_only_agent_paths, bearer_token_matches, require_agent_token}
use ovpn.Daemon.Reading.{
  TimeParsers, totals_route, daily_route, quota_status_route, users_status_route,
  quota_policies_route, health_route, read_meta, meta_or_empty, checked_xray, default_quota_window,
}
use ovpn.Stats.Quota.{default_quota_bytes}
use ovpn.Daemon.Serve.{reading_routes, guarded_routes, elsewhere_route, routed, serve, route_or}

-- The database and Xray are as they were.
abbrev pub Keeps : {F S : Type 0} → Agent S → Served F S → Type 0
Keeps before (answer, a) = (a.world.db ≡ before.world.db) × (a.runtime ≡ before.runtime)

second_of : (x y : Bool) → x ≡ false → (x || y) ≡ true → y ≡ true
second_of x y off h = ground arith

module _ {S A : Type 0} where
  store_keeps :
      (m : Exec World A) (a : Agent S)
      → Reads m
      → ((on_store m a).1.world.db ≡ a.world.db) × ((on_store m a).1.runtime ≡ a.runtime)
  unfolding on_store
  store_keeps m a reads = ((reads a.world).0, refl)

module _ {F S A : Type 0} where
  attempt-Keeps :
      (run : Result A × Agent S) (bad : Text → Agent S → Served F S)
      (good : A → Agent S → Served F S) (a : Agent S)
      → (run.1.world.db ≡ a.world.db) × (run.1.runtime ≡ a.runtime)
      → ((e : Text) (b : Agent S) → Keeps b (bad e b))
      → ((x : A) (b : Agent S) → Keeps b (good x b))
      → Keeps a (attempt run bad good)
  attempt-Keeps (ok x, b) bad good a (db, runtime) kb kg =
      let (later_db, later_runtime) = kg x b in (later_db ∙ db, later_runtime ∙ runtime)
  attempt-Keeps (err e, b) bad good a (db, runtime) kb kg =
      let (later_db, later_runtime) = kb e b in (later_db ∙ db, later_runtime ∙ runtime)

  -- An answer to what a reading call of the store gave.
  answer-Keeps :
      (m : Exec World A) (bad : Text → Agent S → Served F S) (good : A → Agent S → Served F S)
      (a : Agent S)
      → Reads m
      → ((e : Text) (b : Agent S) → Keeps b (bad e b))
      → ((x : A) (b : Agent S) → Keeps b (good x b))
      → Keeps a (attempt (on_store m a) bad good)
  answer-Keeps m bad good a reads kb kg =
      attempt-Keeps (on_store m a) bad good a (store_keeps m a reads) kb kg

module _ {S : Type 0} where
  emit_keeps :
      (e : Event) (a : Agent S)
      → ((emit true e a).world.db ≡ a.world.db) × ((emit true e a).runtime ≡ a.runtime)
  unfolding emit
  emit_keeps e a = (refl, refl)

module _ (t : TimeParsers) (f : Float64) (date_text : Time → Text) {S : Type 0}
    (d : RouteDeps S) where
  abbrev IsReading : (Request → Agent S → Served f.F S) → Type 0
  IsReading h = (r : Request) (a : Agent S) → Keeps a (h r a)

  totals_route-IsReading : IsReading (totals_route t f date_text d)
  unfolding totals_route
  totals_route-IsReading r a =
      answer-Keeps list_totals _ _ a Reads-totals (λ e b. (refl, refl)) (λ x b. (refl, refl))

  daily_route-IsReading : IsReading (daily_route t f date_text d)
  unfolding daily_route
  daily_route-IsReading r a =
      answer-Keeps (list_daily _) _ _ a (Reads-daily _) (λ e b. (refl, refl)) (λ x b. (refl, refl))

  quota_status_route-IsReading : IsReading (quota_status_route t f date_text d)
  unfolding quota_status_route
  quota_status_route-IsReading r a =
      let email = trim_space (r.query (codes "email")) in
      answer-Keeps (quota_status a.world.now default_quota_window default_quota_bytes email)
        (store_error (codes "quota_status")) (λ status. respond {F = f.F} 200 (quotas status)) a
        (Reads-quota_status a.world.now default_quota_window default_quota_bytes email)
        (λ e b. emit_keeps (db_write_error (codes "quota_status")) b) (λ x b. (refl, refl))

  users_status_route-IsReading : IsReading (users_status_route t f date_text d)
  unfolding users_status_route
  users_status_route-IsReading r a =
      let email = trim_space (r.query (codes "email")) in
      answer-Keeps
        (user_status f date_text a.world.now default_quota_window default_quota_bytes email)
        (store_error (codes "user_status")) (λ status. respond 200 (accesses status)) a
        (Reads-user_status f date_text a.world.now default_quota_window default_quota_bytes email)
        (λ e b. emit_keeps (db_write_error (codes "user_status")) b) (λ x b. (refl, refl))

  quota_policies_route-IsReading : IsReading (quota_policies_route t f date_text d)
  unfolding quota_policies_route
  quota_policies_route-IsReading r a = elim (Bool-cases (text_eq r.verb (codes "GET"))) [
    | inl get ↦ rw get (
        answer-Keeps list_quota_policies (store_error (codes "list_quota_policies"))
          (λ rows. respond {F = f.F} 200 (policies rows)) a Reads-policies
          (λ e b. emit_keeps (db_write_error (codes "list_quota_policies")) b)
          (λ x b. (refl, refl)))
    | inr other ↦ rw other (refl, refl)
  ]

  abbrev SameState : Agent S → Agent S → Type 0
  SameState a b = (b.world.db ≡ a.world.db) × (b.runtime ≡ a.runtime)

  SameState-trans : (a b c : Agent S) → SameState a b → SameState b c → SameState a c
  SameState-trans a b c (x, y) (z, w) = (z ∙ x, w ∙ y)

  meta_result_keeps :
      (operation : Text) (run : Result (Option Text) × Agent S)
      → SameState run.1 (meta_or_empty t f date_text d operation run).1
  meta_result_keeps operation (ok none, b) = (refl, refl)
  meta_result_keeps operation (ok (some v), b) = (refl, refl)
  meta_result_keeps operation (err e, b) = emit_keeps (db_write_error operation) b

  read_meta_keeps :
      (key operation : Text) (a : Agent S)
      → SameState a (read_meta t f date_text d key operation a).1
  unfolding read_meta
  read_meta_keeps key operation a =
      SameState-trans a (on_store (get_meta key) a).1
        (meta_or_empty t f date_text d operation (on_store (get_meta key) a)).1
        (store_keeps (get_meta key) a (Reads-meta key))
        (meta_result_keeps operation (on_store (get_meta key) a))

  checked_keeps : (e : Option Text) (a : Agent S) → SameState a (checked_xray t f date_text d e a)
  unfolding emit
  checked_keeps none a = (refl, refl)
  checked_keeps (some e) a = (refl, refl)

  health_route-IsReading : IsReading (health_route t f date_text d)
  unfolding health_route
  health_route-IsReading r a =
      let b = checked_xray t f date_text d (d.api_error a.runtime) a in
      let c =
        (read_meta t f date_text d (codes "last_collect_at") (codes "get_meta_last_collect_at")
          b).1 in
      SameState-trans a c
        (read_meta t f date_text d (codes "last_reset_at") (codes "get_meta_last_reset_at") c).1
        (SameState-trans a b c (checked_keeps (d.api_error a.runtime) a)
          (read_meta_keeps (codes "last_collect_at") (codes "get_meta_last_collect_at") b))
        (read_meta_keeps (codes "last_reset_at") (codes "get_meta_last_reset_at") c)

  elsewhere_route-IsReading : IsReading (elsewhere_route t f date_text d)
  unfolding elsewhere_route
  elsewhere_route-IsReading r a = (refl, refl)

  reading_routes-All :
      All
        (λ (entry : Text × (Request → Agent S → Served f.F S)). IsReading entry.1)
        (reading_routes t f date_text d)
  unfolding reading_routes
  reading_routes-All = (
    elsewhere_route-IsReading,
    (
      health_route-IsReading,
      (
        totals_route-IsReading,
        (
          daily_route-IsReading,
          (
            quota_status_route-IsReading,
            (users_status_route-IsReading, (quota_policies_route-IsReading, tt)),
          ),
        ),
      ),
    ),
  )

  keys-reading_routes : keys (reading_routes t f date_text d) ≡ read_only_agent_paths
  unfolding keys reading_routes
  keys-reading_routes = refl

  route_found :
      (table : List (Text × (Request → Agent S → Served f.F S))) (path : Text)
      → All (λ entry. IsReading entry.1) table
      → text_mem path (keys table) ≡ true
      → (other : Request → Agent S → Served f.F S)
      → IsReading (route_or t f date_text d (get? path table) other)
  unfolding get? keys text_mem
  route_found [] path all h other = absurd (ground arith)
  route_found ((p, handler) ∷ table) path (safe, rest) h other =
      elim (Bool-cases (text_eq p path)) [
        | inl here ↦ rw here safe
        | inr there ↦
            rw there (route_found table path rest (second_of (text_eq p path) _ there h) other)
      ]

  routed-IsReading :
      (r : Request) (a : Agent S)
      → text_mem r.path read_only_agent_paths ≡ true
      → Keeps a (routed t f date_text d r a)
  unfolding routed
  routed-IsReading r a h =
      route_found (reading_routes t f date_text d) r.path reading_routes-All
        (ap (text_mem r.path) keys-reading_routes ∙ h)
        (route_or t f date_text d (get? r.path (guarded_routes t f date_text d))
          (elsewhere_route t f date_text d))
        r a

  -- Where a token is set, a request that does not carry it changes neither the database nor Xray; and
  -- on every path but those of the list it is answered 401 and nothing at all changes.
  pub serve-Keeps :
      (token : Text) (r : Request) (a : Agent S)
      → text_eq (trim_space token) [] ≡ false
      → bearer_token_matches r.authorization (trim_space token) ≡ false
      → Keeps a (serve t f date_text d token r a)
        × ((text_mem r.path read_only_agent_paths ≡ true)
            ⊎ (((serve t f date_text d token r a).0.status ≡ 401)
                × ((serve t f date_text d token r a).1 ≡ a)))
  unfolding serve require_agent_token
  serve-Keeps token r a set missing = elim (Bool-cases (text_mem r.path read_only_agent_paths)) [
    | inl free ↦ rw (set, free) (routed-IsReading r a free, inl refl)
    | inr guarded ↦ rw (set, guarded, missing) ((refl, refl), inr (refl, refl))
  ]
