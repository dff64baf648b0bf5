-- ===== src/Remote/Books/Steps.antt =====
-- Any sequence of the store's writes, failing or not, keeps the books balanced.
use ovpn.Prelude.{
  ℤ, ◌≡◌, refl, sym, ap, inl, inr, Bool, Option, List, [], ◌∷◌, Text, arith, Exec, ◌>>=◌,
}
use ovpn.Remote.{Db, World}
use ovpn.Remote.Meta.{upsert_counter, set_meta}
use ovpn.Remote.Traffic.{add_delta, add_delta_and_advance_counter}
use ovpn.Remote.Quota.{replace_quota_policies, set_quota_blocked, clear_quota_state}
use ovpn.Remote.Connections.Recording.{record_connection_events}
use ovpn.Remote.Sessions.{start_debug_session, stop_debug_session, cleanup_connection_diagnostics}
use ovpn.Remote.Books.Kept.{traffic}
use ovpn.Remote.Books.Diagnostics.{IsAside-record, IsAside-start, IsAside-stop, IsAside-cleanup}
use ovpn.Remote.Users.{replace_user_policies}
use ovpn.Remote.Atomic.{
  IsAtomic, add_delta-IsAtomic, add_delta_and_advance-IsAtomic, with_delta, with_reading,
}
use ovpn.Remote.Policies.{
  replace_quota_policies-IsAtomic, replace_user_policies-IsAtomic, with_quota_policies,
  with_user_policies,
}
use ovpn.Remote.Books.{IsBalanced, with_delta-IsBalanced, with_delta_if_any-IsBalanced}
use ovpn.Model.Types.{Time, QuotaUserPolicy, UserPolicy, ConnectionEvent}

-- Every operation of the store that writes: of store.go, quota.go, users.go and diagnostics.go.
pub data StoreCall : Type 0 where
  counter : Text → ℤ → StoreCall
  meta : Text → Text → StoreCall
  delta : Text → ℤ → ℤ → Time → StoreCall
  reading : Text → ℤ → ℤ → Time → Text → ℤ → StoreCall
  policies : List QuotaUserPolicy → StoreCall
  blocked : Text → Bool → Option Time → StoreCall
  cleared : Text → StoreCall
  users : List UserPolicy → StoreCall
  recorded : List ConnectionEvent → ℤ → ℤ → Time → StoreCall
  session_started : Text → ℤ → Time → StoreCall
  session_stopped : Text → StoreCall
  cleanup : Time → ℤ → StoreCall

-- The world that a call leaves, whatever it returns. `hash` names a source network.
unfoldable pub run_call : (Text → Text) → StoreCall → World → World
run_call hash (counter name value) w = (upsert_counter name value w).1
run_call hash (meta key value) w = (set_meta key value w).1
run_call hash (delta email up down ts) w = (add_delta email up down ts w).1
run_call hash (reading email up down ts name value) w =
    (add_delta_and_advance_counter email up down ts name value w).1
run_call hash (policies ps) w = (replace_quota_policies ps w).1
run_call hash (blocked email is_blocked at) w = (set_quota_blocked email is_blocked at w).1
run_call hash (cleared email) w = (clear_quota_state email w).1
run_call hash (users us) w = (replace_user_policies us w).1
run_call hash (recorded events source_cap event_cap now) w =
    (record_connection_events hash events source_cap event_cap now w).1
run_call hash (session_started email duration now) w = (start_debug_session email duration now w).1
run_call hash (session_stopped email) w = (stop_debug_session email w).1
run_call hash (cleanup now retention) w = (cleanup_connection_diagnostics now retention w).1

-- Each call at a time of its own; its error goes to its caller.
unfoldable pub run_calls : (Text → Text) → List (Time × StoreCall) → World → World
run_calls hash [] w = w
run_calls hash ((now, c) ∷ calls) w =
    run_calls hash calls (run_call hash c (record w { now = now }))

abbrev SameTraffic : Db → Db → Type 0
SameTraffic a b =
    (a.user_traffic_hourly ≡ b.user_traffic_hourly)
    × (a.user_traffic_daily ≡ b.user_traffic_daily)
    × (a.user_traffic_total ≡ b.user_traffic_total)

IsBalanced-of_SameTraffic : (a b : Db) → SameTraffic a b → IsBalanced a → IsBalanced b
IsBalanced-of_SameTraffic a b (h, d, t) bal = record {
  hourly_up = λ e. rw (sym h, sym t) (bal.hourly_up e);
  hourly_down = λ e. rw (sym h, sym t) (bal.hourly_down e);
  daily_up = λ e. rw (sym d, sym t) (bal.daily_up e);
  daily_down = λ e. rw (sym d, sym t) (bal.daily_down e);
}

IsBalanced-aside : {a b : Db} → traffic b ≡ traffic a → IsBalanced a → IsBalanced b
IsBalanced-aside {a} {b} same =
    IsBalanced-of_SameTraffic a b
      (sym (ap (λ t. t.0) same), sym (ap (λ t. t.1) same), sym (ap (λ t. t.2) same))

IsAtomic-IsBalanced :
    (m : Exec World (Unit {0})) (w : World) (f : Time → Db → Db)
    → IsAtomic m w f
    → IsBalanced (f w.now w.db)
    → IsBalanced w.db
    → IsBalanced (m w).1.db
IsAtomic-IsBalanced m w f (inl (done, e)) after before = rw e after
IsAtomic-IsBalanced m w f (inr (x, failed, e)) after before = rw e before

SameTraffic-cleared : (email : Text) (w : World) → SameTraffic w.db (clear_quota_state email w).1.db
unfolding clear_quota_state ◌>>=◌
SameTraffic-cleared email w = (ground arith, ground arith, ground arith)

SameTraffic-blocked :
    (email : Text) (b : Bool) (at : Option Time) (w : World)
    → SameTraffic w.db (set_quota_blocked email b at w).1.db
unfolding set_quota_blocked
SameTraffic-blocked email b at w = (ground arith, ground arith, ground arith)

SameTraffic-counter :
    (name : Text) (value : ℤ) (w : World) → SameTraffic w.db (upsert_counter name value w).1.db
unfolding upsert_counter
SameTraffic-counter name value w = (ground arith, ground arith, ground arith)

SameTraffic-meta : (key value : Text) (w : World) → SameTraffic w.db (set_meta key value w).1.db
unfolding set_meta
SameTraffic-meta key value w = (ground arith, ground arith, ground arith)

run_call-IsBalanced :
    (hash : Text → Text) (c : StoreCall) (w : World)
    → IsBalanced w.db
    → IsBalanced (run_call hash c w).db
unfolding run_call
run_call-IsBalanced hash (counter name value) w h =
    IsBalanced-of_SameTraffic w.db _ (SameTraffic-counter name value w) h
run_call-IsBalanced hash (meta key value) w h =
    IsBalanced-of_SameTraffic w.db _ (SameTraffic-meta key value w) h
run_call-IsBalanced hash (delta email up down ts) w h =
    IsAtomic-IsBalanced (add_delta email up down ts) w (with_delta email up down ts)
      (add_delta-IsAtomic email up down ts w) (with_delta-IsBalanced email up down ts w.now w.db h)
      h
run_call-IsBalanced hash (reading email up down ts name value) w h =
    IsAtomic-IsBalanced (add_delta_and_advance_counter email up down ts name value) w
      (with_reading email up down ts name value)
      (add_delta_and_advance-IsAtomic email up down ts name value w)
      (IsBalanced-of_SameTraffic _ _ (refl, refl, refl)
        (with_delta_if_any-IsBalanced email up down ts w.now w.db h))
      h
run_call-IsBalanced hash (policies ps) w h =
    IsAtomic-IsBalanced (replace_quota_policies ps) w (with_quota_policies ps)
      (replace_quota_policies-IsAtomic ps w) (IsBalanced-of_SameTraffic w.db _ (refl, refl, refl) h)
      h
run_call-IsBalanced hash (blocked email b at) w h =
    IsBalanced-of_SameTraffic w.db _ (SameTraffic-blocked email b at w) h
run_call-IsBalanced hash (cleared email) w h =
    IsBalanced-of_SameTraffic w.db _ (SameTraffic-cleared email w) h
run_call-IsBalanced hash (users us) w h =
    IsAtomic-IsBalanced (replace_user_policies us) w (with_user_policies us)
      (replace_user_policies-IsAtomic us w) (IsBalanced-of_SameTraffic w.db _ (refl, refl, refl) h)
      h
run_call-IsBalanced hash (recorded events source_cap event_cap now) w h =
    IsBalanced-aside (IsAside-record hash events source_cap event_cap now w) h
run_call-IsBalanced hash (session_started email duration now) w h =
    IsBalanced-aside (IsAside-start email duration now w) h
run_call-IsBalanced hash (session_stopped email) w h = IsBalanced-aside (IsAside-stop email w) h
run_call-IsBalanced hash (cleanup now retention) w h =
    IsBalanced-aside (IsAside-cleanup now retention w) h

-- Any sequence of the store's writes, each at a time of its own and each refused by the driver or not:
-- if each user's hourly rows, daily rows and total come to the same before, they do after it. The sums
-- are exact, as the program's are while none of them leaves int64.
pub run_calls-IsBalanced :
    (hash : Text → Text) (calls : List (Time × StoreCall)) (w : World)
    → IsBalanced w.db
    → IsBalanced (run_calls hash calls w).db
unfolding run_calls
run_calls-IsBalanced hash [] w h = h
run_calls-IsBalanced hash ((now, c) ∷ calls) w h =
    run_calls-IsBalanced hash calls (run_call hash c (record w { now = now }))
      (run_call-IsBalanced hash c (record w { now = now }) h)
