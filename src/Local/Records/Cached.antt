-- ===== src/Local/Records/Cached.antt =====
-- A cached row of traffic is listed again (internal/store/local/store_backup_stats.go).
use ovpn.Prelude.{
  ℕ, ℤ, pos, negsuc, ◌*◌, ◌≡◌, refl, ap, ◌∙◌, subst, ◌⊎◌, inl, inr, Bool, true, List, [], ◌∷◌, map,
  ok, arith, Bool-cases, Member, text_eq→eq, text_eq_refl, ◌>>=◌,
}
use ovpn.Sql.{upsert, select_rows}
use ovpn.Driver.{nanos_per_second, driver_call, write_checked}
use ovpn.Driver.Atomic.{query_ok}
use ovpn.Local.{LocalWorld, LocalDb, StatsRow, same_id, rfc3339, exec_checked}
use ovpn.Local.Records.{
  same_window, merge_cached, stats_row, cache_row, upsert_stats_cache, insert_cached, order_cached,
  before, cached_traffic, cached_for, cached_rows, list_stats_cache,
}
use ovpn.Model.Types.{UserTraffic}

module _ {A B : Type 0} (f : A → B) where
  Member-map : (xs : List A) (x : A) → Member x xs → Member (f x) (map f xs)
  Member-map [] x m = elim m [ ]
  Member-map (y ∷ ys) x (inl same) = inl (ap f same)
  Member-map (y ∷ ys) x (inr later) = inr (Member-map ys x later)

module _ {R : Type 0} where
  Member-select :
      (test : R → Bool) (rows : List R) (row : R)
      → test row ≡ true
      → Member row rows
      → Member row (select_rows test rows)
  unfolding select_rows
  Member-select test [] row h m = elim m [ ]
  Member-select test (x ∷ xs) row h (inl same) =
      let kept : test x ≡ true = ap test same ∙ h in rw kept (inl same)
  Member-select test (x ∷ xs) row h (inr later) = elim (Bool-cases (test x)) [
    | inl kept ↦ rw kept (inr (Member-select test xs row h later))
    | inr dropped ↦ rw dropped (Member-select test xs row h later)
  ]

  Member-upsert :
      (same : R → R → Bool) (merge : R → R → R) (new : R) (rows : List R)
      → (row : R) × Member row (upsert same merge new rows)
        × ((row ≡ new) ⊎ ((old : R) × (same new old ≡ true) × (row ≡ merge old new)))
  unfolding upsert
  Member-upsert same merge new [] = (new, inl refl, inl refl)
  Member-upsert same merge new (old ∷ rows) = elim (Bool-cases (same new old)) [
    | inl e ↦ rw e (merge old new, inl refl, inr (old, e, refl))
    | inr e ↦ let (row, m, is) = Member-upsert same merge new rows in rw e (row, inr m, is)
  ]

Member-insert_self : (row : StatsRow) (rows : List StatsRow) → Member row (insert_cached row rows)
unfolding insert_cached
Member-insert_self row [] = inl refl
Member-insert_self row (next ∷ rows) = elim (Bool-cases (before row next)) [
  | inl e ↦ rw e (inl refl)
  | inr e ↦ rw e (inr (Member-insert_self row rows))
]

Member-insert :
    (row new : StatsRow) (rows : List StatsRow)
    → Member row rows
    → Member row (insert_cached new rows)
unfolding insert_cached
Member-insert row new [] m = elim m [ ]
Member-insert row new (next ∷ rows) (inl same) = elim (Bool-cases (before new next)) [
  | inl e ↦ rw e (inr (inl same))
  | inr e ↦ rw e (inl same)
]
Member-insert row new (next ∷ rows) (inr later) = elim (Bool-cases (before new next)) [
  | inl e ↦ rw e (inr (inr later))
  | inr e ↦ rw e (inr (Member-insert row new rows later))
]

Member-order :
    (row : StatsRow) (rows : List StatsRow) → Member row rows → Member row (order_cached rows)
unfolding order_cached
Member-order row [] m = elim m [ ]
Member-order row (x ∷ xs) (inl same) =
    subst (λ r. Member r (insert_cached x (order_cached xs))) same
      (Member-insert_self x (order_cached xs))
Member-order row (x ∷ xs) (inr later) =
    Member-insert row x (order_cached xs) (Member-order row xs later)

-- A row as it is listed: its start is cut to seconds.
abbrev pub listed : UserTraffic → UserTraffic
listed t = record t { window_start = rfc3339 t.window_start * nanos_per_second }

same_id→eq : (a b : ℤ) → same_id a b ≡ true → a ≡ b
same_id→eq (pos a) (pos b) h = ap pos (ground arith)
same_id→eq (negsuc a) (negsuc b) h = ap negsuc (ground arith)
same_id→eq (pos a) (negsuc b) h = absurd (ground arith)
same_id→eq (negsuc a) (pos b) h = absurd (ground arith)

same_id_refl : (a : ℤ) → same_id a a ≡ true
same_id_refl (pos a) = ground arith
same_id_refl (negsuc a) = ground arith

-- The row that the upsert leaves is the one given, but for its update time.
cached_alike :
    (new row : StatsRow)
    → (row ≡ new) ⊎ ((old : StatsRow) × (same_window new old ≡ true) × (row ≡ merge_cached old new))
    → cached_traffic row ≡ cached_traffic new
cached_alike new row (inl same) = ap cached_traffic same
cached_alike new row (inr (old, same, merged)) =
    let server = same_id→eq new.server_id old.server_id (ground arith) in
    let email = text_eq→eq new.email old.email (ground arith) in
    let window = text_eq→eq new.window_type old.window_type (ground arith) in
    let start : new.window_start ≡ old.window_start = ground arith in
    ap cached_traffic merged ∙ rw (server, email, window, start) refl

upserted :
    (t : UserTraffic) (w : LocalWorld)
    → (upsert_stats_cache t w).0 ≡ ok tt
    → (upsert_stats_cache t w).1.db.stats_cache
      ≡ upsert same_window merge_cached (stats_row t (rfc3339 w.now)) w.db.stats_cache
unfolding upsert_stats_cache exec_checked driver_call write_checked cache_row ◌>>=◌
upserted t w h = ground arith

cached-Member :
    (t : UserTraffic) (now : ℕ) (rows : List StatsRow)
    → Member (listed t) (
        map cached_traffic (
          order_cached (
            select_rows
              (cached_for t.server_id t.window_type)
              (upsert same_window merge_cached (stats_row t now) rows))))
cached-Member t now rows =
    let (row, there, is) = Member-upsert same_window merge_cached (stats_row t now) rows in
    let alike : cached_traffic row ≡ listed t = cached_alike (stats_row t now) row is in
    let server = ap (λ (u : UserTraffic). u.server_id) alike in
    let window = ap (λ (u : UserTraffic). u.window_type) alike in
    let wanted : cached_for t.server_id t.window_type row ≡ true =
      rw (server, window, same_id_refl t.server_id, text_eq_refl t.window_type) refl in
    let selected =
      select_rows (cached_for t.server_id t.window_type)
        (upsert same_window merge_cached (stats_row t now) rows) in
    subst (λ u. Member u (map cached_traffic (order_cached selected))) alike
      (Member-map cached_traffic (order_cached selected) row (
        Member-order row selected (
          Member-select (cached_for t.server_id t.window_type)
            (upsert same_window merge_cached (stats_row t now) rows) row wanted there)))

-- Traffic whose caching succeeds is in every later list of its server and its kind of window that
-- succeeds on the same tables, whether the cache had a row of the window or not; its start is cut to
-- seconds.
pub upsert_stats_cache-list_stats_cache :
    (t : UserTraffic) (w v : LocalWorld) (rows : List UserTraffic)
    → (upsert_stats_cache t w).0 ≡ ok tt
    → v.db ≡ (upsert_stats_cache t w).1.db
    → (list_stats_cache t.server_id t.window_type v).0 ≡ ok rows
    → Member (listed t) rows
unfolding list_stats_cache
upsert_stats_cache-list_stats_cache t w v rows cached same told =
    let (is, kept, now) = query_ok (cached_rows t.server_id t.window_type) v rows told in
    let table = ap (λ (db : LocalDb). db.stats_cache) same ∙ upserted t w cached in
    rw is (rw table (cached-Member t (rfc3339 w.now) w.db.stats_cache))
