-- ===== src/Stats/Delta.antt =====
-- internal/stats/delta.go
use ovpn.Prelude.{ℤ, pos, ◌-ℤ◌, ltb_ℤ, leb_ℤ, wrap_int64, Bool, true, false, if◌then◌else◌}

abbrev clamp_delta : ℤ × Bool → ℤ × Bool
clamp_delta (delta, reset) = (if ltb_ℤ delta (pos 0) then pos 0 else delta, reset)

abbrev raw_delta : ℤ → Bool → ℤ → ℤ × Bool
raw_delta prev has_prev current =
    if has_prev
    then (if leb_ℤ prev current then (wrap_int64 (current -ℤ prev), false) else (current, true))
    else (current, false)

-- The delta, and whether the counter was reset.
unfoldable pub compute_delta : ℤ → Bool → ℤ → ℤ × Bool
unfolding ◌-ℤ◌ wrap_int64
compute_delta prev has_prev current = clamp_delta (raw_delta prev has_prev current)
