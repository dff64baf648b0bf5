-- ===== src/Remote/Window.antt =====
-- The start of a window that ends now: its length in nanoseconds, 30 days where it is not above 0.
use ovpn.Prelude.{ℤ, pos, negsuc, ◌*◌, ◌-◌, leb_ℤ, if◌then◌else◌}
use ovpn.Remote.{nanos_per_second}
use ovpn.Model.Types.{Time}

abbrev default_window : ℤ
default_window = pos (30 * 86400 * nanos_per_second)

-- now.Add(-window), for a window that is above 0.
abbrev window_start_of : Time → ℤ → Time
window_start_of now (pos n) = now - n
window_start_of now (negsuc n) = now

abbrev pub positive_or : ℤ → ℤ → ℤ
positive_or value fallback = if leb_ℤ value (pos 0) then fallback else value

abbrev pub window_start : Time → ℤ → Time
window_start now window = window_start_of now (positive_or window default_window)
