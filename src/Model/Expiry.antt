-- ===== src/Model/Expiry.antt =====
-- internal/model/expiry.go: the cutoff is exclusive. The
-- calendar of package `time`, which the file reads and prints dates with, is not modelled.
use Prim.Native.Nat.{min}
use ovpn.Float.{Float64}
use ovpn.Prelude.{
  [], Text, ℤ, pos, negsuc, ◌-ℤ◌, ◌-◌, ◌^◌, Bool, false, ◌&&◌, not, Option, none, some, ltb,
}
use ovpn.Model.Types.{Time}

unfoldable pub is_expired_at : Option Time → Time → Bool
is_expired_at none now = false
is_expired_at (some expiry) now = not (ltb now expiry)

unfoldable pub is_effectively_enabled : Bool → Option Time → Time → Bool
unfolding is_expired_at
is_effectively_enabled enabled expiry now = enabled && not (is_expired_at expiry now)

-- time.Time.Sub, which stops at the ends of int64.
saturated : ℤ → ℤ
saturated (pos n) = pos (min n (2 ^ 63 - 1))
saturated (negsuc n) = negsuc (min n (2 ^ 63 - 1))

-- The remaining days, for an expiry that is set.
unfoldable pub days_until_expiry : (f : Float64) → Option Time → Time → Option f.F
unfolding saturated
days_until_expiry f none now = none
days_until_expiry f (some expiry) now =
    some (f.div (f.hours (saturated (pos expiry -ℤ pos now))) (f.literal 24 0))

-- `date_text` prints a time's day in UTC; the cutoff is the midnight after the last day.
unfoldable pub expiry_date_string : (Time → Text) → Option Time → Text
expiry_date_string date_text none = []
expiry_date_string date_text (some expiry) = date_text (expiry - 1)
