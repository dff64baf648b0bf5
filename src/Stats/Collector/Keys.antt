-- ===== src/Stats/Collector/Keys.antt =====
-- The names of Xray's counters: `ParseUserCounters` takes apart the keys that the collector stores.
use ovpn.Prelude.{
  ℕ, ℤ, ◌≡◌, refl, ap, ◌∙◌, Bool, true, false, some, List, [], ◌∷◌, ◌++◌, codes, Text, arith,
  text_eq, text_eq_refl, ◌==◌, if◌then◌else◌,
}
use ovpn.Strings.{push_char, has_prefix}
use ovpn.Strings.Split.{lacks}
use ovpn.Dict.{put, get?, get, or_zero, get?-put}
use ovpn.Stats.Collector.{
  UserCounter, no_counter, split_arrows, parse_from, uplink_key, downlink_key,
}

split_arrows-push :
    (c : ℕ) (s : Text) → (c == 62) ≡ false → split_arrows (c ∷ s) ≡ push_char c (split_arrows s)
unfolding split_arrows
split_arrows-push c [] h = refl
split_arrows-push c (a ∷ []) h = refl
split_arrows-push c (a ∷ b ∷ s) h = rw h refl

split_arrows-append :
    (e s : Text) → lacks 62 e ≡ true → split_arrows (e ++ (codes ">>>" ++ s)) ≡ e ∷ split_arrows s
unfolding lacks split_arrows
split_arrows-append [] s h = refl
split_arrows-append (c ∷ e) s h =
    split_arrows-push c (e ++ (codes ">>>" ++ s)) (ground arith)
    ∙ ap (push_char c) (split_arrows-append e s (ground arith))

split-uplink_key :
    (e : Text)
    → lacks 62 e ≡ true
    → split_arrows (uplink_key e) ≡ codes "user" ∷ e ∷ codes "traffic" ∷ codes "uplink" ∷ []
unfolding split_arrows
split-uplink_key e h =
    split_arrows-append (codes "user") (e ++ codes ">>>traffic>>>uplink") (unfold lacks in refl)
    ∙ ap (λ r. codes "user" ∷ r) (split_arrows-append e (codes "traffic>>>uplink") h)

split-downlink_key :
    (e : Text)
    → lacks 62 e ≡ true
    → split_arrows (downlink_key e) ≡ codes "user" ∷ e ∷ codes "traffic" ∷ codes "downlink" ∷ []
unfolding split_arrows
split-downlink_key e h =
    split_arrows-append (codes "user") (e ++ codes ">>>traffic>>>downlink") (unfold lacks in refl)
    ∙ ap (λ r. codes "user" ∷ r) (split_arrows-append e (codes "traffic>>>downlink") h)

one_value : Text → ℤ → Bool → UserCounter → UserCounter
one_value e v up entry =
    if up then record entry { email = e; uplink = v } else record entry { email = e; downlink = v }

abbrev key_of : Bool → Text → Text
key_of up e = if up then uplink_key e else downlink_key e

parse_from-key :
    (e : Text) (v : ℤ) (up : Bool) (stats : List (Text × ℤ)) (out : List (Text × UserCounter))
    → lacks 62 e ≡ true
    → parse_from ((key_of up e, v) ∷ stats) out
      ≡ parse_from stats (put e (one_value e v up (get no_counter e out)) out)
unfolding parse_from has_prefix one_value text_eq
parse_from-key e v true stats out h = rw (split-uplink_key e h) refl
parse_from-key e v false stats out h = rw (split-downlink_key e h) refl

get-put_self :
    (e : Text) (u : UserCounter) (out : List (Text × UserCounter))
    → get no_counter e (put e u out) ≡ u
unfolding get or_zero
get-put_self e u out = rw (get?-put e e u out) (rw (text_eq_refl e) refl)

get?-put_twice :
    (e other : Text) (u v : UserCounter) (out : List (Text × UserCounter))
    → get? other (put e v (put e u out)) ≡ (if text_eq e other then some v else get? other out)
get?-put_twice e other u v out =
    rw (get?-put e other v (put e u out)) (rw (get?-put e other u out) (ground arith))

written :
    (e other : Text) (v : ℤ) (up : Bool) (u : UserCounter) (out : List (Text × UserCounter))
    → get? other (put e (one_value e v up (get no_counter e (put e u out))) (put e u out))
      ≡ (if text_eq e other then some (one_value e v up u) else get? other out)
written e other v up u out =
    rw (get-put_self e u out) (get?-put_twice e other u (one_value e v up u) out)

-- Read into any map, two counters whose names are the keys of an email without `>`, in either order:
-- the map then has the email with both values, and every other entry as it was.
pub parse_from-keys :
    (e : Text) (up down : ℤ) (out : List (Text × UserCounter)) (other : Text)
    → lacks 62 e ≡ true
    → (let both : UserCounter = record { email = e; uplink = up; downlink = down } in
        let one = parse_from ((uplink_key e, up) ∷ (downlink_key e, down) ∷ []) out in
        let two = parse_from ((downlink_key e, down) ∷ (uplink_key e, up) ∷ []) out in
        (get? other one ≡ (if text_eq e other then some both else get? other out))
        × (get? other two ≡ (if text_eq e other then some both else get? other out)))
unfolding parse_from one_value
parse_from-keys e up down out other h = (
  ap (get? other) (
        parse_from-key e up true ((downlink_key e, down) ∷ []) out h
        ∙ parse_from-key e down false [] _ h)
      ∙ written e other down false (one_value e up true (get no_counter e out)) out,
  ap (get? other) (
        parse_from-key e down false ((uplink_key e, up) ∷ []) out h
        ∙ parse_from-key e up true [] _ h)
      ∙ written e other up true (one_value e down false (get no_counter e out)) out,
)
