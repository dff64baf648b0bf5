-- ===== src/Diagnostics.antt =====
-- internal/diagnostics/parser.go: an access line of Xray. The regular expressions, package `net` and
-- the number and time parsers belong to Go's libraries and are parameters.
pub mod Tailer
use ovpn.Prelude.{
  ℕ, ℤ, pos, ltb, ◌≡◌, refl, Bool, true, false, ◌&&◌, ◌||◌, not, Option, none, some, List, [], ◌∷◌,
  ◌++◌, Text, codes, arith, ◌==◌, length, text_eq, if◌then◌else◌,
}
use ovpn.Strings.{trim_space, to_lower, has_prefix, contains, is_blank}
use ovpn.Strings.Fields.{fields, trim_any, cut_first, cut_last, count_char}
use ovpn.Model.Profile.{trim_prefix}
use ovpn.Model.Types.{Time, ConnectionEvent}

-- net.IP: its four bytes, where it is an IPv4 address, and the text of its first 56 bits, where not.
pub record Ip : Type 0 where
  pub to4 : Option (ℕ × ℕ × ℕ)
  pub masked_56 : Text

pub record LineParsers : Type 0 where
  -- tsPrefixRE and emailRE, by what they capture
  pub ts_prefix : Text → Option (Text × Text)
  pub email_match : Text → Option Text
  -- time.ParseInLocation, by the layout
  pub time_in : Text → Text → Option Time
  pub split_host_port : Text → Option (Text × Text)
  -- strconv.Atoi: its value, and whether there is no error
  pub atoi : Text → ℤ × Bool
  pub parse_ip : Text → Option Ip
  -- fmt's %d
  pub decimal : ℕ → Text

abbrev pub layout_seconds : Text
layout_seconds = codes "2006/01/02 15:04:05"

abbrev pub layout_fraction : Text
layout_fraction = codes "2006/01/02 15:04:05.999999999"

abbrev is_result : Text → Bool
is_result field =
    let word = to_lower (trim_space field) in
    text_eq word (codes "accepted") || text_eq word (codes "rejected")

-- The first field that is a result, with what follows it.
unfoldable pub find_result : List Text → Option (Text × List Text)
find_result [] = none
find_result (field ∷ rest) =
    let later = find_result rest in if is_result field then some (field, rest) else later

abbrev followed : Option (Text × List Text) → Option (Text × Text)
followed none = none
followed (some (field, [])) = none
followed (some (field, next ∷ more)) = some (field, next)

-- A result that has a field before and one after it: the result and the field after it.
unfoldable pub result_field : List Text → Option (Text × Text)
unfolding find_result
result_field [] = none
result_field (first ∷ rest) = if is_result first then none else followed (find_result rest)

abbrev source_field : List Text → Text
source_field [] = []
source_field (source ∷ []) = source
source_field (source ∷ next ∷ more) =
    if text_eq (to_lower source) (codes "from") then next else source

module _ (p : LineParsers) where
  unfoldable pub parse_access_timestamp : Text → Option Time
  unfolding contains
  parse_access_timestamp raw =
      p.time_in (if contains raw (codes ".") then layout_fraction else layout_seconds) raw

  abbrev email_of : Option Text → Text
  email_of none = []
  email_of (some m) = trim_any (trim_space m) (codes ",;")

  unfoldable pub parse_email : Text → Text
  unfolding trim_any trim_space
  parse_email line = email_of (p.email_match line)

  abbrev after_colon : Text → Option (Text × Text) → Text × ℤ
  after_colon raw none = (raw, pos 0)
  after_colon raw (some ([], port)) = (raw, pos 0)
  after_colon raw (some (c ∷ host, port)) =
      let (value, fine) = p.atoi port in if fine then (c ∷ host, value) else (raw, pos 0)

  abbrev without_first : Text → Text
  without_first [] = []
  without_first (c ∷ s) = s

  abbrev bracketed : Text → Option (Text × Text) → Text × ℤ
  bracketed raw none = after_colon raw (cut_last raw 58)
  bracketed raw (some (before, after)) =
      (without_first before, (p.atoi (trim_prefix after (codes ":"))).0)

  abbrev loose : Text → Option (Text × Text) → Text × ℤ
  loose raw (some (host, port)) = (host, (p.atoi port).0)
  loose raw none =
      if has_prefix raw (codes "[")
      then bracketed raw (cut_last raw 93)
      else after_colon raw (cut_last raw 58)

  unfoldable pub split_host_port_loose : Text → Text × ℤ
  unfolding cut_last has_prefix trim_prefix
  split_host_port_loose raw = loose raw (p.split_host_port raw)

  abbrev without_network : Text → Option (Text × Text) → Text
  without_network raw none = raw
  without_network raw (some (prefix, rest)) =
      let network = to_lower prefix in
      if text_eq network (codes "tcp") || text_eq network (codes "udp") then rest else raw

  abbrev family_of : Option Ip → Text
  family_of none = codes "domain"
  family_of (some ip) = elim ip.to4 [ none ↦ codes "ipv6" | some b ↦ codes "ipv4" ]

  abbrev destination_of : Text × ℤ → Text × ℤ × Text
  destination_of (given, port) =
      let host = trim_any given (codes "[]") in
      if text_eq host []
      then ([], port, codes "unknown")
      else (host, port, family_of (p.parse_ip host))

  -- The host, the port and the family.
  unfoldable pub parse_destination : Text → Text × ℤ × Text
  unfolding trim_space cut_first trim_any split_host_port_loose
  parse_destination given =
      let raw = trim_space given in
      if text_eq raw []
      then ([], pos 0, codes "unknown")
      else destination_of
          (split_host_port_loose (trim_any (without_network raw (cut_first raw 58)) (codes " ")))

  abbrev inside_brackets : Text → Option (Text × Text) → Text
  inside_brackets source none = source
  inside_brackets source (some (before, after)) = without_first before

  abbrev before_port : Text → Option (Text × Text) → Text
  before_port source none = source
  before_port source (some ([], port)) = source
  before_port source (some (c ∷ host, port)) =
      if count_char source 58 == 1 then c ∷ host else source

  abbrev source_host : Text → Option (Text × Text) → Text
  source_host source (some (host, port)) = host
  source_host source none =
      if has_prefix source (codes "[")
      then inside_brackets source (cut_last source 93)
      else before_port source (cut_last source 58)

  abbrev network_of : Option Ip → Text
  network_of none = []
  network_of (some ip) = elim ip.to4 [
    | none ↦ ip.masked_56 ++ codes "/56"
    | some b ↦
        p.decimal b.0
        ++ (codes "." ++ (p.decimal b.1 ++ (codes "." ++ (p.decimal b.2 ++ codes ".0/24"))))
  ]

  unfoldable pub mask_source_network : Text → Text
  unfolding trim_space trim_any cut_last count_char has_prefix
  mask_source_network given =
      let source = trim_space given in
      if text_eq source []
      then []
      else network_of
          (p.parse_ip (trim_any (source_host source (p.split_host_port source)) (codes "[]")))

  abbrev event_of : Time → Text → Text → Text × Text → ConnectionEvent
  event_of ts email source (field, destination) =
      let (host, port, family) = parse_destination destination in
      record {
        timestamp = some ts;
        result = to_lower field;
        email = email;
        source_network = mask_source_network source;
        destination = host;
        destination_port = port;
        destination_family = family;
        raw_destination_hint = destination;
      }

  abbrev with_result : Text → List Text → Time → Option (Text × Text) → Option ConnectionEvent
  with_result line parts ts none = none
  with_result line parts ts (some found) =
      let email = parse_email line in
      if text_eq email [] then none else some (event_of ts email (source_field parts) found)

  abbrev with_time : Text → List Text → Option Time → Option ConnectionEvent
  with_time line parts none = none
  with_time line parts (some ts) =
      if ltb (length parts) 3 then none else with_result line parts ts (result_field parts)

  abbrev with_prefix : Text → Option (Text × Text) → Option ConnectionEvent
  with_prefix line none = none
  with_prefix line (some (ts, rest)) =
      with_time line (fields (trim_space rest)) (parse_access_timestamp ts)

  unfoldable pub parse_access_line : Text → Option ConnectionEvent
  unfolding trim_space fields result_field parse_access_timestamp parse_email parse_destination
      mask_source_network
  parse_access_line given =
      let line = trim_space given in
      if text_eq line [] then none else with_prefix line (p.ts_prefix line)
