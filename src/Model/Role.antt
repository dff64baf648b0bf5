-- ===== src/Model/Role.antt =====
-- Server roles (internal/model/types.go and validate.go) and proxy presets
-- (internal/model/proxy_preset.go).
use ovpn.Prelude.{◌≡◌, ◌⊎◌, Bool, true, ◌||◌, [], ◌∷◌, Text, codes, arith, text_eq, if◌then◌else◌}
use ovpn.Strings.{trim_space, to_lower, join}
use ovpn.Model.Types.{Server, role_vpn, role_proxy}

unfoldable pub role_of_name : Text → Text
role_of_name name =
    if text_eq name [] || text_eq name role_vpn
    then role_vpn
    else if text_eq name role_proxy
    then role_proxy
    else []

unfoldable pub normalize_server_role : Text → Text
unfolding role_of_name
normalize_server_role raw = role_of_name (to_lower (trim_space raw))

unfoldable pub normalized_role : Server → Text
normalized_role s = normalize_server_role s.role

unfoldable pub is_proxy : Server → Bool
unfolding normalized_role
is_proxy s = text_eq (normalized_role s) role_proxy

unfoldable pub is_vpn : Server → Bool
unfolding normalized_role
is_vpn s = text_eq (normalized_role s) role_vpn

abbrev pub preset_ru : Text
preset_ru = codes "ru"

abbrev pub preset_cn : Text
preset_cn = codes "cn"

unfoldable pub preset_of_name : Text → Text
preset_of_name name =
    if text_eq name [] || text_eq name preset_ru
    then preset_ru
    else if text_eq name preset_cn || text_eq name (codes "china")
    then preset_cn
    else []

unfoldable pub normalize_proxy_preset : Text → Text
unfolding preset_of_name
normalize_proxy_preset raw = preset_of_name (to_lower (trim_space raw))

unfoldable pub supported_presets_text : Text
supported_presets_text = join (preset_ru ∷ preset_cn ∷ []) (codes ", ")

unfoldable pub normalized_proxy_preset : Server → Text
normalized_proxy_preset s = if is_proxy s then normalize_proxy_preset s.proxy_preset else []

pub role_cases :
    (raw : Text)
    → (normalize_server_role raw ≡ role_vpn)
      ⊎ (normalize_server_role raw ≡ role_proxy)
      ⊎ (normalize_server_role raw ≡ [])
unfolding normalize_server_role
role_cases raw = ground arith

-- The preset is empty off the proxy role and for a name that is not supported, and else one of two.
pub normalized_preset_cases :
    (s : Server)
    → (normalized_proxy_preset s ≡ [])
      ⊎ ((is_proxy s ≡ true)
          × ((normalized_proxy_preset s ≡ preset_ru) ⊎ (normalized_proxy_preset s ≡ preset_cn)))
unfolding normalized_proxy_preset normalize_proxy_preset
normalized_preset_cases s = ground arith
