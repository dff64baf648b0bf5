-- ===== src/Daemon/Auth.antt =====
-- Who may call the daemon (cmd/ovpn-agent/http_helpers.go).
use ovpn.Prelude.{
  Bool, ◌&&◌, not, Option, none, some, List, [], ◌∷◌, Text, codes, text_eq, if◌then◌else◌,
}
use ovpn.Strings.{trim_space, has_prefix, text_mem}
use ovpn.Model.Profile.{trim_prefix}
use ovpn.Stats.{Agent}
use ovpn.Daemon.{Request, Payload, Served, respond}

abbrev pub read_only_agent_paths : List Text
read_only_agent_paths =
    codes "/metrics"
    ∷ codes "/health"
    ∷ codes "/stats/total"
    ∷ codes "/stats/daily"
    ∷ codes "/quota/status"
    ∷ codes "/users/status"
    ∷ codes "/quota/policies"
    ∷ []

-- The comparison takes the same time for every text of one length, which is not modelled.
unfoldable pub bearer_token_matches : Text → Text → Bool
unfolding has_prefix trim_prefix trim_space
bearer_token_matches header token =
    has_prefix header (codes "Bearer ")
    && text_eq (trim_space (trim_prefix header (codes "Bearer "))) token

unfoldable pub require_agent_token :
    {F S : Type 0} → Text → (Request → Agent S → Served F S) → Request → Agent S → Served F S
unfolding bearer_token_matches
require_agent_token given next r a =
    let token = trim_space given in
    if not (text_eq token [])
      && (not (text_mem r.path read_only_agent_paths)
          && not (bearer_token_matches r.authorization token))
    then respond 401 (Payload.failure (codes "unauthorized")) a
    else next r a

-- The file of the token under the data directory: what reading it gives, an error counting as none.
pub record TokenFile : Type 0 where
  pub content : Option Text
  pub writable : Bool

abbrev persisted : Option Text → Text
persisted none = []
persisted (some content) = trim_space content

-- The token of this start, and the file after it. Where the environment lost the token, the one that
-- was persisted is used again.
unfoldable pub resolve_agent_token : Text → TokenFile → Text × TokenFile
unfolding trim_space
resolve_agent_token env_token file =
    if text_eq env_token []
    then (persisted file.content, file)
    else (env_token, if file.writable then record file { content = some env_token } else file)
