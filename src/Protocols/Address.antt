-- ===== src/Protocols/Address.antt =====
-- app/model_protocols.py, `upstream_url`: the address of a call under a provider's base address.
use opsark_admin.Common.{Bool, ◌||◌, String, if◌then◌else◌}
use opsark_admin.Errors.{Result, ok, err, api_error, upstream_protocol_mismatch}
use opsark_admin.Accounts.{text_eq}
use opsark_admin.Parameters.Routes.{Protocol, responses}

-- `s.endswith(suffix)`
abbrev pub ends_with : String → String → Bool
ends_with suffix String.[] = text_eq suffix String.[]
ends_with suffix (String.◌∷◌ c s) = text_eq suffix (String.◌∷◌ c s) || ends_with suffix s

abbrev pub joined : String → String → String
joined String.[] t = t
joined (String.◌∷◌ c s) t = String.◌∷◌ c (joined s t)

abbrev pub suffix_of : Protocol → String
suffix_of responses = "/responses"
suffix_of _ = "/chat/completions"

abbrev pub other_suffix_of : Protocol → String
other_suffix_of responses = "/chat/completions"
other_suffix_of _ = "/responses"

unfoldable pub upstream_url : String → Protocol → Result String
upstream_url base_url protocol =
    if ends_with (other_suffix_of protocol) base_url
    then err (api_error 422 upstream_protocol_mismatch)
    else if ends_with (suffix_of protocol) base_url
    then ok base_url
    else ok (joined base_url (suffix_of protocol))
