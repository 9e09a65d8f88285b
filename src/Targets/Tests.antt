-- ===== src/Targets/Tests.antt =====
-- The theorem about the target registry at a concrete target that gets its first client.
use mikrus_mcp.Targets.Bound.{IsBound, get-IsBound}
use mikrus_mcp.Dict.{lookup}
use mikrus_mcp.Errors.{ok}
use mikrus_mcp.Targets.Registry.{get, identity_matches, config, TargetRegistry, Opening, Client}
use mikrus_mcp.Policy.Scopes.{mikrus, Target}
use mikrus_mcp.Prelude.{text_eq, refl, some, none, [], ◌∷◌, true, Text, ◌≡◌}

abbrev a_name : Text
a_name = b'a' ∷ []

abbrev a_target : Target
a_target = record { target_type = mikrus; stable_identity = a_name; verify_host_key = true }

abbrev a_client : Client
a_client = record { stable_identity = a_name; is_connected = true }

abbrev opening : Opening
opening = record { close_old = ok tt; built = ok a_client; failure = none; close_new = ok tt }

abbrev closed : TargetRegistry
closed = record {
  targets = (a_name, a_target) ∷ [];
  clients = [];
  failures = (a_name, a_name) ∷ [];
}

connected_now :
    get a_name opening closed
    ≡ (ok a_client, record closed { clients = (a_name, a_client) ∷ []; failures = [] })
unfolding get config identity_matches text_eq
connected_now = refl

get-IsBound_example :
    IsBound (get a_name opening closed).1
    × ((get a_name opening closed).1.targets ≡ closed.targets)
    × ((client : Client)
        → (get a_name opening closed).0 ≡ ok client
        → lookup a_name (get a_name opening closed).1.clients ≡ some client)
get-IsBound_example = get-IsBound a_name opening closed (λ name. tt)
