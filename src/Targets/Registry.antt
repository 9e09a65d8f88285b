-- ===== src/Targets/Registry.antt =====
-- targets.py: `TargetRegistry`. What the clients do, and what the factory returns, is an argument:
-- the transports are outside of this file. A method runs under the target's lock.
use mikrus_mcp.Errors.{ok, not_found, authorization, unavailable, err, app_error, Result, Error}
use mikrus_mcp.Prelude.{
  true, none, starts_with, some, text_eq, map, if◌then◌else◌, Option, Bool, List, Text, [],
}
use mikrus_mcp.Exec.{Exec, pure, raise, lift, modify, ◌>>=◌, ◌>>◌}
use mikrus_mcp.Dict.{contains, Dict, lookup, insert, erase}
use mikrus_mcp.Policy.Scopes.{TargetType, Target, is_ssh, verified_prefix, unverified}

-- What the registry reads of a client.
pub record Client : Type 0 where
  pub stable_identity : Text
  pub is_connected : Bool

pub record TargetRegistry : Type 0 where
  pub targets : Dict Target
  pub clients : Dict Client
  pub failures : Dict Text

-- How the calls of one `get` go: closing the old client, building a new one, opening it (`some` is
-- the class of the exception that it raised), and closing it again.
pub record Opening : Type 0 where
  pub close_old : Result (Unit {0})
  pub built : Result Client
  pub failure : Option Text
  pub close_new : Result (Unit {0})

abbrev pub unknown_target : Option Target → Result Target
unknown_target none = err (app_error not_found)
unknown_target (some t) = ok t

unfoldable pub config : TargetRegistry → Text → Result Target
config r target = unknown_target (lookup target r.targets)

-- `client.stable_identity` is the configured one, with the host key for SSH.
unfoldable pub identity_matches : Target → Text → Bool
identity_matches t identity =
    if is_ssh t.target_type
    then starts_with
        (if t.verify_host_key
          then verified_prefix t.stable_identity
          else unverified t.stable_identity)
        identity
    else text_eq identity t.stable_identity

abbrev pub forget : Text → Exec TargetRegistry (Unit {0})
forget target = modify (λ (r : TargetRegistry). record r { clients = erase target r.clients })

abbrev pub unavailable_error : Error
unavailable_error =
    Error.app (record { code = unavailable; retryable = true; retry_after_seconds = none })

abbrev pub note_failure : Text → Option Text → Exec TargetRegistry (Unit {0})
note_failure target none = pure tt
note_failure target (some class) = do
  modify (λ (r : TargetRegistry). record r { failures = insert target class r.failures })
  raise unavailable_error

abbrev pub accept : Text → Client → Exec TargetRegistry Client
accept target client = do
  modify (λ (r : TargetRegistry). record r {
    clients = insert target client r.clients;
    failures = erase target r.failures;
  })
  pure client

abbrev pub check_identity : Text → Target → Client → Result (Unit {0}) → Exec TargetRegistry Client
check_identity target t client close_new =
    if identity_matches t client.stable_identity
    then accept target client
    else (do lift close_new; raise (app_error authorization))

-- The part of `get` that builds, opens and checks a new client.
abbrev pub connect : Text → Target → Opening → Exec TargetRegistry Client
connect target t opening = do
  client ← lift opening.built
  note_failure target opening.failure
  check_identity target t client opening.close_new

-- What `get` does with the client that it holds, if any.
abbrev pub reuse_or_connect : Text → Target → Opening → Option Client → Exec TargetRegistry Client
reuse_or_connect target t opening none = connect target t opening
reuse_or_connect target t opening (some client) =
    if client.is_connected
    then pure client
    else (do forget target; lift opening.close_old; connect target t opening)

abbrev pub get_configured : Text → Opening → Target → Exec TargetRegistry Client
get_configured target opening t r = reuse_or_connect target t opening (lookup target r.clients) r

unfoldable pub get : Text → Opening → Exec TargetRegistry Client
unfolding config identity_matches
get target opening r = (do t ← lift (config r target); get_configured target opening t) r

abbrev pub connected_identity : Option Client → Option Text
connected_identity none = none
connected_identity (some client) = if client.is_connected then some client.stable_identity else none

unfoldable pub resolved_identity : TargetRegistry → Text → Option Text
resolved_identity r target = connected_identity (lookup target r.clients)

pub data Availability : Type 0 where
  connected unavailable_now not_connected : Availability

pub record TargetStatus : Type 0 where
  pub name : Text
  pub target_type : TargetType
  pub configured_identity : Text
  pub resolved : Option Text
  pub availability : Availability
  pub is_default : Bool

abbrev pub availability_of : TargetRegistry → Text → Availability
availability_of r name =
    if contains name r.clients
    then connected
    else if contains name r.failures
    then unavailable_now
    else not_connected

abbrev pub status_entry : TargetRegistry → Text → Text × Target → TargetStatus
status_entry r default_target e = record {
  name = e.0;
  target_type = e.1.target_type;
  configured_identity = e.1.stable_identity;
  resolved = connected_identity (lookup e.0 r.clients);
  availability = availability_of r e.0;
  is_default = text_eq e.0 default_target;
}

unfoldable pub status : TargetRegistry → Text → List TargetStatus
status r default_target = map (status_entry r default_target) r.targets

-- `close`: every client is closed, whatever the closing of one raises.
unfoldable pub close : TargetRegistry → TargetRegistry
close r = record r { clients = [] }
