-- ===== src/Conduit.antt =====
-- conduit/src: the gateway between clusters. What a connection meets is a list of answers of the
-- network, and what it does is a list of actions that ends well or in an error.
pub mod Host
pub mod TlsConfig
pub mod Egress
pub mod Ingress
pub mod ClusterClient
pub mod Gateway
pub mod Crossing
use meshlite.Base.{
  ℕ, Bool, Option, none, some, List, [], ◌∷◌, ◌++◌, Text, Bytes, codes, if◌then◌else◌, All,
}
pub use meshlite.Results.{Result, ok, err}
use meshlite.Strings.{starts_with}
use meshlite.Telemetry.{TelemetryRecord}

-- What a TLS client is configured with: the roots that it trusts, and the chain and key that it presents, in
-- DER as rustls has them.
pub record ClientConfig : Type 0 where
  pub roots : List Bytes
  pub chain : List Bytes
  pub key : Bytes

-- A handshake is that of a connector with this configuration, for this name. `to_peer` is the upstream of the egress and the backend of the ingress.
pub data Action : Type 0 where
  emit : TelemetryRecord → Action
  dial : Text → Action
  handshake : ClientConfig → Text → Action
  to_peer to_client : Bytes → Action
  tunnel : Action

abbrev pub Script : Type 0
Script = List Action × Result Unit

abbrev pub stop : Script
stop = ([], ok tt)

abbrev pub fail : Text → Script
fail e = ([], err e)

abbrev pub act : Action → Script → Script
act a s = (a ∷ s.0, s.1)

-- An action with `?` on its answer.
abbrev pub perform : Action → Result Unit → Script → Script
perform a (ok tt) s = act a s
perform a (err e) s = act a (fail e)

-- What holds of an action and of those after it.
pub perform-All :
    (P : Action → Type 0) (a : Action) (r : Result Unit) (s : Script)
    → P a
    → All P s.0
    → All P (perform a r s).0
perform-All P a (ok u) s h k = (h, k)
perform-All P a (err e) s h k = (h, tt)

-- `normalize_listen_addr` of main.rs
unfoldable pub normalize_listen_addr : Text → Text
normalize_listen_addr addr = if starts_with addr (codes ":") then codes "0.0.0.0" ++ addr else addr

abbrev pub bad_request : Bytes
bad_request = codes "HTTP/1.1 400 Bad Request\r\nContent-Length: 0\r\n\r\n"
