-- ===== src/Net/Endpoint.antt =====
-- crates/rdesk_net/src/quic/client.rs and server.rs: the two kinds of endpoint of QUIC.
--
-- `quinn`, `rustls` and `rcgen` stand outside: a `Quic` has their types and the calls that may fail.
-- What the source puts into their configurations is in the records, in milliseconds.
pub mod Agreement
use Prim.Native.String.{String}
use rdesk.Prelude.{
  ℕ, ◌*◌, Bool, true, false, not, if◌then◌else◌, Option, none, some, List, [], ◌∷◌, Text, codes,
  Bytes,
}
use rdesk.Net.Stun.{SocketAddr}

-- `IDLE_TIMEOUT_MS` and `KEEP_ALIVE_INTERVAL`.
abbrev pub idle_timeout_ms : ℕ
idle_timeout_ms = 30000

abbrev pub keep_alive_interval : ℕ
keep_alive_interval = 10 * 1000

-- How the certificate of a server is verified.
pub data Verifier : Type 0 where
  unverified : Verifier
  skip_server_verification : Verifier

pub data SignatureScheme : Type 0 where
  rsa_pkcs1_sha256 rsa_pkcs1_sha384 rsa_pkcs1_sha512 : SignatureScheme
  ecdsa_nistp256_sha256 ecdsa_nistp384_sha384 ecdsa_nistp521_sha512 : SignatureScheme
  rsa_pss_sha256 rsa_pss_sha384 rsa_pss_sha512 ed25519 ed448 : SignatureScheme

-- `SkipServerVerification`: the answers of its four methods, of which the first three take what the
-- server showed.
unfoldable pub verify_server_cert : Bytes → Text → Bool
verify_server_cert end_entity server_name = true

unfoldable pub verify_tls12_signature : Bytes → Bytes → Bool
verify_tls12_signature message cert = true

unfoldable pub verify_tls13_signature : Bytes → Bytes → Bool
verify_tls13_signature message cert = true

unfoldable pub supported_verify_schemes : List SignatureScheme
supported_verify_schemes =
    rsa_pkcs1_sha256 ∷ rsa_pkcs1_sha384 ∷ rsa_pkcs1_sha512 ∷ ecdsa_nistp256_sha256
    ∷ ecdsa_nistp384_sha384 ∷ ecdsa_nistp521_sha512 ∷ rsa_pss_sha256 ∷ rsa_pss_sha384
    ∷ rsa_pss_sha512 ∷ ed25519 ∷ ed448 ∷ []

pub record TransportConfig : Type 0 where
  pub max_idle_timeout : Option ℕ
  pub keep_alive : Option ℕ

-- The names of the certificate, the verifier, and the protocols of ALPN.
pub record TlsConfig (C : Type 0) : Type 0 where
  pub certificate : C
  pub verifier : Verifier
  pub alpn_protocols : List Text

pub record Quic : Type 1 where
  pub Certificate : Type 0
  pub Endpoint : Type 0
  pub Connecting : Type 0
  pub Connection : Type 0
  pub generate_simple_self_signed : List Text → Option Certificate
  pub safe_default_protocol_versions : Bool
  pub accepts_certificate : Certificate → Bool
  pub accepts_tls : TlsConfig Certificate → Bool
  pub accepts_idle_timeout : ℕ → Bool
  pub client_endpoint : TlsConfig Certificate → TransportConfig → Option Endpoint
  pub server_endpoint : TlsConfig Certificate → TransportConfig → SocketAddr → Option Endpoint
  pub start_connecting : SocketAddr → Text → Endpoint → Option Connecting
  pub accept_incoming : Endpoint → Option Connecting
  pub finish : Connecting → Option Connection
  pub local_addr_of : Endpoint → Option SocketAddr

pub data EndpointError : Type 0 where
  no_certificate no_versions bad_certificate bad_config bad_idle_timeout no_endpoint : EndpointError
  cannot_initiate handshake_failed endpoint_closed cannot_accept no_local_addr : EndpointError

pub data Made {ℓ} (A : Type ℓ) : Type ℓ where
  made : A → Made A
  failed : EndpointError → Made A

abbrev or_failed {ℓ} : {A : Type ℓ} → EndpointError → Option A → Made A
or_failed e none = failed e
or_failed e (some a) = made a

abbrev check : EndpointError → Bool → Made (Unit {0})
check e true = made tt
check e false = failed e

infixl 5 ◌>>=◌ ◌>>◌
abbrev ◌>>=◌ {ℓ κ} : {A : Type ℓ} {B : Type κ} → Made A → (A → Made B) → Made B
made a >>= f = f a
failed e >>= f = failed e

abbrev ◌>>◌ {ℓ κ} : {A : Type ℓ} {B : Type κ} → Made A → Made B → Made B
m >> k = m >>= λ _. k

abbrev pub transport : TransportConfig
transport = record {
  max_idle_timeout = some idle_timeout_ms;
  keep_alive = some keep_alive_interval;
}

module _ (Q : Quic) where
  abbrev pub tls_of : Q.Certificate → Verifier → TlsConfig Q.Certificate
  tls_of certificate verifier = record {
    certificate = certificate;
    verifier = verifier;
    alpn_protocols = codes "rdesk" ∷ [];
  }

  -- What both constructors do before they make the endpoint, with the name and the verifier of each.
  unfoldable pub configured : Text → Verifier → Made (TlsConfig Q.Certificate)
  configured name verifier = do
    certificate ← or_failed no_certificate (Q.generate_simple_self_signed (name ∷ []))
    check no_versions Q.safe_default_protocol_versions
    check bad_certificate (Q.accepts_certificate certificate)
    check bad_config (Q.accepts_tls (tls_of certificate verifier))
    check bad_idle_timeout (Q.accepts_idle_timeout idle_timeout_ms)
    made (tls_of certificate verifier)

  unfoldable pub new_client : Made Q.Endpoint
  unfolding configured
  new_client = do
    tls ← configured (codes "rdesk-client") skip_server_verification
    or_failed no_endpoint (Q.client_endpoint tls transport)

  unfoldable pub connect : SocketAddr → Q.Endpoint → Made Q.Connection
  connect addr endpoint = do
    connecting ← or_failed cannot_initiate (Q.start_connecting addr (codes "rdesk") endpoint)
    or_failed handshake_failed (Q.finish connecting)

  unfoldable pub new_server : SocketAddr → Made Q.Endpoint
  unfolding configured
  new_server bind_addr = do
    tls ← configured (codes "rdesk-server") unverified
    or_failed no_endpoint (Q.server_endpoint tls transport bind_addr)

  unfoldable pub accept : Q.Endpoint → Made Q.Connection
  accept endpoint = do
    incoming ← or_failed endpoint_closed (Q.accept_incoming endpoint)
    or_failed cannot_accept (Q.finish incoming)

  unfoldable pub local_addr : Q.Endpoint → Made SocketAddr
  local_addr endpoint = or_failed no_local_addr (Q.local_addr_of endpoint)
