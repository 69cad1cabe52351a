-- ===== src/Proxy/Manage.antt =====
-- cmd/mixnet-proxy/main.go: the management API behind authMiddleware.
use zknode_autonomi_alpha.Prelude.{
  ℕ, Bool, true, List, [], ◌∷◌, Bytes, Result, ok, err, codes, ◌==◌, nat_Eq, list_Eq, if◌then◌else◌,
  is_empty,
}
use zknode_autonomi_alpha.Hex
use zknode_autonomi_alpha.Proxy.Forward.{State}

pub record AppConfig : Type 0 where
  pub socks_addr : Bytes
  pub mgmt_addr : Bytes
  pub mgmt_api_key : Bytes
  pub thin_cfg_path : Bytes
  pub service_name : Bytes
  pub wireguard_iface : Bytes
  pub ant_node_addr : Bytes

pub record Status : Type 0 where
  pub mixnet_connected : Bool
  pub wireguard_iface : Bytes
  pub ant_node_addr : Bytes
  pub bytes_forwarded : ℕ
  pub active_circuits : ℕ
  pub uptime_seconds : ℕ
  pub service_name : Bytes

-- The object of /prove/bandwidth.
pub record BandwidthProof : Type 0 where
  pub bytes_forwarded : ℕ
  pub active_circuits : ℕ
  pub uptime_seconds : ℕ
  pub proof_type : Bytes
  pub proof_hash : Bytes
  pub verified : Bool

pub record StorageChallenge : Type 0 where
  pub index : ℕ
  pub nonce : Bytes

-- A request: the path, X-API-Key (empty if it is not sent), and what encoding/json makes of the
-- body as a challenge.
pub record Request : Type 0 where
  pub path : Bytes
  pub api_key : Bytes
  pub challenge : Result StorageChallenge

-- The moment: whether the client is connected, the uptime, and the answers of the storage prover to a
-- GET, to the encoding of a challenge, and to the POST of it.
pub record Moment : Type 0 where
  pub connected : Bool
  pub uptime : ℕ
  pub prover_challenge : Result Bytes
  pub encode_challenge : StorageChallenge → Result Bytes
  pub prover_prove : Bytes → Result Bytes

pub data Response : Type 0 where
  status_json : Status → Response
  proof_json : BandwidthProof → Response
  text : Bytes → Response
  http_error : ℕ → Bytes → Response

-- statusHandler; two fields of the status are never filled in
unfoldable pub status_of : AppConfig → Moment → State → Response
status_of cfg now st = status_json (record {
  mixnet_connected = now.connected;
  wireguard_iface = [];
  ant_node_addr = [];
  bytes_forwarded = st.bytes_forwarded;
  active_circuits = st.active_circuits;
  uptime_seconds = now.uptime;
  service_name = cfg.service_name;
})

-- healthHandler
unfoldable pub health_handler : Moment → Response
health_handler now =
    if now.connected then text (codes "ok") else http_error 503 (codes "not connected")

-- bandwidthProofHandler
unfoldable pub bandwidth_proof_handler : Moment → State → Response
bandwidth_proof_handler now st = proof_json (record {
  bytes_forwarded = st.bytes_forwarded;
  active_circuits = st.active_circuits;
  uptime_seconds = now.uptime;
  proof_type = codes "sha256_hash_chain";
  proof_hash = Hex.encode st.proof_chain;
  verified = true;
})

unfoldable pub from_upstream : Result Bytes → Response
from_upstream (err e) = http_error 502 (codes "{\"error\":\"upstream unavailable\"}")
from_upstream (ok body) = text body

-- challengeProxyHandler
unfoldable pub challenge_proxy_handler : Moment → Response
challenge_proxy_handler now = from_upstream now.prover_challenge

-- storageProofHandler
unfoldable pub storage_proof_handler : Moment → Result StorageChallenge → Response
storage_proof_handler now (err e) = http_error 400 (codes "{\"error\":\"invalid request\"}")
storage_proof_handler now (ok chal) = elim (now.encode_challenge chal) [
  | err e ↦ http_error 500 (codes "{\"error\":\"internal error\"}")
  | ok body ↦ from_upstream (now.prover_prove body)
]

-- The mux of main.
unfoldable pub route : AppConfig → Moment → State → Request → Response
route cfg now st req =
    if req.path == codes "/status"
    then status_of cfg now st
    else if req.path == codes "/health"
    then health_handler now
    else if req.path == codes "/prove/bandwidth"
    then bandwidth_proof_handler now st
    else if req.path == codes "/prove/challenge"
    then challenge_proxy_handler now
    else if req.path == codes "/prove/storage"
    then storage_proof_handler now req.challenge
    else http_error 404 (codes "404 page not found")

-- authMiddleware
unfoldable pub auth_middleware : AppConfig → Request → Response → Response
auth_middleware cfg req next =
    if is_empty cfg.mgmt_api_key
    then next
    else if req.api_key == cfg.mgmt_api_key
    then next
    else http_error 401 (codes "Unauthorized")

unfoldable pub manage : AppConfig → Moment → State → Request → Response
unfolding auth_middleware
manage cfg now st req = auth_middleware cfg req (route cfg now st req)

-- securityHeaders: what is set before the rest runs
abbrev pub security_headers : List (Bytes × Bytes)
security_headers =
    (codes "X-Content-Type-Options", codes "nosniff")
    ∷ (codes "X-Frame-Options", codes "DENY")
    ∷ (codes "X-XSS-Protection", codes "0")
    ∷ (codes "Referrer-Policy", codes "strict-origin-when-cross-origin")
    ∷ (codes "Strict-Transport-Security", codes "max-age=31536000; includeSubDomains")
    ∷ (codes "Content-Security-Policy", codes "default-src 'self'")
    ∷ []

-- securityHeaders(authMiddleware(mux))
unfoldable pub serve_api : AppConfig → Moment → State → Request → List (Bytes × Bytes) × Response
serve_api cfg now st req = (security_headers, manage cfg now st req)
