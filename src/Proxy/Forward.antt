-- ===== src/Proxy/Forward.antt =====
-- cmd/mixnet-proxy/main.go: the cached service, the loop of handleConn over HTTP requests, forwardViaMixnet,
-- and the proof chain over what came back.
use zknode_autonomi_alpha.Prelude.{
  ℕ, zero, suc, ◌+◌, ◌%◌, ◌^◌, Bool, true, false, Option, none, some, List, [], ◌∷◌, ◌++◌, Bytes,
  Result, ok, err, codes, length, take, ltb, ◌==◌, nat_Eq, list_Eq, if◌then◌else◌,
}

-- One access to the counters or to the chain; of the circuits, with the number that AddInt64 makes.
pub data Access : Type 0 where
  circuit_added circuit_removed : ℕ → Access
  bytes_added proof_extended : Bytes → Access

-- The state that the connections share: the byte count, of 64 bits, the open connections, the chain,
-- and the service that was found last, by its node's hash and its queue. `history` is no variable of
-- the program: it lists the accesses so far, so that their order can be spoken of.
pub record State : Type 0 where
  pub bytes_forwarded : ℕ
  pub active_circuits : ℕ
  pub proof_chain : Bytes
  pub service : Option (Bytes × Bytes)
  pub history : List Access

-- refreshService, for whether the client is connected and what the lookup gives, none where it
-- panics and is recovered
unfoldable pub refresh_service : Bool → Option (Result (Bytes × Bytes)) → State → State
refresh_service true (some (ok s)) st = record st { service = some s }
refresh_service true (some (err e)) st = st
refresh_service true none st = st
refresh_service false found st = st

-- The wait of handleConn for a service, by what each look at the cache finds: the first look, and
-- then up to fifteen others.
unfoldable pub await : ℕ → List (Option (Bytes × Bytes)) → Option (Bytes × Bytes)
await zero looks = none
await (suc n) [] = none
await (suc n) (some s ∷ looks) = some s
await (suc n) (none ∷ looks) = await n looks

unfoldable pub await_service : List (Option (Bytes × Bytes)) → Option (Bytes × Bytes)
await_service looks = await 16 looks

-- An HTTP request as http.ReadRequest gives it, with what the loop does not look at in `rest`.
pub record HttpRequest : Type 0 where
  pub method : Bytes
  pub url_host : Bytes
  pub url_scheme : Bytes
  pub request_uri : Bytes
  pub rest : Bytes

-- One round of the loop: the request that is read, how the mixnet answers a message to a node and a
-- queue, and whether a response can be written to the client.
pub record Exchange : Type 0 where
  pub request : Result HttpRequest
  pub send : Bytes → Bytes → Bytes → Result Bytes
  pub writable : Bool

-- url.String, httputil.DumpRequest, the CBOR envelope, http.ReadResponse followed by the text that
-- Response.Write makes, that text for an HTTP/1.1 response with a status, a body and no headers, and
-- SHA-256.
pub record Library : Type 0 where
  pub url_text : HttpRequest → Bytes
  pub dump : HttpRequest → Result Bytes
  pub unwrap : Bytes → Option Bytes
  pub response_text : Bytes → HttpRequest → Option Bytes
  pub bare_response : ℕ → Bytes → Bytes
  pub sha256 : Bytes → Bytes

abbrev pub max_payload_size : ℕ
max_payload_size = 2000

-- The round ends the connection, or goes on; what was written to the client, and the state.
pub record Round : Type 0 where
  pub goes_on : Bool
  pub written : List Bytes
  pub state : State

unfoldable pub fill : Bytes → Bytes → Bytes
fill [] v = v
fill (c ∷ s) v = c ∷ s

module _ (lib : Library) where
  -- updateProofChain
  unfoldable pub update_proof_chain : Bytes → Bytes → Bytes
  update_proof_chain chain data_ = lib.sha256 (chain ++ data_)

  -- The request as it is sent on, with the host and the scheme filled in.
  unfoldable pub absolute : Bytes → HttpRequest → HttpRequest
  unfolding fill
  absolute host req =
      let full = record req {
        url_host = fill req.url_host host;
        url_scheme = fill req.url_scheme (codes "http");
      } in
      record full { request_uri = lib.url_text full }

  unfoldable pub cut_payload : Bytes → Bytes
  cut_payload raw = if ltb max_payload_size (length raw) then take max_payload_size raw else raw

  -- atomic.AddUint64(&bytesForwarded, …)
  abbrev pub count_payload : Bytes → State → State
  count_payload payload st = record st {
    bytes_forwarded = (st.bytes_forwarded + length payload) % 2 ^ 64;
    history = st.history ++ bytes_added payload ∷ [];
  }

  abbrev pub chain_payload : Bytes → State → State
  chain_payload payload st = record st {
    proof_chain = update_proof_chain st.proof_chain payload;
    history = st.history ++ proof_extended payload ∷ [];
  }

  -- The two calls behind each reply.
  unfoldable pub account : Bytes → State → State
  account payload st = chain_payload payload (count_payload payload st)

  unfoldable pub write_response : Bool → Bytes → Option Bytes → State → Round
  write_response writable payload none st = record {
    goes_on = true;
    written = payload ∷ [];
    state = st;
  }
  write_response true payload (some text) st = record {
    goes_on = true;
    written = text ∷ [];
    state = st;
  }
  write_response false payload (some text) st = record { goes_on = false; written = []; state = st }

  -- What is done with a reply: a raw one is passed on, and the payload of an envelope is parsed.
  unfoldable pub pass_on : Bool → HttpRequest → Bytes → Option Bytes → State → Round
  pass_on writable req reply none st = record {
    goes_on = true;
    written = reply ∷ [];
    state = account reply st;
  }
  pass_on writable req reply (some payload) st =
      write_response writable payload (lib.response_text payload req) (account payload st)

  closed : List Bytes → State → Round
  closed out st = record { goes_on = false; written = out; state = st }

  -- forwardViaMixnet and what follows it
  unfoldable pub forward : Exchange → Bytes × Bytes → HttpRequest → Result Bytes → State → Round
  unfolding closed
  forward ex service req (err e) st = closed [] st
  forward ex service req (ok raw) st = elim (ex.send (cut_payload raw) service.0 service.1) [
    | err e ↦ closed [] st
    | ok reply ↦ pass_on ex.writable req reply (lib.unwrap reply) st
  ]

  abbrev pub connect_refused : Bytes
  connect_refused = lib.bare_response 405 (codes "CONNECT not supported over mixnet\n")

  unfoldable pub answer_request :
      Exchange → Bytes × Bytes → Bytes → Result HttpRequest → State → Round
  unfolding closed
  answer_request ex service host (err e) st = closed [] st
  answer_request ex service host (ok req) st =
      if req.method == codes "CONNECT"
      then closed (connect_refused ∷ []) st
      else forward ex service (absolute host req) (lib.dump (absolute host req)) st

  -- One round, for the host that the negotiation named.
  unfoldable pub round : Bytes × Bytes → Bytes → Exchange → State → Round
  round service host ex st = answer_request ex service host ex.request st

  -- for { … }, over the rounds that the client gives rise to
  unfoldable pub serve_http : Bytes × Bytes → Bytes → List Exchange → State → List Bytes × State
  serve_http service host [] st = ([], st)
  serve_http service host (ex ∷ exs) st =
      let r = round service host ex st in
      let rest = serve_http service host exs r.state in
      if r.goes_on then (r.written ++ rest.0, rest.1) else (r.written, r.state)
