-- ===== src/Shield/Server.antt =====
-- walletshield-fix/main.go: Server, reconnect, the event handler, sendRequest and Handler.
use zknode_autonomi_alpha.Prelude.{
  ℕ, zero, suc, ◌+◌, Bool, true, false, Option, none, some, List, [], ◌∷◌, ◌++◌, Bytes, Result, ok,
  err, codes, length, ltb, nat_Eq, list_Eq, contains, if◌then◌else◌,
}
use zknode_autonomi_alpha.Shield.Texts.{has_text, from_text, to_lower, trim_zeros}

-- A thin client: whether it has a PKI document, the `http` service by the hash of its node and its
-- queue, and its answer to a message.
pub record Thin : Type 0 where
  pub has_document : Bool
  pub service : Result (Bytes × Bytes)
  pub send : Bytes → Bytes → Bytes → Result Bytes

-- The client in use, and those that were closed.
pub record Server : Type 0 where
  pub thin : Thin
  pub closed : List Thin

-- reconnect, for what loading the settings and dialling give
unfoldable pub reconnect : Result Thin → Server → Server
reconnect (err e) s = s
reconnect (ok client) s = record { thin = client; closed = s.thin ∷ s.closed }

-- startEventHandler: one event, by whether it says that the client is connected; the flag is
-- `everConnected`.
unfoldable pub on_event : Bool → Result Thin → Bool × Server → Bool × Server
on_event true dialled (ever, s) = (true, s)
on_event false dialled (true, s) = (false, reconnect dialled s)
on_event false dialled (false, s) = (false, s)

abbrev pub payload_length : ℕ
payload_length = 2000

abbrev pub exceeds : Bytes
exceeds = codes "exceeds maximum"

module _ (decimal : ℕ → Bytes) where
  unfoldable pub too_long : Bytes → Bytes
  too_long payload =
      (codes "payload size " ++ decimal (length payload) ++ codes " ")
      ++ (exceeds ++ (codes " " ++ decimal payload_length ++ codes " bytes"))

  unfoldable pub send_to : Thin → Bytes → Result (Bytes × Bytes) → Result Bytes
  send_to thin payload (err e) = err (codes "GetService(http) failed: " ++ e)
  send_to thin payload (ok (node, queue)) = thin.send payload node queue

  -- sendRequest
  unfoldable pub send_request : Thin → Bytes → Result Bytes
  unfolding too_long send_to
  send_request thin payload =
      if ltb payload_length (length payload)
      then err (too_long payload)
      else if thin.has_document
      then send_to thin payload thin.service
      else err (codes "PKI document is not available")

  -- for attempt := 1; attempt <= 3; attempt++ { … }, by the rounds that are left
  unfoldable pub retry : (ℕ → Result Thin) → ℕ → ℕ → Bytes → Bytes → Server → Result Bytes × Server
  retry dial zero attempt payload last s = (err last, s)
  retry dial (suc rounds) attempt payload last s =
      let s' = reconnect (dial attempt) s in
      elim (send_request s'.thin payload) [
        | ok reply ↦ (ok reply, s')
        | err e ↦ elim (has_text e exceeds) [
          | true ↦ (err e, s')
          | false ↦ retry dial rounds (attempt + 1) payload e s'
        ]
      ]

  -- The sending part of Handler.
  unfoldable pub exchange : (ℕ → Result Thin) → Bytes → Server → Result Bytes × Server
  exchange dial payload s = elim (send_request s.thin payload) [
    | ok reply ↦ (ok reply, s)
    | err e ↦ elim (has_text e exceeds) [ true ↦ (err e, s) | false ↦ retry dial 3 1 payload e s ]
  ]

-- An HTTP response as http.ReadResponse gives it; a body may fail to be read.
pub record HttpResponse : Type 0 where
  pub status : ℕ
  pub headers : List (Bytes × List Bytes)
  pub body : Result Bytes

-- What is written to the wallet: nothing, an error, or a response with its headers.
pub data Reply : Type 0 where
  silent : Reply
  http_error : ℕ → Bytes → Reply
  response : ℕ → List (Bytes × Bytes) → Bytes → Reply

-- The Payload of the CBOR envelope, http.ReadResponse, and fmt.Sprintf on a format without
-- arguments.
pub record Library : Type 0 where
  pub unwrap : Bytes → Option Bytes
  pub parse : Bytes → Option HttpResponse
  pub format : Bytes → Bytes

abbrev pub dropped_names : List Bytes
dropped_names =
    codes "content-type"
    ∷ codes "content-length"
    ∷ codes "date"
    ∷ codes "host"
    ∷ codes "transfer-encoding"
    ∷ codes "connection"
    ∷ []

unfoldable pub each_value : Bytes → List Bytes → List (Bytes × Bytes)
each_value name [] = []
each_value name (v ∷ vs) = (name, v) ∷ each_value name vs

-- for k, v := range resp.Header { … }
unfoldable pub passed_headers : List (Bytes × List Bytes) → List (Bytes × Bytes)
passed_headers [] = []
passed_headers ((name, values) ∷ hs) =
    let rest = passed_headers hs in
    if contains dropped_names (to_lower name) then rest else each_value name values ++ rest

-- The payload of a reply: of its envelope, if that has one, and from `HTTP/` on, if that stands in it.
unfoldable pub inner : Option Bytes → Bytes → Bytes
inner none raw = raw
inner (some []) raw = raw
inner (some (c ∷ s)) raw = c ∷ s

unfoldable pub strip : Bytes → Bytes
strip payload = elim (from_text payload (codes "HTTP/")) [ none ↦ payload | some rest ↦ rest ]

module _ (decimal : ℕ → Bytes) (lib : Library) where
  unfoldable pub write_body : HttpResponse → Result Bytes → Reply
  write_body resp (err e) = http_error 500 (codes "Internal Server Error")
  write_body resp (ok body) =
      let text = trim_zeros body in
      response resp.status
        ((codes "Content-Type", codes "application/json")
          ∷ (codes "Content-Length", decimal (length text))
          ∷ passed_headers resp.headers)
        (lib.format text)

  unfoldable pub write_parsed : Option HttpResponse → Reply
  unfolding write_body
  write_parsed none = http_error 500 (codes "Internal Server Error")
  write_parsed (some resp) = write_body resp resp.body

  unfoldable pub write_result : Result Bytes → Reply
  write_result (err e) =
      if has_text e exceeds
      then http_error 500 (codes "custom 500")
      else http_error 404 (codes "custom 404")
  write_result (ok raw) = write_parsed (lib.parse (strip (inner (lib.unwrap raw) raw)))

  -- Handler, for the raw request that it builds, if it does
  unfoldable pub handler : (ℕ → Result Thin) → Option Bytes → Server → Reply × Server
  handler dial none s = (silent, s)
  handler dial (some payload) s =
      let (result, s') = exchange decimal dial payload s in (write_result result, s')
