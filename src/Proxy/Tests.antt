-- ===== src/Proxy/Tests.antt =====
-- cmd/mixnet-proxy/main.go: the proxy, run on concrete bytes.
use zknode_autonomi_alpha.Prelude.{
  ◌++◌, ◌≡◌, ◌*◌, [], ◌∷◌, ok, codes, length, bit_or, arith, refl, replicate, some, none, true,
  List, Bytes, ◌≤◌, ◌%◌, ◌^◌, ◌+◌, ◌⊎◌,
}
use zknode_autonomi_alpha.Proxy.Socks.{
  ip, name, target, parse_request, read_into, empty_buffer, negotiate,
}
use zknode_autonomi_alpha.Proxy.SocksProofs.{IsSettled, negotiate-IsSettled}
use zknode_autonomi_alpha.Proxy.SocksProofs.Requests.{
  domain, connect, parse_request-connect, parse_request_stale,
}
use zknode_autonomi_alpha.Proxy.Forward.{
  circuit_added, circuit_removed, Library, Exchange, State, serve_http, update_proof_chain,
}
use zknode_autonomi_alpha.Proxy.Chain.{
  serve_http_lem, chain_over-binding, chain_over, total_length, Collision,
}
use zknode_autonomi_alpha.Proxy.Connection.{Visit, enter, handle_conn}
use zknode_autonomi_alpha.Proxy.Circuits
use zknode_autonomi_alpha.Proxy.Circuits.{Moves, enters, handle_conn-Moves, accesses}
use zknode_autonomi_alpha.Proxy.Circuits.Balance.{
  accept, move, at_rest, later, initial, IsBalanced, Reach-IsBalanced,
}

negotiate-IsSettled_example :
    IsSettled (negotiate (ok (5 ∷ 1 ∷ 0 ∷ [])) (ok (5 ∷ 1 ∷ 0 ∷ 3 ∷ 255 ∷ 1 ∷ 2 ∷ 3 ∷ []))).1
negotiate-IsSettled_example =
    negotiate-IsSettled (ok (5 ∷ 1 ∷ 0 ∷ [])) (ok (5 ∷ 1 ∷ 0 ∷ 3 ∷ 255 ∷ 1 ∷ 2 ∷ 3 ∷ []))
      (omega arith, omega arith) (omega arith, omega arith)

parse_request-connect_example :
    parse_request
      (read_into empty_buffer (connect (domain (codes "ab.c")) 443))
      (length (connect (domain (codes "ab.c")) 443))
    ≡ target (name (codes "ab.c")) 443
parse_request-connect_example =
    parse_request-connect (domain (codes "ab.c")) 443 empty_buffer (omega arith) (omega arith)

parse_request_stale_example :
    parse_request
      (read_into
        (5 ∷ 8 ∷ 0 ∷ 1 ∷ 2 ∷ 3 ∷ 4 ∷ 5 ∷ 6 ∷ 7 ∷ 0 ∷ 0 ∷ [])
        (5 ∷ 1 ∷ 0 ∷ 1 ∷ 10 ∷ 0 ∷ 0 ∷ []))
      7
    ≡ target (ip (10 ∷ 0 ∷ 0 ∷ 5 ∷ [])) (bit_or (6 * 256) 7)
parse_request_stale_example = parse_request_stale 10 0 0 5 8 0 1 2 3 4 5 6 7 (0 ∷ 0 ∷ [])

-- A hash of 32 bytes that looks at the length of a text.
abbrev library : Library
library = record {
  url_text = λ req. req.rest;
  dump = λ req. ok req.rest;
  unwrap = some;
  response_text = λ payload req. some payload;
  bare_response = λ status body. body;
  sha256 = λ s. length s ∷ replicate 31 0;
}

abbrev page : Exchange
page = record {
  request = ok (record {
    method = codes "GET";
    url_host = [];
    url_scheme = [];
    request_uri = [];
    rest = codes "GET / HTTP/1.1";
  });
  send = λ payload node queue. ok (codes "HTTP/1.1 200 OK");
  writable = true;
}

abbrev fresh : State
fresh = record {
  bytes_forwarded = 0;
  active_circuits = 1;
  proof_chain = replicate 32 0;
  service = none;
  history = [];
}

serve_http_lem_example :
    let after =
      (serve_http library
        (codes "node", codes "queue")
        (codes "host")
        (page ∷ page ∷ [])
        fresh).1 in
    (ps : List Bytes) × (length ps ≤ 2)
    × (after.proof_chain ≡ chain_over library (replicate 32 0) ps)
    × (after.bytes_forwarded ≡ (0 + total_length ps) % 2 ^ 64)
serve_http_lem_example =
    serve_http_lem library (codes "node", codes "queue") (codes "host") (page ∷ page ∷ []) fresh
      (omega arith)

abbrev zeros : Bytes
zeros = replicate 32 0

chain_over-binding_example :
    ((zeros ≡ zeros) × (codes "a" ∷ [] ≡ codes "b" ∷ [])) ⊎ Collision library
unfolding update_proof_chain
chain_over-binding_example =
    chain_over-binding library (λ s. refl) zeros zeros (codes "a" ∷ []) (codes "b" ∷ []) refl refl
      refl refl

abbrev visit : Visit
visit = record {
  greeting = ok (5 ∷ 1 ∷ 0 ∷ []);
  request = ok (5 ∷ 1 ∷ 0 ∷ 1 ∷ 10 ∷ 0 ∷ 0 ∷ 1 ∷ 0 ∷ 80 ∷ []);
  looks = some (codes "node", codes "queue") ∷ [];
  peeked = some (b'G', b'E');
  exchanges = page ∷ [];
}

handle_conn-Moves_example :
    let after = (handle_conn library (λ s. s) visit fresh).state in
    Moves library fresh Circuits.fresh after Circuits.finished
    × (ps : List Bytes) × (after.history
        ≡ []
          ++ circuit_added (fresh.active_circuits + 1)
            ∷ (accesses ps ++ circuit_removed fresh.active_circuits ∷ []))
handle_conn-Moves_example = handle_conn-Moves library (λ s. s) visit fresh

Reach-IsBalanced_example :
    IsBalanced library zeros
      (record { state = enter (initial zeros).state; phases = Circuits.serving ∷ [] })
Reach-IsBalanced_example =
    Reach-IsBalanced library zeros (later (later at_rest accept) (move [] [] refl enters))
