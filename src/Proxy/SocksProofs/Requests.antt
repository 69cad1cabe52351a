-- ===== src/Proxy/SocksProofs/Requests.antt =====
-- cmd/mixnet-proxy/main.go, handleConn: how a request is read, whole or cut short.
use zknode_autonomi_alpha.Prelude.{
  ℕ, suc, ◌+◌, ◌*◌, ◌/◌, ◌%◌, ◌<◌, ◌≤◌, ◌≡◌, refl, ap, ◌∙◌, true, some, [], ◌∷◌, ◌++◌, append_assoc,
  Bytes, length, get_elem?, take, drop, bit_or, leb, nat_Eq, arith, length-append,
  get_elem?-append_past, drop-append_past, take-append, bit_or-byte,
}
use zknode_autonomi_alpha.Proxy.Socks.{
  Host, ip, name, target, read_into, slice, port_of, with_port, address, domain_address,
  by_address_type, by_command, parse_request,
}

-- A SOCKS address as RFC 1928 has it.
pub data Address : Type 0 where
  ipv4 domain ipv6 : Bytes → Address

abbrev pub host_of : Address → Host
host_of (ipv4 s) = ip s
host_of (domain s) = name s
host_of (ipv6 s) = ip s

abbrev pub IsAddress : Address → Type 0
IsAddress (ipv4 s) = length s ≡ 4
IsAddress (domain s) = length s < 256
IsAddress (ipv6 s) = length s ≡ 16

-- The type of the address, and its length where that is sent.
abbrev head_of : Address → Bytes
head_of (ipv4 s) = 1 ∷ []
head_of (domain s) = 3 ∷ length s ∷ []
head_of (ipv6 s) = 4 ∷ []

abbrev body_of : Address → Bytes
body_of (ipv4 s) = s
body_of (domain s) = s
body_of (ipv6 s) = s

-- The CONNECT request for an address and a port.
unfoldable pub connect : Address → ℕ → Bytes
connect a port = 5 ∷ 1 ∷ 0 ∷ (head_of a ++ (body_of a ++ (port / 256 ∷ port % 256 ∷ [])))

address_at :
    (kind : Bytes → Host) (front body rest : Bytes) (port i count : ℕ)
    → i ≡ length front
    → count ≡ length body
    → port < 65536
    → address kind (front ++ (body ++ (port / 256 ∷ port % 256 ∷ rest))) i count
      ≡ target (kind body) port
unfolding address slice port_of with_port
address_at kind front body rest port i count hi hc small =
    let tail = port / 256 ∷ port % 256 ∷ rest in
    let high : get_elem? (front ++ (body ++ tail)) (i + count) ≡ some (port / 256) =
      get_elem?-append_past front (body ++ tail) (i + count) count (omega arith)
      ∙ get_elem?-append_past body tail count 0 (omega arith) in
    let low : get_elem? (front ++ (body ++ tail)) (i + count + 1) ≡ some (port % 256) =
      get_elem?-append_past front (body ++ tail) (i + count + 1) (suc count) (omega arith)
      ∙ get_elem?-append_past body tail (suc count) 1 (omega arith) in
    let fits : leb (i + count) (length (front ++ (body ++ tail))) ≡ true =
      ground (arith, length-append front (body ++ tail), length-append body tail) in
    let host : take count (drop i (front ++ (body ++ tail))) ≡ body =
      ap (take count) (drop-append_past front (body ++ tail) i hi)
      ∙ (ap (λ k. take k (body ++ tail)) hc ∙ take-append body tail) in
    rw (high, low, fits, host)
      (rw (bit_or-byte (port / 256) (port % 256) (omega arith) (omega arith))
        (ap (target (kind body)) (omega arith)))

parse_typed :
    (kind n : ℕ) (rest : Bytes)
    → 7 ≤ n
    → parse_request (5 ∷ 1 ∷ 0 ∷ kind ∷ rest) n
      ≡ by_address_type (5 ∷ 1 ∷ 0 ∷ kind ∷ rest) n (some kind)
unfolding parse_request by_command
parse_typed kind n rest h = ground arith

domain_at :
    (n hl : ℕ) (rest : Bytes)
    → 7 + hl ≤ n
    → by_address_type (5 ∷ 1 ∷ 0 ∷ 3 ∷ hl ∷ rest) n (some 3)
      ≡ address name (5 ∷ 1 ∷ 0 ∷ 3 ∷ hl ∷ rest) 5 hl
unfolding by_address_type domain_address
domain_at n hl rest h = ground arith

ip_at :
    (n : ℕ) (rest : Bytes)
    → (by_address_type (5 ∷ 1 ∷ 0 ∷ 1 ∷ rest) n (some 1) ≡ address ip (5 ∷ 1 ∷ 0 ∷ 1 ∷ rest) 4 4)
      × (by_address_type (5 ∷ 1 ∷ 0 ∷ 4 ∷ rest) n (some 4) ≡ address ip (5 ∷ 1 ∷ 0 ∷ 4 ∷ rest) 4 16)
unfolding by_address_type
ip_at n rest = (refl, refl)

-- What follows the request in the buffer does not matter: an RFC 1928 request to connect to an
-- address and a port is read as that address and that port, for both kinds of IP address and for
-- every domain name of at most 255 bytes, whatever the buffer held before.
pub parse_request-connect :
    (a : Address) (port : ℕ) (buf : Bytes)
    → IsAddress a
    → port < 65536
    → parse_request (read_into buf (connect a port)) (length (connect a port))
      ≡ target (host_of a) port
unfolding connect
parse_request-connect (ipv4 s) port buf k small =
    let tail = port / 256 ∷ port % 256 ∷ [] in
    let n = length (5 ∷ 1 ∷ 0 ∷ 1 ∷ (s ++ tail)) in
    parse_typed 1 n _ (omega (arith, length-append s tail))
    ∙ ((ip_at n _).0
        ∙ rw (append_assoc s tail _) (
            address_at ip (5 ∷ 1 ∷ 0 ∷ 1 ∷ []) s (drop n buf) port 4 4 (omega arith) (omega arith)
              small))
parse_request-connect (domain s) port buf k small =
    let tail = port / 256 ∷ port % 256 ∷ [] in
    let n = length (5 ∷ 1 ∷ 0 ∷ 3 ∷ length s ∷ (s ++ tail)) in
    parse_typed 3 n _ (omega (arith, length-append s tail))
    ∙ (domain_at n (length s) _ (omega (arith, length-append s tail))
        ∙ rw (append_assoc s tail _) (
            address_at name (5 ∷ 1 ∷ 0 ∷ 3 ∷ length s ∷ []) s (drop n buf) port 5 (length s)
              (omega arith) refl small))
parse_request-connect (ipv6 s) port buf k small =
    let tail = port / 256 ∷ port % 256 ∷ [] in
    let n = length (5 ∷ 1 ∷ 0 ∷ 4 ∷ (s ++ tail)) in
    parse_typed 4 n _ (omega (arith, length-append s tail))
    ∙ ((ip_at n _).1
        ∙ rw (append_assoc s tail _) (
            address_at ip (5 ∷ 1 ∷ 0 ∷ 4 ∷ []) s (drop n buf) port 4 16 (omega arith) (omega arith)
              small))

stale_address :
    (a b c g7 g8 g9 : ℕ) (rest : Bytes)
    → address ip (5 ∷ 1 ∷ 0 ∷ 1 ∷ a ∷ b ∷ c ∷ g7 ∷ g8 ∷ g9 ∷ rest) 4 4
      ≡ target (ip (a ∷ b ∷ c ∷ g7 ∷ [])) (bit_or (g8 * 256) g9)
unfolding address slice port_of with_port
stale_address a b c g7 g8 g9 rest =
    let fits : leb 8 (length (5 ∷ 1 ∷ 0 ∷ 1 ∷ a ∷ b ∷ c ∷ g7 ∷ g8 ∷ g9 ∷ rest)) ≡ true =
      ground arith in
    rw fits refl

-- A truncated request is not refused: seven bytes that announce an IPv4 address, of which only
-- three come, name a target whose last address byte and port are the bytes that the client's
-- greeting had left in the buffer.
pub parse_request_stale :
    (a b c g0 g1 g2 g3 g4 g5 g6 g7 g8 g9 : ℕ) (rest : Bytes)
    → parse_request
        (read_into
          (g0 ∷ g1 ∷ g2 ∷ g3 ∷ g4 ∷ g5 ∷ g6 ∷ g7 ∷ g8 ∷ g9 ∷ rest)
          (5 ∷ 1 ∷ 0 ∷ 1 ∷ a ∷ b ∷ c ∷ []))
        7
      ≡ target (ip (a ∷ b ∷ c ∷ g7 ∷ [])) (bit_or (g8 * 256) g9)
parse_request_stale a b c g0 g1 g2 g3 g4 g5 g6 g7 g8 g9 rest =
    parse_typed 1 7 _ (omega arith) ∙ ((ip_at 7 _).0 ∙ stale_address a b c g7 g8 g9 rest)
