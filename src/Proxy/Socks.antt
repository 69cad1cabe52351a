-- ===== src/Proxy/Socks.antt =====
-- cmd/mixnet-proxy/main.go, handleConn up to the choice between tunnel and HTTP. The two reads of
-- the client's bytes share one buffer of 512 bytes, as in the source.
use zknode_autonomi_alpha.Prelude.{
  ℕ, ◌+◌, ◌*◌, Bool, ◌&&◌, ◌||◌, Option, none, some, [], ◌∷◌, ◌++◌, Bytes, Result, ok, err, length,
  get_elem?, take, drop, replicate, bit_or, ltb, leb, ◌==◌, nat_Eq, if◌then◌else◌,
}

pub data Host : Type 0 where
  ip : Bytes → Host
  name : Bytes → Host

-- How the negotiation ends: the connection is closed, with the bytes that are still written; a
-- target is named; or an index is out of range.
pub data Socks : Type 0 where
  close : Bytes → Socks
  target : Host → ℕ → Socks
  panic : Socks

unfoldable pub empty_buffer : Bytes
empty_buffer = replicate 512 0

-- A read overwrites the front of the buffer.
abbrev pub read_into : Bytes → Bytes → Bytes
read_into buf chunk = chunk ++ drop (length chunk) buf

-- []byte{0x05, code, 0x00, 0x01, 0, 0, 0, 0, 0, 0}
abbrev pub socks_reply : ℕ → Bytes
socks_reply code = 5 ∷ code ∷ 0 ∷ 1 ∷ 0 ∷ 0 ∷ 0 ∷ 0 ∷ 0 ∷ 0 ∷ []

-- buf[i:j], if that is in range
unfoldable pub slice : Bytes → ℕ → ℕ → Option Bytes
slice buf i count = if leb (i + count) (length buf) then some (take count (drop i buf)) else none

unfoldable pub port_of : Option ℕ → Option ℕ → Option ℕ
port_of (some hi) (some lo) = some (bit_or (hi * 256) lo)
port_of (some hi) none = none
port_of none lo = none

unfoldable pub with_port : (Bytes → Host) → Option Bytes → Option ℕ → Socks
with_port kind (some host) (some port) = target (kind host) port
with_port kind (some host) none = panic
with_port kind none port = panic

-- host at `i`, of `count` bytes, and the port behind it
unfoldable pub address : (Bytes → Host) → Bytes → ℕ → ℕ → Socks
unfolding with_port port_of slice
address kind buf i count =
    with_port kind (slice buf i count)
      (port_of (get_elem? buf (i + count)) (get_elem? buf (i + count + 1)))

unfoldable pub domain_address : Bytes → ℕ → Option ℕ → Socks
domain_address buf n none = panic
domain_address buf n (some hl) = if ltb n (5 + hl + 2) then close [] else address Host.name buf 5 hl

-- switch buf[3] { … }
unfoldable pub by_address_type : Bytes → ℕ → Option ℕ → Socks
unfolding domain_address
by_address_type buf n none = panic
by_address_type buf n (some kind) =
    if kind == 1
    then address Host.ip buf 4 4
    else if kind == 3
    then domain_address buf n (get_elem? buf 4)
    else if kind == 4
    then address Host.ip buf 4 16
    else close (socks_reply 8)

unfoldable pub by_command : Bytes → ℕ → Option ℕ → Socks
by_command buf n none = panic
by_command buf n (some command) =
    if command == 1 then by_address_type buf n (get_elem? buf 3) else close (socks_reply 7)

-- The request, of `n` bytes, that stands at the front of the buffer.
unfoldable pub parse_request : Bytes → ℕ → Socks
unfolding by_command
parse_request buf n = if ltb n 7 then close [] else by_command buf n (get_elem? buf 1)

unfoldable pub greeted : Bytes → Result Bytes → Bytes × Socks
greeted buf (err e) = (5 ∷ 0 ∷ [], close [])
greeted buf (ok chunk) = (5 ∷ 0 ∷ [], parse_request (read_into buf chunk) (length chunk))

unfoldable pub by_version : Bytes → Option ℕ → Result Bytes → Bytes × Socks
by_version buf none second = ([], panic)
by_version buf (some version) second = if version == 5 then greeted buf second else ([], close [])

-- What the client is sent first, and how the negotiation ends: for what io.ReadAtLeast(client, buf, 2)
-- and then client.Read(buf) put into the buffer.
unfoldable pub negotiate : Result Bytes → Result Bytes → Bytes × Socks
unfolding by_version greeted
negotiate (err e) second = ([], close [])
negotiate (ok chunk) second =
    let buf = read_into empty_buffer chunk in
    if ltb (length chunk) 2 then ([], close []) else by_version buf (get_elem? buf 0) second

-- isLikelyHTTP
unfoldable pub is_likely_http : ℕ → Bool
is_likely_http b = (leb b'A' b && leb b b'Z') || (leb b'a' b && leb b b'z')

-- What the first two bytes behind the negotiation choose.
pub data Mode : Type 0 where
  tunnel http : Mode

unfoldable pub mode_of : ℕ → ℕ → Mode
unfolding is_likely_http
mode_of b0 b1 =
    if (b0 == 0x16) && (b1 == 0x03) then tunnel else if is_likely_http b0 then http else tunnel
