-- ===== src/Proxy/SocksProofs.antt =====
-- cmd/mixnet-proxy/main.go, handleConn: the negotiation never reads past its buffer, and it reads
-- the requests of RFC 1928 as they were meant.
pub mod Requests
use zknode_autonomi_alpha.Prelude.{
  ℕ, zero, suc, ◌+◌, ◌*◌, ◌/◌, ◌%◌, ◌<◌, ◌≤◌, ◌≡◌, refl, ap, ◌∙◌, inl, inr, Bool-cases, Bool, true,
  false, some, [], ◌∷◌, ◌++◌, append_assoc, Bytes, Result, ok, err, length, get_elem?, take, drop,
  replicate, bit_or, ltb, leb, ◌==◌, nat_Eq, if◌then◌else◌, All, All-append, arith, length-append,
  length-replicate, length-drop-add, get_elem?-of_lt, get_elem?-append_past, drop-append_past,
  take-append, bit_or-byte,
}
use zknode_autonomi_alpha.Hex.{IsByte}
use zknode_autonomi_alpha.Proxy.Socks.{
  Host, ip, name, Socks, close, target, panic, empty_buffer, read_into, slice, port_of, with_port,
  address, domain_address, by_address_type, by_command, parse_request, greeted, by_version,
  negotiate,
}

-- The connection is closed, or a target is named: no index was out of range.
abbrev pub IsSettled : Socks → Type 0
IsSettled (close s) = Unit {0}
IsSettled (target h p) = Unit {0}
IsSettled panic = ⊥

address-IsSettled :
    (kind : Bytes → Host) (buf : Bytes) (i count : ℕ)
    → i + count + 1 < length buf
    → IsSettled (address kind buf i count)
unfolding address slice port_of with_port
address-IsSettled kind buf i count h =
    let (hi, e) = get_elem?-of_lt buf (i + count) (omega arith) in
    let (lo, e') = get_elem?-of_lt buf (i + count + 1) (omega arith) in
    let fits : leb (i + count) (length buf) ≡ true = ground arith in rw (e, e', fits) tt

IsSettled-if : (b : Bool) (s t : Socks) → IsSettled s → IsSettled t → IsSettled (if b then s else t)
IsSettled-if true s t hs ht = hs
IsSettled-if false s t hs ht = ht

All-get_elem? : (s : Bytes) (i b : ℕ) → All IsByte s → get_elem? s i ≡ some b → b < 256
All-get_elem? [] i b h e = absurd (cc)
All-get_elem? (c ∷ s) zero b h e = ground (arith, h.0)
All-get_elem? (c ∷ s) (suc i) b h e = All-get_elem? s i b h.1 e

module _ (buf : Bytes) (full : length buf ≡ 512) (bytes : All IsByte buf) where
  domain_address-IsSettled : (n : ℕ) → IsSettled (domain_address buf n (get_elem? buf 4))
  unfolding domain_address
  domain_address-IsSettled n =
      let (hl, e) = get_elem?-of_lt buf 4 (omega arith) in
      rw e (
        IsSettled-if (ltb n (5 + hl + 2)) (close []) (address Host.name buf 5 hl) tt
          (address-IsSettled Host.name buf 5 hl (omega (arith, All-get_elem? buf 4 hl bytes e))))

  by_address_type-IsSettled : (n kind : ℕ) → IsSettled (by_address_type buf n (some kind))
  unfolding by_address_type
  by_address_type-IsSettled n kind =
      IsSettled-if (kind == 1) _ _ (address-IsSettled Host.ip buf 4 4 (omega arith)) (
        IsSettled-if (kind == 3) _ _ (domain_address-IsSettled n)
          (IsSettled-if (kind == 4) _ _ (address-IsSettled Host.ip buf 4 16 (omega arith)) tt))

  parse_request-IsSettled : (n : ℕ) → IsSettled (parse_request buf n)
  unfolding parse_request by_command
  parse_request-IsSettled n =
      let (command, e) = get_elem?-of_lt buf 1 (omega arith) in
      let (kind, k) = get_elem?-of_lt buf 3 (omega arith) in
      IsSettled-if (ltb n 7) _ _ tt
        (rw e (IsSettled-if (command == 1) _ _ (rw k (by_address_type-IsSettled n kind)) tt))

-- A read of at most a buffer's length leaves a buffer of bytes.
read_into-full :
    (buf chunk : Bytes) → length buf ≡ 512 → length chunk ≤ 512 → length (read_into buf chunk) ≡ 512
read_into-full buf chunk full small = omega (
  arith,
  length-append chunk (drop (length chunk) buf),
  length-drop-add (length chunk) buf (omega arith),
)

All-drop : (n : ℕ) (s : Bytes) → All IsByte s → All IsByte (drop n s)
All-drop zero s h = h
All-drop (suc n) [] h = tt
All-drop (suc n) (b ∷ s) h = All-drop n s h.1

All-replicate : (n : ℕ) → All IsByte (replicate n 0)
All-replicate zero = tt
All-replicate (suc n) = (omega arith, All-replicate n)

-- What a client's reads may give: an error, or up to 512 bytes.
abbrev pub IsRead : Result Bytes → Type 0
IsRead (ok chunk) = (length chunk ≤ 512) × All IsByte chunk
IsRead (err e) = Unit {0}

empty_buffer-full : length empty_buffer ≡ 512
unfolding empty_buffer
empty_buffer-full = length-replicate {A = ℕ} 512 0

empty_buffer-bytes : All IsByte empty_buffer
unfolding empty_buffer
empty_buffer-bytes = All-replicate 512

greeted-IsSettled :
    (buf : Bytes) (second : Result Bytes)
    → length buf ≡ 512
    → All IsByte buf
    → IsRead second
    → IsSettled (greeted buf second).1
unfolding greeted
greeted-IsSettled buf (err e) full bytes s = tt
greeted-IsSettled buf (ok chunk) full bytes s =
    parse_request-IsSettled (read_into buf chunk) (read_into-full buf chunk full s.0)
      (All-append IsByte chunk _ s.1 (All-drop (length chunk) buf bytes)) (length chunk)

by_version-IsSettled :
    (buf : Bytes) (second : Result Bytes)
    → length buf ≡ 512
    → All IsByte buf
    → IsRead second
    → IsSettled (by_version buf (get_elem? buf 0) second).1
unfolding by_version
by_version-IsSettled buf second full bytes s =
    let (version, e) = get_elem?-of_lt buf 0 (omega arith) in
    rw e (elim (Bool-cases (version == 5)) [
      | inl five ↦ rw five (greeted-IsSettled buf second full bytes s)
      | inr other ↦ rw other tt
    ])

-- Whatever a client sends, in two reads of at most 512 bytes, the negotiation closes the connection
-- or names a target; it never indexes past its buffer.
pub negotiate-IsSettled :
    (first second : Result Bytes)
    → IsRead first
    → IsRead second
    → IsSettled (negotiate first second).1
unfolding negotiate
negotiate-IsSettled (err e) second f s = tt
negotiate-IsSettled (ok chunk) second f s = elim (Bool-cases (ltb (length chunk) 2)) [
  | inl short ↦ rw short tt
  | inr long ↦ rw long (
      by_version-IsSettled (read_into empty_buffer chunk) second
        (read_into-full empty_buffer chunk empty_buffer-full f.0)
        (All-append IsByte chunk _ f.1 (All-drop (length chunk) empty_buffer empty_buffer-bytes)) s)
]
