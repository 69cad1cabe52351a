-- ===== src/Shield/Requests.antt =====
-- walletshield-fix/main.go: the raw request that Handler builds, and the handler as a whole.
use zknode_autonomi_alpha.Prelude.{
  ℕ, ◌≡◌, ◌≢◌, refl, ap, ◌∙◌, false, Option, none, some, List, [], ◌∷◌, ◌++◌, append_assoc, Bytes,
  Result, ok, err, codes, length, drop, All, All-append, arith, nat_Eq, list_Eq, is_empty,
  if◌then◌else◌,
}
use zknode_autonomi_alpha.Shield.Texts.{starts_with}
use zknode_autonomi_alpha.Shield.Server.{Thin, Server, Library, Reply, handler}

-- The request of a wallet: its body, url.Parse of its URI with the text that http.Request.Write gives
-- for it, and the host that url.Parse finds in the upstream.
pub record WalletRequest : Type 0 where
  pub body : Result Bytes
  pub upstream_host : Result Bytes
  pub rewritten : Result Bytes

abbrev crlf : Bytes
crlf = 13 ∷ 10 ∷ []

module _ (decimal : ℕ → Bytes) where
  -- The head for an upstream: the lines, and the empty line.
  unfoldable pub upstream_head : Bytes → Bytes → ℕ → Bytes
  upstream_head upstream host size =
      (codes "POST " ++ (upstream ++ codes " HTTP/1.1"))
      ++ (crlf
          ++ ((codes "Host: " ++ host)
              ++ (crlf
                  ++ (codes "Content-Type: application/json"
                      ++ (crlf
                          ++ ((codes "Content-Length: " ++ decimal size) ++ (crlf ++ crlf)))))))

  -- The request that is sent through the mixnet, if it can be built.
  unfoldable pub raw_request : Bytes → WalletRequest → Option Bytes
  raw_request upstream req =
      if is_empty upstream
      then elim req.rewritten [ err e ↦ none | ok text ↦ some text ]
      else elim req.body [
        | err e ↦ none
        | ok body ↦ elim req.upstream_host [
          | err e ↦ none
          | ok host ↦ some (upstream_head upstream host (length body) ++ body)
        ]
      ]

  -- Handler
  unfoldable pub serve_wallet :
      Library → Bytes → (ℕ → Result Thin) → WalletRequest → Server → Reply × Server
  serve_wallet lib upstream dial req s = handler decimal lib dial (raw_request upstream req) s

-- What stands behind the first empty line: where a receiver finds the body.
unfoldable pub body_of : Bytes → Option Bytes
body_of [] = none
body_of (c ∷ s) =
    let rest = body_of s in
    if starts_with (c ∷ s) (crlf ++ crlf) then some (drop 4 (c ∷ s)) else rest

abbrev pub IsLine : Bytes → Type 0
IsLine = All (λ c. c ≢ 13)

body_of-cons : (c : ℕ) (s : Bytes) → c ≢ 13 → body_of (c ∷ s) ≡ body_of s
unfolding body_of starts_with
body_of-cons c s h = ground (arith, h)

body_of-line : (s rest : Bytes) → IsLine s → body_of (s ++ rest) ≡ body_of rest
body_of-line [] rest h = refl
body_of-line (c ∷ s) rest h = body_of-cons c (s ++ rest) h.0 ∙ body_of-line s rest h.1

-- A line end that another line follows is passed over, and so is that line.
body_of-crlf :
    (c : ℕ) (s rest : Bytes) → IsLine (c ∷ s) → body_of (crlf ++ (c ∷ (s ++ rest))) ≡ body_of rest
unfolding body_of starts_with
body_of-crlf c s rest h = ground (arith, h.0, body_of-line (c ∷ s) rest h)

body_of-empty_line : (rest : Bytes) → body_of (crlf ++ (crlf ++ rest)) ≡ some rest
unfolding body_of starts_with
body_of-empty_line rest = refl

-- Lines that are not empty, each behind a line end, and the empty line.
abbrev tail_of : List (ℕ × Bytes) → Bytes
tail_of [] = crlf ++ crlf
tail_of ((c, s) ∷ lines) = crlf ++ (c ∷ (s ++ tail_of lines))

body_of-tail_of :
    (lines : List (ℕ × Bytes)) (body : Bytes)
    → All (λ l. IsLine (l.0 ∷ l.1)) lines
    → body_of (tail_of lines ++ body) ≡ some body
body_of-tail_of [] body h = body_of-empty_line body
body_of-tail_of ((c, s) ∷ lines) body h =
    ap (λ t. body_of (crlf ++ (c ∷ t))) (append_assoc s (tail_of lines) body)
    ∙ (body_of-crlf c s (tail_of lines ++ body) h.0 ∙ body_of-tail_of lines body h.1)

module _ (decimal : ℕ → Bytes) where
  -- A receiver finds the wallet's body behind the head, if no carriage return stands in the upstream,
  -- in its host or in a decimal number.
  pub body_of-raw_request :
      (upstream host body : Bytes) (req : WalletRequest)
      → is_empty upstream ≡ false
      → req.body ≡ ok body
      → req.upstream_host ≡ ok host
      → IsLine upstream
      → IsLine host
      → IsLine (decimal (length body))
      → (raw : Bytes) × (raw_request decimal upstream req ≡ some raw) × (body_of raw ≡ some body)
  unfolding raw_request upstream_head
  body_of-raw_request upstream host body req up b u lu lh ld = (
    upstream_head decimal upstream host (length body) ++ body,
    rw (raw_request, up, b, u) refl,
    ap body_of (append_assoc first (tail_of others) body)
        ∙ (body_of-line first (tail_of others ++ body) first_line
            ∙ body_of-tail_of others body (host_line, (type_line, (length_line, tt)))),
  )
    where
      first : Bytes
      first = codes "POST " ++ (upstream ++ codes " HTTP/1.1")

      others : List (ℕ × Bytes)
      others =
          (b'H', codes "ost: " ++ host)
          ∷ (b'C', codes "ontent-Type: application/json")
          ∷ (b'C', codes "ontent-Length: " ++ decimal (length body))
          ∷ []

      first_line : IsLine first
      first_line =
          All-append (λ c. c ≢ 13) (codes "POST ") _ (omega arith)
            (All-append (λ c. c ≢ 13) upstream _ lu (omega arith))

      host_line : IsLine (codes "Host: " ++ host)
      host_line = All-append (λ c. c ≢ 13) (codes "Host: ") host (omega arith) lh

      type_line : IsLine (codes "Content-Type: application/json")
      type_line = omega arith

      length_line : IsLine (codes "Content-Length: " ++ decimal (length body))
      length_line = All-append (λ c. c ≢ 13) (codes "Content-Length: ") _ (omega arith) ld
