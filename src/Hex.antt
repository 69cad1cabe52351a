-- ===== src/Hex.antt =====
-- Go's encoding/hex as the program calls it: EncodeToString and DecodeString.
use zknode_autonomi_alpha.Prelude.{
  ℕ, ◌+◌, ◌-◌, ◌*◌, ◌/◌, ◌%◌, ◌<◌, ◌≡◌, ◌≢◌, refl, ap, Option, none, some, [], ◌∷◌, Bytes, ltb, leb,
  if◌then◌else◌, ◌&&◌, arith, All, length,
}

-- The digit of a nibble, 0-9 or a-f.
digit : ℕ → ℕ
digit n = if ltb n 10 then 48 + n else 87 + n

unfoldable pub encode : Bytes → Bytes
unfolding digit
encode [] = []
encode (b ∷ s) = digit (b / 16) ∷ digit (b % 16) ∷ encode s

-- The nibble of a digit; upper case is read too.
nibble : ℕ → Option ℕ
nibble c =
    if leb b'0' c && leb c b'9'
    then some (c - 48)
    else if leb b'a' c && leb c b'f'
    then some (c - 87)
    else if leb b'A' c && leb c b'F'
    then some (c - 55)
    else none

byte_of : Option ℕ → Option ℕ → Option Bytes → Option Bytes
byte_of (some hi) (some lo) (some rest) = some ((hi * 16 + lo) ∷ rest)
byte_of (some hi) (some lo) none = none
byte_of (some hi) none rest = none
byte_of none lo rest = none

-- An odd length or a character that is no digit is an error.
unfoldable pub decode : Bytes → Option Bytes
unfolding nibble byte_of
decode [] = some []
decode (c ∷ []) = none
decode (c ∷ d ∷ s) = byte_of (nibble c) (nibble d) (decode s)

abbrev pub IsByte : ℕ → Type 0
IsByte b = b < 256

nibble-digit : (n : ℕ) → n < 16 → nibble (digit n) ≡ some n
unfolding nibble digit
nibble-digit n h = ground arith

pub decode-encode : (s : Bytes) → All IsByte s → decode (encode s) ≡ some s
unfolding decode encode
decode-encode [] h = refl
decode-encode (b ∷ s) h =
    ground (arith, nibble-digit (b / 16), nibble-digit (b % 16), decode-encode s h.1)

-- Two byte strings with one hex text are equal.
pub encode-injective : (s t : Bytes) → All IsByte s → All IsByte t → encode s ≡ encode t → s ≡ t
encode-injective s t hs ht e = cc (decode-encode s hs, decode-encode t ht, ap decode e)

pub length-encode : (s : Bytes) → length (encode s) ≡ 2 * length s
unfolding encode
length-encode [] = refl
length-encode (b ∷ s) = omega (arith, length-encode s)

digit-ne : (n c : ℕ) → n < 16 → c < 48 → digit n ≢ c
unfolding digit
digit-ne n c h k = ground arith

-- No character below '0' stands in a hex text, so neither '/' nor '.' does.
pub encode-All-ne : (s : Bytes) (c : ℕ) → All IsByte s → c < 48 → All (λ d. d ≢ c) (encode s)
unfolding encode
encode-All-ne [] c h k = tt
encode-All-ne (b ∷ s) c h k = (
  digit-ne (b / 16) c (omega arith) k,
  (digit-ne (b % 16) c (omega arith) k, encode-All-ne s c h.1 k),
)
