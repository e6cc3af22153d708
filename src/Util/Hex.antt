-- ===== src/Util/Hex.antt =====
-- `encoding/hex` and the little-endian form of `encoding/binary`, which util/bitcoin_util.go uses.
use native.Mathlib.Nat.{pow-suc}
use touchstone.Base.{
  ℕ, zero, suc, ◌+◌, ◌-◌, ◌*◌, ◌/◌, ◌%◌, ◌^◌, ◌<◌, ◌≡◌, refl, Bytes, Str, [], ◌∷◌, ◌++◌, Option,
  none, some, length, All, ltb, leb, if◌then◌else◌, ◌&&◌, arith,
}

abbrev pub hex_digit : ℕ → ℕ
hex_digit n = if ltb n 10 then b'0' + n else b'a' + (n - 10)

-- `hex.EncodeToString`
unfoldable pub encode_to_string : Bytes → Str
encode_to_string [] = []
encode_to_string (b ∷ bs) = hex_digit (b / 16) ∷ hex_digit (b % 16) ∷ encode_to_string bs

-- The value of a hexadecimal digit, of either case.
abbrev pub hex_value : ℕ → Option ℕ
hex_value c =
    if leb b'0' c && leb c b'9'
    then some (c - b'0')
    else if leb b'a' c && leb c b'f'
    then some (c - b'a' + 10)
    else if leb b'A' c && leb c b'F'
    then some (c - b'A' + 10)
    else none

abbrev cons_byte : Option ℕ → Option ℕ → Option Bytes → Option Bytes
cons_byte (some h) (some l) (some bs) = some ((h * 16 + l) ∷ bs)
cons_byte _ _ _ = none

-- `hex.DecodeString`, `none` for its error.
unfoldable pub decode_string : Str → Option Bytes
decode_string [] = some []
decode_string (c ∷ []) = none
decode_string (c ∷ d ∷ s) = cons_byte (hex_value c) (hex_value d) (decode_string s)

abbrev pub IsBytes : Bytes → Type 0
IsBytes = All (λ b. b < 256)

pub length-encode_to_string : (bs : Bytes) → length (encode_to_string bs) ≡ 2 * length bs
unfolding encode_to_string
length-encode_to_string [] = refl
length-encode_to_string (b ∷ bs) = omega (arith, length-encode_to_string bs)

pub encode_to_string-append :
    (a b : Bytes) → encode_to_string (a ++ b) ≡ encode_to_string a ++ encode_to_string b
unfolding encode_to_string
encode_to_string-append [] b = refl
encode_to_string-append (x ∷ a) b = rw (encode_to_string-append a b)

hex_value-digit : (n : ℕ) → n < 16 → hex_value (hex_digit n) ≡ some n
hex_value-digit n h = ground arith

-- Decoding undoes encoding.
pub decode_string-encode_to_string :
    (bs : Bytes) → IsBytes bs → decode_string (encode_to_string bs) ≡ some bs
unfolding decode_string encode_to_string
decode_string-encode_to_string [] h = refl
decode_string-encode_to_string (b ∷ bs) h =
    let high : b / 16 < 16 = omega arith in
    let low : b % 16 < 16 = omega arith in
    rw (hex_value-digit (b / 16) high, hex_value-digit (b % 16) low)
      (rw (decode_string-encode_to_string bs h.1) (ground arith))

-- The low `k` bytes of a number, the least first: `binary.Write(buf, binary.LittleEndian, …)`.
unfoldable pub le_bytes : ℕ → ℕ → Bytes
le_bytes zero n = []
le_bytes (suc k) n = n % 256 ∷ le_bytes k (n / 256)

-- `binary.LittleEndian.Uint64` of eight bytes.
unfoldable pub le_value : Bytes → ℕ
le_value [] = 0
le_value (b ∷ bs) = b + 256 * le_value bs

pub length-le_bytes : (k n : ℕ) → length (le_bytes k n) ≡ k
unfolding le_bytes
length-le_bytes zero n = refl
length-le_bytes (suc k) n = omega (arith, length-le_bytes k (n / 256))

pub le_value-le_bytes : (k n : ℕ) → n < 256 ^ k → le_value (le_bytes k n) ≡ n
unfolding le_value le_bytes
le_value-le_bytes zero n h = omega arith
le_value-le_bytes (suc k) n h =
    let low : n / 256 < 256 ^ k = omega (arith, pow-suc 256 k) in
    omega (arith, le_value-le_bytes k (n / 256) low)

pub le_bytes-le_value : (bs : Bytes) → IsBytes bs → le_bytes (length bs) (le_value bs) ≡ bs
unfolding le_value le_bytes
le_bytes-le_value [] h = refl
le_bytes-le_value (b ∷ bs) h =
    let low : (b + 256 * le_value bs) % 256 ≡ b = omega arith in
    let high : (b + 256 * le_value bs) / 256 ≡ le_value bs = omega arith in
    rw (low, high, le_bytes-le_value bs h.1)

pub le_value-lt : (bs : Bytes) → IsBytes bs → le_value bs < 256 ^ length bs
unfolding le_value
le_value-lt [] h = omega arith
le_value-lt (b ∷ bs) h = omega (arith, pow-suc 256 (length bs), le_value-lt bs h.1)
