-- ===== src/Base64.antt =====
-- lib/utils/base64.c. A string is the list of its characters without the NUL at its end.
pub mod Decode
pub mod Examples
use ezwebsocket.Prelude.{
  ℕ, ◌+◌, ◌-◌, ◌*◌, ◌/◌, bit_and, bit_or, Bool, List, [], ◌∷◌, Option, none, some,
}
use ezwebsocket.Prelude.{if◌then◌else◌, ltb, length, ◌==◌, take, ◌++◌, ◌^◌}

-- `base64_table`, 'A' to 'Z', 'a' to 'z', '0' to '9', '+' and '/'.
pub base64_table : ℕ → ℕ
base64_table i =
    if ltb i 26
    then i + 65
    else if ltb i 52
    then i + 71
    else if ltb i 62
    then i - 52 + 48
    else if i == 62
    then 43
    else 47

-- `encode`: the four characters, in order.
pub encode : ℕ → ℕ → ℕ → List ℕ
encode byte0 byte1 byte2 =
    base64_table (bit_and byte0 0xFC / 2 ^ 2)
    ∷ base64_table (bit_or (bit_and byte0 0x03 * 2 ^ 4) (bit_and byte1 0xF0 / 2 ^ 4))
    ∷ base64_table (bit_or (bit_and byte1 0x0F * 2 ^ 2) (bit_and byte2 0xC0 / 2 ^ 6))
    ∷ base64_table (bit_and byte2 0x3F)
    ∷ []

-- The two loops of `base64_encode`: three bytes at a time, and what is left with zeros behind it,
-- of which `count + 1` characters stay and the others become '='.
pub encode_all : List ℕ → List ℕ
encode_all [] = []
encode_all (a ∷ []) = take 2 (encode a 0 0) ++ (61 ∷ 61 ∷ [])
encode_all (a ∷ b ∷ []) = take 3 (encode a b 0) ++ (61 ∷ [])
encode_all (a ∷ b ∷ c ∷ rest) = encode a b c ++ encode_all rest

-- The size that `base64_encode` asks for, where its input is short enough that the product does not wrap.
pub encoded_size : ℕ → ℕ
encoded_size len = (len + 2) / 3 * 4 + 1

-- `base64_encode`; `alloc_ok` says whether a block of a size can be had.
pub base64_encode : (ℕ → Bool) → List ℕ → Option (List ℕ)
base64_encode alloc_ok bytes =
    if alloc_ok (encoded_size (length bytes)) then some (encode_all bytes) else none
