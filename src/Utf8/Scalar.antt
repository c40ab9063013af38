-- ===== src/Utf8/Scalar.antt =====
-- UTF-8 as the Unicode standard has it: the scalar values and the bytes that stand for each.
use ezwebsocket.Prelude.{ℕ, ◌+◌, ◌/◌, ◌%◌, ◌≤◌, ◌<◌, ◌≡◌, ◌⊎◌, List, [], ◌∷◌, ◌++◌}
use ezwebsocket.Prelude.{ltb, if◌then◌else◌, All}

-- A code point that is no surrogate.
abbrev pub IsScalar : ℕ → Type 0
IsScalar c = (c < 0xD800) ⊎ ((0xE000 ≤ c) × (c ≤ 0x10FFFF))

abbrev pub encode_char : ℕ → List ℕ
encode_char c =
    if ltb c 0x80
    then c ∷ []
    else if ltb c 0x800
    then (0xC0 + c / 64) ∷ (0x80 + c % 64) ∷ []
    else if ltb c 0x10000
    then (0xE0 + c / 4096) ∷ (0x80 + c / 64 % 64) ∷ (0x80 + c % 64) ∷ []
    else (0xF0 + c / 262144) ∷ (0x80 + c / 4096 % 64) ∷ (0x80 + c / 64 % 64) ∷ (0x80 + c % 64) ∷ []

abbrev pub encode : List ℕ → List ℕ
encode [] = []
encode (c ∷ cs) = encode_char c ++ encode cs

-- The bytes are the encoding of a text.
pub record IsUtf8 (bytes : List ℕ) : Type 0 where
  pub text : List ℕ
  pub scalars : All IsScalar text
  pub spelled : bytes ≡ encode text
