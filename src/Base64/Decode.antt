-- ===== src/Base64/Decode.antt =====
-- `base64_encode` of lib/utils/base64.c against a decoder as RFC 4648 describes it.
use ezwebsocket.Prelude.{ℕ, ◌+◌, ◌-◌, ◌*◌, ◌/◌, ◌%◌, ◌<◌, ◌≤◌, ◌≡◌, refl, bit_and, arith}
use ezwebsocket.Prelude.{
  Bool, true, false, List, [], ◌∷◌, ◌++◌, Option, none, some, ◌>>=◌, ◌&&◌, ◌==◌, leb, length,
}
use ezwebsocket.Prelude.{if◌then◌else◌, All, IsBytes, ap, ap₂, Ensures, Ensures-if, Ensures-some}
use ezwebsocket.Prelude.Bits.{bit_or_field, bit_and_low}
use ezwebsocket.Prelude.Tables.{all_below, agree_on_bytes}
use ezwebsocket.Base64.{base64_table, encode, encode_all, encoded_size, base64_encode}

-- The value of a character.
pub sextet : ℕ → Option ℕ
sextet c =
    if leb 65 c && leb c 90
    then some (c - 65)
    else if leb 97 c && leb c 122
    then some (c - 71)
    else if leb 48 c && leb c 57
    then some (c + 4)
    else if c == 43
    then some 62
    else if c == 47
    then some 63
    else none

-- Four characters, with '=' where there are fewer than three bytes.
decode_four : ℕ → ℕ → ℕ → ℕ → Option (List ℕ)
decode_four w x y z = do
  a ← sextet w
  b ← sextet x
  if y == 61 then (if z == 61 then some ((a * 4 + b / 16) ∷ []) else none) else (do
    c ← sextet y
    if z == 61 then some ((a * 4 + b / 16) ∷ (b % 16 * 16 + c / 4) ∷ []) else (do
      d ← sextet z
      some ((a * 4 + b / 16) ∷ (b % 16 * 16 + c / 4) ∷ (c % 4 * 64 + d) ∷ [])))

pub decode : List ℕ → Option (List ℕ)
decode [] = some []
decode (w ∷ x ∷ y ∷ z ∷ rest) = do
  bytes ← decode_four w x y z
  more ← decode rest
  some (bytes ++ more)
decode (_ ∷ []) = none
decode (_ ∷ _ ∷ []) = none
decode (_ ∷ _ ∷ _ ∷ []) = none

sextet-table :
    (i : ℕ) → i < 64 → (sextet (base64_table i) ≡ some i) × ((base64_table i == 61) ≡ false)
unfolding sextet base64_table
sextet-table i small = ground arith

-- The four groups of six bits.
sextets :
    (a b c : ℕ)
    → a < 256
    → b < 256
    → c < 256
    → encode a b c
      ≡ base64_table (a / 4)
        ∷ base64_table (a % 4 * 16 + b / 16)
        ∷ base64_table (b % 16 * 4 + c / 64)
        ∷ base64_table (c % 64)
        ∷ []
unfolding encode all_below
sextets a b c ha hb hc =
    let h0 : bit_and a 0xFC ≡ a / 4 * 4 =
      agree_on_bytes (λ x. bit_and x 0xFC) (λ x. x / 4 * 4) refl a ha in
    let h1 : bit_and b 0xF0 ≡ b / 16 * 16 =
      agree_on_bytes (λ x. bit_and x 0xF0) (λ x. x / 16 * 16) refl b hb in
    let h2 : bit_and c 0xC0 ≡ c / 64 * 64 =
      agree_on_bytes (λ x. bit_and x 0xC0) (λ x. x / 64 * 64) refl c hc in
    ground (
      arith,
      h0,
      h1,
      h2,
      bit_and_low 2 a,
      bit_and_low 4 b,
      bit_and_low 6 c,
      bit_or_field 4 (a % 4) (b / 16),
      bit_or_field 2 (b % 16) (c / 64),
    )

three :
    {a b c x y z : ℕ} → x ≡ a → y ≡ b → z ≡ c → ◌≡◌ {A = List ℕ} (x ∷ y ∷ z ∷ []) (a ∷ b ∷ c ∷ [])
three p q r = cc

-- One whole group.
decode_four-encode :
    (a b c : ℕ)
    → a < 256
    → b < 256
    → c < 256
    → decode_four
        (base64_table (a / 4))
        (base64_table (a % 4 * 16 + b / 16))
        (base64_table (b % 16 * 4 + c / 64))
        (base64_table (c % 64))
      ≡ some (a ∷ b ∷ c ∷ [])
unfolding decode_four
decode_four-encode a b c ha hb hc =
    let (r0, p0) = sextet-table (a / 4) (omega arith) in
    let (r1, p1) = sextet-table (a % 4 * 16 + b / 16) (omega arith) in
    let (r2, p2) = sextet-table (b % 16 * 4 + c / 64) (omega arith) in
    let (r3, p3) = sextet-table (c % 64) (omega arith) in
    rw (r0, r1, r2, r3, p2, p3) (ap some (three (omega arith) (omega arith) (omega arith)))

-- One byte or two, with the pads behind them.
decode_four-two :
    (a b : ℕ)
    → a < 256
    → b < 256
    → decode_four
        (base64_table (a / 4))
        (base64_table (a % 4 * 16 + b / 16))
        (base64_table (b % 16 * 4 + 0 / 64))
        61
      ≡ some (a ∷ b ∷ [])
unfolding decode_four
decode_four-two a b ha hb =
    let (r0, p0) = sextet-table (a / 4) (omega arith) in
    let (r1, p1) = sextet-table (a % 4 * 16 + b / 16) (omega arith) in
    let (r2, p2) = sextet-table (b % 16 * 4 + 0 / 64) (omega arith) in
    rw (r0, r1, r2, p2) (ap some (ap₂ (λ x y. x ∷ y ∷ []) (omega arith) (omega arith)))

decode_four-one :
    (a : ℕ)
    → a < 256
    → decode_four (base64_table (a / 4)) (base64_table (a % 4 * 16 + 0 / 16)) 61 61 ≡ some (a ∷ [])
unfolding decode_four
decode_four-one a ha =
    let (r0, p0) = sextet-table (a / 4) (omega arith) in
    let (r1, p1) = sextet-table (a % 4 * 16 + 0 / 16) (omega arith) in
    rw (r0, r1) (ap (λ x. some (x ∷ [])) (omega arith))

-- RFC 4648 decodes what `base64_encode` writes to the bytes that were given to it.
pub decode-encode_all : (bytes : List ℕ) → IsBytes bytes → decode (encode_all bytes) ≡ some bytes
unfolding decode encode_all
decode-encode_all [] h = refl
decode-encode_all (a ∷ []) (ha, _) =
    rw (sextets a 0 0 ha (omega arith) (omega arith), decode_four-one a ha) refl
decode-encode_all (a ∷ b ∷ []) (ha, (hb, _)) =
    rw (sextets a b 0 ha hb (omega arith), decode_four-two a b ha hb) refl
decode-encode_all (a ∷ b ∷ c ∷ rest) (ha, (hb, (hc, h))) =
    rw (sextets a b c ha hb hc, decode_four-encode a b c ha hb hc, decode-encode_all rest h) refl

-- The string and the NUL behind it take exactly the memory that was asked for.
pub length-encode_all :
    (bytes : List ℕ) → length (encode_all bytes) + 1 ≡ encoded_size (length bytes)
unfolding encode_all encode encoded_size
length-encode_all [] = refl
length-encode_all (a ∷ []) = refl
length-encode_all (a ∷ b ∷ []) = refl
length-encode_all (a ∷ b ∷ c ∷ rest) = omega (arith, length-encode_all rest)

-- `base64_encode` of bytes returns, wherever its block can be had, a string that RFC 4648 decodes
-- to the bytes given, and that fills, with its NUL, the block that was asked for.
pub base64_encode-decodes :
    (alloc_ok : ℕ → Bool) (bytes : List ℕ)
    → IsBytes bytes
    → alloc_ok (encoded_size (length bytes)) ≡ true
    → Ensures
        (λ out. (decode out ≡ some bytes) × (length out + 1 ≡ encoded_size (length bytes)))
        (base64_encode alloc_ok bytes)
unfolding base64_encode
base64_encode-decodes alloc_ok bytes hb got =
    Ensures-if (alloc_ok (encoded_size (length bytes)))
      (λ _. Ensures-some _ (decode-encode_all bytes hb, length-encode_all bytes))
      (λ refused. absurd (ground arith))

-- Every character is a printable one.
base64_table-bounds : (i : ℕ) → (33 ≤ base64_table i) × (base64_table i ≤ 126)
unfolding base64_table
base64_table-bounds i = ground arith

pub encode_all-bounds : (bytes : List ℕ) → All (λ c. (33 ≤ c) × (c ≤ 126)) (encode_all bytes)
unfolding encode_all encode
encode_all-bounds [] = tt
encode_all-bounds (a ∷ []) =
    (base64_table-bounds _, (base64_table-bounds _, (omega arith, (omega arith, tt))))
encode_all-bounds (a ∷ b ∷ []) =
    (base64_table-bounds _, (base64_table-bounds _, (base64_table-bounds _, (omega arith, tt))))
encode_all-bounds (a ∷ b ∷ c ∷ rest) = (
  base64_table-bounds _,
  (base64_table-bounds _, (base64_table-bounds _, (base64_table-bounds _, encode_all-bounds rest))),
)

-- The characters of every result.
pub base64_encode-bounds :
    (alloc_ok : ℕ → Bool) (bytes out : List ℕ)
    → base64_encode alloc_ok bytes ≡ some out
    → (length out ≡ (length bytes + 2) / 3 * 4) × All (λ c. (33 ≤ c) × (c ≤ 126)) out
unfolding base64_encode encoded_size
base64_encode-bounds alloc_ok bytes out returns =
    let same : encode_all bytes ≡ out = ground arith in
    rw (← same) (omega (arith, length-encode_all bytes), encode_all-bounds bytes)
