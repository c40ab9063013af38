-- ===== src/Base64/Examples.antt =====
-- Twenty zeros, as a hash may be.
use ezwebsocket.Prelude.{ℕ, ◌≡◌, ◌+◌, refl, arith, true, List, [], ◌∷◌, some, Ensures, length}
use ezwebsocket.Base64.{base64_encode, base64_table, encode, encode_all, encoded_size}
use ezwebsocket.Base64.Decode.{decode, base64_encode-decodes}

abbrev pub zeros : List ℕ
zeros = 0 ∷ 0 ∷ 0 ∷ 0 ∷ 0 ∷ 0 ∷ 0 ∷ 0 ∷ 0 ∷ 0 ∷ 0 ∷ 0 ∷ 0 ∷ 0 ∷ 0 ∷ 0 ∷ 0 ∷ 0 ∷ 0 ∷ 0 ∷ []

abbrev pub zeros_text : List ℕ
zeros_text =
    65 ∷ 65 ∷ 65 ∷ 65 ∷ 65 ∷ 65 ∷ 65 ∷ 65 ∷ 65 ∷ 65 ∷ 65 ∷ 65 ∷ 65 ∷ 65 ∷ 65 ∷ 65 ∷ 65 ∷ 65 ∷ 65
    ∷ 65 ∷ 65 ∷ 65 ∷ 65 ∷ 65 ∷ 65 ∷ 65 ∷ 65 ∷ 61 ∷ []

pub base64_encode-zeros : base64_encode (λ size. true) zeros ≡ some zeros_text
unfolding base64_encode base64_table encode encode_all encoded_size
base64_encode-zeros = refl

base64_encode-decodes_example :
    Ensures
      (λ out. (decode out ≡ some (1 ∷ 2 ∷ 3 ∷ 4 ∷ [])) × (length out + 1 ≡ encoded_size 4))
      (base64_encode (λ size. true) (1 ∷ 2 ∷ 3 ∷ 4 ∷ []))
base64_encode-decodes_example =
    base64_encode-decodes (λ size. true) (1 ∷ 2 ∷ 3 ∷ 4 ∷ []) (omega arith) refl
