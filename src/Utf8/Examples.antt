-- ===== src/Utf8/Examples.antt =====
-- Byte strings on which the theorems about the validation are used: the two bytes of an e with an
-- acute accent, and the first of them alone.
use ezwebsocket.Prelude.{◌≡◌, ◌↔◌, refl, arith, [], ◌∷◌}
use ezwebsocket.Utf8.{
  ok, busy, utf8_validate, validate_loop, utf8_validate_single, validate_first, first_of_sequence,
}
use ezwebsocket.Utf8.Scalar.{IsUtf8}
use ezwebsocket.Utf8.Strings.{utf8_validate_iff}
use ezwebsocket.Utf8.Fragments.{utf8_validate-append, empty_fragment_hides_busy}

utf8_validate_iff_example :
    ((utf8_validate (0xC3 ∷ 0xA9 ∷ []) 0).0 ≡ ok) ↔ IsUtf8 (0xC3 ∷ 0xA9 ∷ [])
utf8_validate_iff_example = utf8_validate_iff (0xC3 ∷ 0xA9 ∷ []) (omega arith)

begun : (utf8_validate (0xC3 ∷ []) 0).0 ≡ busy
unfolding utf8_validate validate_loop utf8_validate_single validate_first first_of_sequence
begun = refl

utf8_validate-append_example :
    utf8_validate (0xA9 ∷ []) (utf8_validate (0xC3 ∷ []) 0).1 ≡ utf8_validate (0xC3 ∷ 0xA9 ∷ []) 0
utf8_validate-append_example =
    utf8_validate-append (0xC3 ∷ []) (0xA9 ∷ []) 0 (λ e. cc (begun, e)) (λ e. cc e)

empty_fragment_hides_busy_example :
    ((utf8_validate [] (utf8_validate (0xC3 ∷ []) 0).1).0 ≡ ok) × ¬ IsUtf8 (0xC3 ∷ [])
empty_fragment_hides_busy_example = empty_fragment_hides_busy (0xC3 ∷ []) (omega arith) begun
