-- ===== src/DynBuffer/Examples.antt =====
-- A buffer of eight cells with three bytes in it.
use ezwebsocket.Prelude.{
  ◌≡◌, ◌≤◌, ◌⊎◌, refl, arith, true, false, [], ◌∷◌, ◌++◌, some, drop, Ensures,
}
use ezwebsocket.DynBuffer.{
  DynBuffer, init, bytes_free, increase_to, remove_leading_bytes, receive, unread,
}
use ezwebsocket.DynBuffer.Bounds.{
  IsFit, increase_to-IsFit, remove_leading_bytes-IsFit, receive-IsFit,
}

abbrev three_bytes : DynBuffer
three_bytes = record { memory = some (1 ∷ 2 ∷ 3 ∷ []); used = 3; size = 8 }

three_bytes-IsFit : IsFit three_bytes
unfolding IsFit
three_bytes-IsFit = (refl, omega arith, omega arith)

increase_to-IsFit_example :
    IsFit (increase_to true three_bytes 16).1
    × (((increase_to true three_bytes 16).0 ≡ true)
          × (16 ≤ bytes_free (increase_to true three_bytes 16).1)
          × (unread (increase_to true three_bytes 16).1 ≡ unread three_bytes)
        ⊎ ((increase_to true three_bytes 16).0 ≡ false)
          × (true ≡ false)
          × ((increase_to true three_bytes 16).1 ≡ init))
increase_to-IsFit_example = increase_to-IsFit true three_bytes 16 three_bytes-IsFit (omega arith)

remove_leading_bytes-IsFit_example :
    IsFit (remove_leading_bytes three_bytes 2).1
    × (unread (remove_leading_bytes three_bytes 2).1 ≡ drop 2 (unread three_bytes))
remove_leading_bytes-IsFit_example =
    remove_leading_bytes-IsFit three_bytes 2 three_bytes-IsFit (omega arith)

receive-IsFit_example :
    Ensures
      (λ d. IsFit d × (unread d ≡ unread three_bytes ++ 4 ∷ 5 ∷ []))
      (receive three_bytes (4 ∷ 5 ∷ []))
unfolding bytes_free
receive-IsFit_example =
    receive-IsFit three_bytes (4 ∷ 5 ∷ []) three_bytes-IsFit (λ e. cc e) (omega arith)
