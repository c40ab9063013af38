-- ===== src/Reading/Examples.antt =====
-- A socket that holds the bytes of one frame.
use ezwebsocket.Prelude.{
  ℕ, ◌+◌, ◌<◌, ◌≡◌, ◌≢◌, refl, true, List, [], ◌∷◌, ◌++◌, ap, Option, none, some, length, take,
  drop, arith, Ensures,
}
use ezwebsocket.Connection.{server, connected, binary_data}
use ezwebsocket.Connection.Examples.{working, idle, idle-IsResting}
use ezwebsocket.DynBuffer.Bounds.{filled, filled-IsFit}
use ezwebsocket.Message.Assembly.{Part, first, stream}
use ezwebsocket.Session.Examples.{plain, start}
use ezwebsocket.Session.Stream.{is_session_up, reader, Assembles}
use ezwebsocket.Session.Stream.Fragments.{length-stream}
use ezwebsocket.Reading.{on_readable}
use ezwebsocket.Reading.Complete.{IsSocket}
use ezwebsocket.Reading.EndToEnd.{hang_up, on_readable-Assembles}

-- The world is what has arrived.
abbrev recv : ℕ → List ℕ → Option (List ℕ) × List ℕ
recv room [] = (none, drop room [])
recv room (x ∷ xs) = (some (take room (x ∷ xs)), drop room (x ∷ xs))

recv-IsSocket : IsSocket recv (λ w. w)
recv-IsSocket = record { takes = takes; leaves = leaves; blocks = blocks }
  where
    takes : (room : ℕ) (w : List ℕ) → 0 < room → w ≢ [] → (recv room w).0 ≡ some (take room w)
    takes room [] some_room there = absurd (there refl)
    takes room (x ∷ xs) some_room there = refl

    leaves : (room : ℕ) (w : List ℕ) → 0 < room → (recv room w).1 ≡ drop room w
    leaves room [] some_room = refl
    leaves room (x ∷ xs) some_room = refl

    blocks : (room : ℕ) (w : List ℕ) → 0 < room → w ≡ [] → (recv room w).0 ≡ none
    blocks room [] some_room none_there = refl
    blocks room (x ∷ xs) some_room none_there = absurd (ground arith)

abbrev frame : Part × ℕ
frame = (first binary_data true (5 ∷ 6 ∷ []), 7)

abbrev bytes : List ℕ
bytes = stream true (frame ∷ [])

on_readable-Assembles_example :
    Ensures
      (λ out.
        (out.0 ≡ [])
        × Assembles (idle server connected) (none, (binary_data, 5 ∷ 6 ∷ []) ∷ []) (out.1, out.2))
      (on_readable recv
        (λ size. true)
        is_session_up
        hang_up
        (reader plain working start)
        server
        (1 + length bytes)
        bytes
        (idle server connected)
        (filled []))
on_readable-Assembles_example =
    on_readable-Assembles recv (λ size. true) (λ w. w) plain working start server (1 + length bytes)
      bytes frame [] true (idle server connected) (filled []) none
      (none, (binary_data, 5 ∷ 6 ∷ []) ∷ []) (λ size. refl) recv-IsSocket (λ n size. refl)
      (λ m c. refl) (idle-IsResting server connected, refl, refl) refl refl refl refl
      ((omega arith), tt) (filled-IsFit [] (omega arith)).0
      (ap (λ old. old ++ bytes) (filled-IsFit [] (omega arith)).1)
      (omega (arith, length-stream true (frame ∷ [])))
      (omega (arith, length-stream true (frame ∷ []))) (omega arith)
