-- ===== src/Receive/Examples.antt =====
-- A frame and a connection on which the theorems about the receiving side are used.
use ezwebsocket.Prelude.{◌≡◌, refl, arith, inl, inr, Ensures, Ensures-some, ◌≤◌}
use ezwebsocket.Frame.Examples.{text_frame, text_header, text_frame-parse}
use ezwebsocket.Connection.{client, server, connected}
use ezwebsocket.Connection.Examples.{working, idle, idle-IsResting}
use ezwebsocket.Message.{incomplete}
use ezwebsocket.Receive.{Timespec, after_message, on_frame}
use ezwebsocket.Receive.Safety.{IsDone, IsServed, on_frame-IsDone}
use ezwebsocket.Receive.Masking.{masked_close_faults}
use ezwebsocket.Receive.Timeout.{timeout_never_fires}
use ezwebsocket.Prelude.{
  Bool, ◌<◌, ◌^◌, ℕ, ◌++◌, List, [], ◌∷◌, true, false, none, some, length, IsBytes, append-nil,
  subst, sym,
}
use ezwebsocket.Connection.{binary_data, frame_of, Connection}
use ezwebsocket.Frame.{Opcode, ping, disconnect}
use ezwebsocket.Sending.EndToEnd.{frame-IsBytes, frame_fits}
use ezwebsocket.Message.Assembly.{first, next, part_opcode}
use ezwebsocket.Message.Assembly.{assemble, HasPart}
use ezwebsocket.Connection.{opcode_for}
use ezwebsocket.Connection.Invariant.{IsResting}
use ezwebsocket.Message.Replies.{reply_code}
use ezwebsocket.Message.Refusals.{refusal_code}
use ezwebsocket.Receive.Refinement.{bytes_with, on_frame-Follows, pending_forgotten}
use ezwebsocket.Receive.Frames.{Follows}
use ezwebsocket.Receive.Replies.{
  AnswersPing, ClosesBy, on_frame-AnswersPing, on_frame-ClosesBy, on_frame-Refuses,
}

abbrev noon : Timespec
noon = record { sec = 43200; nsec = 0 }

text_frame-IsServed : IsServed (idle server connected) text_frame 7
text_frame-IsServed header parses = (ground (arith, parses, text_frame-parse), inl refl)

on_frame-IsDone_example :
    Ensures
      (IsDone (idle server connected) 7)
      (on_frame working noon (idle server connected) text_frame 7)
on_frame-IsDone_example =
    on_frame-IsDone working noon (idle server connected) text_frame 7
      (λ m c sound complete. Ensures-some c (sound, refl, inr complete))
      (idle-IsResting server connected) (omega arith) (omega arith) (omega arith) (omega arith)
      text_frame-IsServed

timeout_never_fires_example :
    Ensures
      (λ out.
        (out.0 ≡ 0)
        × (out.1.last_message ≡ (idle server connected).last_message)
        × (out.1.tv_sec ≤ 43200))
      (after_message working noon 7 text_header incomplete (idle server connected))
timeout_never_fires_example =
    timeout_never_fires working noon 7 text_header (idle server connected) (omega arith)

-- A masked frame with two bytes, and nothing behind it.
abbrev bytes_of : Opcode → Bool → List ℕ
bytes_of opcode fin = frame_of opcode fin true 9 (3 ∷ 232 ∷ []) ++ []

bytes_of-IsBytes : (opcode : Opcode) (fin : Bool) → IsBytes (bytes_of opcode fin)
bytes_of-IsBytes opcode fin =
    subst IsBytes (sym (append-nil (frame_of opcode fin true 9 (3 ∷ 232 ∷ []))))
      (frame-IsBytes opcode fin true 9 (3 ∷ 232 ∷ []) (omega arith))

bytes_of_fits : (opcode : Opcode) (fin : Bool) → length (bytes_of opcode fin) < 2 ^ 64
bytes_of_fits opcode fin = frame_fits opcode fin true 9 (3 ∷ 232 ∷ []) [] (omega arith)

abbrev peer : Connection
peer = idle server connected

on_frame-Follows_example :
    Ensures
      (Follows peer
        (some (binary_data, 3 ∷ 232 ∷ []), [])
        (length (
          frame_of
            (part_opcode (first binary_data false (3 ∷ 232 ∷ [])))
            false
            true
            9
            (3 ∷ 232 ∷ []))))
      (on_frame working noon peer
        (bytes_of (part_opcode (first binary_data false (3 ∷ 232 ∷ []))) false)
        (length (bytes_of (part_opcode (first binary_data false (3 ∷ 232 ∷ []))) false)))
on_frame-Follows_example =
    on_frame-Follows working noon peer none (first binary_data false (3 ∷ 232 ∷ []))
      (some (binary_data, 3 ∷ 232 ∷ []), []) true 9 [] (λ n size. refl) (λ m c. refl)
      (idle-IsResting server connected, refl, refl) refl refl (omega arith)
      (bytes_of-IsBytes _ false)
      (omega (arith, bytes_of_fits (part_opcode (first binary_data false (3 ∷ 232 ∷ []))) false))

on_frame-Refuses_example :
    Ensures
      (ClosesBy
        (refusal_code none (next true (3 ∷ 232 ∷ [])))
        peer
        (length (bytes_of (part_opcode (next true (3 ∷ 232 ∷ []))) true)))
      (on_frame working noon peer
        (bytes_of (part_opcode (next true (3 ∷ 232 ∷ []))) true)
        (length (bytes_of (part_opcode (next true (3 ∷ 232 ∷ []))) true)))
on_frame-Refuses_example =
    on_frame-Refuses working noon peer none (next true (3 ∷ 232 ∷ [])) true 9 [] (λ n size. refl)
      (λ before frame. refl) (refl, refl) (idle-IsResting server connected, refl, refl) tt refl refl
      (omega arith) (bytes_of-IsBytes _ true)
      (omega (arith, bytes_of_fits (part_opcode (next true (3 ∷ 232 ∷ []))) true))

on_frame-AnswersPing_example :
    Ensures
      (AnswersPing peer (3 ∷ 232 ∷ []) (length (frame_of ping true true 9 (3 ∷ 232 ∷ []))))
      (on_frame working noon peer (bytes_of ping true) (length (bytes_of ping true)))
on_frame-AnswersPing_example =
    on_frame-AnswersPing working noon peer true 9 (3 ∷ 232 ∷ []) [] (λ n size. refl)
      (λ before frame. refl) (refl, refl) (omega arith) (omega arith) (bytes_of_fits ping true)

on_frame-ClosesBy_example :
    Ensures
      (ClosesBy (reply_code (3 ∷ 232 ∷ [])) peer (length (bytes_of disconnect true)))
      (on_frame working noon peer (bytes_of disconnect true) (length (bytes_of disconnect true)))
on_frame-ClosesBy_example =
    on_frame-ClosesBy working noon peer true 9 (3 ∷ 232 ∷ []) [] (λ n size. refl)
      (λ before frame. refl) (refl, refl) (idle-IsResting server connected) refl (omega arith)
      (omega arith) (bytes_of_fits disconnect true)

-- A connection that has begun a binary message without a byte.
abbrev begun : Connection
begun = record peer {
  last_message = record (peer.last_message) { first_received = true; data_type = binary_data };
}

begun-IsResting : IsResting begun
begun-IsResting = ground arith

begun_part : HasPart binary_data [] begun
begun_part = record { begun = refl; same_type = refl; same_contents = refl; validated = tt }

pending_forgotten_example :
    (assemble (some (binary_data, [])) (first binary_data false (3 ∷ 232 ∷ [])) ≡ none)
    × Ensures
        (Follows begun
          (some (binary_data, 3 ∷ 232 ∷ []), [])
          (length (frame_of (opcode_for binary_data) false true 9 (3 ∷ 232 ∷ []))))
        (on_frame working noon begun
          (bytes_with (first binary_data false (3 ∷ 232 ∷ [])) true 9 [])
          (length (bytes_with (first binary_data false (3 ∷ 232 ∷ [])) true 9 [])))
pending_forgotten_example =
    pending_forgotten working noon begun binary_data binary_data false (3 ∷ 232 ∷ [])
      (some (binary_data, 3 ∷ 232 ∷ []), []) true 9 [] (λ n size. refl) (λ m c. refl)
      (begun-IsResting, begun_part) refl refl (omega arith)
      (bytes_of-IsBytes (opcode_for binary_data) false)
      (omega (arith, bytes_of_fits (opcode_for binary_data) false))

masked_close_faults_example :
    on_frame working noon
      (idle client connected)
      (bytes_of disconnect true)
      (length (bytes_of disconnect true))
    ≡ none
masked_close_faults_example =
    masked_close_faults working noon (idle client connected) 9 3 232 [] tt refl refl
      (bytes_of_fits disconnect true)
