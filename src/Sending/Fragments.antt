-- ===== src/Sending/Fragments.antt =====
-- A message that `websocket_sendDataFragmentedStart` and `websocket_sendDataFragmentedCont` send in
-- pieces.
use ezwebsocket.Prelude.{ℕ, ◌≡◌, refl, sym, ◌∙◌, ap, append_assoc, append-nil, arith}
use ezwebsocket.Prelude.{Bool, true, false, List, [], ◌∷◌, ◌++◌, Option, some, ◌>>=◌}
use ezwebsocket.Prelude.{Ensures, Ensures-both, Ensures-bind, Ensures-some, Ensures-weaken}
use ezwebsocket.Connection.{connected, established, Connection, Env, is_client, send_data_low_level}
use ezwebsocket.Connection.Invariant.{SameButIo}
use ezwebsocket.Connection.Send.{
  HasMemory, HasNetwork, send_data_low_level-Writes, send_data_low_level-Sends,
}
use ezwebsocket.Message.Assembly.{Part, first, next, part_opcode, is_last, payload_of}
use ezwebsocket.Message.Assembly.{bytes_of, stream, parts_of}
use ezwebsocket.Sending.{
  websocket_send_data, websocket_send_data_fragmented_start, websocket_send_data_fragmented_cont,
}

-- The call that sends a part.
abbrev pub send_part : Env → Connection → Part → Option (Bool × Connection)
send_part env c (first type true msg) = websocket_send_data env c type msg
send_part env c (first type false msg) = websocket_send_data_fragmented_start env c type msg
send_part env c (next fin msg) = websocket_send_data_fragmented_cont env c fin msg

-- One part after the other.
abbrev pub send_parts : Env → Connection → List Part → Option Connection
send_parts env c [] = some c
send_parts env c (part ∷ parts) = do (sent, c') ← send_part env c part; send_parts env c' parts

-- What the peer receives of the buffers that were sent, which are listed newest first.
abbrev pub wire : List (List ℕ) → List ℕ
wire [] = []
wire (frame ∷ frames) = wire frames ++ frame

-- A connection that can send.
abbrev pub IsReady : Connection → Type 0
IsReady c = (c.socket ≡ some established) × (c.state ≡ connected)

client_same : (c d : Connection) → d.ws_type ≡ c.ws_type → is_client c ≡ is_client d
client_same c d same = ground arith

module _ (env : Env) where
  send_part_lem :
      (c : Connection) (part : Part)
      → c.state ≡ connected
      → send_part env c part
        ≡ send_data_low_level env c
            (part_opcode part)
            (is_last part)
            (is_client c)
            (payload_of part)
  unfolding websocket_send_data websocket_send_data_fragmented_start
      websocket_send_data_fragmented_cont
  send_part_lem c (first type true msg) ready = rw ready refl
  send_part_lem c (first type false msg) ready = rw ready refl
  send_part_lem c (next fin msg) ready = rw ready refl

  send_part-writes :
      HasMemory env
      → HasNetwork env
      → (c : Connection) (part : Part) → IsReady c
      → Ensures
          (λ out.
            SameButIo c out.1
            × ((mask : ℕ) × (out.1.sent ≡ bytes_of (is_client c) (part, mask) ∷ c.sent)))
          (send_part env c part)
  send_part-writes memory network c part ready = rw (send_part_lem c part (ready.1)) (
      Ensures-weaken
        (Ensures-both
          (send_data_low_level-Writes env memory network c (part_opcode part) (is_last part)
            (is_client c) (payload_of part) (ready.0) (ready.1))
          (send_data_low_level-Sends env c (part_opcode part) (is_last part) (is_client c)
            (payload_of part) (ground (arith, ready.0))))
        λ out h. (h.1, (h.0.mask, h.0.written)))

  -- What the calls for some parts put on the wire is a stream of frames with just these parts.
  pub send_parts-writes :
      HasMemory env
      → HasNetwork env
      → (c : Connection) (masked : Bool) (parts : List Part) → IsReady c
      → masked ≡ is_client c
      → Ensures
          (λ d.
            (frames : List (Part × ℕ)) × (parts_of frames ≡ parts)
            × (wire d.sent ≡ wire c.sent ++ stream masked frames))
          (send_parts env c parts)
  send_parts-writes memory network c masked [] ready kind =
      Ensures-some c ([], refl, sym (append-nil (wire c.sent)))
  send_parts-writes memory network c masked (part ∷ parts) ready kind =
      Ensures-bind (send_part-writes memory network c part ready) λ out h.
        let (same, (mask, written)) = h in
        Ensures-weaken
          (send_parts-writes memory network out.1 masked parts
            (same.same_socket ∙ ready.0, same.same_state ∙ ready.1)
            (kind ∙ client_same c out.1 same.same_type))
          λ d k. (
            (part, mask) ∷ k.0,
            ap (◌∷◌ part) (k.1),
            k.2
                ∙ ap (λ buffers. wire buffers ++ stream masked k.0) written
                ∙ append_assoc (wire c.sent) (bytes_of (is_client c) (part, mask))
                    (stream masked k.0)
                ∙ ap (λ b. wire c.sent ++ (bytes_of b (part, mask) ++ stream masked k.0))
                    (sym kind),
          )
