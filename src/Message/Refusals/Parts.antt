-- ===== src/Message/Refusals/Parts.antt =====
-- `parseMessage` on a frame that the abstract receiver refuses.
use ezwebsocket.Prelude.{ℕ, ◌+◌, ◌<◌, ◌^◌, ◌≡◌, refl, sym, subst, ◌∙◌, arith}
use ezwebsocket.Prelude.{Bool, false, List, [], ◌∷◌, ◌++◌, none, some, length}
use ezwebsocket.Prelude.{Ensures}
use ezwebsocket.Frame.{WsHeader, read_payload}
use ezwebsocket.Connection.{DataType, Connection, Env, is_server}
use ezwebsocket.Connection.Send.{HasMemory, HasNetwork}
use ezwebsocket.Message.{handle_message}
use ezwebsocket.Message.Safety.{IsReceived}
use ezwebsocket.Message.Replies.{IsOpen}
use ezwebsocket.Message.Assembly.{
  Part, first, next, Pending, part_opcode, is_last, payload_of, accepts, extend, assemble,
  Represents, HasPart,
}
use ezwebsocket.Message.Assembly.Parts.{handle_message_first, handle_message_next}
use ezwebsocket.Message.Refusals.{Refuses, refusal_code, IsSeen}
use ezwebsocket.Message.Refusals.First.{
  refused_text, handle_first_message-Refuses, handle_first_message_pending,
}
use ezwebsocket.Message.Refusals.Next.{handle_cont_message_unbegun, handle_cont_message-Refuses}

extend-none :
    (type : DataType) (fin : Bool) (all : List ℕ)
    → extend type fin all ≡ none
    → accepts type fin all ≡ false
extend-none type fin all is = ground arith

module _ (env : Env) (memory : HasMemory env) (network : HasNetwork env) where
  -- The switch of `parseMessage` on a data frame that the abstract receiver refuses.
  pub handle_message-Refuses :
      (p : Pending) (part : Part) (c : Connection) (bytes : List ℕ) (header : WsHeader)
      → IsOpen c
      → Represents p c
      → IsSeen p part
      → assemble p part ≡ none
      → IsReceived bytes header
      → header.masked ≡ is_server c
      → header.opcode ≡ part_opcode part
      → header.fin ≡ is_last part
      → read_payload bytes header ≡ some (payload_of part)
      → length (payload_of part) ≡ header.payload_length
      → c.last_message.len + header.payload_length < 2 ^ 64
      → Ensures
          (Refuses (refusal_code p part) c)
          (handle_message env (part_opcode part) c bytes header)
  handle_message-Refuses none (first type fin msg) c bytes header up for seen is received right
        opcode last read long room =
      rw (handle_message_first env type c bytes header) (
        handle_first_message-Refuses env memory network type c bytes header msg (for.1) up (for.0)
          received right opcode read long (extend-none type header.fin msg (rw last is)))
  handle_message-Refuses none (next fin msg) c bytes header up for seen is received right opcode
        last read long room =
      rw (handle_message_next env c bytes header)
        (handle_cont_message_unbegun env memory network c bytes header (for.2) up (for.0))
  handle_message-Refuses (some message) (first type fin msg) c bytes header up for seen is received
        right opcode last read long room =
      rw (handle_message_first env type c bytes header) (
        handle_first_message_pending env memory network c bytes header
          (λ none_kept. seen (sym (for.1.same_contents) ∙ none_kept)) up (for.0) right)
  handle_message-Refuses (some message) (next fin []) c bytes header up for seen is received right
        opcode last read long room =
      absurd (seen refl)
  handle_message-Refuses (some message) (next fin (y ∷ ys)) c bytes header up for seen is received
        right opcode last read long room =
      let (text, bad) =
        refused_text (message.0) header.fin (message.1 ++ (y ∷ ys))
          (extend-none (message.0) header.fin (message.1 ++ (y ∷ ys)) (rw last is)) in
      rw (handle_message_next env c bytes header) (
        handle_cont_message-Refuses env memory network (message.1) c bytes header y ys up (for.0)
          received (subst (λ type. HasPart type (message.1) c) text (for.1)) right read long room
          bad)
