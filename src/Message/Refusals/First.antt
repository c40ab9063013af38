-- ===== src/Message/Refusals/First.antt =====
-- `handleFirstMessage` on a frame that the abstract receiver refuses.
use ezwebsocket.Prelude.{ℕ, ◌≡◌, ◌≢◌, refl, ap, ap₂, ◌∙◌, if◌then◌else◌, ◌⊎◌, inl, inr, arith}
use ezwebsocket.Prelude.{Bool, true, false, not, ◌&&◌, List, [], ◌∷◌, Option, none, some, length}
use ezwebsocket.Prelude.{Ensures, Ensures-both, Ensures-if, Ensures-bind, Ensures-weaken}
use ezwebsocket.Frame.{disconnect, WsHeader, read_payload}
use ezwebsocket.Utf8.{utf8_validate}
use ezwebsocket.Connection.{
  DataType, text_data, binary_data, Connection, Env, Block, is_server, contents_of, opcode_for,
  release, frame_of, disconnected, disconnect_request,
}
use ezwebsocket.Connection.Invariant.{IsResting, OwnsBlock}
use ezwebsocket.Connection.Send.{HasMemory, HasNetwork, release-owned, release-owns}
use ezwebsocket.Connection.Close.{ClosesWith, code_bytes}
use ezwebsocket.Message.{
  error, bad_text, close_protocol_error, close_invalid_data, finish_text, begin_message,
  start_message, handle_first_message,
}
use ezwebsocket.Message.Safety.{IsReceived, IsKept-refl, store_first-Stored}
use ezwebsocket.Message.Delivery.{store_first-stores, data_type-opcode}
use ezwebsocket.Message.Replies.{IsOpen, close_with_released, client_same}
use ezwebsocket.Message.Assembly.{accepts}
use ezwebsocket.Message.Refusals.{Refuses}

server_same : (c d : Connection) → d.ws_type ≡ c.ws_type → is_server d ≡ is_server c
server_same c d kept = ground arith

-- A close that was begun from a state which differs in its message.
pub closes_from :
    {code : ℕ} (c c2 d : Connection)
    → c2.ws_type ≡ c.ws_type
    → c2.sent ≡ c.sent
    → c2.delivered ≡ c.delivered
    → ClosesWith code c2 d
    → ClosesWith code c d
closes_from {code} c c2 d same_type same_sent same_delivered closes = record {
  mask = closes.mask;
  written =
      closes.written
      ∙ ap₂ (λ b sent. frame_of disconnect true b closes.mask (code_bytes code) ∷ sent)
          (client_same c c2 same_type) same_sent;
  same_delivered = closes.same_delivered ∙ same_delivered;
  no_payload = closes.no_payload;
  down =
      closes.down
      ∙ ap (λ b. some (if b then disconnected else disconnect_request))
          (server_same c c2 same_type);
}

if_got : {B : Type 0} (b : Bool) → (b ≡ false) ⊎ B → b ≡ true → B
if_got b (inl failed) got = absurd (ground arith)
if_got b (inr h) got = h

-- Only texts are refused for what they say.
pub refused_text :
    (type : DataType) (fin : Bool) (all : List ℕ)
    → accepts type fin all ≡ false
    → (type ≡ text_data) × (bad_text fin (utf8_validate all 0).0 ≡ true)
refused_text text_data fin all refused = (refl, ground arith)
refused_text binary_data fin all refused = absurd (ground arith)

module _ (env : Env) (memory : HasMemory env) (network : HasNetwork env) where
  pub finish_text-Refuses :
      (data_type : DataType) (c : Connection) (fin : Bool) (added : List ℕ) (handle : ℕ)
      (accept : Connection → Connection)
      → data_type ≡ text_data
      → bad_text fin (utf8_validate added handle).0 ≡ true
      → IsOpen c
      → release c.last_message ≡ some tt
      → Ensures (Refuses close_invalid_data c) (finish_text env data_type c fin added handle accept)
  unfolding finish_text
  finish_text-Refuses text_data c fin added handle accept is bad up released = rw bad (
      Ensures-weaken (close_with_released env memory network _ close_invalid_data error up released)
        λ out h. (h.0, closes_from c _ out.1 refl refl refl (h.1)))
  finish_text-Refuses binary_data c fin added handle accept is bad up released =
      absurd (ground arith)

  -- A text that is invalid from its first frame on.
  start_message-Refuses :
      (payload : Option Block) (type : DataType) (c : Connection) (bytes : List ℕ)
      (header : WsHeader) (msg : List ℕ)
      → payload ≡ none
      → c.last_message.payload ≡ none
      → IsOpen c
      → IsResting c
      → IsReceived bytes header
      → header.opcode ≡ opcode_for type
      → read_payload bytes header ≡ some msg
      → length msg ≡ header.payload_length
      → accepts type header.fin msg ≡ false
      → Ensures (Refuses close_invalid_data c) (start_message env payload c bytes header)
  unfolding start_message begin_message
  start_message-Refuses (some block) type c bytes header msg is empty up resting received opcode
        read long refused =
      absurd (ground arith)
  start_message-Refuses none type c bytes header msg is empty up resting received opcode read long
        refused =
      Ensures-bind
        (Ensures-both (store_first-stores env memory c bytes header msg empty read long)
          (store_first-Stored env c bytes header (IsKept-refl resting.sound) empty received))
        λ out h.
          Ensures-if (not out.0) (λ failed. absurd (ground (arith, h.0.0)))
            λ got.
              let c2 = begin_message out.1 header in
              let (text, bad) = refused_text type header.fin msg refused in
              let is_text : c2.last_message.data_type ≡ text_data =
                data_type-opcode type header.opcode opcode ∙ text in
              let owns : OwnsBlock header.fin header.payload_length out.1.last_message.payload =
                if_got out.0 (h.1.1) (h.0.0) in
              rw (h.0.2) (
                Ensures-weaken
                  (finish_text-Refuses c2.last_message.data_type c2 header.fin msg 0 (λ d. d)
                    is_text bad ((h.0.3.0) ∙ up.0, (h.0.3.1) ∙ up.1)
                    (release-owns c2.last_message header.payload_length owns))
                  λ done k.
                    (k.0, closes_from c c2 done.1 (h.1.0.same_type) (h.0.3.2) (h.0.1) (k.1)))

  pub handle_first_message-Refuses :
      (type : DataType) (c : Connection) (bytes : List ℕ) (header : WsHeader) (msg : List ℕ)
      → c.last_message.payload ≡ none
      → IsOpen c
      → IsResting c
      → IsReceived bytes header
      → header.masked ≡ is_server c
      → header.opcode ≡ opcode_for type
      → read_payload bytes header ≡ some msg
      → length msg ≡ header.payload_length
      → accepts type header.fin msg ≡ false
      → Ensures (Refuses close_invalid_data c) (handle_first_message env c bytes header)
  unfolding handle_first_message
  handle_first_message-Refuses type c bytes header msg empty up resting received right opcode read
        long refused =
      Ensures-if (not header.masked && is_server c) (λ wrong. absurd (ground arith))
        (λ _.
          start_message-Refuses c.last_message.payload type c bytes header msg empty empty up
            resting received opcode read long refused)

  -- A new message while bytes of another are kept.
  start_message_pending :
      (payload : Option Block) (c : Connection) (bytes : List ℕ) (header : WsHeader)
      → contents_of payload ≢ []
      → IsOpen c
      → IsResting c
      → Ensures (Refuses close_protocol_error c) (start_message env payload c bytes header)
  unfolding start_message
  start_message_pending none c bytes header pending up resting = absurd (pending refl)
  start_message_pending (some block) c bytes header pending up resting =
      close_with_released env memory network c close_protocol_error error up
        (release-owned c.last_message resting.sound.owned)

  pub handle_first_message_pending :
      (c : Connection) (bytes : List ℕ) (header : WsHeader)
      → contents_of c.last_message.payload ≢ []
      → IsOpen c
      → IsResting c
      → header.masked ≡ is_server c
      → Ensures (Refuses close_protocol_error c) (handle_first_message env c bytes header)
  unfolding handle_first_message
  handle_first_message_pending c bytes header pending up resting right =
      Ensures-if (not header.masked && is_server c) (λ wrong. absurd (ground arith))
        (λ _. start_message_pending c.last_message.payload c bytes header pending up resting)
