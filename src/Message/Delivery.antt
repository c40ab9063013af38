-- ===== src/Message/Delivery.antt =====
-- A data frame with the last-frame bit, and a whole message in it.
use ezwebsocket.Prelude.{ltb, ◌≤◌, ℕ, ◌+◌, ◌≡◌, refl, ◌⊎◌, if◌then◌else◌, arith, ◌==◌, ◌%◌, ◌^◌}
use ezwebsocket.Prelude.{Bool, true, false, not, ◌&&◌, List, [], ◌∷◌, Option, none, some, length}
use ezwebsocket.Prelude.{Ensures, Ensures-bind, Ensures-if, Ensures-some}
use ezwebsocket.Frame.{Opcode, WsHeader, read_payload}
use ezwebsocket.Connection.{
  opcode_for, DataType, text_data, binary_data, Connection, Env, Block, is_server, contents_of,
  malloc, refcnt_allocate,
}
use ezwebsocket.Connection.Invariant.{SameButIo, SameLink}
use ezwebsocket.Connection.Close.{allocate-sent}
use ezwebsocket.Connection.Send.{HasMemory, allocate-got}
use ezwebsocket.Utf8.{ok, utf8_validate}
use ezwebsocket.Message.{
  user_data, finish_text, bad_text, store_first, begin_message, start_message, handle_first_message,
  handle_message, parse_message, data_type_of,
}
use ezwebsocket.Message.Safety.{allocate-SameButIo}

-- What may be sent as a message of the type.
abbrev pub IsAllowed : DataType → List ℕ → Type 0
IsAllowed text_data msg = (utf8_validate msg 0).0 ≡ ok
IsAllowed binary_data msg = Unit

-- The message is complete and has not been given to the callback yet.
pub record IsComplete (c : Connection) (type : DataType) (msg : List ℕ) (d : Connection)
    : Type 0 where
  pub same_delivered : d.delivered ≡ c.delivered
  pub same_contents : contents_of d.last_message.payload ≡ msg
  pub same_type : d.last_message.data_type ≡ type

nothing_stored :
    (msg : List ℕ) (payload : Option Block)
    → payload ≡ none
    → length msg ≡ 0
    → contents_of payload ≡ msg
nothing_stored [] payload empty long = ground arith
nothing_stored (x ∷ msg) payload empty long = absurd (omega arith)

pub data_type-opcode :
    (type : DataType) (opcode : Opcode) → opcode ≡ opcode_for type → data_type_of opcode ≡ type
data_type-opcode text_data opcode e = ground arith
data_type-opcode binary_data opcode e = ground arith

module _ (env : Env) (memory : HasMemory env) where
  pub store_first-stores :
      (c : Connection) (bytes : List ℕ) (header : WsHeader) (msg : List ℕ)
      → c.last_message.payload ≡ none
      → read_payload bytes header ≡ some msg
      → length msg ≡ header.payload_length
      → Ensures
          (λ out.
            (out.0 ≡ true)
            × (out.1.delivered ≡ c.delivered)
            × (contents_of out.1.last_message.payload ≡ msg)
            × SameLink c out.1)
          (store_first env c bytes header)
  unfolding store_first
  store_first-stores c bytes header msg empty read long =
      Ensures-if (header.payload_length == 0)
        (λ nothing. Ensures-some _ (
          refl,
          refl,
          nothing_stored msg c.last_message.payload empty (ground arith),
          (refl, refl, refl),
        ))
        λ something.
          let out =
            if header.fin
            then refcnt_allocate env c header.payload_length
            else malloc env c header.payload_length in
          let same : SameButIo c out.1 =
            allocate-SameButIo env c header.fin header.payload_length in
          Ensures-if (not out.0)
            (λ failed.
              absurd (ground (arith, allocate-got env c header.fin header.payload_length memory)))
            λ got. rw read (
              Ensures-some _ (
                refl,
                same.same_delivered,
                refl,
                (
                  same.same_socket,
                  same.same_state,
                  allocate-sent env c header.fin header.payload_length,
                ),
              ))

  finish_text-completes :
      {c0 : Connection} (type : DataType) (c : Connection) (msg : List ℕ)
      → IsAllowed type msg
      → IsComplete c0 type msg c
      → Ensures
          (λ out. (out.0 ≡ user_data) × IsComplete c0 type msg out.1)
          (finish_text env type c true msg 0 (λ d. d))
  unfolding finish_text
  finish_text-completes text_data c msg allowed whole =
      Ensures-if (bad_text true (utf8_validate msg 0).0) (λ bad. absurd (ground arith))
        (λ good. Ensures-some _ (
          refl,
          record {
            same_delivered = whole.same_delivered;
            same_contents = whole.same_contents;
            same_type = whole.same_type;
          },
        ))
  finish_text-completes binary_data c msg allowed whole = Ensures-some _ (refl, whole)

  finish-completes :
      {c0 : Connection} (data_type type : DataType) (c : Connection) (fin : Bool)
      (added msg : List ℕ)
      → data_type ≡ type
      → fin ≡ true
      → added ≡ msg
      → IsAllowed type msg
      → IsComplete c0 type msg c
      → Ensures
          (λ out. (out.0 ≡ user_data) × IsComplete c0 type msg out.1)
          (finish_text env data_type c fin added 0 (λ d. d))
  finish-completes data_type type c fin added msg is_type is_fin is_msg allowed whole =
      rw (is_type, is_fin, is_msg) (finish_text-completes type c msg allowed whole)

  start_message-completes :
      (payload : Option Block) (type : DataType) (c : Connection) (bytes : List ℕ)
      (header : WsHeader) (msg : List ℕ)
      → payload ≡ none
      → c.last_message.payload ≡ none
      → header.opcode ≡ opcode_for type
      → header.fin ≡ true
      → read_payload bytes header ≡ some msg
      → length msg ≡ header.payload_length
      → IsAllowed type msg
      → Ensures
          (λ out. (out.0 ≡ user_data) × IsComplete c type msg out.1)
          (start_message env payload c bytes header)
  unfolding start_message begin_message
  start_message-completes (some block) type c bytes header msg is empty opcode fin read long
        allowed =
      absurd (ground arith)
  start_message-completes none type c bytes header msg is empty opcode fin read long allowed =
      Ensures-bind (store_first-stores c bytes header msg empty read long) λ out stored.
        Ensures-if (not out.0) (λ failed. absurd (ground (arith, stored.0)))
          λ got.
            let c2 = begin_message out.1 header in
            let same_type : c2.last_message.data_type ≡ type =
              data_type-opcode type header.opcode opcode in
            finish-completes c2.last_message.data_type type c2 header.fin _ msg same_type fin
              stored.2 allowed
              (record {
                same_delivered = stored.1;
                same_contents = stored.2;
                same_type = same_type;
              })

  -- A whole message in one data frame, whose payload may be read and is valid, on a connection with
  -- no message begun, is complete after `handleFirstMessage`, where a server is given it masked.
  pub handle_first_message-completes :
      (type : DataType) (c : Connection) (bytes : List ℕ) (header : WsHeader) (msg : List ℕ)
      → c.last_message.payload ≡ none
      → (header.masked ≡ true) ⊎ (is_server c ≡ false)
      → header.opcode ≡ opcode_for type
      → header.fin ≡ true
      → read_payload bytes header ≡ some msg
      → length msg ≡ header.payload_length
      → IsAllowed type msg
      → Ensures
          (λ out. (out.0 ≡ user_data) × IsComplete c type msg out.1)
          (handle_first_message env c bytes header)
  unfolding handle_first_message
  handle_first_message-completes type c bytes header msg empty mask_fits opcode fin read long
        allowed =
      Ensures-if (not header.masked && is_server c) (λ wrong. absurd (ground arith))
        (λ right.
          start_message-completes c.last_message.payload type c bytes header msg empty empty opcode
            fin read long allowed)

  pub handle_message-completes :
      (type : DataType) (opcode : Opcode) (c : Connection) (bytes : List ℕ) (header : WsHeader)
      (msg : List ℕ)
      → opcode ≡ opcode_for type
      → Ensures
          (λ out. (out.0 ≡ user_data) × IsComplete c type msg out.1)
          (handle_first_message env c bytes header)
      → Ensures
          (λ out. (out.0 ≡ user_data) × IsComplete c type msg out.1)
          (handle_message env opcode c bytes header)
  unfolding handle_message
  handle_message-completes text_data opcode c bytes header msg is done = rw is done
  handle_message-completes binary_data opcode c bytes header msg is done = rw is done

  -- The same for `parseMessage`, once the whole frame is there.
  pub parse_message-completes :
      (type : DataType) (c : Connection) (bytes : List ℕ) (len : ℕ) (header : WsHeader)
      (msg : List ℕ)
      → header.payload_start_offset + header.payload_length ≤ len
      → c.last_message.payload ≡ none
      → (header.masked ≡ true) ⊎ (is_server c ≡ false)
      → header.opcode ≡ opcode_for type
      → header.fin ≡ true
      → read_payload bytes header ≡ some msg
      → length msg ≡ header.payload_length
      → IsAllowed type msg
      → Ensures
          (λ out. (out.0 ≡ user_data) × IsComplete c type msg out.1)
          (parse_message env c bytes len header)
  unfolding parse_message
  parse_message-completes type c bytes len header msg whole empty mask_fits opcode fin read long
        allowed =
      Ensures-if (ltb len ((header.payload_start_offset + header.payload_length) % 2 ^ 64))
        (λ short. absurd (ground arith))
        (λ enough. handle_message-completes type header.opcode c bytes header msg opcode (
          handle_first_message-completes type c bytes header msg empty mask_fits opcode fin read
            long allowed))
