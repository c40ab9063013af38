-- ===== src/Message/Safety.antt =====
-- The memory of the message handlers: what they read, and the allocators of the message's buffer.
use ezwebsocket.Prelude.{
  ℕ, ◌+◌, ◌≤◌, ◌<◌, ◌^◌, ◌≡◌, refl, sym, subst, ◌⊎◌, ◌≢◌, if◌then◌else◌, inl, inr, arith,
}
use ezwebsocket.Prelude.{Bool, true, false, not, List, Option, none, some, length, ◌==◌, ◌&&◌}
use ezwebsocket.Prelude.{IsBytes, Ensures, Ensures-bind, Ensures-if, Ensures-some}
use ezwebsocket.Frame.{WsHeader}
use ezwebsocket.Frame.Masking.{read_payload-inside}
use ezwebsocket.Connection.{
  DataType, text_data, binary_data, Connection, Env, LastMessage, Block, is_server, release, malloc,
  refcnt_allocate,
}
use ezwebsocket.Connection.Invariant.{IsLinked, IsOwned, OwnsBlock, IsSound, SameButIo, IsClosing}
use ezwebsocket.Connection.Send.{
  websocket_close_connection-IsClosing, release-owned, malloc-SameButIo, refcnt_allocate-SameButIo,
  SameButIo-refl, SameButIo-IsLinked,
}
use ezwebsocket.Utf8.{utf8_validate}
use ezwebsocket.Message.{
  MsgState, error, incomplete, no_user_data, user_data, close_with, finish_text, bad_text,
  close_invalid_data, close_protocol_error, store_first, begin_message, start_message,
  handle_first_message,
}

-- What a handler's answer says of the message that it leaves behind.
abbrev pub StateFits : MsgState → LastMessage → Type 0
StateFits error m = release m ≡ some tt
StateFits incomplete m = IsOwned m × (m.complete ≡ false)
StateFits no_user_data m = IsOwned m × (m.complete ≡ false)
StateFits user_data m = IsOwned m × (m.complete ≡ true)

-- What every handler keeps of the connection.
pub record IsKept (c d : Connection) : Type 0 where
  pub same_type : d.ws_type ≡ c.ws_type
  pub same_client : d.client_socket ≡ c.client_socket
  pub same_delivered : d.delivered ≡ c.delivered
  pub linked : IsLinked d.socket

abbrev pub IsHandled : Connection → MsgState × Connection → Type 0
IsHandled c out = IsKept c out.1 × StateFits out.0 out.1.last_message

-- The receive buffer holds the frame.
pub record IsReceived (bytes : List ℕ) (header : WsHeader) : Type 0 where
  pub bytes_fit : IsBytes bytes
  pub mask_fits : IsBytes header.mask
  pub inside : header.payload_start_offset + header.payload_length ≤ length bytes
  pub small : header.payload_length < 2 ^ 64

IsClosing-IsKept : {c0 c d : Connection} → IsKept c0 c → IsClosing c d → IsKept c0 d
IsClosing-IsKept kept closing = ground arith

pub IsKept-refl : {c : Connection} → IsSound c → IsKept c c
IsKept-refl sound = record {
  same_type = refl;
  same_client = refl;
  same_delivered = refl;
  linked = sound.linked;
}

pub SameButIo-IsKept : {c0 c d : Connection} → IsKept c0 c → SameButIo c d → IsKept c0 d
SameButIo-IsKept kept same = record {
  same_type = ground arith;
  same_client = ground arith;
  same_delivered = ground arith;
  linked = SameButIo-IsLinked same kept.linked;
}

pub IsKept-message :
    {c d : Connection} (m : LastMessage) → IsKept c d → IsKept c (record d { last_message = m })
IsKept-message m kept = record {
  same_type = kept.same_type;
  same_client = kept.same_client;
  same_delivered = kept.same_delivered;
  linked = kept.linked;
}

-- After a close the message is empty, which suits every answer but `user_data`.
IsClosing-StateFits :
    {c d : Connection} (state : MsgState)
    → state ≢ user_data
    → IsClosing c d
    → StateFits state d.last_message
IsClosing-StateFits error other closing = ground arith
IsClosing-StateFits incomplete other closing = ground arith
IsClosing-StateFits no_user_data other closing = ground arith
IsClosing-StateFits user_data other closing = absurd (other refl)

module _ (env : Env) where
  pub close_with-IsHandled :
      {c0 : Connection} (c : Connection) (code : ℕ) (state : MsgState)
      → state ≢ user_data
      → IsKept c0 c
      → release c.last_message ≡ some tt
      → Ensures (IsHandled c0) (close_with env c code state)
  unfolding close_with
  close_with-IsHandled c code state other kept released =
      Ensures-bind (websocket_close_connection-IsClosing env c code kept.linked released)
        λ d closing.
          Ensures-some _ (IsClosing-IsKept kept closing, IsClosing-StateFits state other closing)

  -- A message that is whole as far as it goes, and complete exactly after a last frame.
  abbrev pub Accepted : Connection → Bool → Connection → Type 0
  Accepted c0 fin d = IsKept c0 d × IsOwned d.last_message × (d.last_message.complete ≡ fin)

  Accepted-IsHandled :
      {c0 : Connection} (fin : Bool) (d : Connection)
      → Accepted c0 fin d
      → IsHandled c0 ((if fin then user_data else no_user_data), d)
  Accepted-IsHandled true d h = (h.0, (h.1, h.2))
  Accepted-IsHandled false d h = (h.0, (h.1, h.2))

  pub finish_text-IsHandled :
      {c0 : Connection} (data_type : DataType) (c : Connection) (fin : Bool) (added : List ℕ)
      (handle : ℕ) (accept : Connection → Connection)
      → IsKept c0 c
      → release c.last_message ≡ some tt
      → Accepted c0 fin (accept c)
      → ((h : ℕ)
          → Accepted c0 fin
              (accept (record c { last_message = record (c.last_message) { utf8_handle = h } })))
      → Ensures (IsHandled c0) (finish_text env data_type c fin added handle accept)
  unfolding finish_text
  finish_text-IsHandled binary_data c fin added handle accept kept released plain validated =
      Ensures-some _ (Accepted-IsHandled fin (accept c) plain)
  finish_text-IsHandled text_data c fin added handle accept kept released plain validated =
      Ensures-if (bad_text fin (utf8_validate added handle).0)
        (λ bad.
          close_with-IsHandled _ close_invalid_data error (λ e. cc) (IsKept-message _ kept)
            released)
        (λ good.
          Ensures-some _ (Accepted-IsHandled fin _ (validated (utf8_validate added handle).1)))

  -- Memory was asked for, from the allocator that a last or another frame uses.
  pub allocate-SameButIo :
      (c : Connection) (fin : Bool) (size : ℕ)
      → SameButIo c (if fin then refcnt_allocate env c size else malloc env c size).1
  allocate-SameButIo c true size = refcnt_allocate-SameButIo env size (SameButIo-refl c)
  allocate-SameButIo c false size = malloc-SameButIo env size (SameButIo-refl c)

  -- The answer of `store_first`: the payload is stored, or nothing has changed.
  abbrev pub StoredFirst : Connection → Connection → WsHeader → Bool × Connection → Type 0
  StoredFirst c0 c header out =
      IsKept c0 out.1
      × ((out.0 ≡ false) ⊎ OwnsBlock header.fin header.payload_length out.1.last_message.payload)
      × ((out.0 ≡ true) ⊎ (out.1.last_message ≡ c.last_message))

  pub store_first-Stored :
      {c0 : Connection} (c : Connection) (bytes : List ℕ) (header : WsHeader)
      → IsKept c0 c
      → c.last_message.payload ≡ none
      → IsReceived bytes header
      → Ensures (StoredFirst c0 c header) (store_first env c bytes header)
  unfolding store_first
  store_first-Stored c bytes header kept empty received =
      Ensures-if (header.payload_length == 0)
        (λ nothing. Ensures-some _ (
          kept,
          inr (subst (OwnsBlock header.fin header.payload_length) (sym empty) (ground arith)),
          inl refl,
        ))
        λ something.
          let fin = header.fin in
          let size = header.payload_length in
          let out = if fin then refcnt_allocate env c size else malloc env c size in
          let same : SameButIo c out.1 = allocate-SameButIo c fin size in
          let kept' = SameButIo-IsKept kept same in
          Ensures-if (not out.0) (λ failed. Ensures-some _ (kept', inl refl, inr same.same_message))
            λ got.
              let (added, read, long, added_bytes) =
                read_payload-inside bytes header received.bytes_fit received.mask_fits
                  received.inside in
              rw read (
                Ensures-some _
                  (IsKept-message _ kept', inr (refl, long, added_bytes, ground arith), inl refl))

  start_message-IsHandled :
      {c0 : Connection} (payload : Option Block) (c : Connection) (bytes : List ℕ)
      (header : WsHeader)
      → IsKept c0 c
      → c.last_message.payload ≡ payload
      → IsOwned c.last_message
      → IsReceived bytes header
      → Ensures (IsHandled c0) (start_message env payload c bytes header)
  unfolding start_message begin_message
  start_message-IsHandled (some block) c bytes header kept is owned received =
      close_with-IsHandled c close_protocol_error error (λ e. cc) kept
        (release-owned c.last_message owned)
  start_message-IsHandled none c bytes header kept is owned received =
      Ensures-bind (store_first-Stored c bytes header kept is received) λ out stored.
        Ensures-if (not out.0)
          (λ failed. Ensures-some _ (stored.0, ground (arith, release-owned c.last_message owned)))
          λ got.
            let m = (begin_message out.1 header).last_message in
            let owns : IsOwned m = (ground arith, received.small) in
            finish_text-IsHandled _ (begin_message out.1 header) header.fin _ 0 _
              (IsKept-message m stored.0) (release-owned m owns)
              (IsKept-message m stored.0, owns, refl) (λ h. (IsKept-message _ stored.0, owns, refl))

  pub handle_first-IsHandled :
      (c : Connection) (bytes : List ℕ) (header : WsHeader)
      → IsSound c
      → IsReceived bytes header
      → Ensures (IsHandled c) (handle_first_message env c bytes header)
  unfolding handle_first_message
  handle_first-IsHandled c bytes header sound received =
      Ensures-if (not header.masked && is_server c)
        (λ unmasked.
          close_with-IsHandled c close_protocol_error error (λ e. cc) (IsKept-refl sound)
            (release-owned c.last_message sound.owned))
        (λ masked.
          start_message-IsHandled c.last_message.payload c bytes header (IsKept-refl sound) refl
            sound.owned received)
