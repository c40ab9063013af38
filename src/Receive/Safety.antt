-- ===== src/Receive/Safety.antt =====
-- The memory of one call of `websocket_onMessage` on an open connection.
use ezwebsocket.Prelude.{ℕ, ◌+◌, ◌≤◌, ◌<◌, ◌^◌, ◌≡◌, refl, ◌⊎◌, if◌then◌else◌, arith, ◌==◌}
use ezwebsocket.Prelude.{Bool, true, false, List, ◌∷◌, Option, none, some, ltb, length}
use ezwebsocket.Prelude.{IsBytes, Ensures, Ensures-bind, Ensures-if, Ensures-some, Ensures-weaken}
use ezwebsocket.Frame.{WsHeader, HeaderResult, malformed, too_short, parsed, parse_websocket_header}
use ezwebsocket.Frame.Bounds.{FitsResult, parse_bounds}
use ezwebsocket.Connection.{server, DataType, Connection, Env, contents_of, free}
use ezwebsocket.Connection.Invariant.{
  IsLinked, IsResting, IsSound, IsClosing, KeepsSoundBy, KeepsSound,
}
use ezwebsocket.Connection.Send.{websocket_close_connection-IsClosing, release-owned}
use ezwebsocket.Message.{MsgState, error, incomplete, no_user_data, user_data, close_protocol_error}
use ezwebsocket.Message.Safety.{IsHandled}
use ezwebsocket.Message.Control.{parse_message-IsHandled}
use ezwebsocket.Receive.{
  Timespec, message_timeout_s, stop_timer, unref_if_set, call_back, call_on_message, after_message,
  on_header, on_frame,
}

-- The connection is at rest again, of the same kind, and no more was taken than is there.
abbrev pub IsDone : Connection → ℕ → ℕ × Connection → Type 0
IsDone c len out = (out.0 ≤ len) × IsResting out.1 × (out.1.ws_type ≡ c.ws_type)

pub IsClosing-IsResting : {c d : Connection} → IsClosing c d → IsResting d
IsClosing-IsResting closing = ground arith

-- The message after `data = NULL; len = 0; complete = false;`, and the timer stopped.
pub emptied-IsResting :
    (c : Connection) (first : Bool)
    → IsLinked c.socket
    → IsResting (
        stop_timer (record c {
          last_message = record (c.last_message) {
            payload = none;
            complete = false;
            first_received = first;
            len = 0;
          };
        }))
emptied-IsResting c first linked = record {
  sound = record { linked = linked; owned = (refl, omega arith) };
  pending = refl;
}

-- What the callback leaves can be given back.
call_back-unrefs :
    (on : Option (DataType × List ℕ → Connection → Option Connection)) (c : Connection)
    → KeepsSoundBy on
    → IsSound c
    → c.last_message.complete ≡ true
    → Ensures
        (λ d. IsSound d × (d.ws_type ≡ c.ws_type) × (unref_if_set d.last_message ≡ some tt))
        (call_back on c)
unfolding call_back
call_back-unrefs none c keeps sound complete =
    let owned = sound.owned in Ensures-some _ (sound, refl, ground arith)
call_back-unrefs (some callback) c keeps sound complete =
    let message : DataType × List ℕ =
      (c.last_message.data_type, contents_of c.last_message.payload) in
    Ensures-weaken
      (keeps message (record c { delivered = message ∷ c.delivered })
        (record { linked = sound.linked; owned = sound.owned }) complete)
      (λ d h. let owned = h.0.owned in (h.0, h.1, ground arith))

pub after_message-IsDone :
    (env : Env) (now : Timespec) (len : ℕ) (header : WsHeader) (state : MsgState)
    (c0 c : Connection)
    → KeepsSound env
    → (state ≡ incomplete) ⊎ (header.payload_start_offset + header.payload_length ≤ len)
    → len < 2 ^ 64
    → IsHandled c0 (state, c)
    → Ensures (IsDone c0 len) (after_message env now len header state c)
unfolding after_message call_on_message
after_message-IsDone env now len header no_user_data c0 c keeps whole small
      (kept, (owned, pending)) =
    Ensures-some _ (
      ground arith,
      record { sound = record { linked = kept.linked; owned = owned }; pending = pending },
      kept.same_type,
    )
after_message-IsDone env now len header user_data c0 c keeps whole small (kept, (owned, complete)) =
    Ensures-bind
      (call_back-unrefs env.on_message c keeps (record { linked = kept.linked; owned = owned })
        complete)
      λ d h. rw (h.2) (
        Ensures-some _
          (ground arith, emptied-IsResting d false h.0.linked, ground (arith, h.1, kept.same_type)))
after_message-IsDone env now len header incomplete c0 c keeps whole small (kept, (owned, pending)) =
    let at_rest : (sec nsec : ℕ) → IsResting (record c { tv_sec = sec; tv_nsec = nsec }) =
      λ sec nsec. record {
        sound = record { linked = kept.linked; owned = owned };
        pending = pending;
      } in
    Ensures-if (c.tv_sec == (if c.tv_nsec == 0 then 1 else 0))
      (λ _. Ensures-some _ (omega arith, at_rest now.sec now.nsec, kept.same_type))
      λ _.
        Ensures-if (ltb (now.sec + message_timeout_s) c.tv_sec)
          (λ _.
            let freed : free c.last_message.payload ≡ some tt = ground arith in
            rw freed (
              Ensures-some _ (
                omega arith,
                emptied-IsResting c c.last_message.first_received kept.linked,
                kept.same_type,
              )))
          (λ _. Ensures-some _ (omega arith, at_rest c.tv_sec c.tv_nsec, kept.same_type))
after_message-IsDone env now len header error c0 c keeps whole small (kept, released) =
    rw released (
      Ensures-some _ (
        omega arith,
        emptied-IsResting c c.last_message.first_received kept.linked,
        kept.same_type,
      ))

-- What the theorem asks of a frame: its end does not wrap around, and a client gets no masked frame.
abbrev pub IsServed : Connection → List ℕ → ℕ → Type 0
IsServed c bytes len =
    (header : WsHeader)
    → parse_websocket_header bytes len ≡ some (parsed header)
    → (header.payload_start_offset + header.payload_length < 2 ^ 64)
      × ((c.ws_type ≡ server) ⊎ (header.masked ≡ false))

on_header-IsDone :
    (env : Env) (now : Timespec) (c : Connection) (bytes : List ℕ) (len : ℕ) (result : HeaderResult)
    → KeepsSound env
    → IsResting c
    → IsBytes bytes
    → len ≤ length bytes
    → c.last_message.len + length bytes < 2 ^ 64
    → IsServed c bytes len
    → parse_websocket_header bytes len ≡ some result
    → FitsResult len result
    → Ensures (IsDone c len) (on_header env now c bytes len result)
unfolding on_header
on_header-IsDone env now c bytes len malformed keeps resting hb fits room served read good =
    Ensures-bind
      (websocket_close_connection-IsClosing env c close_protocol_error resting.sound.linked
        (release-owned c.last_message resting.sound.owned))
      λ d closing. Ensures-some _ (omega arith, IsClosing-IsResting closing, closing.same_type)
on_header-IsDone env now c bytes len too_short keeps resting hb fits room served read good =
    Ensures-some _ (omega arith, resting, refl)
on_header-IsDone env now c bytes len (parsed header) keeps resting hb fits room served read good =
    let (no_wrap, serves) = served header read in
    Ensures-bind
      (parse_message-IsHandled env c bytes len header resting hb good.mask_bytes fits no_wrap room
        serves)
      λ out handled.
        after_message-IsDone env now len header out.0 c out.1 keeps handled.1 (omega arith)
          handled.0

-- The CONNECTED case of `websocket_onMessage`, on a connection at rest and a buffer of at least two
-- bytes that holds what was received, where the lengths fit a `size_t`, the frame's end does not
-- wrap around, a client gets no masked frame and the callback keeps the connection sound: it
-- returns, having reached no memory that is not there and freed each buffer with the function that
-- fits it; it takes no more bytes than were received, and the connection is of the same type and at
-- rest again.
pub on_frame-IsDone :
    (env : Env) (now : Timespec) (c : Connection) (bytes : List ℕ) (len : ℕ)
    → KeepsSound env
    → IsResting c
    → IsBytes bytes
    → len ≤ length bytes
    → 2 ≤ length bytes
    → c.last_message.len + length bytes < 2 ^ 64
    → IsServed c bytes len
    → Ensures (IsDone c len) (on_frame env now c bytes len)
unfolding on_frame
on_frame-IsDone env now c bytes len keeps resting hb fits long room served =
    let (result, read, good) = parse_bounds bytes len hb fits long in
    rw read
      (on_header-IsDone env now c bytes len result keeps resting hb fits room served read good)
