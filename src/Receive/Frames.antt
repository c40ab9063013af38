-- ===== src/Receive/Frames.antt =====
-- A whole frame in front of the receive buffer, and what is done once its handler has taken it.
use ezwebsocket.Prelude.{ℕ, ◌+◌, ◌≤◌, ◌<◌, ◌^◌, ◌≡◌, refl, arith}
use ezwebsocket.Prelude.{
  Bool, true, false, List, ◌∷◌, ◌++◌, some, length, length-append, append_assoc, if◌then◌else◌,
  ◌>>=◌,
}
use ezwebsocket.Prelude.{Ensures, Ensures-some}
use ezwebsocket.Frame.{
  Opcode, WsHeader, parsed, parse_websocket_header, create_websocket_header, copy_masked,
}
use ezwebsocket.Frame.RoundTrip.{decoded, parse-create}
use ezwebsocket.Connection.{DataType, Connection, Env, contents_of, frame_of}
use ezwebsocket.Connection.Invariant.{SameLink}
use ezwebsocket.Message.{MsgState, error, incomplete, no_user_data, user_data, handle_message}
use ezwebsocket.Message.Safety.{IsHandled}
use ezwebsocket.Message.Assembly.{Pending, keep_or_give, Represents}
use ezwebsocket.Message.Assembly.First.{IsTaken}
use ezwebsocket.Message.Assembly.Parts.{parse_message_whole}
use ezwebsocket.Receive.{
  Timespec, unref_if_set, call_on_message, after_message, on_header, on_frame,
}
use ezwebsocket.Receive.Safety.{emptied-IsResting}
use ezwebsocket.Receive.Delivery.{Looks, call_back-delivers, length-frame}

-- A whole frame in front of the receive buffer goes to its handler.
pub on_frame_whole :
    (env : Env) (now : Timespec) (c : Connection) (opcode : Opcode) (fin masked : Bool) (mask : ℕ)
    (msg rest : List ℕ) (len : ℕ)
    → len ≡ length (frame_of opcode fin masked mask msg ++ rest)
    → len < 2 ^ 64
    → on_frame env now c (frame_of opcode fin masked mask msg ++ rest) len ≡ (do
      (state, c') ←
          handle_message env opcode c
            (frame_of opcode fin masked mask msg ++ rest)
            (decoded opcode fin masked mask (length msg))
      after_message env now len (decoded opcode fin masked mask (length msg)) state c')
unfolding on_frame on_header
on_frame_whole env now c opcode fin masked mask msg rest len size small =
    let frame = frame_of opcode fin masked mask msg in
    let header = decoded opcode fin masked mask (length msg) in
    let payload = (if masked then copy_masked mask msg else msg) in
    let head = create_websocket_header opcode fin masked mask (length msg) in
    let long : length (frame ++ rest) ≡ length frame + length rest = length-append frame rest in
    let whole : length frame ≡ header.payload_start_offset + length msg =
      length-frame opcode fin masked mask msg in
    let parses : parse_websocket_header (frame ++ rest) len ≡ some (parsed header) =
      rw (append_assoc head payload rest) (
        parse-create opcode fin masked mask (length msg) (payload ++ rest) len (omega arith)
          (omega arith)) in
    rw (parses, parse_message_whole env c (frame ++ rest) len header (omega arith) small) refl

-- What the receiver is left with where the abstract one answers with `r`.
abbrev pub Follows : Connection → Pending × List (DataType × List ℕ) → ℕ → ℕ × Connection → Type 0
Follows c r taken out =
    (out.0 ≡ taken)
    × (out.1.delivered ≡ r.1 ++ c.delivered)
    × Represents (r.0) (out.1)
    × (out.1.ws_type ≡ c.ws_type)
    × SameLink c out.1

pub after_message-Follows :
    (env : Env) (now : Timespec) (len : ℕ) (header : WsHeader) (fin : Bool) (state : MsgState)
    (c0 c : Connection) (type : DataType) (all : List ℕ) (taken : ℕ)
    → Looks env.on_message
    → IsTaken c0 type fin all (state, c)
    → IsHandled c0 (state, c)
    → taken ≡ header.payload_start_offset + header.payload_length
    → taken ≤ len
    → len < 2 ^ 64
    → Ensures
        (Follows c0 (keep_or_give type fin all) taken)
        (after_message env now len header state c)
unfolding after_message call_on_message
after_message-Follows env now len header fin error c0 c type all taken looks done handled size fits
      small =
    absurd (ground arith)
after_message-Follows env now len header fin incomplete c0 c type all taken looks done handled size
      fits small =
    absurd (ground arith)
after_message-Follows env now len header true no_user_data c0 c type all taken looks done handled
      size fits small =
    absurd (ground arith)
after_message-Follows env now len header false user_data c0 c type all taken looks done handled size
      fits small =
    absurd (ground arith)
after_message-Follows env now len header false no_user_data c0 c type all taken looks done
      (kept, (owned, pending)) size fits small =
    Ensures-some _ (
      omega arith,
      done.1,
      (
        record { sound = record { linked = kept.linked; owned = owned }; pending = pending },
        record {
          begun = done.2.begun;
          same_type = done.2.same_type;
          same_contents = done.2.same_contents;
          validated = done.2.validated;
        },
      ),
      kept.same_type,
      done.3,
    )
after_message-Follows env now len header true user_data c0 c type all taken looks done
      (kept, (owned, complete)) size fits small =
    let released : unref_if_set c.last_message ≡ some tt = ground arith in
    rw (call_back-delivers env.on_message c looks, released)
      (Ensures-some _ (
        omega arith,
        rw (done.2.same_type, done.2.same_contents, done.1) refl,
        (
          emptied-IsResting
              (record c {
                delivered =
                    (c.last_message.data_type, contents_of c.last_message.payload) ∷ c.delivered;
              })
              false kept.linked,
          refl,
          refl,
        ),
        kept.same_type,
        done.3,
      ))
