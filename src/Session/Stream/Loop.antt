-- ===== src/Session/Stream/Loop.antt =====
-- The loop of `connectionThread` over the frames of a stream.
use ezwebsocket.Prelude.{
  ℕ, zero, suc, ◌+◌, ◌<◌, ◌^◌, ◌≡◌, sym, subst, ap, ◌∙◌, ◌==◌, arith, append_assoc,
}
use ezwebsocket.Prelude.{
  Bool, true, false, not, ◌&&◌, List, [], ◌∷◌, ◌++◌, Option, some, length, All, length-append,
}
use ezwebsocket.Prelude.{Ensures, Ensures-if, Ensures-some, Ensures-weaken}
use ezwebsocket.Connection.{connected, DataType, Connection, Env, is_server}
use ezwebsocket.Connection.Invariant.{SameLink}
use ezwebsocket.Connection.Send.{HasMemory}
use ezwebsocket.DynBuffer.{DynBuffer, remove_leading_bytes, unread}
use ezwebsocket.DynBuffer.Bounds.{IsFit}
use ezwebsocket.Message.Assembly.{Part, Pending, assemble_all, pending_bytes, Represents}
use ezwebsocket.Receive.{Timespec}
use ezwebsocket.Receive.Delivery.{Looks}
use ezwebsocket.Receive.Refinement.{on_frame-Follows}
use ezwebsocket.SocketServer.{drain}
use ezwebsocket.SocketServer.Drain.{drain_step}
use ezwebsocket.Session.{Setup}
use ezwebsocket.Session.Stream.{
  is_session_up, stream-IsBytes, frame_some, assemble_grows, Represents-len, dropped, reader,
  reader_connected, Steps, assemble_all_step, Assembles, no_frames,
}
use ezwebsocket.Message.Assembly.{bytes_of, stream, parts_of, HasBytes}

is_up_same : (c d : Connection) → SameLink c d → is_session_up c ≡ true → is_session_up d ≡ true
is_up_same c d same up = ground arith

pub server_same : (c d : Connection) → d.ws_type ≡ c.ws_type → is_server c ≡ is_server d
server_same c d same = ground arith

-- What was given away first stands last.
joined :
    {A : Type 0} (new old all before between after : List A)
    → new ++ old ≡ all
    → between ≡ old ++ before
    → after ≡ new ++ between
    → after ≡ all ++ before
joined new old all before between after gives earlier later =
    later
    ∙ ap (◌++◌ new) earlier
    ∙ sym (append_assoc new old before)
    ∙ ap (λ xs. xs ++ before) gives

-- One round of the loop takes one frame.
pub record TakesFrame (reads : Connection → List ℕ → Option (ℕ × Connection)) (c : Connection)
    (b : DynBuffer) (p : Pending) (part : Part) (parts : List Part)
    (s : Pending × List (DataType × List ℕ)) (rest : List ℕ) (count : ℕ) : Type 0 where
  pub steps : Steps p part parts s
  pub after : Connection
  pub takes : reads c (unread b) ≡ some (count, after)
  pub gave : after.delivered ≡ (steps.now).1 ++ c.delivered
  pub stands : Represents ((steps.now).0) after
  pub same_type : after.ws_type ≡ c.ws_type
  pub link : SameLink c after
  some_taken : (count == 0) ≡ false
  fit : IsFit (remove_leading_bytes b count).1
  left : unread (remove_leading_bytes b count).1 ≡ rest
  used : (remove_leading_bytes b count).1.used ≡ length rest
  pub room : length (pending_bytes ((steps.now).0)) + length rest < 2 ^ 64

module _ (setup : Setup) (env : Env) (now : Timespec) (memory : HasMemory env)
    (looks : Looks env.on_message) where
  pub takes_frame :
      (frame : Part × ℕ) (frames : List (Part × ℕ)) (masked : Bool) (c : Connection) (b : DynBuffer)
      (p : Pending) (s : Pending × List (DataType × List ℕ))
      → Represents p c
      → assemble_all p (parts_of (frame ∷ frames)) ≡ some s
      → masked ≡ is_server c
      → c.state ≡ connected
      → All HasBytes (frame ∷ frames)
      → IsFit b
      → unread b ≡ stream masked (frame ∷ frames)
      → length (pending_bytes p) + length (stream masked (frame ∷ frames)) < 2 ^ 64
      → TakesFrame
          (reader setup env now)
          c
          b
          p
          (frame.0)
          (parts_of frames)
          s
          (stream masked frames)
          (length (bytes_of masked frame))
  takes_frame (part, mask) frames masked c b p s for run right ready hb fit holds room =
      let frame = bytes_of masked (part, mask) in
      let rest = stream masked frames in
      let steps = assemble_all_step p part (parts_of frames) s run in
      let long : length (frame ++ rest) ≡ length frame + length rest = length-append frame rest in
      let longer = frame_some masked (part, mask) in
      let done =
        on_frame-Follows env now c p part steps.now masked mask rest memory looks for steps.here
          right (hb.0) (stream-IsBytes masked ((part, mask) ∷ frames) hb)
          (omega (arith, Represents-len p c for)) in
      let (fit', left, used) = dropped b frame rest fit holds in
      record {
        steps = steps;
        after = done.result.1;
        takes =
            ap (reader setup env now c) holds
            ∙ reader_connected setup env now c (frame ++ rest) ready
            ∙ done.returns
            ∙ ap (λ n. some (n, done.result.1)) (done.holds.0);
        gave = done.holds.1;
        stands = done.holds.2;
        same_type = done.holds.3;
        link = done.holds.4;
        some_taken = ground arith;
        fit = fit';
        left = left;
        used = used;
        room = omega (arith, assemble_grows p part steps.now steps.here);
      }

  -- Where the receive buffer of an open connection, which stands for the pending message, holds whole
  -- frames, masked as the receiver wants them, that the abstract receiver accepts, the loop of
  -- `connectionThread` over `websocket_onMessage` ends within as many rounds as there are frames: the
  -- callback was given exactly the messages that the abstract receiver gives away, in their order,
  -- the connection is open and stands for what is pending then, and the buffer is empty; where
  -- memory can be had, all fits a `size_t` and the callback leaves the connection alone.
  pub drain-Assembles :
      (fuel : ℕ) (frame : Part × ℕ) (frames : List (Part × ℕ)) (masked : Bool) (c : Connection)
      (b : DynBuffer) (p : Pending) (s : Pending × List (DataType × List ℕ))
      → Represents p c
      → assemble_all p (parts_of (frame ∷ frames)) ≡ some s
      → masked ≡ is_server c
      → c.state ≡ connected
      → is_session_up c ≡ true
      → All HasBytes (frame ∷ frames)
      → IsFit b
      → unread b ≡ stream masked (frame ∷ frames)
      → length (pending_bytes p) + length (stream masked (frame ∷ frames)) < 2 ^ 64
      → length frames < fuel
      → Ensures (Assembles c s) (drain is_session_up (reader setup env now) fuel c b)
  drain-Assembles zero frame frames masked c b p s for run right ready up hb fit holds room enough =
      absurd (omega arith)
  drain-Assembles (suc fuel) frame [] masked c b p s for run right ready up hb fit holds room
        enough =
      let t = takes_frame frame [] masked c b p s for run right ready hb fit holds room in
      let (same_pending, no_more) = no_frames (t.steps.now.0) t.steps.afterwards t.steps.there in
      let count = length (bytes_of masked frame) in
      rw (drain_step is_session_up (reader setup env now) fuel c t.after b count t.takes) (
        Ensures-if
          (not (count == 0)
            && not ((remove_leading_bytes b count).1.used == 0)
            && is_session_up t.after)
          (λ more. absurd (ground (arith, t.used)))
          (λ end. Ensures-some _ (
            joined (t.steps.afterwards.1) (t.steps.now.1) (s.1) c.delivered t.after.delivered
                t.after.delivered t.steps.given t.gave
                (ap (λ xs. xs ++ t.after.delivered) (sym no_more)),
            subst (λ q. Represents q t.after) (sym same_pending ∙ t.steps.pending) t.stands,
            t.left,
            is_up_same c t.after t.link up,
            (t.link.1) ∙ ready,
          )))
  drain-Assembles (suc fuel) frame (next_frame ∷ frames) masked c b p s for run right ready up hb
        fit holds room enough =
      let t =
        takes_frame frame (next_frame ∷ frames) masked c b p s for run right ready hb fit holds
          room in
      let count = length (bytes_of masked frame) in
      let b' = (remove_leading_bytes b count).1 in
      rw (drain_step is_session_up (reader setup env now) fuel c t.after b count t.takes) (
        Ensures-if (not (count == 0) && not (b'.used == 0) && is_session_up t.after)
          (λ more.
            Ensures-weaken
              (drain-Assembles fuel next_frame frames masked t.after b' (t.steps.now.0)
                t.steps.afterwards t.stands t.steps.there
                (right ∙ server_same c t.after t.same_type) (t.link.1 ∙ ready)
                (is_up_same c t.after t.link up) (hb.1) t.fit t.left t.room (omega arith))
              λ out h. (
                joined (t.steps.afterwards.1) (t.steps.now.1) (s.1) c.delivered t.after.delivered
                    out.0.delivered t.steps.given t.gave (h.0),
                subst (λ q. Represents q out.0) t.steps.pending (h.1),
                h.2,
                h.3,
                h.4,
              ))
          (λ end. absurd (
            ground (
              arith,
              t.used,
              t.some_taken,
              is_up_same c t.after t.link up,
              frame_some masked next_frame,
              length-append (bytes_of masked next_frame) (stream masked frames),
            ))))
