-- ===== src/Message/Cont.antt =====
-- `handleContMessage`, whose buffer changes its allocator at the last frame: memory.
use ezwebsocket.Prelude.{
  ℕ, ◌+◌, ◌<◌, ◌%◌, ◌^◌, ◌≡◌, refl, sym, subst, ◌⊎◌, if◌then◌else◌, inl, inr, arith,
}
use ezwebsocket.Prelude.{Bool, true, false, not, List, Option, none, some, length, ◌==◌}
use ezwebsocket.Prelude.{
  IsBytes, All-append, length-append, Ensures, Ensures-bind, Ensures-if, Ensures-some, same,
}
use ezwebsocket.Frame.{WsHeader}
use ezwebsocket.Frame.Masking.{read_payload-inside, copy_bytes_whole}
use ezwebsocket.Connection.{
  Connection, Env, LastMessage, Block, is_client, contents_of, free, release, malloc,
  refcnt_allocate,
}
use ezwebsocket.Connection.Invariant.{IsOwned, IsResting, OwnsBlock, SameButIo}
use ezwebsocket.Connection.Send.{release-owned, release-owns}
use ezwebsocket.Message.{error, close_protocol_error}
use ezwebsocket.Message.Safety.{
  IsKept, IsHandled, IsReceived, IsKept-message, IsKept-refl, SameButIo-IsKept,
  close_with-IsHandled, finish_text-IsHandled, allocate-SameButIo,
}
use ezwebsocket.Message.{add_length, finish_cont, store_cont, handle_cont_message}

-- The whole buffer is longer by the payload, or the message is gone.
abbrev pub StoredCont : Connection → Connection → WsHeader → Bool × Connection → Type 0
StoredCont c0 c header out =
    IsKept c0 out.1
    × (((out.0 ≡ false) × (release out.1.last_message ≡ some tt))
        ⊎ ((out.0 ≡ true)
            × OwnsBlock header.fin (c.last_message.len + header.payload_length)
                out.1.last_message.payload
            × (out.1.last_message.len ≡ c.last_message.len)))

contents-IsBytes : (m : LastMessage) → IsOwned m → IsBytes (contents_of m.payload)
contents-IsBytes m owned = by_payload m.payload owned.0
  where
    by_payload :
        (payload : Option Block)
        → OwnsBlock m.complete m.len payload
        → IsBytes (contents_of payload)
    by_payload none h = tt
    by_payload (some block) h = h.2

module _ (env : Env) where
  pub store_cont-Stored :
      (c : Connection) (bytes : List ℕ) (header : WsHeader)
      → IsResting c
      → IsReceived bytes header
      → c.last_message.len + header.payload_length < 2 ^ 64
      → Ensures (StoredCont c c header) (store_cont env c bytes header)
  unfolding store_cont
  store_cont-Stored c bytes header resting received room =
      Ensures-if ((c.last_message.len + header.payload_length) % 2 ^ 64 == 0)
        (λ nothing. Ensures-some _ (IsKept-refl resting.sound, inr (refl, ground arith, refl)))
        λ something.
          let fin = header.fin in
          let size = (c.last_message.len + header.payload_length) % 2 ^ 64 in
          let out = if fin then refcnt_allocate env c size else malloc env c size in
          let same : SameButIo c out.1 = allocate-SameButIo env c fin size in
          let kept' = SameButIo-IsKept (IsKept-refl resting.sound) same in
          let freed : free c.last_message.payload ≡ some tt = ground arith in
          rw freed (
            Ensures-if (not out.0)
              (λ failed. Ensures-some _ (IsKept-message _ kept', inl (refl, refl)))
              λ got.
                let old = contents_of c.last_message.payload in
                let long_old : c.last_message.len ≡ length old = ground arith in
                let old_bytes : IsBytes old = contents-IsBytes c.last_message resting.sound.owned in
                let (added, read, long, added_bytes) =
                  read_payload-inside bytes header received.bytes_fit received.mask_fits
                    received.inside in
                rw (copy_bytes_whole old c.last_message.len long_old, read)
                  (Ensures-some _ (
                    IsKept-message _ kept',
                    inr (
                      refl,
                      (
                        refl,
                        omega (arith, length-append old added),
                        All-append (λ x. x < 256) old added old_bytes added_bytes,
                        ground arith,
                      ),
                      refl,
                    ),
                  )))

  finish_cont-IsHandled :
      {c0 : Connection} (c : Connection) (header : WsHeader)
      → IsKept c0 c
      → OwnsBlock header.fin (c.last_message.len + header.payload_length) c.last_message.payload
      → c.last_message.len + header.payload_length < 2 ^ 64
      → Ensures (IsHandled c0) (finish_cont env c header)
  unfolding finish_cont
  finish_cont-IsHandled c header kept owns room =
      finish_text-IsHandled env _ _ header.fin _ _ (add_length header.payload_length)
        (IsKept-message _ kept)
        (release-owns (record (c.last_message) { complete = header.fin }) _ owns)
        (IsKept-message _ kept, longer, refl) (λ h. (IsKept-message _ kept, longer, refl))
    where
      longer :
          OwnsBlock header.fin
            ((c.last_message.len + header.payload_length) % 2 ^ 64)
            c.last_message.payload
          × ((c.last_message.len + header.payload_length) % 2 ^ 64 < 2 ^ 64)
      longer =
          let whole : (c.last_message.len + header.payload_length) % 2 ^ 64
              ≡ c.last_message.len + header.payload_length =
            omega arith in
          (subst (λ n. OwnsBlock header.fin n c.last_message.payload) (sym whole) owns, omega arith)

  pub handle_cont-IsHandled :
      (c : Connection) (bytes : List ℕ) (header : WsHeader)
      → IsResting c
      → IsReceived bytes header
      → c.last_message.len + header.payload_length < 2 ^ 64
      → Ensures (IsHandled c) (handle_cont_message env c bytes header)
  unfolding handle_cont_message
  handle_cont-IsHandled c bytes header resting received room =
      let kept = IsKept-refl resting.sound in
      let released = release-owned c.last_message resting.sound.owned in
      Ensures-if (not c.last_message.first_received)
        (λ missing. close_with-IsHandled env c close_protocol_error error (λ e. cc) kept released)
        λ started.
          Ensures-if (same (is_client c) header.masked)
            (λ wrong. close_with-IsHandled env c close_protocol_error error (λ e. cc) kept released)
            λ right.
              Ensures-bind (store_cont-Stored c bytes header resting received room) λ out stored.
                Ensures-if (not out.0) (λ failed. Ensures-some _ (stored.0, ground arith))
                  λ got. finish_cont-IsHandled out.1 header stored.0 (ground arith) (ground arith)
