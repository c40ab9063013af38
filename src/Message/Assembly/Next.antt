-- ===== src/Message/Assembly/Next.antt =====
-- `handleContMessage` against the abstract receiver.
use ezwebsocket.Prelude.{
  ℕ, ◌+◌, ◌<◌, ◌%◌, ◌^◌, ◌≡◌, refl, sym, subst, ◌∙◌, if◌then◌else◌, arith, ◌==◌,
}
use ezwebsocket.Prelude.{
  Bool, true, not, List, [], ◌∷◌, ◌++◌, append-nil, some, length, same, drop-append,
}
use ezwebsocket.Prelude.{Ensures, Ensures-bind, Ensures-if, Ensures-some}
use ezwebsocket.Frame.{WsHeader, read_payload}
use ezwebsocket.Frame.Masking.{copy_bytes_whole}
use ezwebsocket.Connection.{
  DataType, Connection, Env, is_client, is_server, contents_of, free, malloc, refcnt_allocate,
}
use ezwebsocket.Connection.Invariant.{SameLink, SameButIo, IsResting}
use ezwebsocket.Connection.Close.{allocate-sent}
use ezwebsocket.Connection.Send.{HasMemory, allocate-got}
use ezwebsocket.Message.{store_cont, finish_cont, add_length, handle_cont_message}
use ezwebsocket.Message.Safety.{allocate-SameButIo}
use ezwebsocket.Message.Assembly.{accepts, IsValidated, HasPart}
use ezwebsocket.Message.Assembly.First.{IsTaken, Continues-next, finish_text-IsTaken}

-- The last allocation of `handleContMessage`, and what is kept: all but the payload.
abbrev pub StoresMore : Connection → List ℕ → Bool × Connection → Type 0
StoresMore c all out =
    (out.0 ≡ true)
    × (out.1.delivered ≡ c.delivered)
    × (out.1.last_message.first_received ≡ c.last_message.first_received)
    × (out.1.last_message.data_type ≡ c.last_message.data_type)
    × (out.1.last_message.len ≡ c.last_message.len)
    × (out.1.last_message.utf8_handle ≡ c.last_message.utf8_handle)
    × (contents_of out.1.last_message.payload ≡ all)
    × SameLink c out.1

-- Nothing stored before and nothing now.
nothing_more : (xs msg : List ℕ) → length xs + length msg ≡ 0 → xs ≡ xs ++ msg
nothing_more xs [] none_left = sym (append-nil xs)
nothing_more xs (x ∷ msg) none_left = absurd (omega arith)

pub length-contents :
    (c : Connection)
    → IsResting c
    → c.last_message.len ≡ length (contents_of c.last_message.payload)
length-contents c resting = let owned = resting.sound.owned in ground arith

module _ (env : Env) where
  pub store_cont-StoresMore :
      (c : Connection) (bytes : List ℕ) (header : WsHeader) (msg : List ℕ)
      → HasMemory env
      → IsResting c
      → read_payload bytes header ≡ some msg
      → length msg ≡ header.payload_length
      → c.last_message.len + header.payload_length < 2 ^ 64
      → Ensures
          (StoresMore c (contents_of c.last_message.payload ++ msg))
          (store_cont env c bytes header)
  unfolding store_cont
  store_cont-StoresMore c bytes header msg memory resting read long room =
      let old = contents_of c.last_message.payload in
      let long_old : c.last_message.len ≡ length old = length-contents c resting in
      Ensures-if ((c.last_message.len + header.payload_length) % 2 ^ 64 == 0)
        (λ nothing. Ensures-some _ (
          refl,
          refl,
          refl,
          refl,
          refl,
          refl,
          nothing_more old msg (ground arith),
          (refl, refl, refl),
        ))
        λ something.
          let fin = header.fin in
          let size = (c.last_message.len + header.payload_length) % 2 ^ 64 in
          let out = if fin then refcnt_allocate env c size else malloc env c size in
          let same : SameButIo c out.1 = allocate-SameButIo env c fin size in
          let freed : free c.last_message.payload ≡ some tt =
            let owned = resting.sound.owned in ground (arith, resting.pending) in
          rw freed (
            Ensures-if (not out.0)
              (λ failed. absurd (ground (arith, allocate-got env c fin size memory)))
              λ got.
                rw (copy_bytes_whole old c.last_message.len long_old, read)
                  (Ensures-some _ (
                    refl,
                    same.same_delivered,
                    refl,
                    refl,
                    refl,
                    refl,
                    refl,
                    (same.same_socket, same.same_state, allocate-sent env c fin size),
                  )))

  finish_cont-IsTaken :
      (c0 : Connection) (type : DataType) (xs msg : List ℕ) (c : Connection) (header : WsHeader)
      → c.delivered ≡ c0.delivered
      → SameLink c0 c
      → c.last_message.first_received ≡ true
      → c.last_message.data_type ≡ type
      → length xs ≡ c.last_message.len
      → IsValidated type xs c.last_message.utf8_handle
      → contents_of c.last_message.payload ≡ xs ++ msg
      → accepts type header.fin (xs ++ msg) ≡ true
      → Ensures (IsTaken c0 type header.fin (xs ++ msg)) (finish_cont env c header)
  unfolding finish_cont
  finish_cont-IsTaken c0 type xs msg c header delivered linked begun is long valid stored accepted =
      rw (stored, drop-append c.last_message.len xs msg long)
        (finish_text-IsTaken env c0 c.last_message.data_type type _ header.fin msg
          c.last_message.utf8_handle (add_length header.payload_length) (xs ++ msg) is
          (Continues-next type header.fin xs msg c.last_message.utf8_handle valid accepted)
          λ h valid'. (
            refl,
            delivered,
            record { begun = begun; same_type = is; same_contents = stored; validated = valid' },
            linked,
          ))

  -- A frame that continues what is pending.
  pub handle_cont_message-IsTaken :
      (type : DataType) (xs : List ℕ) (c : Connection) (bytes : List ℕ) (header : WsHeader)
      (msg : List ℕ)
      → HasMemory env
      → IsResting c
      → HasPart type xs c
      → header.masked ≡ is_server c
      → read_payload bytes header ≡ some msg
      → length msg ≡ header.payload_length
      → c.last_message.len + header.payload_length < 2 ^ 64
      → accepts type header.fin (xs ++ msg) ≡ true
      → Ensures (IsTaken c type header.fin (xs ++ msg)) (handle_cont_message env c bytes header)
  unfolding handle_cont_message
  handle_cont_message-IsTaken type xs c bytes header msg memory resting part mask_fits read long
        room accepted =
      Ensures-if (not c.last_message.first_received)
        (λ missing. absurd (ground (arith, part.begun)))
        λ started.
          Ensures-if (same (is_client c) header.masked) (λ wrong. absurd (ground arith))
            λ right.
              Ensures-bind (store_cont-StoresMore c bytes header msg memory resting read long room)
                λ out stored.
                  Ensures-if (not out.0) (λ failed. absurd (ground (arith, stored.0)))
                    λ got.
                      finish_cont-IsTaken c type xs msg out.1 header stored.1 stored.7
                        (stored.2 ∙ part.begun) (stored.3 ∙ part.same_type)
                        (rw (stored.4, length-contents c resting, part.same_contents) refl)
                        (subst (IsValidated type xs) (sym stored.5) part.validated)
                        (rw (stored.6, part.same_contents) refl) accepted
