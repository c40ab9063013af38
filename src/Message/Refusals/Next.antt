-- ===== src/Message/Refusals/Next.antt =====
-- `handleContMessage` on a frame that the abstract receiver refuses.
use ezwebsocket.Prelude.{ℕ, ◌+◌, ◌<◌, ◌^◌, ◌≡◌, refl, ap, sym, subst, ◌∙◌, inl, inr, arith}
use ezwebsocket.Prelude.{Bool, true, false, not, List, ◌∷◌, ◌++◌, some, length, same, drop-append}
use ezwebsocket.Prelude.{Ensures, Ensures-both, Ensures-if, Ensures-bind, Ensures-weaken}
use ezwebsocket.Frame.{WsHeader, read_payload}
use ezwebsocket.Utf8.{utf8_validate}
use ezwebsocket.Utf8.Fragments.{utf8_validate-append}
use ezwebsocket.Connection.{text_data, Connection, Env, is_client, is_server, contents_of}
use ezwebsocket.Connection.Invariant.{IsResting, OwnsBlock}
use ezwebsocket.Connection.Send.{HasMemory, HasNetwork, release-owned, release-owns}
use ezwebsocket.Message.{
  error, bad_text, close_protocol_error, close_invalid_data, add_length, finish_cont,
  handle_cont_message,
}
use ezwebsocket.Message.Safety.{IsReceived}
use ezwebsocket.Message.Cont.{StoredCont, store_cont-Stored}
use ezwebsocket.Message.Replies.{IsOpen, close_with_released}
use ezwebsocket.Message.Assembly.{HasPart, IsValidated}
use ezwebsocket.Message.Assembly.Next.{store_cont-StoresMore, length-contents}
use ezwebsocket.Message.Refusals.{Refuses}
use ezwebsocket.Message.Refusals.First.{closes_from, finish_text-Refuses}

stored_owns :
    (c : Connection) (header : WsHeader) (out : Bool × Connection)
    → out.0 ≡ true
    → StoredCont c c header out
    → OwnsBlock header.fin (c.last_message.len + header.payload_length) out.1.last_message.payload
stored_owns c header out got (kept, inl failed) = absurd (ground (arith, failed.0))
stored_owns c header out got (kept, inr stored) = stored.1

module _ (env : Env) (memory : HasMemory env) (network : HasNetwork env) where
  -- A frame that continues nothing.
  pub handle_cont_message_unbegun :
      (c : Connection) (bytes : List ℕ) (header : WsHeader)
      → c.last_message.first_received ≡ false
      → IsOpen c
      → IsResting c
      → Ensures (Refuses close_protocol_error c) (handle_cont_message env c bytes header)
  unfolding handle_cont_message
  handle_cont_message_unbegun c bytes header unbegun up resting =
      Ensures-if (not c.last_message.first_received)
        (λ _.
          close_with_released env memory network c close_protocol_error error up
            (release-owned c.last_message resting.sound.owned))
        (λ begun. absurd (ground arith))

  -- A text that becomes invalid.
  finish_cont-Refuses :
      (c0 c : Connection) (xs : List ℕ) (y : ℕ) (ys : List ℕ) (header : WsHeader)
      → c.last_message.data_type ≡ text_data
      → IsValidated text_data xs c.last_message.utf8_handle
      → length xs ≡ c.last_message.len
      → contents_of c.last_message.payload ≡ xs ++ (y ∷ ys)
      → bad_text header.fin (utf8_validate (xs ++ (y ∷ ys)) 0).0 ≡ true
      → IsOpen c
      → OwnsBlock header.fin (c.last_message.len + header.payload_length) c.last_message.payload
      → c.ws_type ≡ c0.ws_type
      → c.sent ≡ c0.sent
      → c.delivered ≡ c0.delivered
      → Ensures (Refuses close_invalid_data c0) (finish_cont env c header)
  unfolding finish_cont
  finish_cont-Refuses c0 c xs y ys header text (is, alive) long stored bad up owns same_type
        same_sent same_delivered =
      let whole : utf8_validate (y ∷ ys) c.last_message.utf8_handle
          ≡ utf8_validate (xs ++ y ∷ ys) 0 =
        rw is (utf8_validate-append xs (y ∷ ys) 0 alive (λ e. cc)) in
      let c' = record c { last_message = record (c.last_message) { complete = header.fin } } in
      rw (stored, drop-append c.last_message.len xs (y ∷ ys) long)
        (Ensures-weaken
          (finish_text-Refuses env memory network c.last_message.data_type c' header.fin (y ∷ ys)
            c.last_message.utf8_handle (add_length header.payload_length) text
            (ap (λ out. bad_text header.fin (out.0)) whole ∙ bad) up
            (release-owns c'.last_message (c.last_message.len + header.payload_length) owns))
          λ out h. (h.0, closes_from c0 c' out.1 same_type same_sent same_delivered (h.1)))

  pub handle_cont_message-Refuses :
      (xs : List ℕ) (c : Connection) (bytes : List ℕ) (header : WsHeader) (y : ℕ) (ys : List ℕ)
      → IsOpen c
      → IsResting c
      → IsReceived bytes header
      → HasPart text_data xs c
      → header.masked ≡ is_server c
      → read_payload bytes header ≡ some (y ∷ ys)
      → length (y ∷ ys) ≡ header.payload_length
      → c.last_message.len + header.payload_length < 2 ^ 64
      → bad_text header.fin (utf8_validate (xs ++ (y ∷ ys)) 0).0 ≡ true
      → Ensures (Refuses close_invalid_data c) (handle_cont_message env c bytes header)
  unfolding handle_cont_message
  handle_cont_message-Refuses xs c bytes header y ys up resting received part right read long room
        bad =
      Ensures-if (not c.last_message.first_received)
        (λ missing. absurd (ground (arith, part.begun)))
        λ _.
          Ensures-if (same (is_client c) header.masked) (λ wrong. absurd (ground arith))
            λ _.
              Ensures-bind
                (Ensures-both
                  (store_cont-StoresMore env c bytes header (y ∷ ys) memory resting read long room)
                  (store_cont-Stored env c bytes header resting received room))
                λ out h.
                  Ensures-if (not out.0) (λ failed. absurd (ground (arith, h.0.0)))
                    λ got.
                      let owns : OwnsBlock header.fin (c.last_message.len + header.payload_length)
                          out.1.last_message.payload =
                        stored_owns c header out (h.0.0) (h.1) in
                      finish_cont-Refuses c out.1 xs y ys header (h.0.3 ∙ part.same_type)
                        (subst (IsValidated text_data xs) (sym (h.0.5)) part.validated)
                        (rw (h.0.4, length-contents c resting, part.same_contents) refl)
                        (h.0.6 ∙ ap (λ old. old ++ (y ∷ ys)) part.same_contents) bad
                        ((h.0.7.0) ∙ up.0, (h.0.7.1) ∙ up.1)
                        (subst
                          (λ n.
                            OwnsBlock header.fin (n + header.payload_length)
                              out.1.last_message.payload)
                          (sym (h.0.4)) owns)
                        (h.1.0.same_type) (h.0.7.2) (h.0.1)
