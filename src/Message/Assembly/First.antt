-- ===== src/Message/Assembly/First.antt =====
-- `handleFirstMessage` against the abstract receiver.
use ezwebsocket.Prelude.{ℕ, ◌≡◌, refl, if◌then◌else◌, arith}
use ezwebsocket.Prelude.{
  Bool, true, false, not, ◌&&◌, List, [], ◌∷◌, ◌++◌, append-nil, Option, none, some, length,
}
use ezwebsocket.Prelude.{Ensures, Ensures-bind, Ensures-if, Ensures-some}
use ezwebsocket.Frame.{WsHeader, read_payload}
use ezwebsocket.Connection.{
  opcode_for, DataType, text_data, binary_data, Connection, Env, Block, is_server,
}
use ezwebsocket.Connection.Invariant.{SameLink}
use ezwebsocket.Connection.Send.{HasMemory}
use ezwebsocket.Utf8.{utf8_validate}
use ezwebsocket.Utf8.Fragments.{validate_nil, utf8_validate-append}
use ezwebsocket.Message.{
  MsgState, no_user_data, user_data, finish_text, bad_text, begin_message, start_message,
  handle_first_message,
}
use ezwebsocket.Message.Delivery.{store_first-stores, data_type-opcode}
use ezwebsocket.Message.Assembly.{accepts, IsValidated, HasPart}

abbrev pub state_after : Bool → MsgState
state_after fin = if fin then user_data else no_user_data

-- A handler has taken a frame: the message so far is stored, and nothing else was delivered.
abbrev pub IsTaken : Connection → DataType → Bool → List ℕ → MsgState × Connection → Type 0
IsTaken c0 type fin all out =
    (out.0 ≡ state_after fin)
    × (out.1.delivered ≡ c0.delivered)
    × HasPart type all out.1
    × SameLink c0 out.1

-- Validating the new bytes from the handle on comes to the same as validating the whole.
abbrev pub Continues : DataType → Bool → List ℕ → ℕ → List ℕ → Type 0
Continues text_data fin added handle all =
    (bad_text fin (utf8_validate added handle).0 ≡ false)
    × IsValidated text_data all (utf8_validate added handle).1
Continues binary_data fin added handle all = Unit

Continues-first :
    (type : DataType) (fin : Bool) (all : List ℕ)
    → accepts type fin all ≡ true
    → Continues type fin all 0 all
Continues-first text_data fin all accepted = ground arith
Continues-first binary_data fin all accepted = tt

pub Continues-next :
    (type : DataType) (fin : Bool) (xs ys : List ℕ) (handle : ℕ)
    → IsValidated type xs handle
    → accepts type fin (xs ++ ys) ≡ true
    → Continues type fin ys handle (xs ++ ys)
Continues-next binary_data fin xs ys handle valid accepted = tt
Continues-next text_data fin xs [] handle valid accepted =
    ground (arith, validate_nil handle, append-nil xs)
Continues-next text_data fin xs (y ∷ ys) handle (is, alive) accepted =
    let whole : utf8_validate (y ∷ ys) handle ≡ utf8_validate (xs ++ y ∷ ys) 0 =
      rw is (utf8_validate-append xs (y ∷ ys) 0 alive (λ e. cc)) in
    rw whole (ground arith)

module _ (env : Env) where
  pub finish_text-IsTaken :
      (c0 : Connection) (data_type type : DataType) (c : Connection) (fin : Bool) (added : List ℕ)
      (handle : ℕ) (accept : Connection → Connection) (all : List ℕ)
      → data_type ≡ type
      → Continues type fin added handle all
      → ((h : ℕ)
          → IsValidated type all h
          → IsTaken c0 type fin all (
            state_after fin,
            accept (record c { last_message = record (c.last_message) { utf8_handle = h } }),
          ))
      → Ensures (IsTaken c0 type fin all) (finish_text env data_type c fin added handle accept)
  unfolding finish_text
  finish_text-IsTaken c0 data_type text_data c fin added handle accept all is goes_on taken =
      rw is (
        Ensures-if (bad_text fin (utf8_validate added handle).0) (λ bad. absurd (ground arith))
          (λ good. Ensures-some _ (taken (utf8_validate added handle).1 (goes_on.1))))
  finish_text-IsTaken c0 data_type binary_data c fin added handle accept all is goes_on taken =
      rw is (Ensures-some _ (taken c.last_message.utf8_handle tt))

  start_message-IsTaken :
      (payload : Option Block) (type : DataType) (c : Connection) (bytes : List ℕ)
      (header : WsHeader) (msg : List ℕ)
      → HasMemory env
      → payload ≡ none
      → c.last_message.payload ≡ none
      → header.opcode ≡ opcode_for type
      → read_payload bytes header ≡ some msg
      → length msg ≡ header.payload_length
      → accepts type header.fin msg ≡ true
      → Ensures (IsTaken c type header.fin msg) (start_message env payload c bytes header)
  unfolding start_message begin_message
  start_message-IsTaken (some block) type c bytes header msg memory is empty opcode read long
        accepted =
      absurd (ground arith)
  start_message-IsTaken none type c bytes header msg memory is empty opcode read long accepted =
      Ensures-bind (store_first-stores env memory c bytes header msg empty read long) λ out stored.
        Ensures-if (not out.0) (λ failed. absurd (ground (arith, stored.0)))
          λ got.
            let c2 = begin_message out.1 header in
            let same_type : c2.last_message.data_type ≡ type =
              data_type-opcode type header.opcode opcode in
            rw (stored.2) (
              finish_text-IsTaken c c2.last_message.data_type type c2 header.fin msg 0 (λ d. d) msg
                same_type (Continues-first type header.fin msg accepted)
                λ h valid. (
                  refl,
                  stored.1,
                  record {
                    begun = refl;
                    same_type = same_type;
                    same_contents = stored.2;
                    validated = valid;
                  },
                  stored.3,
                ))

  -- A first frame where nothing is pending.
  pub handle_first_message-IsTaken :
      (type : DataType) (c : Connection) (bytes : List ℕ) (header : WsHeader) (msg : List ℕ)
      → HasMemory env
      → c.last_message.payload ≡ none
      → header.masked ≡ is_server c
      → header.opcode ≡ opcode_for type
      → read_payload bytes header ≡ some msg
      → length msg ≡ header.payload_length
      → accepts type header.fin msg ≡ true
      → Ensures (IsTaken c type header.fin msg) (handle_first_message env c bytes header)
  unfolding handle_first_message
  handle_first_message-IsTaken type c bytes header msg memory empty mask_fits opcode read long
        accepted =
      Ensures-if (not header.masked && is_server c) (λ wrong. absurd (ground arith))
        (λ right.
          start_message-IsTaken c.last_message.payload type c bytes header msg memory empty empty
            opcode read long accepted)
