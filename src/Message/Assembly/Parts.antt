-- ===== src/Message/Assembly/Parts.antt =====
-- `parseMessage` on data frames against the abstract receiver.
use ezwebsocket.Prelude.{ℕ, ◌+◌, ◌≤◌, ◌<◌, ◌%◌, ◌^◌, ◌≡◌, refl, sym, subst, if◌then◌else◌, arith}
use ezwebsocket.Prelude.{Bool, true, false, List, ◌++◌, Option, none, some, length}
use ezwebsocket.Prelude.{Ensures, Ensures-weaken, ltb}
use ezwebsocket.Frame.{continuation, WsHeader, read_payload}
use ezwebsocket.Connection.{
  opcode_for, DataType, text_data, binary_data, Connection, Env, is_server,
}
use ezwebsocket.Connection.Send.{HasMemory}
use ezwebsocket.Message.{
  MsgState, handle_first_message, handle_message, parse_message, handle_cont_message,
}
use ezwebsocket.Message.Assembly.{
  Part, first, next, part_opcode, is_last, payload_of, Pending, accepts, keep_or_give, extend,
  assemble, Represents,
}
use ezwebsocket.Message.Assembly.First.{IsTaken, handle_first_message-IsTaken}
use ezwebsocket.Message.Assembly.Next.{handle_cont_message-IsTaken}

-- What the handlers leave of a frame that the abstract receiver answers with `r`.
abbrev pub TakesPart :
    Connection → Bool → Pending × List (DataType × List ℕ) → MsgState × Connection → Type 0
TakesPart c fin r out =
    (type : DataType) × ((all : List ℕ) × (keep_or_give type fin all ≡ r)
      × IsTaken c type fin all out)

extend-some :
    (type : DataType) (fin : Bool) (all : List ℕ) (r : Pending × List (DataType × List ℕ))
    → extend type fin all ≡ some r
    → (accepts type fin all ≡ true) × (keep_or_give type fin all ≡ r)
extend-some type fin all r is = by_test (accepts type fin all) is
  where
    by_test :
        (b : Bool)
        → (if b then some (keep_or_give type fin all) else none) ≡ some r
        → (b ≡ true) × (keep_or_give type fin all ≡ r)
    by_test true is = (refl, ground arith)
    by_test false is = absurd (ground arith)

takes_part :
    (c : Connection) (type : DataType) (fin : Bool) (all : List ℕ)
    (r : Pending × List (DataType × List ℕ)) (fin' : Bool) (m : Option (MsgState × Connection))
    → fin' ≡ fin
    → keep_or_give type fin all ≡ r
    → Ensures (IsTaken c type fin' all) m
    → Ensures (TakesPart c fin r) m
takes_part c type fin all r fin' m is_fin gives done =
    Ensures-weaken done
      λ out taken. (type, (all, gives, subst (λ b. IsTaken c type b all out) is_fin taken))

module _ (env : Env) where
  pub handle_message_first :
      (type : DataType) (c : Connection) (bytes : List ℕ) (header : WsHeader)
      → handle_message env (opcode_for type) c bytes header
        ≡ handle_first_message env c bytes header
  unfolding handle_message
  handle_message_first text_data c bytes header = refl
  handle_message_first binary_data c bytes header = refl

  pub handle_message_next :
      (c : Connection) (bytes : List ℕ) (header : WsHeader)
      → handle_message env continuation c bytes header ≡ handle_cont_message env c bytes header
  unfolding handle_message
  handle_message_next c bytes header = refl

  -- A first frame where nothing is stored.
  pub handle_first-TakesPart :
      (type : DataType) (c : Connection) (bytes : List ℕ) (header : WsHeader) (msg : List ℕ)
      (r : Pending × List (DataType × List ℕ))
      → HasMemory env
      → c.last_message.payload ≡ none
      → header.masked ≡ is_server c
      → header.opcode ≡ opcode_for type
      → extend type header.fin msg ≡ some r
      → read_payload bytes header ≡ some msg
      → length msg ≡ header.payload_length
      → Ensures (TakesPart c header.fin r) (handle_message env (opcode_for type) c bytes header)
  handle_first-TakesPart type c bytes header msg r memory empty masked opcode is read long =
      let (accepted, gives) = extend-some type header.fin msg r is in
      rw (handle_message_first type c bytes header) (
        takes_part c type header.fin msg r header.fin _ refl gives (
          handle_first_message-IsTaken env type c bytes header msg memory empty masked opcode read
            long accepted))

  -- The switch of `parseMessage` on a data frame that the abstract receiver accepts.
  pub handle_message-IsTaken :
      (p : Pending) (part : Part) (r : Pending × List (DataType × List ℕ)) (c : Connection)
      (bytes : List ℕ) (header : WsHeader)
      → HasMemory env
      → Represents p c
      → assemble p part ≡ some r
      → header.masked ≡ is_server c
      → header.opcode ≡ part_opcode part
      → header.fin ≡ is_last part
      → read_payload bytes header ≡ some (payload_of part)
      → length (payload_of part) ≡ header.payload_length
      → c.last_message.len + header.payload_length < 2 ^ 64
      → Ensures
          (TakesPart c (is_last part) r)
          (handle_message env (part_opcode part) c bytes header)
  handle_message-IsTaken none (first type fin msg) r c bytes header memory for is masked opcode last
        read long room =
      let (accepted, gives) = extend-some type fin msg r is in
      rw (handle_message_first type c bytes header) (
        takes_part c type fin msg r header.fin _ last gives (
          handle_first_message-IsTaken env type c bytes header msg memory (for.1) masked opcode read
            long (subst (λ b. accepts type b msg ≡ true) (sym last) accepted)))
  handle_message-IsTaken none (next fin msg) r c bytes header memory for is masked opcode last read
        long room =
      absurd (ground arith)
  handle_message-IsTaken (some message) (first type fin msg) r c bytes header memory for is masked
        opcode last read long room =
      absurd (ground arith)
  handle_message-IsTaken (some message) (next fin msg) r c bytes header memory for is masked opcode
        last read long room =
      let (accepted, gives) = extend-some (message.0) fin (message.1 ++ msg) r is in
      rw (handle_message_next c bytes header) (
        takes_part c (message.0) fin (message.1 ++ msg) r header.fin _ last gives (
          handle_cont_message-IsTaken env (message.0) (message.1) c bytes header msg memory (for.0)
            (for.1) masked read long room
            (subst (λ b. accepts (message.0) b (message.1 ++ msg) ≡ true) (sym last) accepted)))

  -- `parseMessage` once the whole frame is there.
  pub parse_message_whole :
      (c : Connection) (bytes : List ℕ) (len : ℕ) (header : WsHeader)
      → header.payload_start_offset + header.payload_length ≤ len
      → len < 2 ^ 64
      → parse_message env c bytes len header ≡ handle_message env header.opcode c bytes header
  unfolding parse_message
  parse_message_whole c bytes len header whole small =
      let enough : ltb len ((header.payload_start_offset + header.payload_length) % 2 ^ 64)
          ≡ false =
        ground arith in
      rw enough refl
