-- ===== src/Connection/Invariant.antt =====
-- What holds of a connection between the steps of the code: the socket is there, and the buffer of
-- the message that is being received came from the allocator that its release goes to.
use ezwebsocket.Prelude.{ℕ, ◌<◌, ◌^◌, ◌≡◌, Bool, true, false, Option, none, some, if◌then◌else◌}
use ezwebsocket.Prelude.{length, IsBytes, ◌⊎◌, List, Ensures}
use ezwebsocket.Connection.{
  DataType, SocketState, Allocator, by_malloc, by_refcnt, Block, LastMessage, Connection, Env,
}

abbrev pub allocator_for : Bool → Allocator
allocator_for complete = if complete then by_refcnt else by_malloc

-- The block matches the flag and the recorded length, and no block is kept for nothing.
abbrev pub OwnsBlock : Bool → ℕ → Option Block → Type 0
OwnsBlock complete len none = len ≡ 0
OwnsBlock complete len (some block) =
    (block.allocator ≡ allocator_for complete)
    × (length block.contents ≡ len)
    × IsBytes block.contents
    × (0 < len)

abbrev pub IsOwned : LastMessage → Type 0
IsOwned m = OwnsBlock m.complete m.len m.payload × (m.len < 2 ^ 64)

abbrev pub IsLinked : Option SocketState → Type 0
IsLinked none = ⊥
IsLinked (some socket) = Unit

pub record IsSound (c : Connection) : Type 0 where
  pub linked : IsLinked c.socket
  pub owned : IsOwned c.last_message

-- Between two frames no message is complete: it would have been delivered.
pub record IsResting (c : Connection) : Type 0 where
  pub sound : IsSound c
  pub pending : c.last_message.complete ≡ false

-- What sending leaves alone: everything but the record of what was sent and asked for.
pub record SameButIo (c d : Connection) : Type 0 where
  pub same_type : d.ws_type ≡ c.ws_type
  pub same_state : d.state ≡ c.state
  pub same_message : d.last_message ≡ c.last_message
  pub same_user : d.user_data ≡ c.user_data
  pub same_sec : d.tv_sec ≡ c.tv_sec
  pub same_nsec : d.tv_nsec ≡ c.tv_nsec
  pub same_socket : d.socket ≡ c.socket
  pub same_client : d.client_socket ≡ c.client_socket
  pub same_delivered : d.delivered ≡ c.delivered

-- The connection is as open as it was, and has sent nothing more.
abbrev pub SameLink : Connection → Connection → Type 0
SameLink c d = (d.socket ≡ c.socket) × (d.state ≡ c.state) × (d.sent ≡ c.sent)

-- A connection after `websocket_closeConnection`: the message is dropped, no other message was
-- delivered, and the socket is told to go down.
pub record IsClosing (c d : Connection) : Type 0 where
  pub same_type : d.ws_type ≡ c.ws_type
  pub same_state : d.state ≡ c.state
  pub same_client : d.client_socket ≡ c.client_socket
  pub same_delivered : d.delivered ≡ c.delivered
  pub no_payload : d.last_message.payload ≡ none
  pub no_length : d.last_message.len ≡ 0
  pub not_complete : d.last_message.complete ≡ false
  pub linked : IsLinked d.socket

-- A callback that, given a complete message, keeps the connection sound: it may send and close, and does not set up a message
-- of its own.
abbrev pub KeepsSoundBy : Option (DataType × List ℕ → Connection → Option Connection) → Type 0
KeepsSoundBy none = Unit
KeepsSoundBy (some callback) =
    (m : DataType × List ℕ) (c : Connection)
    → IsSound c
    → c.last_message.complete ≡ true
    → Ensures
        (λ d.
          IsSound d
          × (d.ws_type ≡ c.ws_type)
          × ((d.last_message.payload ≡ none) ⊎ (d.last_message.complete ≡ true)))
        (callback m c)

abbrev pub KeepsSound : Env → Type 0
KeepsSound env = KeepsSoundBy env.on_message
