-- ===== src/Message/Assembly.antt =====
-- What lib/ezwebsocket.c promises of the data frames of a connection: an abstract receiver that has
-- no buffers and no allocators, and what a connection that stands for it looks like.
pub mod First
pub mod Next
pub mod Parts
pub mod Fragments
use ezwebsocket.Prelude.{ℕ, IsBytes, ◌≡◌, ◌≢◌, Bool, true, false, not, List, [], ◌∷◌, ◌++◌}
use ezwebsocket.Prelude.{Option, none, some, if◌then◌else◌, ◌>>=◌}
use ezwebsocket.Frame.{Opcode, continuation}
use ezwebsocket.Utf8.{fail, utf8_validate}
use ezwebsocket.Connection.{
  DataType, text_data, binary_data, Connection, opcode_for, contents_of, frame_of,
}
use ezwebsocket.Connection.Invariant.{IsResting}
use ezwebsocket.Message.{bad_text}

-- A data frame: the first one of a message, which says its type, or one that continues it; with the
-- flag of the last frame and the payload.
pub data Part : Type 0 where
  first : DataType → Bool → List ℕ → Part
  next : Bool → List ℕ → Part

abbrev pub part_opcode : Part → Opcode
part_opcode (first type fin msg) = opcode_for type
part_opcode (next fin msg) = continuation

abbrev pub is_last : Part → Bool
is_last (first type fin msg) = fin
is_last (next fin msg) = fin

abbrev pub payload_of : Part → List ℕ
payload_of (first type fin msg) = msg
payload_of (next fin msg) = msg

-- The message that has been begun: its type, and its bytes so far.
abbrev pub Pending : Type 0
Pending = Option (DataType × List ℕ)

-- A text may go on while it is not wrong, and must be whole at its last frame.
abbrev pub accepts : DataType → Bool → List ℕ → Bool
accepts text_data fin all = not (bad_text fin (utf8_validate all 0).0)
accepts binary_data fin all = true

-- The message so far is kept or, after its last frame, given away.
abbrev pub keep_or_give : DataType → Bool → List ℕ → Pending × List (DataType × List ℕ)
keep_or_give type true all = (none, (type, all) ∷ [])
keep_or_give type false all = (some (type, all), [])

abbrev pub extend : DataType → Bool → List ℕ → Option (Pending × List (DataType × List ℕ))
extend type fin all = if accepts type fin all then some (keep_or_give type fin all) else none

-- One frame: what is pending after it, and the messages given away; `none` where the protocol does
-- not allow the frame.
abbrev pub assemble : Pending → Part → Option (Pending × List (DataType × List ℕ))
assemble none (first type fin msg) = extend type fin msg
assemble none (next fin msg) = none
assemble (some message) (first type fin msg) = none
assemble (some message) (next fin msg) = extend (message.0) fin (message.1 ++ msg)

-- The handle carries what is known of the text so far.
abbrev pub IsValidated : DataType → List ℕ → ℕ → Type 0
IsValidated text_data all handle =
    (handle ≡ (utf8_validate all 0).1) × ((utf8_validate all 0).0 ≢ fail)
IsValidated binary_data all handle = Unit

-- The connection has received this much of a message.
pub record HasPart (type : DataType) (all : List ℕ) (c : Connection) : Type 0 where
  pub begun : c.last_message.first_received ≡ true
  pub same_type : c.last_message.data_type ≡ type
  pub same_contents : contents_of c.last_message.payload ≡ all
  pub validated : IsValidated type all c.last_message.utf8_handle

-- The connection stands for the pending message.
abbrev pub Represents : Pending → Connection → Type 0
Represents none c =
    IsResting c × (c.last_message.payload ≡ none) × (c.last_message.first_received ≡ false)
Represents (some message) c = IsResting c × HasPart (message.0) (message.1) c

-- Frames in their order; what is given away is newest first, as a connection records it.
abbrev pub assemble_all : Pending → List Part → Option (Pending × List (DataType × List ℕ))
assemble_all p [] = some (p, [])
assemble_all p (part ∷ parts) = do
  r ← assemble p part
  s ← assemble_all (r.0) parts
  some (s.0, s.1 ++ r.1)

-- The bytes kept.
abbrev pub pending_bytes : Pending → List ℕ
pending_bytes none = []
pending_bytes (some message) = message.1

-- A frame with the mask that its sender drew.
abbrev pub bytes_of : Bool → Part × ℕ → List ℕ
bytes_of masked (part, mask) =
    frame_of (part_opcode part) (is_last part) masked mask (payload_of part)

abbrev pub stream : Bool → List (Part × ℕ) → List ℕ
stream masked [] = []
stream masked (frame ∷ frames) = bytes_of masked frame ++ stream masked frames

abbrev pub parts_of : List (Part × ℕ) → List Part
parts_of [] = []
parts_of (frame ∷ frames) = frame.0 ∷ parts_of frames

abbrev pub HasBytes : Part × ℕ → Type 0
HasBytes frame = IsBytes (payload_of (frame.0))
