-- ===== src/Message/Assembly/Fragments.antt =====
-- A message in fragments, for the abstract receiver.
use ezwebsocket.Prelude.{◌≡◌, refl, append_assoc, arith}
use ezwebsocket.Prelude.{true, false, ℕ, List, [], ◌∷◌, ◌++◌, none, some}
use ezwebsocket.Utf8.Fragments.{prefix_alive}
use ezwebsocket.Connection.{DataType, text_data, binary_data}
use ezwebsocket.Message.Assembly.{Part, first, next, accepts, assemble_all}

-- The frames behind the first one.
abbrev pub more_parts : List ℕ → List (List ℕ) → List Part
more_parts piece [] = next true piece ∷ []
more_parts piece (other ∷ others) = next false piece ∷ more_parts other others

-- A message cut into pieces.
abbrev pub fragments : DataType → List ℕ → List (List ℕ) → List Part
fragments type piece [] = first type true piece ∷ []
fragments type piece (other ∷ others) = first type false piece ∷ more_parts other others

-- The message.
abbrev pub whole : List ℕ → List (List ℕ) → List ℕ
whole piece [] = piece
whole piece (other ∷ others) = piece ++ whole other others

-- The beginning of what is accepted at last is accepted on the way.
accepts_prefix :
    (type : DataType) (xs ys : List ℕ)
    → accepts type true (xs ++ ys) ≡ true
    → accepts type false xs ≡ true
accepts_prefix text_data xs ys accepted = ground (arith, prefix_alive xs ys)
accepts_prefix binary_data xs ys accepted = refl

assemble_all-more_parts :
    (type : DataType) (xs piece : List ℕ) (others : List (List ℕ))
    → accepts type true (xs ++ whole piece others) ≡ true
    → assemble_all (some (type, xs)) (more_parts piece others)
      ≡ some (none, (type, xs ++ whole piece others) ∷ [])
assemble_all-more_parts type xs piece [] accepted = rw accepted refl
assemble_all-more_parts type xs piece (other ∷ others) accepted =
    let both = append_assoc xs piece (whole other others) in
    let accepted' : accepts type true ((xs ++ piece) ++ whole other others) ≡ true =
      rw both accepted in
    rw
      (
        accepts_prefix type (xs ++ piece) (whole other others) accepted',
        assemble_all-more_parts type (xs ++ piece) other others accepted',
        both,
      )
      refl

-- The fragments of an acceptable message give that message.
pub assemble_all-fragments :
    (type : DataType) (piece : List ℕ) (others : List (List ℕ))
    → accepts type true (whole piece others) ≡ true
    → assemble_all none (fragments type piece others) ≡ some (none, (type, whole piece others) ∷ [])
assemble_all-fragments type piece [] accepted = rw accepted refl
assemble_all-fragments type piece (other ∷ others) accepted =
    rw
      (
        accepts_prefix type piece (whole other others) accepted,
        assemble_all-more_parts type piece other others accepted,
      )
      refl
