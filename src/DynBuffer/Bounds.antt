-- ===== src/DynBuffer/Bounds.antt =====
-- What the receive buffer holds, and that it stays inside its block.
use ezwebsocket.Prelude.{ap, ℕ, zero, suc, ◌+◌, ◌-◌, ◌≤◌, ◌<◌, ◌%◌, ◌^◌, ◌≡◌, ◌≢◌, refl, ◌⊎◌, arith}
use ezwebsocket.Prelude.{
  Bool, true, false, List, [], ◌∷◌, ◌++◌, Option, none, some, length, take, drop,
}
use ezwebsocket.Prelude.{Ensures, ensure, length-append, length-drop}
use ezwebsocket.DynBuffer.{
  DynBuffer, init, bytes_free, reallocate, increase_to, remove_leading_bytes, receive, unread,
}

-- The used cells are there, inside the block; without a block nothing is used.
abbrev pub IsWithin : Option (List ℕ) → ℕ → ℕ → Type 0
IsWithin none used size = (used ≡ 0) × (size ≡ 0)
IsWithin (some cells) used size = (length cells ≡ used) × (used ≤ size) × (size < 2 ^ 64)

unfoldable pub IsFit : DynBuffer → Type 0
IsFit b = IsWithin b.memory b.used b.size

take_whole : (xs : List ℕ) (n : ℕ) → length xs ≡ n → take n xs ≡ xs
take_whole [] n e = ground arith
take_whole (x ∷ xs) zero e = absurd (omega arith)
take_whole (x ∷ xs) (suc n) e = ap (◌∷◌ x) (take_whole xs n (omega arith))

drop_all : (xs : List ℕ) (n : ℕ) → length xs ≤ n → drop n xs ≡ []
drop_all [] zero few = refl
drop_all [] (suc n) few = refl
drop_all (x ∷ xs) zero few = absurd (omega arith)
drop_all (x ∷ xs) (suc n) few = drop_all xs n (omega arith)

-- After `dynBuffer_increase_to` on a well-formed buffer, where the sizes fit a `size_t`, the buffer
-- is well formed; either the wanted room is there and nothing that was received is lost, or memory
-- was refused, the answer is -1 and the buffer is empty.
pub increase_to-IsFit :
    (got : Bool) (b : DynBuffer) (wanted : ℕ)
    → IsFit b
    → b.used + wanted < 2 ^ 64
    → IsFit (increase_to got b wanted).1
      × (((increase_to got b wanted).0 ≡ true)
            × (wanted ≤ bytes_free (increase_to got b wanted).1)
            × (unread (increase_to got b wanted).1 ≡ unread b)
          ⊎ ((increase_to got b wanted).0 ≡ false)
            × (got ≡ false)
            × ((increase_to got b wanted).1 ≡ init))
unfolding increase_to reallocate IsFit bytes_free init unread
increase_to-IsFit got b wanted fit room = by_memory b.memory b.used b.size fit room
  where
    by_memory :
        (memory : Option (List ℕ)) (used size : ℕ)
        → IsWithin memory used size
        → used + wanted < 2 ^ 64
        → (let b' : DynBuffer = record { memory = memory; used = used; size = size } in
            IsFit (increase_to got b' wanted).1
            × (((increase_to got b' wanted).0 ≡ true)
                  × (wanted ≤ bytes_free (increase_to got b' wanted).1)
                  × (unread (increase_to got b' wanted).1 ≡ unread b')
                ⊎ ((increase_to got b' wanted).0 ≡ false)
                  × (got ≡ false)
                  × ((increase_to got b' wanted).1 ≡ init)))
    by_memory none used size fit room = ground arith
    by_memory (some cells) used size fit room = ground (arith, take_whole cells used fit.0)

-- From a well-formed buffer with so many bytes, `dynBuffer_removeLeadingBytes` takes exactly the
-- first `count`, and the buffer stays well formed.
pub remove_leading_bytes-IsFit :
    (b : DynBuffer) (count : ℕ)
    → IsFit b
    → count ≤ b.used
    → IsFit (remove_leading_bytes b count).1
      × (unread (remove_leading_bytes b count).1 ≡ drop count (unread b))
unfolding remove_leading_bytes IsFit init unread
remove_leading_bytes-IsFit b count fit enough = by_memory b.memory b.used b.size fit enough
  where
    by_memory :
        (memory : Option (List ℕ)) (used size : ℕ)
        → IsWithin memory used size
        → count ≤ used
        → (let b' : DynBuffer = record { memory = memory; used = used; size = size } in
            IsFit (remove_leading_bytes b' count).1
            × (unread (remove_leading_bytes b' count).1 ≡ drop count (unread b')))
    by_memory none used size fit enough = ground arith
    by_memory (some cells) used size fit enough = ground (
      arith,
      take_whole cells used fit.0,
      length-drop count cells,
      take_whole (drop count cells) (used - count),
      drop_all cells count,
    )

-- What `recv` puts into a well-formed, allocated buffer with room for it stays inside the block and
-- stands behind what was there; the buffer stays well formed.
pub receive-IsFit :
    (b : DynBuffer) (received : List ℕ)
    → IsFit b
    → b.memory ≢ none
    → length received ≤ bytes_free b
    → Ensures (λ d. IsFit d × (unread d ≡ unread b ++ received)) (receive b received)
unfolding receive IsFit unread bytes_free
receive-IsFit b received fit there room = by_memory b.memory b.used b.size fit there room
  where
    by_memory :
        (memory : Option (List ℕ)) (used size : ℕ)
        → IsWithin memory used size
        → memory ≢ none
        → length received ≤ (size + (2 ^ 64 - used)) % 2 ^ 64
        → (let b' : DynBuffer = record { memory = memory; used = used; size = size } in
            Ensures (λ d. IsFit d × (unread d ≡ unread b' ++ received)) (receive b' received))
    by_memory none used size fit there room = absurd (there refl)
    by_memory (some cells) used size fit there room = ensure _ (
        ground (
          arith,
          take_whole cells used fit.0,
          length-append cells received,
          take_whole (cells ++ received) (used + length received),
        ))

pub length-unread : (b : DynBuffer) → IsFit b → length (unread b) ≡ b.used
unfolding IsFit unread
length-unread b fit = by_memory b.memory b.used b.size fit
  where
    by_memory :
        (memory : Option (List ℕ)) (used size : ℕ)
        → IsWithin memory used size
        → length (unread (record { memory = memory; used = used; size = size })) ≡ used
    by_memory none used size fit = ground arith
    by_memory (some cells) used size fit = ground (arith, take_whole cells used fit.0)

-- A buffer that just these bytes were received into.
abbrev pub filled : List ℕ → DynBuffer
filled bytes = record { memory = some bytes; used = length bytes; size = length bytes }

pub filled-IsFit :
    (bytes : List ℕ)
    → length bytes < 2 ^ 64
    → IsFit (filled bytes) × (unread (filled bytes) ≡ bytes)
unfolding IsFit unread
filled-IsFit bytes small = ((refl, omega arith, small), take_whole bytes (length bytes) refl)

-- A well-formed buffer with room has a block.
pub bytes_free-memory : (b : DynBuffer) → IsFit b → 0 < bytes_free b → b.memory ≢ none
unfolding IsFit bytes_free
bytes_free-memory b fit room empty = by_memory b.memory b.used b.size fit room empty
  where
    by_memory :
        (memory : Option (List ℕ)) (used size : ℕ)
        → IsWithin memory used size
        → 0 < (size + (2 ^ 64 - used)) % 2 ^ 64
        → memory ≢ none
    by_memory none used size fit room empty = absurd (ground arith)
    by_memory (some cells) used size fit room empty = absurd (ground arith)
