-- ===== src/SocketServer/Drain.antt =====
-- The loop of `connectionThread` that hands over what was received.
use ezwebsocket.Prelude.{
  ℕ, zero, suc, ◌-◌, ◌≤◌, ◌<◌, ◌≡◌, refl, ◌⊎◌, inl, inr, arith, Bool, true, false, not, ◌&&◌, List,
  Option, some, if◌then◌else◌, ◌==◌, length, drop,
}
use ezwebsocket.Prelude.{
  ap, sym, [], ◌∷◌, length-drop, Ensures, Ensures-if, Ensures-some, Ensures-weaken,
}
use ezwebsocket.DynBuffer.{DynBuffer, remove_leading_bytes, unread}
use ezwebsocket.DynBuffer.Bounds.{IsFit, length-unread, remove_leading_bytes-IsFit}
use ezwebsocket.SocketServer.{drain}

shorter :
    (count : ℕ) (b b' : DynBuffer) (fuel : ℕ)
    → 0 < count
    → b.used < suc fuel
    → b'.used ≡ b.used - count
    → count ≤ b.used
    → b'.used < fuel
shorter count b b' fuel some_taken enough left few = omega arith

-- One round, where it is known what `socket_onMessage` takes.
pub drain_step :
    {A : Type 0} (is_up : A → Bool) (on_message : A → List ℕ → Option (ℕ × A)) (fuel : ℕ) (c c' : A)
    (b : DynBuffer) (count : ℕ)
    → on_message c (unread b) ≡ some (count, c')
    → drain is_up on_message (suc fuel) c b ≡ (
        if not (count == 0) && not ((remove_leading_bytes b count).1.used == 0) && is_up c'
        then drain is_up on_message fuel c' (remove_leading_bytes b count).1
        else some (c', (remove_leading_bytes b count).1))
unfolding drain
drain_step is_up on_message fuel c c' b count takes = rw takes refl

-- The rounds of the loop as steps on the bytes that are not handed over yet: each hands over what the
-- one before has not taken. The loop stops where nothing is taken or left, or the connection is down.
pub data Drains {A : Type 0} (is_up : A → Bool) (on_message : A → List ℕ → Option (ℕ × A))
    : A → List ℕ → A → List ℕ → Type 0 where
  stops :
      (c c' : A) (bytes rest : List ℕ) (count : ℕ)
      → on_message c bytes ≡ some (count, c')
      → rest ≡ drop count bytes
      → (count ≡ 0) ⊎ (rest ≡ []) ⊎ (is_up c' ≡ false)
      → Drains is_up on_message c bytes c' rest
  goes_on :
      (c c' d : A) (bytes rest left : List ℕ) (count : ℕ)
      → on_message c bytes ≡ some (count, c')
      → rest ≡ drop count bytes
      → (0 < count) × (0 < length rest) × (is_up c' ≡ true)
      → Drains is_up on_message c' rest d left
      → Drains is_up on_message c bytes d left

module _ {A : Type 0} (is_up : A → Bool) (on_message : A → List ℕ → Option (ℕ × A))
    (I : A → List ℕ → Type 0) where
  -- What the reader promises of the bytes that it can be handed: it returns and takes no more than
  -- there is, and either the loop stops then, or it can be handed what is left.
  abbrev pub IsReader : Type 0
  IsReader =
      (c : A) (bytes : List ℕ)
      → I c bytes
      → Ensures
          (λ out.
            (out.0 ≤ length bytes)
            × ((out.0 ≡ 0)
                ⊎ (drop out.0 bytes ≡ [])
                ⊎ (is_up out.1 ≡ false)
                ⊎ I out.1 (drop out.0 bytes)))
          (on_message c bytes)

  -- The next round can be made, where there is one.
  next :
      (count used : ℕ) (c : A) (rest : List ℕ)
      → used ≡ length rest
      → (not (count == 0) && not (used == 0) && is_up c) ≡ true
      → (count ≡ 0) ⊎ (rest ≡ []) ⊎ (is_up c ≡ false) ⊎ I c rest
      → I c rest
  next count used c rest long more (inl nothing) = absurd (ground arith)
  next count used c rest long more (inr (inl empty)) = absurd (ground (arith, ap length empty))
  next count used c rest long more (inr (inr (inl down))) = absurd (ground arith)
  next count used c rest long more (inr (inr (inr reads))) = reads

  more_left :
      (count used : ℕ) (c : A) (rest : List ℕ)
      → used ≡ length rest
      → (not (count == 0) && not (used == 0) && is_up c) ≡ true
      → (0 < count) × (0 < length rest) × (is_up c ≡ true)
  more_left count used c rest long more = ground arith

  -- Why the loop stops.
  why :
      (count used : ℕ) (c : A) (rest : List ℕ)
      → used ≡ length rest
      → (not (count == 0) && not (used == 0) && is_up c) ≡ false
      → (count ≡ 0) ⊎ (rest ≡ []) ⊎ (is_up c ≡ false)
  why count used c [] long end = inr (inl refl)
  why zero used c (x ∷ rest) long end = inl refl
  why (suc count) used c (x ∷ rest) long end = inr (inr (ground arith))

  -- For a well-formed buffer with bytes that the reader can be handed, the loop of `connectionThread`
  -- ends within one round more than there are bytes in the buffer. Each round hands over exactly what
  -- the one before has not taken, until nothing is taken or left or the connection is down; what the
  -- last one has not taken is left in the buffer, which is well formed.
  pub drain-ends :
      IsReader
      → (fuel : ℕ) (c : A) (b : DynBuffer) → I c (unread b)
      → IsFit b
      → b.used < fuel
      → Ensures
          (λ out. Drains is_up on_message c (unread b) out.0 (unread out.1) × IsFit out.1)
          (drain is_up on_message fuel c b)
  unfolding drain
  drain-ends reads zero c b inv fit enough = absurd (omega arith)
  drain-ends reads (suc fuel) c b inv fit enough =
      let read = reads c (unread b) inv in
      let count = read.result.0 in
      let c' = read.result.1 in
      let few : count ≤ b.used = omega (arith, read.holds.0, length-unread b fit) in
      let b' = (remove_leading_bytes b count).1 in
      let (fit', left) = remove_leading_bytes-IsFit b count fit few in
      let size' : length (unread b') ≡ b'.used = length-unread b' fit' in
      rw read.returns (
        Ensures-if (not (count == 0) && not (b'.used == 0) && is_up c')
          (λ more.
            Ensures-weaken
              (drain-ends reads fuel c' b'
                (next count b'.used c' (unread b') (sym size') more (rw left read.holds.1)) fit'
                (shorter count b b' fuel (ground arith) enough
                  (omega (
                    arith,
                    size',
                    ap length left,
                    length-drop count (unread b),
                    length-unread b fit,
                  ))
                  few))
              (λ done k. (
                goes_on c c' done.0 (unread b) (unread b') (unread done.1) count read.returns left
                    (more_left count b'.used c' (unread b') (sym size') more) (k.0),
                k.1,
              )))
          (λ end. Ensures-some _ (
            stops c c' (unread b) (unread b') count read.returns left
                (why count b'.used c' (unread b') (sym size') end),
            fit',
          )))
