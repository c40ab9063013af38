-- ===== src/Reading/Complete.antt =====
-- The inner loop that reads what has arrived.
use ezwebsocket.Prelude.{
  ℕ, zero, suc, ◌+◌, ◌-◌, ◌*◌, ◌≤◌, ◌<◌, ◌^◌, ◌≡◌, ◌≢◌, refl, ap, sym, subst, ◌∙◌, arith,
  append-nil, append_assoc,
}
use ezwebsocket.Prelude.{
  Bool, true, false, ◌&&◌, List, [], ◌∷◌, ◌++◌, Option, none, some, if◌then◌else◌, ◌>>=◌, ◌==◌,
  length, take, drop, length-drop, length-take, length-append, min, take-append-drop,
}
use ezwebsocket.Prelude.{Ensures, Ensures-some, Ensures-if, Ensures-bind, Ensures-weaken}
use ezwebsocket.Connection.{WsType, client, server}
use ezwebsocket.DynBuffer.{DynBuffer, bytes_free, unread}
use ezwebsocket.DynBuffer.Bounds.{
  IsFit, increase_to-IsFit, receive-IsFit, bytes_free-memory, length-unread,
}
use ezwebsocket.Reading.{chunk_size, store, make_room, read_all}

-- What `recv` does on an open socket that does not block: with room, it takes the first bytes that
-- have arrived, as many as there is room for, and answers -1 where there are none.
pub record IsSocket {W : Type 0} (recv : ℕ → W → Option (List ℕ) × W) (arrived : W → List ℕ)
    : Type 0 where
  pub takes :
      (room : ℕ) (w : W)
      → 0 < room
      → arrived w ≢ []
      → (recv room w).0 ≡ some (take room (arrived w))
  pub leaves : (room : ℕ) (w : W) → 0 < room → arrived (recv room w).1 ≡ drop room (arrived w)
  pub blocks : (room : ℕ) (w : W) → 0 < room → arrived w ≡ [] → (recv room w).0 ≡ none

module _ {W : Type 0} (recv : ℕ → W → Option (List ℕ) × W) (got : ℕ → Bool)
    (memory : (size : ℕ) → got size ≡ true) where
  -- There is room, nothing is lost, and the next chunk is not much larger.
  abbrev HasRoom : DynBuffer → ℕ → DynBuffer × ℕ → Type 0
  HasRoom b increase out =
      IsFit out.0
      × (0 < bytes_free out.0)
      × (unread out.0 ≡ unread b)
      × (0 < out.1)
      × (out.1 ≤ increase + 1)

  make_room-HasRoom :
      (type : WsType) (increase : ℕ) (b : DynBuffer)
      → IsFit b
      → 0 < increase
      → b.used + chunk_size type * increase < 2 ^ 64
      → HasRoom b increase (make_room recv got type increase b)
  unfolding make_room
  make_room-HasRoom server increase b fit some_increase small = ground (
    arith,
    increase_to-IsFit (got (1024 * increase)) b (1024 * increase) fit small,
    memory (1024 * increase),
  )
  make_room-HasRoom client increase b fit some_increase small = ground (
    arith,
    increase_to-IsFit (got (2048 * increase)) b (2048 * increase) fit small,
    memory (2048 * increase),
  )

  -- All that has arrived was read, behind what was there.
  abbrev pub ReadsAll : (W → List ℕ) → W → DynBuffer → Bool × W × DynBuffer → Type 0
  ReadsAll arrived w b out =
      (out.0 ≡ true) × (arrived out.1 ≡ []) × IsFit out.2 × (unread out.2 ≡ unread b ++ arrived w)

  -- Storing what `recv` answers.
  store-fits :
      (b : DynBuffer) (received : List ℕ)
      → IsFit b
      → 0 < bytes_free b
      → length received ≤ bytes_free b
      → Ensures (λ d. IsFit d × (unread d ≡ unread b ++ received)) (store b received)
  store-fits b [] fit some_room room = Ensures-some b (fit, sym (append-nil (unread b)))
  store-fits b (x ∷ xs) fit some_room room =
      Ensures-if (length (x ∷ xs) == 0) (λ nothing. absurd (ground arith))
        (λ something. receive-IsFit b (x ∷ xs) fit (bytes_free-memory b fit some_room) room)

  -- One answer of `recv`, by what it is.
  on_answer :
      (answer : Option (List ℕ)) (first : Bool) (w1 : W) (b1 : DynBuffer)
      (rest : DynBuffer → Option (Bool × W × DynBuffer)) (P : Bool × W × DynBuffer → Type 0)
      → (answer ≡ none → P (true, w1, b1))
      → ((received : List ℕ)
          → answer ≡ some received
          → (0 < length received)
            × Ensures
                (λ b2.
                  (length received ≡ bytes_free b1 → Ensures P (rest b2))
                  × (length received ≢ bytes_free b1 → P (true, w1, b2)))
                (store b1 received))
      → Ensures P (elim answer [
        | none ↦ some (true, w1, b1)
        | some received ↦ if first && length received == 0 then some (false, w1, b1) else (do
          b2 ← store b1 received
          let next = rest b2
          if length received == bytes_free b1 then next else some (true, w1, b2))
      ])
  on_answer none first w1 b1 rest P stops goes_on = Ensures-some _ (stops refl)
  on_answer (some received) first w1 b1 rest P stops goes_on =
      let (some_received, stored) = goes_on received refl in
      Ensures-if (first && length received == 0) (λ closed. absurd (ground arith))
        λ still_open. Ensures-bind stored λ b2 h.
          Ensures-if (length received == bytes_free b1) (λ full. h.0 (ground arith))
            (λ end. Ensures-some _ (h.1 (λ full. ground arith)))

  -- What is left is shorter.
  goes_down :
      (type : WsType) (used arrived increase taken used' increase' : ℕ)
      → used + arrived + chunk_size type * (increase + arrived) < 2 ^ 64
      → taken ≤ arrived
      → 0 < taken
      → used' ≡ used + taken
      → increase' ≤ increase + 1
      → used' + (arrived - taken) + chunk_size type * (increase' + (arrived - taken)) < 2 ^ 64
  goes_down server used arrived increase taken used' increase' small few some_taken more grows =
      omega arith
  goes_down client used arrived increase taken used' increase' small few some_taken more grows =
      omega arith

  starts_small :
      (type : WsType) (used arrived increase : ℕ)
      → used + arrived + chunk_size type * (increase + arrived) < 2 ^ 64
      → used + chunk_size type * increase < 2 ^ 64
  starts_small server used arrived increase small = omega arith
  starts_small client used arrived increase small = omega arith

  -- `recv` took so many of the bytes that had arrived.
  took :
      (arrived : W → List ℕ)
      → IsSocket recv arrived
      → (room : ℕ) (w : W) (received : List ℕ) → 0 < room
      → (recv room w).0 ≡ some received
      → (received ≡ take room (arrived w)) × (0 < length received)
  took arrived socket room w received some_room answer = by_arrived (arrived w) refl
    where
      by_arrived :
          (xs : List ℕ)
          → xs ≡ arrived w
          → (received ≡ take room (arrived w)) × (0 < length received)
      by_arrived [] is =
          let blocks = socket.blocks room w some_room (sym is) in absurd (ground arith)
      by_arrived (x ∷ xs) is =
          let takes = socket.takes room w some_room (λ e. cc) in
          let same : received ≡ take room (arrived w) = ground arith in
          (same, omega (arith, ap length same, length-take room (arrived w), ap length is))

  nothing_there :
      (arrived : W → List ℕ)
      → IsSocket recv arrived
      → (room : ℕ) (w : W) → 0 < room
      → (recv room w).0 ≡ none
      → arrived w ≡ []
  nothing_there arrived socket room w some_room answer = by_arrived (arrived w) refl
    where
      by_arrived : (xs : List ℕ) → xs ≡ arrived w → arrived w ≡ []
      by_arrived [] is = sym is
      by_arrived (x ∷ xs) is =
          let takes = socket.takes room w some_room (λ e. cc) in absurd (ground arith)

  no_bytes : (xs : List ℕ) → length xs ≡ 0 → xs ≡ []
  no_bytes [] none_left = refl
  no_bytes (x ∷ xs) none_left = absurd (omega arith)

  -- What was taken and what is left are what had arrived.
  rejoined :
      (old now new left arrived : List ℕ) (room : ℕ)
      → now ≡ old ++ new
      → new ≡ take room arrived
      → left ≡ drop room arrived
      → now ++ left ≡ old ++ arrived
  rejoined old now new left arrived room is_now is_new is_left =
      rw (is_now, is_new, is_left)
        (append_assoc old (take room arrived) (drop room arrived)
          ∙ ap (◌++◌ old) (take-append-drop room arrived))

  -- The loop ends and has read all, where `recv` does what is documented, memory can be had and the
  -- buffer and what has arrived fit a `size_t` together.
  pub read_all-reads :
      (arrived : W → List ℕ)
      → IsSocket recv arrived
      → (type : WsType) (fuel increase : ℕ) (first : Bool) (w : W) (b : DynBuffer) → IsFit b
      → 0 < increase
      → length (arrived w) < fuel
      → b.used + length (arrived w) + chunk_size type * (increase + length (arrived w)) < 2 ^ 64
      → Ensures (ReadsAll arrived w b) (read_all recv got type fuel increase first w b)
  unfolding read_all
  read_all-reads arrived socket type zero increase first w b fit some_increase enough small =
      absurd (omega arith)
  read_all-reads arrived socket type (suc fuel) increase first w b fit some_increase enough small =
      let made = make_room recv got type increase b in
      let b1 = made.0 in
      let room = bytes_free b1 in
      let w1 = (recv room w).1 in
      let (fit1, some_room, same, some_more, little_more) =
        make_room-HasRoom type increase b fit some_increase
          (starts_small type b.used (length (arrived w)) increase small) in
      let left : arrived w1 ≡ drop room (arrived w) = socket.leaves room w some_room in
      on_answer (recv room w).0 first w1 b1 (λ b2. read_all recv got type fuel made.1 false w1 b2)
        (ReadsAll arrived w b)
        (λ none_there.
          let empty = nothing_there arrived socket room w some_room none_there in
          (
            refl,
            no_bytes (arrived w1)
                (omega (arith, ap length left, ap length empty, length-drop room (arrived w))),
            fit1,
            rw empty (same ∙ sym (append-nil (unread b))),
          ))
        λ received answer.
          let (took_them, some_received) = took arrived socket room w received some_room answer in
          let long : length received ≡ min room (length (arrived w)) =
            ap length took_them ∙ length-take room (arrived w) in
          let shorter : length (arrived w1) ≡ length (arrived w) - room =
            ap length left ∙ length-drop room (arrived w) in
          (
            some_received,
            Ensures-weaken (store-fits b1 received fit1 some_room (omega arith)) λ b2 h.
                let all =
                  rejoined (unread b) (unread b2) received (arrived w1) (arrived w) room
                    (rw (← same) h.1) took_them left in
                let used : b2.used ≡ b.used + length received = omega (
                  arith,
                  length-unread b2 (h.0),
                  ap length (h.1),
                  ap length same,
                  length-append (unread b1) received,
                  length-unread b fit,
                ) in
                (
                  λ full.
                      Ensures-weaken
                        (read_all-reads arrived socket type fuel made.1 false w1 b2 (h.0) some_more
                          (omega arith)
                          (subst (λ n. b2.used + n + chunk_size type * (made.1 + n) < 2 ^ 64)
                            {x = length (arrived w) - length received} (omega arith)
                            (goes_down type b.used (length (arrived w)) increase (length received)
                              b2.used made.1 small (omega arith) some_received used little_more)))
                        (λ out k. (k.0, k.1, k.2, k.3 ∙ all)),
                  λ end.
                      let empty : arrived w1 ≡ [] = no_bytes (arrived w1) (omega (arith, end)) in
                      (
                        refl,
                        empty,
                        h.0,
                        sym (append-nil (unread b2)) ∙ ap (◌++◌ (unread b2)) (sym empty) ∙ all,
                      ),
                ),
          )
