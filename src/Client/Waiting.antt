-- ===== src/Client/Waiting.antt =====
-- The loop that waits for the handshake.
use ezwebsocket.Prelude.{ℕ, zero, suc, ◌+◌, ◌<◌, ◌≡◌, subst, arith}
use ezwebsocket.Prelude.{Bool, true, false, Option, some, if◌then◌else◌, ltb}
use ezwebsocket.Prelude.{Ensures, Ensures-some, Ensures-if}
use ezwebsocket.Connection.{WsState, handshake, connected, closed}
use ezwebsocket.Receive.{message_timeout_s}
use ezwebsocket.Client.{wait_open}

-- The state at some round: the handshake is over.
abbrev pub IsOver : WsState → Type 0
IsOver handshake = ⊥
IsOver connected = Unit
IsOver closed = Unit

round_over :
    (now : WsState) (late : Bool) (rest : Option Bool) (P : Bool → Type 0)
    → (IsOver now → P true)
    → (late ≡ true → P false)
    → (late ≡ false → Ensures P rest)
    → Ensures P (elim now [
      | handshake ↦ if late then some false else rest
      | connected ↦ some true
      | closed ↦ some true
    ])
round_over handshake late rest P over times_out goes_on =
    Ensures-if late (λ e. Ensures-some false (times_out e)) (λ e. goes_on e)
round_over connected late rest P over times_out goes_on = Ensures-some true (over tt)
round_over closed late rest P over times_out goes_on = Ensures-some true (over tt)

-- The clock has passed the limit in a later round, so there is one.
pub some_left :
    (clock : ℕ → ℕ) (limit round fuel : ℕ)
    → ltb limit (clock round) ≡ false
    → limit < clock (round + fuel)
    → 0 < fuel
some_left clock limit round zero early late =
    let late' : limit < clock round =
      subst (λ k. limit < clock k) {x = round + 0} (omega arith) late in
    absurd (ground arith)
some_left clock limit round (suc fuel) early late = omega arith

-- What the answer says: the handshake was over at some round, or the clock had passed the timeout.
abbrev pub SaysOpen : (ℕ → WsState) → (ℕ → ℕ) → ℕ → Bool → Type 0
SaysOpen state clock start true = (k : ℕ) × IsOver (state k)
SaysOpen state clock start false = (k : ℕ) × (start + message_timeout_s < clock k)

-- The loop of `websocketClient_open` that waits for the handshake ends by the round at which the clock
-- has passed the timeout: it answers that the handshake is over only where the state says so, and that
-- it is not only after the timeout.
pub wait_open-ends :
    (state : ℕ → WsState) (clock : ℕ → ℕ) (start fuel round : ℕ)
    → start + message_timeout_s < clock (round + fuel)
    → 0 < fuel
    → Ensures (SaysOpen state clock start) (wait_open state clock start fuel round)
unfolding wait_open
wait_open-ends state clock start zero round late some_fuel = absurd (omega arith)
wait_open-ends state clock start (suc fuel) round late some_fuel =
    round_over (state round) (ltb (start + message_timeout_s) (clock (round + 1)))
      (wait_open state clock start fuel (round + 1)) (SaysOpen state clock start)
      (λ over. (round, over)) (λ e. (round + 1, ground arith))
      λ e.
        let late' : start + message_timeout_s < clock (round + 1 + fuel) =
          subst (λ k. start + message_timeout_s < clock k) {x = round + suc fuel} (omega arith)
            late in
        wait_open-ends state clock start fuel (round + 1) late'
          (some_left clock (start + message_timeout_s) (round + 1) fuel e late')
