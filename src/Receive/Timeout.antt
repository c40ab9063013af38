-- ===== src/Receive/Timeout.antt =====
-- The timeout of a message that stays incomplete.
use ezwebsocket.Prelude.{
  ℕ, ◌+◌, ◌≤◌, ◌≡◌, refl, arith, if◌then◌else◌, ltb, ◌==◌, Ensures, Ensures-if, Ensures-some,
}
use ezwebsocket.Frame.{WsHeader}
use ezwebsocket.Connection.{Connection, Env}
use ezwebsocket.Message.{incomplete}
use ezwebsocket.Receive.{Timespec, message_timeout_s, after_message}

-- As long as the time that was recorded is not later than the clock, `websocket_onMessage` takes
-- nothing of an incomplete frame and keeps the message, and the recorded time still is not later
-- than the clock: the branch that drops a message after `MESSAGE_TIMEOUT_S` seconds is not reached.
pub timeout_never_fires :
    (env : Env) (now : Timespec) (len : ℕ) (header : WsHeader) (c : Connection)
    → c.tv_sec ≤ now.sec
    → Ensures
        (λ out. (out.0 ≡ 0) × (out.1.last_message ≡ c.last_message) × (out.1.tv_sec ≤ now.sec))
        (after_message env now len header incomplete c)
unfolding after_message
timeout_never_fires env now len header c ordered =
    Ensures-if (c.tv_sec == (if c.tv_nsec == 0 then 1 else 0))
      (λ _. Ensures-some _ (refl, refl, omega arith))
      λ _.
        Ensures-if (ltb (now.sec + message_timeout_s) c.tv_sec) (λ late. absurd (ground arith))
          (λ _. Ensures-some _ (refl, refl, ordered))
