-- ===== src/Message/CloseCode.antt =====
-- `checkCloseCode` against the codes that may be sent.
use ezwebsocket.Prelude.{ℕ, ◌≤◌, ◌≡◌, ◌⊎◌, ◌↔◌, true, arith}
use ezwebsocket.Message.{check_close_code}

-- The codes that RFC 6455 (section 7.4) and the registry behind it let an endpoint send: the defined
-- ones without those that must not appear in a frame, and the ranges for libraries and applications.
pub IsSendable : ℕ → Type 0
IsSendable code =
    ((1000 ≤ code) × (code ≤ 1003))
    ⊎ ((1007 ≤ code) × (code ≤ 1011))
    ⊎ ((3000 ≤ code) × (code ≤ 4999))

-- `checkCloseCode` accepts exactly the codes from 1000 to 1003, from 1007 to 1011 and from 3000 to
-- 4999.
pub check_close_code_iff : (code : ℕ) → (check_close_code code ≡ true) ↔ IsSendable code
unfolding check_close_code IsSendable
check_close_code_iff code = (λ h. ground arith, λ h. ground arith)
