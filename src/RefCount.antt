-- ===== src/RefCount.antt =====
-- The reference counts of lib/utils/ref_count.c. The count is an `int`, of which 32 bits are kept; an
-- object records how often it was freed.
pub mod Sharing
pub mod Sequence
mod Examples
use ezwebsocket.Prelude.{ℕ, ◌+◌, ◌-◌, ◌%◌, ◌^◌, ◌<◌, ◌≡◌, Bool, true, false, Option, none, some}
use ezwebsocket.Prelude.{if◌then◌else◌, ltb, ◌==◌}

-- `struct ref_cnt_obj`, without the data and the lock.
pub record RefCntObj : Type 0 where
  pub cnt : ℕ
  pub frees : ℕ

-- `refcnt_allocate`; `got` says whether its `malloc` succeeded.
pub refcnt_allocate : Bool → Option RefCntObj
refcnt_allocate got = if got then some (record { cnt = 1; frees = 0 }) else none

-- `refcnt_ref`: `atomic_fetch_add(&cnt, 1)`.
pub refcnt_ref : RefCntObj → RefCntObj
refcnt_ref r = record r { cnt = (r.cnt + 1) % 2 ^ 32 }

-- `atomic_fetch_sub(&cnt, 1)`.
pub fetch_sub : RefCntObj → RefCntObj
fetch_sub r = record r { cnt = (r.cnt + (2 ^ 32 - 1)) % 2 ^ 32 }

-- `if (ref->cnt == 0) { ...; free(ref); }`, which reads the count once more.
pub free_if_zero : RefCntObj → RefCntObj
free_if_zero r = if r.cnt == 0 then record r { frees = r.frees + 1 } else r

-- `refcnt_unref`, where no other thread comes in between.
pub refcnt_unref : RefCntObj → RefCntObj
refcnt_unref r = free_if_zero (fetch_sub r)

-- The same built for a C without atomic operations: under the lock, and not below -1.
pub refcnt_unref_locked : RefCntObj → RefCntObj
refcnt_unref_locked r = free_if_zero (if ltb r.cnt (2 ^ 31) then fetch_sub r else r)

-- An object that threads share: how many references they hold, and how many threads have taken one
-- away and not read the count again yet.
pub record Shared : Type 0 where
  pub object : RefCntObj
  pub holders : ℕ
  pub deciding : ℕ

-- One atomic access of some thread. A reference is passed on by a thread that holds one.
pub data Step : Shared → Shared → Type 0 where
  refs :
      (r : RefCntObj) (h d : ℕ)
      → h + 2 < 2 ^ 31
      → Step
          (record { object = r; holders = h + 1; deciding = d })
          (record { object = refcnt_ref r; holders = h + 2; deciding = d })
  subtracts :
      (r : RefCntObj) (h d : ℕ)
      → Step
          (record { object = r; holders = h + 1; deciding = d })
          (record { object = fetch_sub r; holders = h; deciding = d + 1 })
  decides :
      (r : RefCntObj) (h d : ℕ)
      → Step
          (record { object = r; holders = h; deciding = d + 1 })
          (record { object = free_if_zero r; holders = h; deciding = d })

-- The states that threads can bring an object to.
pub data Reach : Shared → Type 0 where
  starts :
      (r : RefCntObj)
      → refcnt_allocate true ≡ some r
      → Reach (record { object = r; holders = 1; deciding = 0 })
  steps : (s t : Shared) → Reach s → Step s t → Reach t
