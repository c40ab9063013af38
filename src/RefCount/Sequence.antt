-- ===== src/RefCount/Sequence.antt =====
-- References that one thread after the other takes and gives back.
use ezwebsocket.Prelude.{ℕ, zero, suc, ◌+◌, ◌^◌, ◌<◌, ◌≡◌, arith}
use ezwebsocket.Prelude.{List, [], ◌∷◌, Option, none, some, if◌then◌else◌, ◌==◌, length}
use ezwebsocket.RefCount.{
  RefCntObj, refcnt_ref, refcnt_unref, refcnt_unref_locked, fetch_sub, free_if_zero,
}

-- A call of `refcnt_ref` or of `refcnt_unref`.
pub data Call : Type 0 where
  ref unref : Call

-- The calls, in their order.
abbrev pub run : RefCntObj → List Call → RefCntObj
run r [] = r
run r (ref ∷ calls) = run (refcnt_ref r) calls
run r (unref ∷ calls) = run (refcnt_unref r) calls

-- How many references are held after the calls; who holds none can make no call.
abbrev pub held : ℕ → List Call → Option ℕ
held h [] = some h
held zero (call ∷ calls) = none
held (suc h) (ref ∷ calls) = held (suc (suc h)) calls
held (suc h) (unref ∷ calls) = held h calls

ref_counts :
    (r : RefCntObj) (h : ℕ)
    → r.cnt ≡ suc h
    → r.frees ≡ (if suc h == 0 then 1 else 0)
    → suc (suc h) < 2 ^ 31
    → ((refcnt_ref r).cnt ≡ suc (suc h))
      × ((refcnt_ref r).frees ≡ (if suc (suc h) == 0 then 1 else 0))
unfolding refcnt_ref
ref_counts r h counted freed room = ground arith

unref_counts :
    (r : RefCntObj) (h : ℕ)
    → r.cnt ≡ suc h
    → r.frees ≡ (if suc h == 0 then 1 else 0)
    → suc h < 2 ^ 31
    → ((refcnt_unref r).cnt ≡ h) × ((refcnt_unref r).frees ≡ (if h == 0 then 1 else 0))
unfolding refcnt_unref free_if_zero fetch_sub
unref_counts r h counted freed room = ground arith

-- Whatever calls are made one after the other, each by a holder of a reference, from an object with a
-- reference and never freed on, where there are less than 2 ^ 31 references: the count is the number
-- of references held, and the object has been freed once if that is 0, and else not.
pub run-frees :
    (calls : List Call) (r : RefCntObj) (h h' : ℕ)
    → r.cnt ≡ h
    → r.frees ≡ (if h == 0 then 1 else 0)
    → held h calls ≡ some h'
    → h + length calls < 2 ^ 31
    → ((run r calls).cnt ≡ h') × ((run r calls).frees ≡ (if h' == 0 then 1 else 0))
run-frees [] r h h' counted freed holds room = ground arith
run-frees (call ∷ calls) r zero h' counted freed holds room = absurd (ground arith)
run-frees (ref ∷ calls) r (suc h) h' counted freed holds room =
    let (counts, frees) = ref_counts r h counted freed (omega arith) in
    run-frees calls (refcnt_ref r) (suc (suc h)) h' counts frees holds (omega arith)
run-frees (unref ∷ calls) r (suc h) h' counted freed holds room =
    let (counts, frees) = unref_counts r h counted freed (omega arith) in
    run-frees calls (refcnt_unref r) h h' counts frees holds (omega arith)

-- The calls in the build for a C without atomic operations.
abbrev pub run_locked : RefCntObj → List Call → RefCntObj
run_locked r [] = r
run_locked r (ref ∷ calls) = run_locked (refcnt_ref r) calls
run_locked r (unref ∷ calls) = run_locked (refcnt_unref_locked r) calls

-- A holder's call does what the other build does.
locked_same : (r : RefCntObj) → r.cnt < 2 ^ 31 → refcnt_unref_locked r ≡ refcnt_unref r
unfolding refcnt_unref_locked refcnt_unref
locked_same r small = ground arith

-- Whatever calls are made one after the other in the build for a C without atomic operations, each by
-- a holder of a reference, from an object with a reference and never freed on, where there are less
-- than 2 ^ 31 references: the count is the number of references held, and the object has been freed
-- once if that is 0, and else not.
pub run_locked-frees :
    (calls : List Call) (r : RefCntObj) (h h' : ℕ)
    → r.cnt ≡ h
    → r.frees ≡ (if h == 0 then 1 else 0)
    → held h calls ≡ some h'
    → h + length calls < 2 ^ 31
    → ((run_locked r calls).cnt ≡ h') × ((run_locked r calls).frees ≡ (if h' == 0 then 1 else 0))
run_locked-frees [] r h h' counted freed holds room = ground arith
run_locked-frees (call ∷ calls) r zero h' counted freed holds room = absurd (ground arith)
run_locked-frees (ref ∷ calls) r (suc h) h' counted freed holds room =
    let (counts, frees) = ref_counts r h counted freed (omega arith) in
    run_locked-frees calls (refcnt_ref r) (suc (suc h)) h' counts frees holds (omega arith)
run_locked-frees (unref ∷ calls) r (suc h) h' counted freed holds room =
    let (counts, frees) = unref_counts r h counted freed (omega arith) in
    rw (run_locked, locked_same r (omega arith))
      (run_locked-frees calls (refcnt_unref r) h h' counts frees holds (omega arith))
