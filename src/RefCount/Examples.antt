-- ===== src/RefCount/Examples.antt =====
-- An object with one reference, and calls on it.
use ezwebsocket.Prelude.{◌+◌, ◌≡◌, refl, arith, [], ◌∷◌}
use ezwebsocket.RefCount.{RefCntObj, Shared, Reach, starts, refcnt_allocate}
use ezwebsocket.RefCount.Sharing.{IsCounted, Reach-IsCounted, frees_repeat}
use ezwebsocket.RefCount.Sequence.{ref, unref, run, run-frees}

abbrev fresh : RefCntObj
fresh = record { cnt = 1; frees = 0 }

abbrev owned : Shared
owned = record { object = fresh; holders = 1; deciding = 0 }

owned-Reach : Reach owned
unfolding refcnt_allocate
owned-Reach = starts fresh refl

Reach-IsCounted_example : IsCounted owned
Reach-IsCounted_example = Reach-IsCounted owned owned-Reach

frees_repeat_example : (s : Shared) × Reach s × (s.object.frees ≡ 1 + 1)
frees_repeat_example = frees_repeat 1 (omega arith)

run-frees_example :
    ((run fresh (ref ∷ unref ∷ unref ∷ [])).cnt ≡ 0)
    × ((run fresh (ref ∷ unref ∷ unref ∷ [])).frees ≡ 1)
run-frees_example = run-frees (ref ∷ unref ∷ unref ∷ []) fresh 1 0 refl refl refl (omega arith)
