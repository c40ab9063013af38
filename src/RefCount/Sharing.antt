-- ===== src/RefCount/Sharing.antt =====
-- An object that several threads share.
use ezwebsocket.Prelude.{ℕ, ◌+◌, ◌-◌, ◌%◌, ◌^◌, ◌<◌, ◌≡◌, zero, suc, refl, subst, ◌⊎◌, arith}
use ezwebsocket.RefCount.{
  refcnt_allocate, refcnt_ref, fetch_sub, free_if_zero, Shared, Step, refs, subtracts, decides,
  Reach, starts, steps,
}

-- The count is that of the references; while there are any, nothing was freed; and what was not freed
-- is referred to, or some thread is about to read the count.
pub record IsCounted (s : Shared) : Type 0 where
  pub counted : s.object.cnt ≡ s.holders
  pub small : s.holders < 2 ^ 31
  pub alive : (s.holders ≡ 0) ⊎ (s.object.frees ≡ 0)
  pub kept : (0 < s.object.frees) ⊎ (0 < s.holders + s.deciding)

Step-IsCounted : (s t : Shared) → Step s t → IsCounted s → IsCounted t
unfolding refcnt_ref fetch_sub free_if_zero
Step-IsCounted s t (refs r h d room) inv = ground arith
Step-IsCounted s t (subtracts r h d) inv = ground arith
Step-IsCounted s t (decides r h d) inv = ground arith

-- Every state that threads can bring an allocated object to, by atomic accesses in any order, where a
-- reference is passed on and given back only by who holds one and there are less than 2 ^ 31:
-- the count is the number of references held; the object was not freed while one is held; and
-- once all are given back and every `refcnt_unref` has returned, it was freed.
pub Reach-IsCounted : (s : Shared) → Reach s → IsCounted s
unfolding refcnt_allocate
Reach-IsCounted s (starts r is) = ground arith
Reach-IsCounted t (steps s t' reached step) = Step-IsCounted s t step (Reach-IsCounted s reached)

-- An object with so many references, so many threads about to read the count, and freed so often.
abbrev shared : ℕ → ℕ → ℕ → Shared
shared holders deciding frees = record {
  object = record { cnt = holders; frees = frees };
  holders = holders;
  deciding = deciding;
}

-- The steps, with the numbers that they lead to.
one_more : (h : ℕ) → h + 2 < 2 ^ 31 → Reach (shared (h + 1) 0 0) → Reach (shared (h + 2) 0 0)
unfolding refcnt_ref
one_more h room reached =
    subst
      (λ n.
        Reach (record { object = record { cnt = n; frees = 0 }; holders = h + 2; deciding = 0 }))
      {x = (h + 1 + 1) % 2 ^ 32} (omega arith)
      (steps _ _ reached (refs (record { cnt = h + 1; frees = 0 }) h 0 room))

one_less : (h d : ℕ) → h + 1 < 2 ^ 31 → Reach (shared (h + 1) d 0) → Reach (shared h (d + 1) 0)
unfolding fetch_sub
one_less h d room reached =
    subst
      (λ n.
        Reach (record { object = record { cnt = n; frees = 0 }; holders = h; deciding = d + 1 }))
      {x = (h + 1 + (2 ^ 32 - 1)) % 2 ^ 32} (omega arith)
      (steps _ _ reached (subtracts (record { cnt = h + 1; frees = 0 }) h d))

one_frees : (d f : ℕ) → Reach (shared 0 (d + 1) f) → Reach (shared 0 d (f + 1))
unfolding free_if_zero
one_frees d f reached = steps _ _ reached (decides (record { cnt = 0; frees = f }) 0 d)

-- References are handed out, all are taken away before a count is read again, and all counts read.
hands_out : (n : ℕ) → n + 1 < 2 ^ 31 → Reach (shared (n + 1) 0 0)
unfolding refcnt_allocate
hands_out zero room =
    subst (λ k. Reach (shared k 0 0)) {x = 1} (omega arith)
      (starts (record { cnt = 1; frees = 0 }) refl)
hands_out (suc n) room =
    subst (λ k. Reach (shared k 0 0)) {x = n + 2} (omega arith)
      (one_more n (omega arith) (hands_out n (omega arith)))

takes_all : (h d : ℕ) → h < 2 ^ 31 → Reach (shared h d 0) → Reach (shared 0 (h + d) 0)
takes_all zero d room reached = subst (λ k. Reach (shared 0 k 0)) {x = d} (omega arith) reached
takes_all (suc h) d room reached =
    subst (λ k. Reach (shared 0 k 0)) {x = h + (d + 1)} (omega arith)
      (takes_all h (d + 1) (omega arith) (
        one_less h d (omega arith)
          (subst (λ k. Reach (shared k d 0)) {x = suc h} (omega arith) reached)))

frees_all : (d f : ℕ) → Reach (shared 0 d f) → Reach (shared 0 0 (d + f))
frees_all zero f reached = subst (λ k. Reach (shared 0 0 k)) {x = f} (omega arith) reached
frees_all (suc d) f reached =
    subst (λ k. Reach (shared 0 0 k)) {x = d + (f + 1)} (omega arith)
      (frees_all d (f + 1)
        (one_frees d f (subst (λ k. Reach (shared 0 k f)) {x = suc d} (omega arith) reached)))

-- `refcnt_unref` reads the count again after it has taken its reference away: for every positive
-- number below 2 ^ 31 some order of the threads' accesses frees the object that often.
pub frees_repeat : (n : ℕ) → n + 1 < 2 ^ 31 → (s : Shared) × Reach s × (s.object.frees ≡ n + 1)
frees_repeat n room = (
  shared 0 0 (n + 1 + 0 + 0),
  frees_all (n + 1 + 0) 0 (takes_all (n + 1) 0 room (hands_out n room)),
  omega arith,
)
