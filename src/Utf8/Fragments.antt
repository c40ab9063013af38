-- ===== src/Utf8/Fragments.antt =====
-- A text that arrives in fragments: the handle carries the state from one to the next.
use ezwebsocket.Prelude.{
  ℕ, ◌≡◌, refl, ◌≢◌, ◌∙◌, sym, subst, append-nil, List, [], ◌∷◌, ◌++◌, arith, IsBytes,
}
use ezwebsocket.Utf8.{Utf8State, ok, fail, busy, utf8_validate_single, validate_loop, utf8_validate}
use ezwebsocket.Utf8.Scalar.{IsUtf8}
use ezwebsocket.Utf8.Strings.{utf8_validate_iff}

loop_append :
    (state : Utf8State) (xs ys : List ℕ) (handle : ℕ)
    → (validate_loop state xs handle).0 ≢ fail
    → validate_loop state (xs ++ ys) handle
      ≡ validate_loop (validate_loop state xs handle).0 ys (validate_loop state xs handle).1
unfolding validate_loop
loop_append state [] ys handle alive = refl
loop_append state (x ∷ xs) ys handle alive = ground (
  arith,
  loop_append ok xs ys (utf8_validate_single x handle).1,
  loop_append busy xs ys (utf8_validate_single x handle).1,
)

-- What is refused stays refused.
loop_refuses :
    (state : Utf8State) (xs ys : List ℕ) (handle : ℕ)
    → (validate_loop state xs handle).0 ≡ fail
    → state ≢ fail
    → (validate_loop state (xs ++ ys) handle).0 ≡ fail
unfolding validate_loop
loop_refuses state [] ys handle refused alive = absurd (alive refused)
loop_refuses state (x ∷ xs) ys handle refused alive = ground (
  arith,
  loop_refuses ok xs ys (utf8_validate_single x handle).1,
  loop_refuses busy xs ys (utf8_validate_single x handle).1,
)

-- The beginning of an accepted string is not refused.
pub prefix_alive :
    (xs ys : List ℕ) → (utf8_validate (xs ++ ys) 0).0 ≡ ok → (utf8_validate xs 0).0 ≢ fail
unfolding utf8_validate
prefix_alive xs ys accepted refused = cc (loop_refuses ok xs ys 0 refused (λ e. cc))

-- The state that a loop starts in is lost at the first byte.
loop_state :
    (s t : Utf8State) (y : ℕ) (ys : List ℕ) (handle : ℕ)
    → validate_loop s (y ∷ ys) handle ≡ validate_loop t (y ∷ ys) handle
unfolding validate_loop
loop_state s t y ys handle = refl

-- Where the first fragment is not refused and the second is not empty, validating the second with
-- the handle that the first left gives the state and the handle of the whole.
pub utf8_validate-append :
    (xs ys : List ℕ) (handle : ℕ)
    → (utf8_validate xs handle).0 ≢ fail
    → ys ≢ []
    → utf8_validate ys (utf8_validate xs handle).1 ≡ utf8_validate (xs ++ ys) handle
unfolding utf8_validate
utf8_validate-append xs [] handle alive some_left = absurd (some_left refl)
utf8_validate-append xs (y ∷ ys) handle alive some_left =
    loop_state ok (validate_loop ok xs handle).0 y ys (validate_loop ok xs handle).1
    ∙ sym (loop_append ok xs (y ∷ ys) handle alive)

-- An empty fragment leaves the handle alone.
pub validate_nil : (handle : ℕ) → utf8_validate [] handle ≡ (ok, handle)
unfolding utf8_validate validate_loop
validate_nil handle = refl

-- An empty fragment is answered OK whatever is pending: a text that ends inside a character is
-- taken for complete if its last fragment is empty.
pub empty_fragment_hides_busy :
    (xs : List ℕ)
    → IsBytes xs
    → (utf8_validate xs 0).0 ≡ busy
    → ((utf8_validate [] (utf8_validate xs 0).1).0 ≡ ok) × ¬ IsUtf8 (xs ++ [])
unfolding validate_loop
empty_fragment_hides_busy xs hb pending = (unfold utf8_validate in refl, refuted)
  where
    refuted : IsUtf8 (xs ++ []) → ⊥
    refuted u =
        let accepted = (utf8_validate_iff xs hb).1 (subst IsUtf8 (append-nil xs) u) in cc accepted
