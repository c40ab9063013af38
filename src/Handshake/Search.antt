-- ===== src/Handshake/Search.antt =====
-- What the search and the loops of the handshake find.
use ezwebsocket.Prelude.{
  ℕ, zero, suc, ◌+◌, ◌-◌, ◌≤◌, ◌<◌, ◌≡◌, refl, ap, ◌∙◌, arith, Bool, true, false, not, ◌&&◌, inl,
  inr, ◌⊎◌,
}
use ezwebsocket.Prelude.{List, [], ◌∷◌, ◌++◌, none, some, ◌==◌, length, All, append_assoc}
use ezwebsocket.Handshake.{
  reply_id, reply_start, header_end, is_graph, starts_with, search, strnstr, copy_key, equal,
}

-- The needle starts nowhere in `before`, when `after` follows.
unfoldable pub absent : List ℕ → List ℕ → List ℕ → Bool
absent needle [] after = true
absent needle (c ∷ before) after = elim (starts_with (c ∷ before ++ after) needle) [
  | none ↦ false
  | some here ↦ not here && absent needle before after
]

starts_with-append : (needle rest : List ℕ) → starts_with (needle ++ rest) needle ≡ some true
unfolding starts_with
starts_with-append [] rest = refl
starts_with-append (n ∷ needle) rest = ground (arith, starts_with-append needle rest)

search-append :
    (before needle rest : List ℕ) (rounds i : ℕ)
    → absent needle before (needle ++ rest) ≡ true
    → length before < rounds
    → search (before ++ (needle ++ rest)) needle rounds i ≡ some (some (i + length before))
unfolding search absent
search-append before needle rest zero i free room = absurd (omega arith)
search-append [] needle rest (suc rounds) i free room =
    rw (starts_with-append needle rest) (ap (λ n. some (some n)) (omega arith))
search-append (c ∷ before) needle rest (suc rounds) i free room =
    ground (arith, search-append before needle rest rounds (i + 1))

-- `strnstr` finds the first place where the needle stands.
pub strnstr-append :
    (before needle rest : List ℕ) (len : ℕ)
    → absent needle before (needle ++ rest) ≡ true
    → length before < len
    → strnstr (before ++ (needle ++ rest)) needle len ≡ some (some (length before))
unfolding strnstr
strnstr-append before needle rest len free room =
    search-append before needle rest len 0 free room ∙ ap (λ n. some (some n)) (omega arith)

pub copy_key-append :
    (key rest : List ℕ) (rounds room : ℕ)
    → All (λ c. is_graph c ≡ true) key
    → length key ≤ rounds
    → length key ≤ room
    → (rounds ≡ length key) ⊎ ((c : ℕ) × (more : List ℕ) × (rest ≡ c ∷ more) × (is_graph c ≡ false))
    → copy_key (key ++ rest) rounds room ≡ some key
unfolding copy_key
copy_key-append [] rest zero room graphs short fits ends = refl
copy_key-append (c ∷ key) rest zero room graphs short fits ends = absurd (omega arith)
copy_key-append [] rest (suc rounds) room graphs short fits (inl e) = absurd (omega arith)
copy_key-append [] rest (suc rounds) room graphs short fits (inr (c, more, is, blank)) =
    rw (is, blank) refl
copy_key-append (c ∷ key) rest (suc rounds) room (graph, graphs) short fits ends =
    let ends' : (rounds ≡ length key)
        ⊎ ((c : ℕ) × (more : List ℕ) × (rest ≡ c ∷ more) × (is_graph c ≡ false)) =
      elim ends [ inl e ↦ inl (omega arith) | inr e ↦ inr e ] in
    ground
      (arith, copy_key-append key rest rounds (room - 1) graphs (omega arith) (omega arith) ends')

pub equal_refl : (xs : List ℕ) → equal xs xs ≡ true
unfolding equal
equal_refl [] = refl
equal_refl (x ∷ xs) = ground (arith, equal_refl xs)

-- Where the needle starts with a character that does not occur, it starts nowhere.
pub absent_first :
    (n : ℕ) (needle before after : List ℕ)
    → All (λ c. (c == n) ≡ false) before
    → absent (n ∷ needle) before after ≡ true
unfolding absent starts_with
absent_first n needle [] after other = refl
absent_first n needle (c ∷ before) after (differs, other) =
    rw (differs, absent, starts_with) (absent_first n needle before after other)

pub absent-append :
    (needle xs ys after : List ℕ)
    → absent needle xs (ys ++ after) ≡ true
    → absent needle ys after ≡ true
    → absent needle (xs ++ ys) after ≡ true
unfolding absent
absent-append needle [] ys after here there = there
absent-append needle (x ∷ xs) ys after here there =
    ground (arith, append_assoc (x ∷ xs) ys after, absent-append needle xs ys after)

-- In the reply, the name of the key's field stands first at its place.
pub reply_id-absent : (tail : List ℕ) → absent reply_id reply_start (reply_id ++ tail) ≡ true
unfolding absent starts_with reply_id reply_start
reply_id-absent tail = refl

-- The end of the header stands nowhere before its place in the reply.
pub end_absent :
    (accept : List ℕ)
    → All (λ c. (c == 13) ≡ false) accept
    → absent header_end (reply_start ++ (reply_id ++ (32 ∷ accept))) header_end ≡ true
unfolding absent starts_with reply_id reply_start header_end
end_absent accept clean = absent_first 13 (10 ∷ 13 ∷ 10 ∷ []) accept header_end clean
