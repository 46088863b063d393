-- ===== src/Bencode/Keys.antt =====
-- src/torrent/bencode.rs: the order of the keys of a dictionary.
use gosh_dl.Base.{ℕ, ◌≡◌, refl, true, List, [], ◌∷◌, arith}
use gosh_dl.Bencode.{key_lt}

pub key_lt_trans :
    (xs ys zs : List ℕ) → key_lt xs ys ≡ true → key_lt ys zs ≡ true → key_lt xs zs ≡ true
unfolding key_lt
key_lt_trans [] [] zs h k = absurd cc
key_lt_trans [] (y ∷ ys) [] h k = absurd cc
key_lt_trans [] (y ∷ ys) (z ∷ zs) h k = refl
key_lt_trans (x ∷ xs) [] zs h k = absurd cc
key_lt_trans (x ∷ xs) (y ∷ ys) [] h k = absurd cc
key_lt_trans (x ∷ xs) (y ∷ ys) (z ∷ zs) h k = ground (arith, key_lt_trans xs ys zs, h, k)
