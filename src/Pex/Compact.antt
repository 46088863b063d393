-- ===== src/Pex/Compact.antt =====
-- src/torrent/pex.rs: addresses in their compact form.
use gosh_dl.Base.{
  ℕ, zero, suc, ◌+◌, ◌^◌, ◌<◌, ◌≡◌, refl, ap, ◌∙◌, subst, false, List, [], ◌∷◌, ◌++◌, arith, ltb,
  length, take, All, u16_bytes, u16_lem, take-append, drop-append, length-append, if_false,
}
use gosh_dl.Pex.{SocketAddr, v4, v6, parse_peers, encode_compact_peers_v4, encode_compact_peers_v6}

abbrev pub IsV4 : SocketAddr → Type 0
IsV4 (v4 ip port) = (length ip ≡ 4) × (port < 2 ^ 16)
IsV4 (v6 ip port) = ⊥

abbrev pub IsV6 : SocketAddr → Type 0
IsV6 (v4 ip port) = ⊥
IsV6 (v6 ip port) = (length ip ≡ 16) × (port < 2 ^ 16)

parse_peers_step :
    (make : List ℕ → ℕ → SocketAddr) (left : ℕ) (ip : List ℕ) (port : ℕ) (rest : List ℕ)
    → port < 2 ^ 16
    → parse_peers make (length ip) (suc left) (ip ++ (u16_bytes port ++ rest))
      ≡ make ip port ∷ parse_peers make (length ip) left rest
unfolding parse_peers
parse_peers_step make left ip port rest l =
    let long : ltb (length (ip ++ (u16_bytes port ++ rest))) (length ip + 2) ≡ false =
      ground (arith, length-append ip (u16_bytes port ++ rest)) in
    if_false (ltb (length (ip ++ (u16_bytes port ++ rest))) (length ip + 2)) _ _ long
    ∙ rw
        (
          take-append ip (u16_bytes port ++ rest),
          drop-append ip (u16_bytes port ++ rest),
          u16_lem port l,
        )
        refl

pub parse_peers-encode_v4 :
    (n : ℕ) (peers : List SocketAddr)
    → All IsV4 peers
    → parse_peers v4 4 n (encode_compact_peers_v4 peers) ≡ take n peers
unfolding parse_peers
parse_peers-encode_v4 zero peers h = refl
parse_peers-encode_v4 (suc n) [] h = refl
parse_peers-encode_v4 (suc n) (v6 ip port ∷ peers) (h, hs) = elim h [ ]
parse_peers-encode_v4 (suc n) (v4 ip port ∷ peers) (h, hs) =
    let rest = encode_compact_peers_v4 peers in
    subst
      (λ k.
        parse_peers v4 k (suc n) (ip ++ (u16_bytes port ++ rest))
        ≡ v4 ip port ∷ parse_peers v4 k n rest)
      h.0 (parse_peers_step v4 n ip port rest h.1)
    ∙ ap (λ ps. v4 ip port ∷ ps) (parse_peers-encode_v4 n peers hs)

pub parse_peers-encode_v6 :
    (n : ℕ) (peers : List SocketAddr)
    → All IsV6 peers
    → parse_peers v6 16 n (encode_compact_peers_v6 peers) ≡ take n peers
unfolding parse_peers
parse_peers-encode_v6 zero peers h = refl
parse_peers-encode_v6 (suc n) [] h = refl
parse_peers-encode_v6 (suc n) (v4 ip port ∷ peers) (h, hs) = elim h [ ]
parse_peers-encode_v6 (suc n) (v6 ip port ∷ peers) (h, hs) =
    let rest = encode_compact_peers_v6 peers in
    subst
      (λ k.
        parse_peers v6 k (suc n) (ip ++ (u16_bytes port ++ rest))
        ≡ v6 ip port ∷ parse_peers v6 k n rest)
      h.0 (parse_peers_step v6 n ip port rest h.1)
    ∙ ap (λ ps. v6 ip port ∷ ps) (parse_peers-encode_v6 n peers hs)
