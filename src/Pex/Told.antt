-- ===== src/Pex/Told.antt =====
-- src/torrent/pex.rs: what the other side knows from the messages that it reads.
use gosh_dl.Base.{
  ◌&&◌, ℕ, ◌*◌, ◌≤◌, ◌<◌, ◌^◌, ◌≡◌, refl, sym, ap, ◌∙◌, subst, inl, inr, Bool, true, List, [], ◌∷◌,
  Option, none, some, arith, length, take, keep, All, Bool-cases, take_all, length-keep-le,
  length-append,
}
use gosh_dl.Bencode.{Result, ok, failed, out_of_fuel, max_string_length}
use gosh_dl.Pex.{
  SocketAddr, v4, v6, is_v4, is_v6, difference, max_peers_per_list, PexMessage, PexState, can_send,
  changes, is_empty, build_message, parse_message, encode_message, encode_compact_peers_v4,
  encode_compact_peers_v6,
}
use gosh_dl.Pex.Compact.{IsV4, IsV6}
use gosh_dl.Pex.View.{apply_message, SameSet, build_message-SameSet}
use gosh_dl.Pex.Wire.{IsSplit, capped, parse_message-encode_message}

-- An address has the octets of its kind, and a port of 16 bits.
abbrev pub IsAddr : SocketAddr → Type 0
IsAddr (v4 ip port) = (length ip ≡ 4) × (port < 2 ^ 16)
IsAddr (v6 ip port) = (length ip ≡ 16) × (port < 2 ^ 16)

-- What the other side knows after the bytes of a message.
abbrev pub apply_bytes : Result PexMessage → List SocketAddr → List SocketAddr
apply_bytes (ok m) view = apply_message (some m) view
apply_bytes failed view = view
apply_bytes out_of_fuel view = view

abbrev pub told : Option PexMessage → List SocketAddr → List SocketAddr
told none view = view
told (some m) view = apply_bytes (parse_message (encode_message m)) view

keep-IsV4 : (xs : List SocketAddr) → All IsAddr xs → All IsV4 (keep is_v4 xs)
keep-IsV4 [] a = tt
keep-IsV4 (v4 ip port ∷ xs) (a, rest) = (a, keep-IsV4 xs rest)
keep-IsV4 (v6 ip port ∷ xs) (a, rest) = keep-IsV4 xs rest

keep-IsV6 : (xs : List SocketAddr) → All IsAddr xs → All IsV6 (keep is_v6 xs)
keep-IsV6 [] a = tt
keep-IsV6 (v4 ip port ∷ xs) (a, rest) = keep-IsV6 xs rest
keep-IsV6 (v6 ip port ∷ xs) (a, rest) = (a, keep-IsV6 xs rest)

keep-All {ℓ κ} :
    {A : Type ℓ} (P : A → Type κ) (p : A → Bool) (xs : List A) → All P xs → All P (keep p xs)
keep-All P p [] a = tt
keep-All P p (x ∷ xs) a = elim (Bool-cases (p x)) [
  | inl kept ↦ rw kept (a.0, keep-All P p xs a.1)
  | inr dropped ↦ rw dropped (keep-All P p xs a.1)
]

length-encode_v4 :
    (xs : List SocketAddr) → All IsV4 xs → length (encode_compact_peers_v4 xs) ≡ 6 * length xs
length-encode_v4 [] a = refl
length-encode_v4 (v4 ip port ∷ xs) (a, rest) =
    omega (arith, length-append ip _, a.0, length-encode_v4 xs rest)
length-encode_v4 (v6 ip port ∷ xs) (a, rest) = elim a [ ]

length-encode_v6 :
    (xs : List SocketAddr) → All IsV6 xs → length (encode_compact_peers_v6 xs) ≡ 18 * length xs
length-encode_v6 [] a = refl
length-encode_v6 (v4 ip port ∷ xs) (a, rest) = elim a [ ]
length-encode_v6 (v6 ip port ∷ xs) (a, rest) =
    omega (arith, length-append ip _, a.0, length-encode_v6 xs rest)

small_v4 :
    (xs : List SocketAddr)
    → All IsAddr xs
    → length xs ≤ max_peers_per_list
    → length (encode_compact_peers_v4 (keep is_v4 xs)) ≤ max_string_length
small_v4 xs a l =
    omega (arith, length-encode_v4 (keep is_v4 xs) (keep-IsV4 xs a), length-keep-le is_v4 xs)

small_v6 :
    (xs : List SocketAddr)
    → All IsAddr xs
    → length xs ≤ max_peers_per_list
    → length (encode_compact_peers_v6 (keep is_v6 xs)) ≤ max_string_length
small_v6 xs a l =
    omega (arith, length-encode_v6 (keep is_v6 xs) (keep-IsV6 xs a), length-keep-le is_v6 xs)

changes-IsSplit :
    (added dropped : List SocketAddr)
    → All IsAddr added
    → All IsAddr dropped
    → length added ≤ max_peers_per_list
    → length dropped ≤ max_peers_per_list
    → IsSplit (changes added dropped)
changes-IsSplit added dropped a d l m = record {
  added_v4 = keep-IsV4 added a;
  dropped_v4 = keep-IsV4 dropped d;
  added_v6 = keep-IsV6 added a;
  dropped_v6 = keep-IsV6 dropped d;
  added_room = small_v4 added a l;
  dropped_room = small_v4 dropped d m;
  added6_room = small_v6 added a l;
  dropped6_room = small_v6 dropped d m;
  flags_room = omega arith;
  flags6_room = omega arith;
}

whole :
    (p : SocketAddr → Bool) (xs : List SocketAddr)
    → length xs ≤ max_peers_per_list
    → take max_peers_per_list (keep p xs) ≡ keep p xs
whole p xs l = take_all max_peers_per_list (keep p xs) (omega (arith, length-keep-le p xs))

capped-changes :
    (added dropped : List SocketAddr)
    → length added ≤ max_peers_per_list
    → length dropped ≤ max_peers_per_list
    → capped (changes added dropped) ≡ changes added dropped
capped-changes added dropped l m =
    rw (whole is_v4 added l, whole is_v6 added l, whole is_v4 dropped m, whole is_v6 dropped m) refl

-- A message about at most 100 peers added and 100 dropped tells all that it has.
told-changes :
    (added dropped view : List SocketAddr)
    → All IsAddr added
    → All IsAddr dropped
    → length added ≤ max_peers_per_list
    → length dropped ≤ max_peers_per_list
    → told (some (changes added dropped)) view ≡ apply_message (some (changes added dropped)) view
told-changes added dropped view a d l m =
    ap (λ r. apply_bytes r view)
      (parse_message-encode_message (changes added dropped) (changes-IsSplit added dropped a d l m)
        ∙ ap ok (capped-changes added dropped l m))

told_built :
    (now : ℕ) (current view : List SocketAddr) (s : PexState)
    → All IsAddr current
    → All IsAddr s.shared_peers
    → length (difference current s.shared_peers) ≤ max_peers_per_list
    → length (difference s.shared_peers current) ≤ max_peers_per_list
    → let (message, after) = build_message now current s in
      told message view ≡ apply_message message view
unfolding build_message
told_built now current view s a d l m =
    let added = difference current s.shared_peers in
    let dropped = difference s.shared_peers current in
    let same =
      told-changes added dropped view (keep-All IsAddr _ current a)
        (keep-All IsAddr _ s.shared_peers d) l m in
    elim (Bool-cases (can_send now s)) [
      | inr early ↦ rw early refl
      | inl time ↦ elim (Bool-cases (is_empty added && is_empty dropped)) [
        | inl none_left ↦ rw (time, none_left) refl
        | inr some_left ↦ rw (time, some_left) same
      ]
    ]

-- If the other side knows the peers that were shared with it, and at most 100 peers are new and at most 100
-- gone: once it has read the bytes of the message that is built, if one is, it knows the peers that are now
-- recorded as shared; and when it is time to send, these are the current peers.
pub told_peers-SameSet :
    (now : ℕ) (current view : List SocketAddr) (s : PexState)
    → All IsAddr current
    → All IsAddr s.shared_peers
    → length (difference current s.shared_peers) ≤ max_peers_per_list
    → length (difference s.shared_peers current) ≤ max_peers_per_list
    → SameSet view s.shared_peers
    → let (message, after) = build_message now current s in
      SameSet (told message view) after.shared_peers
      × (can_send now s ≡ true → SameSet after.shared_peers current)
told_peers-SameSet now current view s a d l m h =
    let (known, recorded) = build_message-SameSet now current view s h in
    (
      subst (λ v. SameSet v (build_message now current s).1.shared_peers)
          (sym (told_built now current view s a d l m)) known,
      recorded,
    )
