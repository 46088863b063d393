-- ===== src/Pex/View.antt =====
-- src/torrent/pex.rs: what the other side knows from the messages that are built.
use gosh_dl.Base.{
  inl, inr, ℕ, ◌≡◌, refl, sym, ap, ◌∙◌, Bool, true, false, not, ◌&&◌, ◌||◌, List, [], ◌∷◌, ◌++◌,
  Option, none, some, arith, keep, same_bytes-eq, Bool-cases,
}
use gosh_dl.Pex.{
  SocketAddr, v4, v6, is_v4, is_v6, same_addr, has_addr, difference, PexMessage, all_added,
  all_dropped, PexState, can_send, is_empty, changes, build_message,
}

same_addr-eq : (a b : SocketAddr) → same_addr a b ≡ true → a ≡ b
same_addr-eq (v4 ip port) (v4 ip' port') h = ground (arith, same_bytes-eq ip ip', h)
same_addr-eq (v6 ip port) (v6 ip' port') h = ground (arith, same_bytes-eq ip ip', h)
same_addr-eq (v4 ip port) (v6 ip' port') h = absurd cc
same_addr-eq (v6 ip port) (v4 ip' port') h = absurd cc

has_addr-append :
    (xs ys : List SocketAddr) (a : SocketAddr)
    → has_addr (xs ++ ys) a ≡ (has_addr xs a || has_addr ys a)
has_addr-append [] ys a = refl
has_addr-append (x ∷ xs) ys a = ground (arith, has_addr-append xs ys a)

has_addr-keep :
    (p : SocketAddr → Bool) (xs : List SocketAddr) (a : SocketAddr)
    → has_addr (keep p xs) a ≡ (has_addr xs a && p a)
has_addr-keep p [] a = refl
has_addr-keep p (x ∷ xs) a = elim (Bool-cases (same_addr x a)) [
  | inl same ↦ ground (arith, has_addr-keep p xs a, ap p (same_addr-eq x a same), same)
  | inr other ↦ ground (arith, has_addr-keep p xs a, other)
]

both_kinds : (b k : Bool) → ((b && k) || (b && not k)) ≡ b
both_kinds true true = refl
both_kinds true false = refl
both_kinds false k = refl

-- The addresses of both kinds together are all of them.
has_addr-kinds :
    (xs : List SocketAddr) (a : SocketAddr)
    → has_addr (keep is_v4 xs ++ keep is_v6 xs) a ≡ has_addr xs a
has_addr-kinds xs a =
    rw
      (
        has_addr-append (keep is_v4 xs) (keep is_v6 xs) a,
        has_addr-keep is_v4 xs a,
        has_addr-keep is_v6 xs a,
      )
      (both_kinds (has_addr xs a) (is_v4 a))

after_change : (s c : Bool) → ((s || (c && not s)) && not (s && not c)) ≡ c
after_change true true = refl
after_change true false = refl
after_change false true = refl
after_change false false = refl

no_change : (s c : Bool) → (c && not s) ≡ false → (s && not c) ≡ false → s ≡ c
no_change true true h k = refl
no_change true false h k = k
no_change false true h k = sym h
no_change false false h k = refl

nothing_left : (xs : List SocketAddr) (a : SocketAddr) → is_empty xs ≡ true → has_addr xs a ≡ false
nothing_left [] a h = refl
nothing_left (x ∷ xs) a h = absurd cc

-- What the other side knows after a message: the addresses added to those it knew, but not those dropped.
abbrev pub apply_message : Option PexMessage → List SocketAddr → List SocketAddr
apply_message none view = view
apply_message (some m) view = difference (view ++ all_added m) (all_dropped m)

-- Two sets have the same elements.
abbrev pub SameSet : List SocketAddr → List SocketAddr → Type 0
SameSet xs ys = (a : SocketAddr) → has_addr xs a ≡ has_addr ys a

changes_lem :
    (shared current view : List SocketAddr)
    → SameSet view shared
    → SameSet
        (apply_message
          (some (changes (difference current shared) (difference shared current)))
          view)
        current
changes_lem shared current view h a =
    let added = difference current shared in
    let dropped = difference shared current in
    let m = changes added dropped in
    rw
      (
        has_addr-keep (λ x. not (has_addr (all_dropped m) x)) (view ++ all_added m) a,
        has_addr-append view (all_added m) a,
        has_addr-kinds added a,
        has_addr-kinds dropped a,
        has_addr-keep (λ x. not (has_addr shared x)) current a,
        has_addr-keep (λ x. not (has_addr current x)) shared a,
        h a,
      )
      (after_change (has_addr shared a) (has_addr current a))

same_as_before :
    (shared current : List SocketAddr)
    → is_empty (difference current shared) ≡ true
    → is_empty (difference shared current) ≡ true
    → SameSet shared current
same_as_before shared current h k a =
    no_change (has_addr shared a) (has_addr current a)
      (sym (has_addr-keep (λ x. not (has_addr shared x)) current a) ∙ nothing_left _ a h)
      (sym (has_addr-keep (λ x. not (has_addr current x)) shared a) ∙ nothing_left _ a k)

-- If the other side knows what was shared with it, then it does so after a message, or after none; and
-- when it is time to send, what is shared are the current peers.
pub build_message-SameSet :
    (now : ℕ) (current view : List SocketAddr) (s : PexState)
    → SameSet view s.shared_peers
    → let (message, after) = build_message now current s in
      SameSet (apply_message message view) after.shared_peers
      × (can_send now s ≡ true → SameSet after.shared_peers current)
unfolding build_message
build_message-SameSet now current view s h =
    let added = difference current s.shared_peers in
    let dropped = difference s.shared_peers current in
    elim (Bool-cases (can_send now s)) [
      | inr early ↦ rw early (h, λ e. absurd cc)
      | inl time ↦ elim (Bool-cases (is_empty added)) [
        | inr some_added ↦
            rw (time, some_added) (changes_lem s.shared_peers current view h, λ e a. refl)
        | inl none_added ↦ elim (Bool-cases (is_empty dropped)) [
          | inr some_dropped ↦
              rw (time, none_added, some_dropped)
                (changes_lem s.shared_peers current view h, λ e a. refl)
          | inl none_dropped ↦
              rw (time, none_added, none_dropped)
                (h, λ e. same_as_before s.shared_peers current none_added none_dropped)
        ]
      ]
    ]
