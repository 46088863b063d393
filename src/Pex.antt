-- ===== src/Pex.antt =====
-- src/torrent/pex.rs: the exchange of peers' addresses. A hash set is the list of its elements in the
-- order in which it is iterated; an `Instant` is a number of seconds, of at least 120; errors are of the
-- one kind `PexError`, or those of the bencode parser.
pub mod Compact
pub mod Wire
pub mod View
pub mod Told
mod Tests
use gosh_dl.Base.{
  ℕ, zero, suc, ◌+◌, ◌-◌, Bool, true, false, not, ◌&&◌, ◌||◌, List, [], ◌∷◌, ◌++◌, Option, none,
  some, if◌then◌else◌, ◌==◌, ltb, length, take, drop, keep, same_bytes, u16_bytes, u16_from,
}
use gosh_dl.Bencode.{
  BencodeValue, Entries, bytes, dict, no_entries, entry, parse_exact, encode, Result, ok, failed,
  ◌>>=◌, or_fail,
}
use gosh_dl.Bencode.Access.{as_bytes, as_dict, find_entry}

abbrev pub max_peers_per_list : ℕ
max_peers_per_list = 100

-- The octets and the port. The flow information and the scope of an IPv6 address are left out: they are not
-- sent, and are zero in the addresses that are read.
pub data SocketAddr : Type 0 where
  v4 : List ℕ → ℕ → SocketAddr
  v6 : List ℕ → ℕ → SocketAddr

abbrev pub is_v4 : SocketAddr → Bool
is_v4 (v4 ip port) = true
is_v4 (v6 ip port) = false

abbrev pub is_v6 : SocketAddr → Bool
is_v6 addr = not (is_v4 addr)

abbrev pub same_addr : SocketAddr → SocketAddr → Bool
same_addr (v4 ip port) (v4 ip' port') = same_bytes ip ip' && (port == port')
same_addr (v6 ip port) (v6 ip' port') = same_bytes ip ip' && (port == port')
same_addr _ _ = false

-- `HashSet::contains`.
abbrev pub has_addr : List SocketAddr → SocketAddr → Bool
has_addr [] addr = false
has_addr (x ∷ xs) addr = same_addr x addr || has_addr xs addr

-- `HashSet::difference`.
abbrev pub difference : List SocketAddr → List SocketAddr → List SocketAddr
difference xs ys = keep (λ x. not (has_addr ys x)) xs

pub record PexMessage : Type 0 where
  pub added : List SocketAddr
  pub added_flags : List ℕ
  pub dropped : List SocketAddr
  pub added6 : List SocketAddr
  pub added6_flags : List ℕ
  pub dropped6 : List SocketAddr

abbrev pub port_of : List ℕ → ℕ
port_of (a ∷ b ∷ rest) = u16_from a b
port_of _ = 0

-- The loop of the two functions below: at most `left` addresses, each of so many octets and a port.
unfoldable pub parse_peers : (List ℕ → ℕ → SocketAddr) → ℕ → ℕ → List ℕ → List SocketAddr
parse_peers make octets zero input = []
parse_peers make octets (suc left) input =
    let rest = parse_peers make octets left (drop 2 (drop octets input)) in
    if ltb (length input) (octets + 2)
    then []
    else make (take octets input) (port_of (drop octets input)) ∷ rest

abbrev pub parse_compact_peers_v4 : List ℕ → List SocketAddr
parse_compact_peers_v4 input = parse_peers v4 4 max_peers_per_list input

abbrev pub parse_compact_peers_v6 : List ℕ → List SocketAddr
parse_compact_peers_v6 input = parse_peers v6 16 max_peers_per_list input

abbrev pub encode_compact_peers_v4 : List SocketAddr → List ℕ
encode_compact_peers_v4 [] = []
encode_compact_peers_v4 (v4 ip port ∷ peers) =
    ip ++ (u16_bytes port ++ encode_compact_peers_v4 peers)
encode_compact_peers_v4 (v6 ip port ∷ peers) = encode_compact_peers_v4 peers

abbrev pub encode_compact_peers_v6 : List SocketAddr → List ℕ
encode_compact_peers_v6 [] = []
encode_compact_peers_v6 (v4 ip port ∷ peers) = encode_compact_peers_v6 peers
encode_compact_peers_v6 (v6 ip port ∷ peers) =
    ip ++ (u16_bytes port ++ encode_compact_peers_v6 peers)

abbrev pub key_added : List ℕ
key_added = b'a' ∷ b'd' ∷ b'd' ∷ b'e' ∷ b'd' ∷ []

abbrev pub key_added_flags : List ℕ
key_added_flags = b'a' ∷ b'd' ∷ b'd' ∷ b'e' ∷ b'd' ∷ b'.' ∷ b'f' ∷ []

abbrev pub key_added6 : List ℕ
key_added6 = b'a' ∷ b'd' ∷ b'd' ∷ b'e' ∷ b'd' ∷ b'6' ∷ []

abbrev pub key_added6_flags : List ℕ
key_added6_flags = b'a' ∷ b'd' ∷ b'd' ∷ b'e' ∷ b'd' ∷ b'6' ∷ b'.' ∷ b'f' ∷ []

abbrev pub key_dropped : List ℕ
key_dropped = b'd' ∷ b'r' ∷ b'o' ∷ b'p' ∷ b'p' ∷ b'e' ∷ b'd' ∷ []

abbrev pub key_dropped6 : List ℕ
key_dropped6 = b'd' ∷ b'r' ∷ b'o' ∷ b'p' ∷ b'p' ∷ b'e' ∷ b'd' ∷ b'6' ∷ []

-- The bytes under a key, read in a way, or nothing.
abbrev pub read_at {ℓ} : {A : Type ℓ} → (List ℕ → List A) → List ℕ → Entries → List A
read_at read key entries = elim (find_entry entries key) [
  | none ↦ []
  | some value ↦ elim (as_bytes value) [ none ↦ [] | some input ↦ read input ]
]

abbrev pub message_of : Entries → PexMessage
message_of entries = record {
  added = read_at parse_compact_peers_v4 key_added entries;
  added_flags = read_at (take max_peers_per_list) key_added_flags entries;
  dropped = read_at parse_compact_peers_v4 key_dropped entries;
  added6 = read_at parse_compact_peers_v6 key_added6 entries;
  added6_flags = read_at (take max_peers_per_list) key_added6_flags entries;
  dropped6 = read_at parse_compact_peers_v6 key_dropped6 entries;
}

unfoldable pub parse_message : List ℕ → Result PexMessage
parse_message input =
    parse_exact input >>= λ value. (or_fail (as_dict value) >>= λ entries. ok (message_of entries))

abbrev pub is_empty {ℓ} : {A : Type ℓ} → List A → Bool
is_empty [] = true
is_empty (x ∷ xs) = false

-- `dict.insert` under a condition; the calls come in the order of the keys.
abbrev pub insert_if : Bool → List ℕ → List ℕ → Entries → Entries
insert_if true key input es = entry key (bytes input) es
insert_if false key input es = es

-- The entries of a message, in the order of their keys.
abbrev pub entries_of : PexMessage → Entries
entries_of m =
    let v4_added = keep is_v4 m.added in
    let v4_dropped = keep is_v4 m.dropped in
    let all_v6_added = keep is_v6 m.added ++ m.added6 in
    let all_v6_dropped = keep is_v6 m.dropped ++ m.dropped6 in
    insert_if (not (is_empty v4_added)) key_added (encode_compact_peers_v4 v4_added) (
      insert_if (not (is_empty m.added_flags)) key_added_flags m.added_flags (
        insert_if (not (is_empty all_v6_added)) key_added6 (encode_compact_peers_v6 all_v6_added) (
          insert_if (not (is_empty m.added6_flags)) key_added6_flags m.added6_flags (
            insert_if (not (is_empty v4_dropped)) key_dropped (encode_compact_peers_v4 v4_dropped) (
              insert_if (not (is_empty all_v6_dropped)) key_dropped6
                (encode_compact_peers_v6 all_v6_dropped) no_entries)))))

unfoldable pub encode_message : PexMessage → List ℕ
encode_message m = encode (dict (entries_of m))

abbrev pub all_added : PexMessage → List SocketAddr
all_added m = m.added ++ m.added6

abbrev pub all_dropped : PexMessage → List SocketAddr
all_dropped m = m.dropped ++ m.dropped6

pub record PexState : Type 0 where
  pub shared_peers : List SocketAddr
  pub last_send : ℕ
  pub min_interval : ℕ
  pub our_extension_id : ℕ
  pub peer_extension_id : Option ℕ

abbrev pub new : ℕ → ℕ → PexState
new now our_extension_id = record {
  shared_peers = [];
  last_send = now - 120;
  min_interval = 60;
  our_extension_id = our_extension_id;
  peer_extension_id = none;
}

abbrev pub set_peer_extension_id : ℕ → PexState → PexState
set_peer_extension_id id s = record s { peer_extension_id = some id }

abbrev pub can_send : ℕ → PexState → Bool
can_send now s = not (ltb (now - s.last_send) s.min_interval)

abbrev pub changes : List SocketAddr → List SocketAddr → PexMessage
changes added dropped = record {
  added = keep is_v4 added;
  added_flags = [];
  dropped = keep is_v4 dropped;
  added6 = keep is_v6 added;
  added6_flags = [];
  dropped6 = keep is_v6 dropped;
}

unfoldable pub build_message : ℕ → List SocketAddr → PexState → Option PexMessage × PexState
build_message now current_peers s =
    let added = difference current_peers s.shared_peers in
    let dropped = difference s.shared_peers current_peers in
    if not (can_send now s)
    then (none, s)
    else if is_empty added && is_empty dropped
    then (none, s)
    else (some (changes added dropped), record s { shared_peers = current_peers; last_send = now })

abbrev pub process_received : PexMessage → List SocketAddr → List SocketAddr
process_received m known_peers = difference (all_added m) known_peers

abbrev pub reset : ℕ → PexState → PexState
reset now s = record s { shared_peers = []; last_send = now - 120 }
