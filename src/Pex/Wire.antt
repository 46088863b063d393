-- ===== src/Pex/Wire.antt =====
-- src/torrent/pex.rs: a message read back from its bytes.
use gosh_dl.Base.{
  ℕ, ◌≤◌, ◌≡◌, refl, sym, ap, ◌∙◌, Bool, true, false, not, List, [], ◌∷◌, Option, none, some, arith,
  if◌then◌else◌, length, take, drop, keep, All, same_bytes,
}
use gosh_dl.Bencode.{
  BencodeValue, Entries, ok, bytes, dict, no_entries, key_lt, in_order, max_string_length,
}
use gosh_dl.Bencode.Access.{find_entry, as_bytes}
use gosh_dl.Bencode.RoundTrip.{FitsAt, EntriesFit, parse_exact-encode}
use gosh_dl.Bencode.Keys.{key_lt_trans}
use gosh_dl.Pex.{
  SocketAddr, v4, v6, is_v4, is_v6, parse_peers, max_peers_per_list, parse_compact_peers_v4,
  parse_compact_peers_v6, encode_compact_peers_v4, encode_compact_peers_v6, read_at, PexMessage,
  message_of, parse_message, insert_if, is_empty, entries_of, encode_message, key_added,
  key_added_flags, key_added6, key_added6_flags, key_dropped, key_dropped6,
}
use gosh_dl.Pex.Compact.{IsV4, IsV6, parse_peers-encode_v4, parse_peers-encode_v6}

-- Entries that fit behind whatever key is before one.
abbrev FitFrom : List ℕ → Entries → Type 0
FitFrom key es = (last : Option (List ℕ)) → in_order last key ≡ true → EntriesFit 1 last es

earlier :
    (last : Option (List ℕ)) (key next : List ℕ)
    → key_lt key next ≡ true
    → in_order last key ≡ true
    → in_order last next ≡ true
earlier none key next h k = refl
earlier (some last) key next h k = key_lt_trans last key next k h

insert-FitFrom :
    (p : Bool) (key next input : List ℕ) (es : Entries)
    → key_lt key next ≡ true
    → length key ≤ max_string_length
    → length input ≤ max_string_length
    → FitFrom next es
    → FitFrom key (insert_if p key input es)
unfolding EntriesFit FitsAt
insert-FitFrom false key next input es h k m fit last e = fit last (earlier last key next h e)
insert-FitFrom true key next input es h k m fit last e = (e, k, (omega arith, m), fit (some key) h)

same_branches {ℓ} : {A : Type ℓ} (b : Bool) (x : A) → x ≡ (if b then x else x)
same_branches true x = refl
same_branches false x = refl

-- A condition, a key and what is put under it.
abbrev Slot : Type 0
Slot = Bool × List ℕ × List ℕ

abbrev build : List Slot → Entries
build [] = no_entries
build ((p, key, input) ∷ slots) = insert_if p key input (build slots)

abbrev slot_at : List Slot → List ℕ → Option BencodeValue
slot_at [] key = none
slot_at ((p, k, input) ∷ slots) key =
    let rest = slot_at slots key in
    if same_bytes k key then (if p then some (bytes input) else rest) else rest

find_entry-build :
    (slots : List Slot) (key : List ℕ) → find_entry (build slots) key ≡ slot_at slots key
find_entry-build [] key = refl
find_entry-build ((true, k, input) ∷ slots) key =
    ap (λ rest. if same_bytes k key then some (bytes input) else rest) (find_entry-build slots key)
find_entry-build ((false, k, input) ∷ slots) key =
    find_entry-build slots key ∙ same_branches (same_bytes k key) (slot_at slots key)

abbrev read_value {ℓ} : {A : Type ℓ} → (List ℕ → List A) → Option BencodeValue → List A
read_value read found = elim found [
  | none ↦ []
  | some value ↦ elim (as_bytes value) [ none ↦ [] | some input ↦ read input ]
]

-- What is left out when it is empty is read back as empty.
read_present {ℓ κ} :
    {A : Type ℓ} {B : Type κ} (xs : List A) (enc : List A → List ℕ) (read : List ℕ → List B)
    → read (enc []) ≡ []
    → read_value read (if not (is_empty xs) then some (bytes (enc xs)) else none) ≡ read (enc xs)
read_present [] enc read e = sym e
read_present (x ∷ xs) enc read e = refl

abbrev slots_of : PexMessage → List Slot
slots_of m =
    (not (is_empty m.added), key_added, encode_compact_peers_v4 m.added)
    ∷ (not (is_empty m.added_flags), key_added_flags, m.added_flags)
    ∷ (not (is_empty m.added6), key_added6, encode_compact_peers_v6 m.added6)
    ∷ (not (is_empty m.added6_flags), key_added6_flags, m.added6_flags)
    ∷ (not (is_empty m.dropped), key_dropped, encode_compact_peers_v4 m.dropped)
    ∷ (not (is_empty m.dropped6), key_dropped6, encode_compact_peers_v6 m.dropped6)
    ∷ []

-- A message whose lists are of the kinds that their names say, as `build_message` makes it, each
-- encoded in at most 100 MiB.
pub record IsSplit (m : PexMessage) : Type 0 where
  pub added_v4 : All IsV4 m.added
  pub dropped_v4 : All IsV4 m.dropped
  pub added_v6 : All IsV6 m.added6
  pub dropped_v6 : All IsV6 m.dropped6
  pub added_room : length (encode_compact_peers_v4 m.added) ≤ max_string_length
  pub dropped_room : length (encode_compact_peers_v4 m.dropped) ≤ max_string_length
  pub added6_room : length (encode_compact_peers_v6 m.added6) ≤ max_string_length
  pub dropped6_room : length (encode_compact_peers_v6 m.dropped6) ≤ max_string_length
  pub flags_room : length m.added_flags ≤ max_string_length
  pub flags6_room : length m.added6_flags ≤ max_string_length

keep-v4 : (xs : List SocketAddr) → All IsV4 xs → keep is_v4 xs ≡ xs
keep-v4 [] h = refl
keep-v4 (v4 ip port ∷ xs) (h, hs) = ap (λ ys. v4 ip port ∷ ys) (keep-v4 xs hs)
keep-v4 (v6 ip port ∷ xs) (h, hs) = elim h [ ]

keep-no_v6 : (xs : List SocketAddr) → All IsV4 xs → keep is_v6 xs ≡ []
keep-no_v6 [] h = refl
keep-no_v6 (v4 ip port ∷ xs) (h, hs) = keep-no_v6 xs hs
keep-no_v6 (v6 ip port ∷ xs) (h, hs) = elim h [ ]

entries_of-slots : (m : PexMessage) → IsSplit m → entries_of m ≡ build (slots_of m)
entries_of-slots m w =
    rw
      (
        keep-v4 m.added w.added_v4,
        keep-v4 m.dropped w.dropped_v4,
        keep-no_v6 m.added w.added_v4,
        keep-no_v6 m.dropped w.dropped_v4,
      )
      refl

-- What is left of a list at the reader.
abbrev pub capped : PexMessage → PexMessage
capped m = record {
  added = take max_peers_per_list m.added;
  added_flags = take max_peers_per_list m.added_flags;
  dropped = take max_peers_per_list m.dropped;
  added6 = take max_peers_per_list m.added6;
  added6_flags = take max_peers_per_list m.added6_flags;
  dropped6 = take max_peers_per_list m.dropped6;
}

-- One list read back.
read_slot {ℓ κ} :
    {A : Type ℓ} {B : Type κ} (slots : List Slot) (key : List ℕ) (xs : List A)
    (enc : List A → List ℕ) (read : List ℕ → List B)
    → slot_at slots key ≡ (if not (is_empty xs) then some (bytes (enc xs)) else none)
    → read (enc []) ≡ []
    → read_at read key (build slots) ≡ read (enc xs)
read_slot slots key xs enc read h e =
    ap (read_value read) (find_entry-build slots key ∙ h) ∙ read_present xs enc read e

message_of-build : (m : PexMessage) → IsSplit m → message_of (build (slots_of m)) ≡ capped m
unfolding parse_peers
message_of-build m w =
    let slots = slots_of m in
    let cap = take {A = ℕ} max_peers_per_list in
    let same : List ℕ → List ℕ = λ xs. xs in
    let added =
      read_slot slots key_added m.added encode_compact_peers_v4 parse_compact_peers_v4 refl refl
      ∙ parse_peers-encode_v4 max_peers_per_list m.added w.added_v4 in
    let added_flags = read_slot slots key_added_flags m.added_flags same cap refl refl in
    let dropped =
      read_slot slots key_dropped m.dropped encode_compact_peers_v4 parse_compact_peers_v4 refl refl
      ∙ parse_peers-encode_v4 max_peers_per_list m.dropped w.dropped_v4 in
    let added6 =
      read_slot slots key_added6 m.added6 encode_compact_peers_v6 parse_compact_peers_v6 refl refl
      ∙ parse_peers-encode_v6 max_peers_per_list m.added6 w.added_v6 in
    let added6_flags = read_slot slots key_added6_flags m.added6_flags same cap refl refl in
    let dropped6 =
      read_slot slots key_dropped6 m.dropped6 encode_compact_peers_v6 parse_compact_peers_v6 refl
        refl
      ∙ parse_peers-encode_v6 max_peers_per_list m.dropped6 w.dropped_v6 in
    λ i. record {
      added = added i;
      added_flags = added_flags i;
      dropped = dropped i;
      added6 = added6 i;
      added6_flags = added6_flags i;
      dropped6 = dropped6 i;
    }

build-FitsAt : (m : PexMessage) → IsSplit m → FitsAt 0 (dict (build (slots_of m)))
unfolding FitsAt EntriesFit key_lt
build-FitsAt m w =
    let at_end : FitFrom (b'z' ∷ []) no_entries = λ last e. tt in
    let e6 : FitFrom key_dropped6 (build (drop 5 (slots_of m))) =
      insert-FitFrom (not (is_empty m.dropped6)) key_dropped6 (b'z' ∷ []) _
        (build (drop 6 (slots_of m))) refl (omega arith) w.dropped6_room at_end in
    let e5 : FitFrom key_dropped (build (drop 4 (slots_of m))) =
      insert-FitFrom (not (is_empty m.dropped)) key_dropped key_dropped6 _
        (build (drop 5 (slots_of m))) refl (omega arith) w.dropped_room e6 in
    let e4 : FitFrom key_added6_flags (build (drop 3 (slots_of m))) =
      insert-FitFrom (not (is_empty m.added6_flags)) key_added6_flags key_dropped _
        (build (drop 4 (slots_of m))) refl (omega arith) w.flags6_room e5 in
    let e3 : FitFrom key_added6 (build (drop 2 (slots_of m))) =
      insert-FitFrom (not (is_empty m.added6)) key_added6 key_added6_flags _
        (build (drop 3 (slots_of m))) refl (omega arith) w.added6_room e4 in
    let e2 : FitFrom key_added_flags (build (drop 1 (slots_of m))) =
      insert-FitFrom (not (is_empty m.added_flags)) key_added_flags key_added6 _
        (build (drop 2 (slots_of m))) refl (omega arith) w.flags_room e3 in
    let e1 : FitFrom key_added (build (slots_of m)) =
      insert-FitFrom (not (is_empty m.added)) key_added key_added_flags _
        (build (drop 1 (slots_of m))) refl (omega arith) w.added_room e2 in
    (omega arith, e1 none refl)

-- A message whose lists are of the kinds that their names say, each encoded in at most 100 MiB, is read
-- back, but of each list only the first 100 entries.
pub parse_message-encode_message :
    (m : PexMessage) → IsSplit m → parse_message (encode_message m) ≡ ok (capped m)
unfolding parse_message encode_message
parse_message-encode_message m w =
    let (read, _) = parse_exact-encode (dict (build (slots_of m))) [] (build-FitsAt m w) in
    rw (entries_of-slots m w, read) (ap ok (message_of-build m w))
