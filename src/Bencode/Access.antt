-- ===== src/Bencode/Access.antt =====
-- src/torrent/bencode.rs: the accessors of a value.
use gosh_dl.Base.{ℕ, List, Option, none, some, if◌then◌else◌, same_bytes}
use gosh_dl.Base.Int.{ℤ, pos, negsuc}
use gosh_dl.Bencode.{BencodeValue, Items, Entries, list, dict, bytes, integer, no_entries, entry}

abbrev pub as_int : BencodeValue → Option ℤ
as_int (integer n) = some n
as_int (bytes s) = none
as_int (list xs) = none
as_int (dict es) = none

-- A negative number has none.
abbrev pub as_uint : BencodeValue → Option ℕ
as_uint (integer (pos n)) = some n
as_uint (integer (negsuc n)) = none
as_uint (bytes s) = none
as_uint (list xs) = none
as_uint (dict es) = none

abbrev pub as_bytes : BencodeValue → Option (List ℕ)
as_bytes (integer n) = none
as_bytes (bytes s) = some s
as_bytes (list xs) = none
as_bytes (dict es) = none

abbrev pub as_list : BencodeValue → Option Items
as_list (integer n) = none
as_list (bytes s) = none
as_list (list xs) = some xs
as_list (dict es) = none

abbrev pub as_dict : BencodeValue → Option Entries
as_dict (integer n) = none
as_dict (bytes s) = none
as_dict (list xs) = none
as_dict (dict es) = some es

-- `BTreeMap::get`.
abbrev pub find_entry : Entries → List ℕ → Option BencodeValue
find_entry no_entries key = none
find_entry (entry k v es) key = if same_bytes k key then some v else find_entry es key

abbrev pub get_bytes : BencodeValue → List ℕ → Option BencodeValue
get_bytes (integer n) key = none
get_bytes (bytes s) key = none
get_bytes (list xs) key = none
get_bytes (dict es) key = find_entry es key
