-- ===== src/Mirror.antt =====
-- src/http/mirror.rs: `MirrorManager`, the mirrors of a file and the failover between them. Each method
-- that takes a lock is one step; the index, the list of failed mirrors and the counts are the state. A
-- URL is its bytes.
mod Switch
mod Invariant
mod Available
mod Tests
use gosh_dl.Base.{
  ℕ, zero, suc, ◌+◌, ◌-◌, ◌%◌, ◌^◌, Bool, true, false, not, ◌||◌, List, [], ◌∷◌, ◌++◌, Option, none,
  some, if◌then◌else◌, ◌==◌, ltb, leb, length, get_elem?, get_or, set, replicate, position,
  same_bytes, has,
}

abbrev pub Url : Type 0
Url = List ℕ

pub record MirrorManager : Type 0 where
  pub urls : List Url
  pub current_index : ℕ
  pub failed : List ℕ
  pub failure_counts : List ℕ
  pub max_failures : ℕ

abbrev pub push_new : List ℕ → ℕ → List ℕ
push_new failed i = if has failed i then failed else failed ++ i ∷ []

pub new : Url → List Url → MirrorManager
new primary_url mirrors = record {
  urls = primary_url ∷ mirrors;
  current_index = 0;
  failed = [];
  failure_counts = replicate (suc (length mirrors)) 0;
  max_failures = 3;
}

-- An index out of range would panic; see `IsValid`.
pub current_url : MirrorManager → Option Url
current_url m = get_elem? m.urls m.current_index

-- The URLs from the index `i` on that have not failed.
abbrev pub available_from : List ℕ → ℕ → List Url → List Url
available_from failed i [] = []
available_from failed i (url ∷ urls) =
    if has failed i
    then available_from failed (suc i) urls
    else url ∷ available_from failed (suc i) urls

pub available_urls : MirrorManager → List Url
available_urls m = available_from m.failed 0 m.urls

pub url_for_segment : MirrorManager → ℕ → Option Url
unfolding available_urls current_url
url_for_segment m segment_idx =
    if length (available_urls m) == 0
    then current_url m
    else get_elem? (available_urls m) (segment_idx % length (available_urls m))

pub has_available : MirrorManager → Bool
has_available m = ltb (length m.failed) (length m.urls)

pub available_count : MirrorManager → ℕ
available_count m = length m.urls - length m.failed

-- The loop of `switch_to_next` over the `k` offsets from `offset` on: the first that has not failed.
pub next_from : ℕ → MirrorManager → ℕ → Option ℕ
next_from zero m offset = none
next_from (suc k) m offset =
    let idx = (m.current_index + offset) % length m.urls in
    let rest = next_from k m (suc offset) in if has m.failed idx then rest else some idx

pub switch_to_next : MirrorManager → MirrorManager × Option Url
unfolding next_from
switch_to_next m = elim (next_from (length m.urls - 1) m 1) [
  | none ↦ (m, none)
  | some idx ↦ (record m { current_index = idx }, get_elem? m.urls idx)
]

-- Another failure of the mirror `i`, whose count is a `u32`.
pub count_failure : MirrorManager → ℕ → MirrorManager
count_failure m i =
    let count = (get_or m.failure_counts i 0 + 1) % 2 ^ 32 in
    record m {
      failure_counts = set m.failure_counts i count;
      failed = if leb m.max_failures count then push_new m.failed i else m.failed;
    }

pub report_failure : MirrorManager → MirrorManager × Option Url
unfolding count_failure switch_to_next
report_failure m = switch_to_next (count_failure m m.current_index)

pub report_url_failure : MirrorManager → Url → MirrorManager × Option Url
unfolding count_failure switch_to_next current_url
report_url_failure m url = elim (position (λ u. same_bytes u url) m.urls) [
  | none ↦ (m, current_url m)
  | some idx ↦
      let counted = count_failure m idx in
      if counted.current_index == idx
      then switch_to_next counted
      else (counted, current_url counted)
]

pub failover_from : MirrorManager → Url → MirrorManager × Option Url
unfolding switch_to_next current_url
failover_from m url = elim (position (λ u. same_bytes u url) m.urls) [
  | none ↦ (m, none)
  | some idx ↦
      let marked = record m { failed = push_new m.failed idx } in
      if marked.current_index == idx then switch_to_next marked else (marked, current_url marked)
]

pub report_success : MirrorManager → MirrorManager
report_success m = record m { failure_counts = set m.failure_counts m.current_index 0 }

pub reset : MirrorManager → MirrorManager
reset m = record m { failed = []; failure_counts = replicate (length m.urls) 0; current_index = 0 }
