-- ===== src/Mirror/Tests.antt =====
-- The mirrors of src/http/mirror.rs at concrete inputs: two mirrors, and one alone.
use gosh_dl.Base.{refl, ℕ, ◌<◌, ◌≡◌, ◌≢◌, ◌⊎◌, true, false, [], ◌∷◌, none, arith, get_elem?, has}
use gosh_dl.Mirror.{MirrorManager, new, next_from, count_failure, switch_to_next, report_failure}
use gosh_dl.Mirror.Switch.{switch_to_next_lem}
use gosh_dl.Mirror.Invariant.{IsValid, new_mirrors-IsValid}

abbrev two_mirrors : MirrorManager
two_mirrors = record {
  urls = (97 ∷ []) ∷ (98 ∷ []) ∷ [];
  current_index = 0;
  failed = [];
  failure_counts = 0 ∷ 0 ∷ [];
  max_failures = 3;
}

two_mirrors-IsValid : IsValid two_mirrors
unfolding new
two_mirrors-IsValid = new_mirrors-IsValid (97 ∷ []) ((98 ∷ []) ∷ [])

switch_to_next_lem_example :
    ((i : ℕ) × (i < 2)
      × (i ≢ 0)
      × (has [] i ≡ false)
      × (switch_to_next two_mirrors
          ≡ (record two_mirrors { current_index = i }, get_elem? two_mirrors.urls i)))
    ⊎ ((switch_to_next two_mirrors ≡ (two_mirrors, none))
        × ((i : ℕ) → i < 2 → i ≢ 0 → has [] i ≡ true))
switch_to_next_lem_example = switch_to_next_lem two_mirrors (omega arith)

-- A mirror alone that fails once is not marked as failed, and yet there is no URL to go on with.
one_failure :
    ((report_failure (new (97 ∷ []) [])).1 ≡ none)
    × (has (report_failure (new (97 ∷ []) [])).0.failed 0 ≡ false)
unfolding report_failure switch_to_next count_failure new next_from
one_failure = (refl, refl)
