-- ===== src/Utp/Congestion.antt =====
-- src/torrent/utp/congestion.rs: `LedbatController`. The floating-point change of the window is an
-- argument: the value of `cwnd_delta` for a queuing delay, a target delay, the bytes acknowledged and
-- the window, truncated to a whole number as `as i32` does. An `Instant` is a number of microseconds.
-- The sums and products of `u32` wrap, as in a build without overflow checks; a build with them panics there.
pub mod Bounds
use gosh_dl.Base.{
  ℕ, zero, suc, ◌+◌, ◌-◌, ◌*◌, ◌/◌, ◌%◌, ◌^◌, min, max, Bool, true, false, List, [], ◌∷◌, ◌++◌,
  Option, none, some, if◌then◌else◌, ◌==◌, ltb, leb, length, drop,
}
use gosh_dl.Base.Int.{ℤ, pos, negsuc}

abbrev pub target_delay : ℕ
target_delay = 100000

abbrev pub max_window : ℕ
max_window = 1000000

abbrev pub min_window : ℕ
min_window = 150

abbrev pub initial_window : ℕ
initial_window = 3000

abbrev pub mss : ℕ
mss = 1400

pub record DelayHistory : Type 0 where
  pub samples : List (ℕ × ℕ)
  pub max_size : ℕ
  pub window_duration : ℕ

-- `while let Some(&(ts, _)) = samples.front() { if ts < cutoff { pop_front } else { break } }`
abbrev pub drop_old : ℕ → List (ℕ × ℕ) → List (ℕ × ℕ)
drop_old cutoff [] = []
drop_old cutoff ((time, delay) ∷ samples) =
    if ltb time cutoff then drop_old cutoff samples else (time, delay) ∷ samples

abbrev pub make_room {ℓ} : {A : Type ℓ} → ℕ → List A → List A
make_room most xs = if leb most (length xs) then drop 1 xs else xs

abbrev pub add_sample : ℕ → ℕ → DelayHistory → DelayHistory
add_sample now delay_us h = record h {
  samples =
      make_room h.max_size (drop_old (now - h.window_duration) h.samples) ++ ((now, delay_us) ∷ []);
}

abbrev pub least : List (ℕ × ℕ) → Option ℕ
least [] = none
least ((time, delay) ∷ samples) = elim (least samples) [
  | none ↦ some delay
  | some other ↦ some (min delay other)
]

pub record LedbatController : Type 0 where
  pub cwnd : ℕ
  pub ssthresh : ℕ
  pub base_delay_history : DelayHistory
  pub current_delay_filter : List ℕ
  pub bytes_in_flight : ℕ
  pub rtt_us : ℕ
  pub rtt_var_us : ℕ
  pub rto_us : ℕ
  pub in_slow_start : Bool
  pub last_ack_time : Option ℕ
  pub max_cwnd : ℕ
  pub target_delay_us : ℕ

abbrev pub new : LedbatController
new = record {
  cwnd = initial_window;
  ssthresh = max_window;
  base_delay_history = record { samples = []; max_size = 13; window_duration = 120 * 1000000 };
  current_delay_filter = [];
  bytes_in_flight = 0;
  rtt_us = 1000000;
  rtt_var_us = 0;
  rto_us = 3000000;
  in_slow_start = true;
  last_ack_time = none;
  max_cwnd = max_window;
  target_delay_us = target_delay;
}

unfoldable pub set_params : ℕ → ℕ → LedbatController → LedbatController
set_params max_cwnd target_delay_us l = record l {
  max_cwnd = max max_cwnd min_window;
  target_delay_us = max target_delay_us 1000;
  cwnd = min l.cwnd (max max_cwnd min_window);
}

abbrev pub available_window : LedbatController → ℕ
available_window l = l.cwnd - l.bytes_in_flight

abbrev pub can_send : LedbatController → Bool
can_send l = ltb l.bytes_in_flight l.cwnd

abbrev pub wrap : ℕ → ℕ
wrap n = n % 2 ^ 32

unfoldable pub on_send : ℕ → LedbatController → LedbatController
on_send bytes l = record l { bytes_in_flight = wrap (l.bytes_in_flight + bytes) }

abbrev pub abs_diff : ℕ → ℕ → ℕ
abs_diff a b = (a - b) + (b - a)

abbrev pub with_rto : LedbatController → LedbatController
with_rto l = record l { rto_us = max (wrap (l.rtt_us + wrap (4 * l.rtt_var_us))) 500000 }

unfoldable pub update_rtt : ℕ → LedbatController → LedbatController
update_rtt sample_rtt_us l =
    if l.rtt_us == 1000000
    then with_rto (record l { rtt_us = sample_rtt_us; rtt_var_us = sample_rtt_us / 2 })
    else with_rto (record l {
      rtt_var_us = wrap (l.rtt_var_us * 3) / 4 + abs_diff sample_rtt_us l.rtt_us / 4;
      rtt_us = wrap (l.rtt_us * 7) / 8 + sample_rtt_us / 8;
    })

-- `saturating_add` stops at the largest u32.
abbrev pub shifted : ℕ → ℤ → ℕ
shifted cwnd (pos n) = min (cwnd + n) (2 ^ 32 - 1)
shifted cwnd (negsuc n) = cwnd - suc n

abbrev pub clamp_window : LedbatController → LedbatController
clamp_window l = record l { cwnd = min (max l.cwnd min_window) l.max_cwnd }

abbrev pub with_rtt : Option ℕ → LedbatController → LedbatController
with_rtt none l = l
with_rtt (some sample) l = update_rtt sample l

-- What `on_ack` does before it adjusts the window.
abbrev pub with_delay : ℕ → ℕ → Option ℕ → LedbatController → LedbatController
with_delay now delay_us rtt l = record (with_rtt rtt l) {
  base_delay_history = add_sample now delay_us l.base_delay_history;
  current_delay_filter = make_room 8 l.current_delay_filter ++ (delay_us ∷ []);
}

abbrev pub base_delay : ℕ → LedbatController → ℕ
base_delay delay_us l = elim (least l.base_delay_history.samples) [ none ↦ delay_us | some d ↦ d ]

module _ (cwnd_delta : ℕ → ℕ → ℕ → ℕ → ℤ) where
  unfoldable pub adjust_window : ℕ → ℕ → LedbatController → LedbatController
  adjust_window bytes_acked queuing_delay_us l =
      if l.in_slow_start
      then if ltb queuing_delay_us l.target_delay_us
        then clamp_window (record l { cwnd = wrap (l.cwnd + bytes_acked) })
        else clamp_window (record l { in_slow_start = false; ssthresh = l.cwnd })
      else clamp_window (record l {
        cwnd = shifted l.cwnd (cwnd_delta queuing_delay_us l.target_delay_us bytes_acked l.cwnd);
      })

  unfoldable pub on_ack : ℕ → ℕ → ℕ → Option ℕ → LedbatController → LedbatController
  unfolding adjust_window
  on_ack now bytes_acked delay_us rtt l =
      let l' = with_delay now delay_us rtt (record l {
        last_ack_time = some now;
        bytes_in_flight = l.bytes_in_flight - bytes_acked;
      }) in
      adjust_window bytes_acked (delay_us - base_delay delay_us l') l'

unfoldable pub on_loss : LedbatController → LedbatController
on_loss l = record l {
  ssthresh = max (l.cwnd / 2) min_window;
  cwnd = min_window;
  in_slow_start = false;
}

unfoldable pub on_timeout : LedbatController → LedbatController
unfolding on_loss
on_timeout l = record (on_loss l) { rto_us = min (wrap (l.rto_us * 2)) 60000000 }
