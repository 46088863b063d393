-- ===== src/Utp/Congestion/Bounds.antt =====
-- src/torrent/utp/congestion.rs: the range of the congestion window and of the timeout.
use gosh_dl.Base.{
  ℕ, ◌-◌, ◌*◌, ◌/◌, ◌≤◌, Bool, All, List, [], ◌∷◌, Option, none, some, arith, inl, inr, Bool-cases,
  ltb, ◌==◌,
}
use gosh_dl.Base.Int.{ℤ}
use gosh_dl.Utp.Congestion.{
  LedbatController, min_window, new, set_params, on_send, on_ack, on_timeout, on_loss, update_rtt,
  with_rtt, with_rto, with_delay, adjust_window, clamp_window,
}

-- The longest round trip, of 400 seconds, that the arithmetic of 32 bits is shown to bear.
abbrev pub longest : ℕ
longest = 400000000

pub record InWindow (l : LedbatController) : Type 0 where
  pub floor : min_window ≤ l.cwnd
  pub ceiling : l.cwnd ≤ l.max_cwnd
  pub timeout : 500000 ≤ l.rto_us
  pub soon : l.rto_us ≤ 5 * longest
  pub trip : l.rtt_us ≤ longest
  pub variance : l.rtt_var_us ≤ longest

abbrev pub IsShort : Option ℕ → Type 0
IsShort none = Unit
IsShort (some sample) = sample ≤ longest

-- What adjusting the window leaves.
record IsTimed (l : LedbatController) : Type 0 where
  pub room : min_window ≤ l.max_cwnd
  pub timeout : 500000 ≤ l.rto_us
  pub soon : l.rto_us ≤ 5 * longest
  pub trip : l.rtt_us ≤ longest
  pub variance : l.rtt_var_us ≤ longest

clamp_window-InWindow : (l : LedbatController) → IsTimed l → InWindow (clamp_window l)
clamp_window-InWindow l t = record {
  floor = omega (arith, t.room);
  ceiling = omega arith;
  timeout = t.timeout;
  soon = t.soon;
  trip = t.trip;
  variance = t.variance;
}

set_params-InWindow :
    (most target : ℕ) (l : LedbatController) → InWindow l → InWindow (set_params most target l)
unfolding set_params
set_params-InWindow most target l h = record {
  floor = omega (arith, h.floor);
  ceiling = omega arith;
  timeout = h.timeout;
  soon = h.soon;
  trip = h.trip;
  variance = h.variance;
}

new-InWindow : InWindow new
new-InWindow = record {
  floor = omega arith;
  ceiling = omega arith;
  timeout = omega arith;
  soon = omega arith;
  trip = omega arith;
  variance = omega arith;
}

on_send-InWindow : (bytes : ℕ) (l : LedbatController) → InWindow l → InWindow (on_send bytes l)
unfolding on_send
on_send-InWindow bytes l h = record {
  floor = h.floor;
  ceiling = h.ceiling;
  timeout = h.timeout;
  soon = h.soon;
  trip = h.trip;
  variance = h.variance;
}

on_timeout-InWindow : (l : LedbatController) → InWindow l → InWindow (on_timeout l)
unfolding on_timeout on_loss
on_timeout-InWindow l h = record {
  floor = omega arith;
  ceiling = omega (arith, h.floor, h.ceiling);
  timeout = omega (arith, h.timeout, h.soon);
  soon = omega (arith, h.soon);
  trip = h.trip;
  variance = h.variance;
}

with_rto-InWindow :
    (trip variance : ℕ) (l : LedbatController)
    → trip ≤ longest
    → variance ≤ longest
    → InWindow l
    → InWindow (with_rto (record l { rtt_us = trip; rtt_var_us = variance }))
with_rto-InWindow trip variance l t v h = record {
  floor = h.floor;
  ceiling = h.ceiling;
  timeout = omega arith;
  soon = omega (arith, t, v);
  trip = t;
  variance = v;
}

-- A sample of the round trip leaves the window, and its timeout has the least value.
update_rtt-InWindow :
    (sample : ℕ) (l : LedbatController)
    → sample ≤ longest
    → InWindow l
    → InWindow (update_rtt sample l)
unfolding update_rtt
update_rtt-InWindow sample l short h = elim (Bool-cases (l.rtt_us == 1000000)) [
  | inl first ↦ rw first (with_rto-InWindow sample (sample / 2) l short (omega arith) h)
  | inr later ↦
      rw later
        (with_rto-InWindow _ _ l (omega (arith, h.trip)) (omega (arith, h.trip, h.variance)) h)
]

with_rtt-InWindow :
    (rtt : Option ℕ) (l : LedbatController) → IsShort rtt → InWindow l → InWindow (with_rtt rtt l)
with_rtt-InWindow none l short h = h
with_rtt-InWindow (some sample) l short h = update_rtt-InWindow sample l short h

still-IsTimed :
    (l : LedbatController) (cwnd ssthresh : ℕ) (slow : Bool)
    → IsTimed l
    → IsTimed (record l { cwnd = cwnd; ssthresh = ssthresh; in_slow_start = slow })
still-IsTimed l cwnd ssthresh slow t = record {
  room = t.room;
  timeout = t.timeout;
  soon = t.soon;
  trip = t.trip;
  variance = t.variance;
}

module _ (cwnd_delta : ℕ → ℕ → ℕ → ℕ → ℤ) where
  adjust_window-InWindow :
      (bytes delay : ℕ) (l : LedbatController)
      → InWindow l
      → InWindow (adjust_window cwnd_delta bytes delay l)
  unfolding adjust_window
  adjust_window-InWindow bytes delay l h =
      let t : IsTimed l = record {
        room = omega (arith, h.floor, h.ceiling);
        timeout = h.timeout;
        soon = h.soon;
        trip = h.trip;
        variance = h.variance;
      } in
      elim (Bool-cases l.in_slow_start) [
        | inl slow ↦ elim (Bool-cases (ltb delay l.target_delay_us)) [
          | inl low ↦ rw (slow, low) (clamp_window-InWindow _ (still-IsTimed l _ _ _ t))
          | inr high ↦ rw (slow, high) (clamp_window-InWindow _ (still-IsTimed l _ _ _ t))
        ]
        | inr steady ↦ rw steady (clamp_window-InWindow _ (still-IsTimed l _ _ _ t))
      ]

  pub on_ack-InWindow :
      (now bytes delay : ℕ) (rtt : Option ℕ) (l : LedbatController)
      → IsShort rtt
      → InWindow l
      → InWindow (on_ack cwnd_delta now bytes delay rtt l)
  unfolding on_ack
  on_ack-InWindow now bytes delay rtt l short h =
      let counted = record l {
        last_ack_time = some now;
        bytes_in_flight = l.bytes_in_flight - bytes;
      } in
      let k = with_rtt-InWindow rtt counted short (record {
        floor = h.floor;
        ceiling = h.ceiling;
        timeout = h.timeout;
        soon = h.soon;
        trip = h.trip;
        variance = h.variance;
      }) in
      adjust_window-InWindow bytes _ (with_delay now delay rtt counted) (record {
        floor = k.floor;
        ceiling = k.ceiling;
        timeout = k.timeout;
        soon = k.soon;
        trip = k.trip;
        variance = k.variance;
      })

  -- What a socket tells its controller.
  pub data Change : Type 0 where
    sent : ℕ → Change
    acked : ℕ → ℕ → ℕ → Option ℕ → Change
    timeout : Change

  -- The sample of the round trip, if there is one, is not too long.
  abbrev pub IsMeasured : Change → Type 0
  IsMeasured (sent bytes) = Unit
  IsMeasured (acked now bytes delay rtt) = IsShort rtt
  IsMeasured timeout = Unit

  unfoldable pub apply : List Change → LedbatController → LedbatController
  apply [] l = l
  apply (sent bytes ∷ changes) l = apply changes (on_send bytes l)
  apply (acked now bytes delay rtt ∷ changes) l =
      apply changes (on_ack cwnd_delta now bytes delay rtt l)
  apply (timeout ∷ changes) l = apply changes (on_timeout l)

  apply-InWindow :
      (changes : List Change) (l : LedbatController)
      → All IsMeasured changes
      → InWindow l
      → InWindow (apply changes l)
  unfolding apply
  apply-InWindow [] l a h = h
  apply-InWindow (sent bytes ∷ changes) l (a, rest) h =
      apply-InWindow changes _ rest (on_send-InWindow bytes l h)
  apply-InWindow (acked now bytes delay rtt ∷ changes) l (a, rest) h =
      apply-InWindow changes _ rest (on_ack-InWindow now bytes delay rtt l a h)
  apply-InWindow (timeout ∷ changes) l (a, rest) h =
      apply-InWindow changes _ rest (on_timeout-InWindow l h)

  -- However packets are sent, acknowledged and timed out, whatever the floating-point change of the
  -- window, and whatever ceiling and target are configured, as long as no sample of the round trip is over
  -- 400 seconds: the window stays between the least window and the ceiling in force, and the timeout is
  -- between half a second and 2000 seconds, in wrapping arithmetic of 32 bits.
  pub controller-InWindow :
      (changes : List Change) (most target : ℕ)
      → All IsMeasured changes
      → InWindow (apply changes (set_params most target new))
  controller-InWindow changes most target measured =
      apply-InWindow changes _ measured (set_params-InWindow most target new new-InWindow)
