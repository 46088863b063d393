-- ===== src/Choking/Decisions.antt =====
-- src/torrent/choking.rs: what the decisions of `recalculate` lead to.
use gosh_dl.Base.{
  some_inj, ℕ, ◌+◌, ◌≤◌, ◌≡◌, refl, Bool, true, false, not, ◌&&◌, ◌||◌, List, [], ◌∷◌, ◌++◌, Option,
  none, some, arith, if◌then◌else◌, ◌==◌, ltb, length, has, contains, lookup, IsMap, inl, inr,
  Bool-cases, Option-cases, sym, ◌∙◌, ap, length-take, length-append,
}
use gosh_dl.Choking.{
  ChokingManager, ChokingDecision, PeerStats, Peers, unchoke, choke, unchokes, chokes,
  with_optimistic, to_unchoke, recalculate, rotated, regular_slots, addresses, interested_peers,
  duration_since,
}

-- Whether a peer is unchoked once the decisions are carried out in order.
abbrev pub after : List ChokingDecision → ℕ → Bool → Bool
after [] addr is_unchoked = is_unchoked
after (unchoke x ∷ ds) addr is_unchoked = after ds addr (if x == addr then true else is_unchoked)
after (choke x ∷ ds) addr is_unchoked = after ds addr (if x == addr then false else is_unchoked)

after-append :
    (ds es : List ChokingDecision) (addr : ℕ) (b : Bool)
    → after (ds ++ es) addr b ≡ after es addr (after ds addr b)
after-append [] es addr b = refl
after-append (unchoke x ∷ ds) es addr b = after-append ds es addr (if x == addr then true else b)
after-append (choke x ∷ ds) es addr b = after-append ds es addr (if x == addr then false else b)

or_true : (b : Bool) → (b || true) ≡ true
or_true true = refl
or_true false = refl

after-unchokes :
    (peers : Peers) (list : List ℕ) (addr : ℕ) (stats : PeerStats) (b : Bool)
    → lookup addr peers ≡ some stats
    → (stats.is_unchoked ≡ true → b ≡ true)
    → after (unchokes peers list) addr b ≡ (b || has list addr)
after-unchokes peers [] addr stats b h k = ground arith
after-unchokes peers (x ∷ list) addr stats b h k =
    let same = after-unchokes peers list addr stats b h k in
    let set = after-unchokes peers list addr stats true h (λ _. refl) in
    elim (Bool-cases (x == addr)) [
      | inl here ↦
          let e : x ≡ addr = ground arith in
          let found : lookup x peers ≡ some stats = ap (λ y. lookup y peers) e ∙ h in
          elim (Bool-cases stats.is_unchoked) [
            | inl on ↦ rw (found, on, here, same, k on) refl
            | inr off ↦ rw (found, off, here, set, or_true b) refl
          ]
      | inr there ↦ elim (Option-cases (lookup x peers)) [
        | inl e ↦ rw (e, there) same
        | inr (s, e) ↦ elim (Bool-cases s.is_unchoked) [
          | inl on ↦ rw (e, on, there) same
          | inr off ↦ rw (e, off, there) same
        ]
      ]
    ]

after-chokes_absent :
    (peers : Peers) (list : List ℕ) (addr : ℕ) (b : Bool)
    → lookup addr peers ≡ none
    → after (chokes peers list) addr b ≡ b
unfolding lookup
after-chokes_absent [] list addr b h = refl
after-chokes_absent ((x, s) ∷ peers) list addr b h =
    ground (arith, after-chokes_absent peers list addr b)

after-chokes :
    (peers : Peers) (list : List ℕ) (addr : ℕ) (stats : PeerStats) (b : Bool)
    → IsMap peers
    → lookup addr peers ≡ some stats
    → after (chokes peers list) addr b
      ≡ (if stats.is_unchoked && not (has list addr) then false else b)
unfolding lookup
after-chokes [] list addr stats b v h = absurd cc
after-chokes ((x, s) ∷ peers) list addr stats b v h = elim (Bool-cases (x == addr)) [
  | inl here ↦
      let e : x ≡ addr = ground arith in
      let same : s ≡ stats = some_inj (sym (rw here refl) ∙ h) in
      let gone : lookup addr peers ≡ none = sym (ap (λ y. lookup y peers) e) ∙ v.0 in
      let rest = after-chokes_absent peers list addr in
      let listed_too : has list x ≡ has list addr = ap (has list) e in
      elim (Bool-cases stats.is_unchoked) [
        | inl on ↦ elim (Bool-cases (has list addr)) [
          | inl listed ↦ rw (same, on, listed_too, listed, rest b gone) refl
          | inr unlisted ↦ rw (same, on, listed_too, unlisted, here, rest false gone) refl
        ]
        | inr off ↦ rw (same, off, rest b gone) refl
      ]
  | inr there ↦
      let found : lookup addr peers ≡ some stats = sym (rw there refl) ∙ h in
      let rest = after-chokes peers list addr stats b v.1 found in
      elim (Bool-cases (s.is_unchoked && not (has list x))) [
        | inl drop ↦
            let kept : (if x == addr then false else b) ≡ b = rw there refl in
            rw drop (ap (after (chokes peers list) addr) kept ∙ rest)
        | inr stay ↦ rw stay rest
      ]
]

decisions_lem :
    (peers : Peers) (list : List ℕ) (addr : ℕ) (stats : PeerStats)
    → IsMap peers
    → lookup addr peers ≡ some stats
    → after (unchokes peers list ++ chokes peers list) addr stats.is_unchoked ≡ has list addr
decisions_lem peers list addr stats v h =
    let b = stats.is_unchoked in
    after-append (unchokes peers list) (chokes peers list) addr b
    ∙ ap (after (chokes peers list) addr) (after-unchokes peers list addr stats b h (λ e. e))
    ∙ after-chokes peers list addr stats (b || has list addr) v h
    ∙ ground arith

-- For a map in which no address stands twice: once the decisions of `recalculate` are carried out, every
-- peer of the map is unchoked exactly if it is among those to unchoke, whatever it was before; a call
-- before the interval is over leaves every peer as it is.
pub recalculate_lem :
    (m : ChokingManager) (peers : Peers) (is_seeding : Bool) (now addr : ℕ) (stats : PeerStats)
    → IsMap peers
    → lookup addr peers ≡ some stats
    → after (recalculate m peers is_seeding now).1 addr stats.is_unchoked ≡ (
        if ltb (duration_since now m.last_recalculate) m.config.recalculate_interval
        then stats.is_unchoked
        else has (to_unchoke m peers is_seeding now) addr)
unfolding recalculate
recalculate_lem m peers is_seeding now addr stats v h =
    elim (Bool-cases (ltb (duration_since now m.last_recalculate) m.config.recalculate_interval)) [
      | inl early ↦ rw early refl
      | inr due ↦ rw due (decisions_lem peers (to_unchoke m peers is_seeding now) addr stats v h)
    ]

with_optimistic_bounded :
    (o : Option ℕ) (peers : Peers) (list : List ℕ)
    → length (with_optimistic o peers list) ≤ length list + 1
with_optimistic_bounded none peers list = omega arith
with_optimistic_bounded (some peer) peers list =
    elim (Bool-cases (contains peer peers && not (has list peer))) [
      | inl extra ↦ rw extra (omega (arith, length-append list (peer ∷ [])))
      | inr plain ↦ rw plain (omega arith)
    ]

-- At most one peer more than there are regular slots is to be unchoked.
pub unchoked_bounded :
    (m : ChokingManager) (peers : Peers) (is_seeding : Bool) (now : ℕ)
    → length (to_unchoke m peers is_seeding now) ≤ m.config.unchoke_slots + 1
unfolding to_unchoke regular_slots
unchoked_bounded m peers is_seeding now =
    let interested = addresses (interested_peers peers is_seeding) in
    omega (
      arith,
      with_optimistic_bounded (rotated m peers is_seeding now).optimistic_peer peers
          (regular_slots m peers is_seeding),
      length-take m.config.unchoke_slots interested,
    )
