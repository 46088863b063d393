-- ===== src/Schedule/Limits.antt =====
-- src/scheduler.rs: the limits in force after a call.
use gosh_dl.Base.{
  ℕ, ◌≡◌, refl, ◌⊎◌, inl, inr, true, false, List, [], ◌∷◌, ◌++◌, Option, none, some, All,
  Bool-cases, arith, ap,
}
use gosh_dl.Schedule.{
  ScheduleRule, Weekday, BandwidthLimits, BandwidthScheduler, matches, evaluate_rules, new,
  same_limit, same_limits, update, add_rule, clear_rules, set_rules, set_defaults,
}

same_limit-eq : (a b : Option ℕ) → same_limit a b ≡ true → a ≡ b
same_limit-eq none none h = refl
same_limit-eq none (some m) h = absurd cc
same_limit-eq (some n) none h = absurd cc
same_limit-eq (some n) (some m) h = ground arith

same_limits-eq : (a b : BandwidthLimits) → same_limits a b ≡ true → a ≡ b
same_limits-eq a b h =
    let d : a.download ≡ b.download = same_limit-eq a.download b.download (ground arith) in
    let u : a.upload ≡ b.upload = same_limit-eq a.upload b.upload (ground arith) in
    λ i. record { download = d i; upload = u i }

-- What the limits are of.
abbrev pub InForce : BandwidthScheduler → ℕ → Weekday → Type 0
InForce s hour day = s.current_limits ≡ evaluate_rules s.rules s.default_limits hour day

update-InForce :
    (s : BandwidthScheduler) (hour : ℕ) (day : Weekday) → InForce (update s hour day).0 hour day
unfolding update
update-InForce s hour day =
    let limits = evaluate_rules s.rules s.default_limits hour day in
    elim (Bool-cases (same_limits s.current_limits limits)) [
      | inl same ↦ rw same (same_limits-eq s.current_limits limits same)
      | inr changed ↦ rw changed refl
    ]

-- After each call the limits are those of the rules and defaults it leaves, at the time of the call.
pub changes-InForce :
    (s : BandwidthScheduler) (rule : ScheduleRule) (rules : List ScheduleRule)
    (limits : BandwidthLimits) (hour : ℕ) (day : Weekday)
    → InForce (update s hour day).0 hour day
      × InForce (add_rule s rule hour day) hour day
      × InForce (clear_rules s hour day) hour day
      × InForce (set_rules s rules hour day) hour day
      × InForce (set_defaults s limits hour day) hour day
      × InForce (new rules limits hour day) hour day
unfolding add_rule clear_rules set_rules set_defaults new
changes-InForce s rule rules limits hour day = (
  update-InForce s hour day,
  update-InForce (record s { rules = s.rules ++ rule ∷ [] }) hour day,
  update-InForce (record s { rules = [] }) hour day,
  update-InForce (record s { rules = rules }) hour day,
  update-InForce (record s { default_limits = limits }) hour day,
  refl,
)

-- The first rule that applies gives the limits; if none applies the defaults do.
pub evaluate_rules_lem :
    (rules : List ScheduleRule) (limits : BandwidthLimits) (hour : ℕ) (day : Weekday)
    → (All (λ rule. matches rule hour day ≡ false) rules
        × (evaluate_rules rules limits hour day ≡ limits))
      ⊎ ((before : List ScheduleRule) × (rule : ScheduleRule) × (behind : List ScheduleRule)
          × (rules ≡ before ++ rule ∷ behind)
          × All (λ other. matches other hour day ≡ false) before
          × (matches rule hour day ≡ true)
          × (evaluate_rules rules limits hour day
              ≡ record { download = rule.download_limit; upload = rule.upload_limit }))
unfolding evaluate_rules
evaluate_rules_lem [] limits hour day = inl (tt, refl)
evaluate_rules_lem (rule ∷ rules) limits hour day = elim (Bool-cases (matches rule hour day)) [
  | inl here ↦ inr ([], rule, rules, refl, tt, here, rw here refl)
  | inr misses ↦ elim (evaluate_rules_lem rules limits hour day) [
    | inl (none_apply, e) ↦ inl ((misses, none_apply), rw misses e)
    | inr (before, first, behind, split, apart, applies, e) ↦
        inr
          (rule ∷ before, first, behind, ap (◌∷◌ rule) split, (misses, apart), applies, rw misses e)
  ]
]
