-- ===== src/Retry/LogGate/Account.antt =====
-- What `ConnectionLogGate` of crates/libs/lib-lualib/src/sqlx_retry.rs promises: no failure goes
-- uncounted, and there is at most one report in an interval.
use lrust.Base.{ℕ, ◌+◌, ◌<◌, ◌≡◌, refl, Option, none, some, List, [], ◌∷◌, arith, length, replicate}
use lrust.Base.Time.{u64_mod}
use lrust.Retry.LogGate.{ConnectionLogGate, take}

-- The gate after the failures at the given times, and what each of them was told to report.
unfoldable pub take_all : ConnectionLogGate → List ℕ → ConnectionLogGate × List (Option ℕ)
take_all g [] = (g, [])
take_all g (now ∷ nows) =
    let (g', report) = take g now in
    let (g'', reports) = take_all g' nows in (g'', report ∷ reports)

-- The failures that the reports speak of: each report stands for its own failure and for those that
-- were suppressed before it.
abbrev pub reported : List (Option ℕ) → ℕ
reported [] = 0
reported (none ∷ rs) = reported rs
reported (some n ∷ rs) = n + 1 + reported rs

-- Below the 64-bit limit of the counter, every failure is reported, counted by a later report, or
-- still held by the gate: none is lost and none is counted twice.
pub take_all-account :
    (g : ConnectionLogGate) (nows : List ℕ)
    → g.suppressed + length nows < u64_mod
    → reported (take_all g nows).1 + (take_all g nows).0.suppressed ≡ g.suppressed + length nows
unfolding take_all take
take_all-account g [] h = omega arith
take_all-account g (now ∷ nows) h = ground (arith, take_all-account (take g now).0 nows)

abbrev pub AllBelow : ℕ → List ℕ → Type 0
AllBelow t [] = Unit
AllBelow t (now ∷ nows) = (now < t) × AllBelow t nows

quiet :
    (g : ConnectionLogGate) (at : ℕ) (nows : List ℕ)
    → g.next_log ≡ some at
    → AllBelow at nows
    → (take_all g nows).1 ≡ replicate (length nows) none
unfolding take_all take
quiet g at [] e h = refl
quiet g at (now ∷ nows) e h = ground (arith, quiet (take g now).0 at nows)

-- After a report at `now` the gate stays silent for the whole interval, whatever the failures in it:
-- none of those before `now + interval` is reported.
pub take_all-quiet :
    (g : ConnectionLogGate) (now n : ℕ) (later : List ℕ)
    → (take g now).1 ≡ some n
    → AllBelow (now + g.interval) later
    → (take_all (take g now).0 later).1 ≡ replicate (length later) none
take_all-quiet g now n later e h = quiet (take g now).0 (now + g.interval) later opened h
  where
    opened : (take g now).0.next_log ≡ some (now + g.interval)
    opened = unfold take in ground arith
