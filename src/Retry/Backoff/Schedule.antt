-- ===== src/Retry/Backoff/Schedule.antt =====
-- What the backoff of crates/libs/lib-lualib/src/sqlx_retry.rs promises: its delays double up to
-- the cap, and the wait that it reports is the shortest whole number of milliseconds that is enough.
use lrust.Base.{
  ℕ, zero, suc, ◌+◌, ◌-◌, ◌*◌, ◌^◌, ◌≤◌, ◌<◌, ◌≡◌, refl, ◌∙◌, ◌↔◌, ap, min, List, [], ◌∷◌, ◌++◌,
  some, arith, length,
}
use lrust.Base.Time.{u64_mod, duration_max, millis}
use lrust.Retry.Backoff.{ReconnectBackoff, next_delay, failed, reset, retry_after_ms}
use native.Mathlib.Nat.{pow-suc, add-zero}

-- A run of failures at the given times, with no successful connection in between.
unfoldable pub fail_all : ReconnectBackoff → List ℕ → ReconnectBackoff
fail_all r [] = r
fail_all r (now ∷ nows) = fail_all (failed r now) nows

-- The configuration never changes.
fail_all_config :
    (r : ReconnectBackoff) (nows : List ℕ)
    → ((fail_all r nows).initial ≡ r.initial) × ((fail_all r nows).max ≡ r.max)
unfolding fail_all failed
fail_all_config r [] = (refl, refl)
fail_all_config r (now ∷ nows) = fail_all_config (failed r now) nows

fail_all-append :
    (r : ReconnectBackoff) (nows : List ℕ) (now : ℕ)
    → fail_all r (nows ++ now ∷ []) ≡ failed (fail_all r nows) now
unfolding fail_all
fail_all-append r [] now = refl
fail_all-append r (t ∷ nows) now = fail_all-append (failed r t) nows now

-- The k-th doubling, capped.
abbrev pub capped : ReconnectBackoff → ℕ → ℕ
capped r k = min (r.initial * 2 ^ k) r.max

twice_pow : (a k : ℕ) → a * 2 ^ suc k ≡ (a * 2 ^ k) * 2
twice_pow a k = ap (λ (p : ℕ). a * p) (pow-suc 2 k) ∙ omega arith

le-mul_pow : (a k : ℕ) → a ≤ a * 2 ^ k
le-mul_pow a zero = omega arith
le-mul_pow a (suc k) = omega (arith, twice_pow a k, le-mul_pow a k)

next_delay-capped :
    (r : ReconnectBackoff) (k : ℕ)
    → r.initial ≤ r.max
    → r.max ≤ duration_max
    → r.delay ≡ capped r k
    → next_delay r ≡ capped r (suc k)
unfolding next_delay
next_delay-capped r k fits small e =
    ground (arith, twice_pow r.initial k, le-mul_pow r.initial k, le-mul_pow r.initial (suc k))

fail_all-capped :
    (r : ReconnectBackoff) (nows : List ℕ) (k : ℕ)
    → r.initial ≤ r.max
    → r.max ≤ duration_max
    → r.delay ≡ capped r k
    → (fail_all r nows).delay ≡ capped r (k + length nows)
unfolding fail_all failed
fail_all-capped r [] k fits small e = rw add-zero e
fail_all-capped r (now ∷ nows) k fits small e =
    fail_all-capped (failed r now) nows (suc k) fits small (next_delay-capped r k fits small e)
    ∙ ap (λ (j : ℕ). capped r j) (omega arith)

next_delay-fail_all :
    (r : ReconnectBackoff) (nows : List ℕ)
    → r.initial ≤ r.max
    → r.max ≤ duration_max
    → next_delay (fail_all (reset r) nows) ≡ capped r (length nows)
next_delay-fail_all r [] fits small = unfold fail_all next_delay reset in ground arith
next_delay-fail_all r (now ∷ nows) fits small =
    let s = fail_all (reset r) (now ∷ nows) in
    let config : (s.initial ≡ r.initial) × (s.max ≡ r.max) =
      unfold reset in fail_all_config (reset r) (now ∷ nows) in
    let first : next_delay (reset r) ≡ capped r 0 = unfold next_delay reset in ground arith in
    let delays : s.delay ≡ capped r (length nows) =
      unfold reset failed fail_all in
      fail_all-capped (failed (reset r) now) nows 0 fits small first
      ∙ ap (λ (j : ℕ). capped r j) (omega arith) in
    next_delay-capped s (length nows) (omega arith) (omega arith) (rw (config.0, config.1) delays)
    ∙ rw (config.0, config.1)

-- From a working connection, the failure number n + 1 in a row, at the time `now`, starts a cooldown
-- of `initial * 2 ^ n`, or `max` if that is less, provided that `initial` is at most `max`: the delay
-- doubles each time, and the next attempt is due exactly that long after `now`.
pub fail_all-schedule :
    (r : ReconnectBackoff) (nows : List ℕ) (now : ℕ)
    → r.initial ≤ r.max
    → r.max ≤ duration_max
    → let delay = min (r.initial * 2 ^ length nows) r.max in
      ((fail_all (reset r) (nows ++ now ∷ [])).delay ≡ delay)
      × ((fail_all (reset r) (nows ++ now ∷ [])).retry_at ≡ some (now + delay))
fail_all-schedule r nows now fits small =
    rw fail_all-append (unfold failed in (due, ap (λ (d : ℕ). some (now + d)) due))
  where
    due : next_delay (fail_all (reset r) nows) ≡ capped r (length nows)
    due = next_delay-fail_all r nows fits small

-- The wait that is reported while `at` is the time of the next attempt: it reaches `at`, and one
-- millisecond less would not, for a wait of at most 2 ^ 64 - 1 milliseconds.
pub retry_after_ms_exact :
    (r : ReconnectBackoff) (at now : ℕ)
    → r.retry_at ≡ some at
    → at ≤ now + millis (u64_mod - 1)
    → (at ≤ now + millis (retry_after_ms r now))
      × (millis (retry_after_ms r now) < (at - now) + millis 1)
unfolding retry_after_ms
retry_after_ms_exact r at now e fits = ground arith

-- No wait is reported exactly when the next attempt is due, or none has failed.
retry_after_ms-eq_zero :
    (r : ReconnectBackoff) (at now : ℕ)
    → r.retry_at ≡ some at
    → at < now + millis u64_mod - millis 1
    → (retry_after_ms r now ≡ 0) ↔ (at ≤ now)
unfolding retry_after_ms
retry_after_ms-eq_zero r at now e fits = ground arith
