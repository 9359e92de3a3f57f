-- ===== src/Retry/Tests.antt =====
-- Runs of the backoff and the log gate on the inputs of the tests in
-- crates/libs/lib-lualib/src/sqlx_retry.rs, and the theorems at such inputs.
use lrust.Base.{◌+◌, ◌≡◌, ◌≤◌, ◌<◌, ◌-◌, refl, none, some, [], ◌∷◌, arith}
use lrust.Base.Time.{millis}
use lrust.Retry.Backoff.{ReconnectBackoff, new, failed, reset, retry_after_ms}
use lrust.Retry.Backoff.Schedule.{fail_all, fail_all-schedule, retry_after_ms_exact}
use lrust.Retry.LogGate.{ConnectionLogGate, take}
use lrust.Retry.LogGate.Account.{take_all, reported, take_all-account, take_all-quiet}

abbrev quarter : ReconnectBackoff
quarter = record { initial = millis 250; max = millis 1000; delay = 0; retry_at = none }

abbrev cooling : ReconnectBackoff
cooling = record {
  initial = millis 250;
  max = millis 1000;
  delay = millis 250;
  retry_at = some 250000007;
}

fails_thrice :
    (fail_all (new (millis 250) (millis 1000)) (5 ∷ 6 ∷ 7 ∷ 8 ∷ [])).retry_at ≡ some 1000000008
unfolding fail_all failed new
fails_thrice = refl

fail_all-schedule_example :
    ((fail_all (reset quarter) (5 ∷ 6 ∷ 7 ∷ [])).delay ≡ millis 1000)
    × ((fail_all (reset quarter) (5 ∷ 6 ∷ 7 ∷ [])).retry_at ≡ some 1000000007)
fail_all-schedule_example = fail_all-schedule quarter (5 ∷ 6 ∷ []) 7 (omega arith) (omega arith)

retry_after_ms_exact_example :
    (250000007 ≤ 1007 + millis (retry_after_ms cooling 1007))
    × (millis (retry_after_ms cooling 1007) < (250000007 - 1007) + millis 1)
retry_after_ms_exact_example = retry_after_ms_exact cooling 250000007 1007 refl (omega arith)

abbrev fresh : ConnectionLogGate
fresh = record { interval = 5; next_log = none; suppressed = 0 }

burst : (take_all fresh (0 ∷ 1 ∷ 4 ∷ 5 ∷ 10 ∷ [])).1 ≡ some 0 ∷ none ∷ none ∷ some 2 ∷ some 0 ∷ []
unfolding take_all take
burst = refl

take_all-account_example :
    reported (take_all fresh (0 ∷ 1 ∷ 4 ∷ [])).1 + (take_all fresh (0 ∷ 1 ∷ 4 ∷ [])).0.suppressed
    ≡ 3
take_all-account_example = take_all-account fresh (0 ∷ 1 ∷ 4 ∷ []) (omega arith)

take_all-quiet_example : (take_all (take fresh 7).0 (8 ∷ 11 ∷ [])).1 ≡ none ∷ none ∷ []
unfolding take
take_all-quiet_example = take_all-quiet fresh 7 0 (8 ∷ 11 ∷ []) refl (omega arith)
