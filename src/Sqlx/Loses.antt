-- ===== src/Sqlx/Loses.antt =====
-- The replies of crates/libs/lib-lualib/src/lua_sqlx.rs after which a connection is lost, listed one
-- by one, against the tests of `requires_disconnect`.
use mathlib.Core.Path.{subst}
use lrust.Base.{
  ℕ, ◌≡◌, refl, sym, ap, ◌∙◌, ◌↔◌, Bool, true, false, ◌||◌, ◌&&◌, ◌==◌, [], ◌∷◌, none, some, arith,
  ==_iff, and_cases,
}
use lrust.Base.Check.{same_bytes-eq}
use lrust.Base.Text.{Bytes, codes, same_bytes}
use lrust.Sqlx.Types.{
  Error, io, tls, protocol, pool_timed_out, pool_closed, worker_crashed, database, configuration,
  other_error, DatabaseResponse, disconnected_error, row_limit_exceeded, error, timed_out,
  error_before_execution, timed_out_before_execution, connect_failed, reconnect_cooldown,
  connection_error, starts_with, code_is_fatal, error_requires_disconnect, requires_disconnect,
}
use lrust.Sqlx.Actor.{is_connect_failure}

-- The SQLSTATE codes of a lost session: class 08, and a server that shuts down, has crashed or
-- cannot be connected to.
pub data IsLostCode : Bytes → Type 0 where
  class_08 : (s : Bytes) → IsLostCode (b'0' ∷ b'8' ∷ s)
  admin_shutdown : IsLostCode (codes "57P01")
  crash_shutdown : IsLostCode (codes "57P02")
  cannot_connect_now : IsLostCode (codes "57P03")

-- The errors of a broken transport, pool or session.
pub data IsBroken : Error → Type 0 where
  by_io : (m : Bytes) → IsBroken (io m)
  by_tls : (m : Bytes) → IsBroken (tls m)
  by_protocol : (m : Bytes) → IsBroken (protocol m)
  by_timeout : IsBroken pool_timed_out
  by_close : IsBroken pool_closed
  by_crash : IsBroken worker_crashed
  by_code : {c : Bytes} (m : Bytes) → IsLostCode c → IsBroken (database (some c) m)

-- A request that was cut off, rows that were left unread, a transaction whose end is not known, a
-- broken session, and no connection to begin with.
pub data Loses {Row : Type 0} : DatabaseResponse Row → Type 0 where
  cut_off : (m : Bytes) → Loses (timed_out m)
  cut_off_before : (m : Bytes) → Loses (timed_out_before_execution m)
  unread : (n : ℕ) → Loses (row_limit_exceeded n)
  unsettled : (e : Error) → Loses (disconnected_error e)
  broken : {e : Error} → IsBroken e → Loses (error e)
  broken_before : {e : Error} → IsBroken e → Loses (error_before_execution e)
  refused : (e : Error) (n : ℕ) → Loses (connect_failed e n)
  waits : (n : ℕ) → Loses (reconnect_cooldown n)

or_cases : {P : Type 0} (a b : Bool) → (a || b) ≡ true → (a ≡ true → P) → (b ≡ true → P) → P
or_cases true b h f g = f refl
or_cases false b h f g = g h

class_of : (c : Bytes) → starts_with (codes "08") c ≡ true → IsLostCode c
class_of [] h = absurd (ground arith)
class_of (a ∷ []) h = absurd (ground arith)
class_of (a ∷ b ∷ s) h =
    let (zero, rest) = and_cases (b'0' == a) ((b'8' == b) && true) h in
    let eight = (and_cases (b'8' == b) true rest).0 in
    subst IsLostCode
      (ap (λ (x : ℕ). x ∷ b'8' ∷ s) ((==_iff b'0' a).0 zero)
        ∙ ap (λ (x : ℕ). a ∷ x ∷ s) ((==_iff b'8' b).0 eight))
      (class_08 s)

lost_code : (c : Bytes) → code_is_fatal (some c) ≡ true → IsLostCode c
unfolding code_is_fatal
lost_code c h =
    or_cases _ _ h
      (λ g.
        or_cases _ _ g (λ k. or_cases _ _ k (class_of c) (is_code admin_shutdown))
          (is_code crash_shutdown))
      (is_code cannot_connect_now)
  where
    is_code : {d : Bytes} → IsLostCode d → same_bytes c d ≡ true → IsLostCode c
    is_code {d = d} l e = subst IsLostCode (sym (same_bytes-eq c d e)) l

code_lost : {c : Bytes} → IsLostCode c → code_is_fatal (some c) ≡ true
unfolding code_is_fatal
code_lost (class_08 s) = refl
code_lost admin_shutdown = refl
code_lost crash_shutdown = refl
code_lost cannot_connect_now = refl

error-IsBroken : (e : Error) → error_requires_disconnect e ≡ true → IsBroken e
unfolding error_requires_disconnect connection_error code_is_fatal
error-IsBroken (io m) h = by_io m
error-IsBroken (tls m) h = by_tls m
error-IsBroken (protocol m) h = by_protocol m
error-IsBroken pool_timed_out h = by_timeout
error-IsBroken pool_closed h = by_close
error-IsBroken worker_crashed h = by_crash
error-IsBroken (database (some c) m) h = by_code m (lost_code c h)
error-IsBroken (database none m) h = cc
error-IsBroken (configuration m) h = cc
error-IsBroken (other_error m) h = cc

IsBroken-error : {e : Error} → IsBroken e → error_requires_disconnect e ≡ true
unfolding error_requires_disconnect connection_error
IsBroken-error (by_io m) = refl
IsBroken-error (by_tls m) = refl
IsBroken-error (by_protocol m) = refl
IsBroken-error by_timeout = refl
IsBroken-error by_close = refl
IsBroken-error by_crash = refl
IsBroken-error (by_code m h) = code_lost h

module _ {Row : Type 0} where
  lost :
      (r : DatabaseResponse Row) → (requires_disconnect r || is_connect_failure r) ≡ true → Loses r
  unfolding requires_disconnect is_connect_failure
  lost (timed_out m) h = cut_off m
  lost (timed_out_before_execution m) h = cut_off_before m
  lost (row_limit_exceeded n) h = unread n
  lost (disconnected_error e) h = unsettled e
  lost (connect_failed e n) h = refused e n
  lost (reconnect_cooldown n) h = waits n
  lost (error e) h =
      or_cases (error_requires_disconnect e) false h (λ g. broken (error-IsBroken e g)) (λ g. cc)
  lost (error_before_execution e) h =
      or_cases (error_requires_disconnect e) false h (λ g. broken_before (error-IsBroken e g))
        (λ g. cc)
  lost r h = cc

  loses :
      (r : DatabaseResponse Row) → Loses r → (requires_disconnect r || is_connect_failure r) ≡ true
  unfolding requires_disconnect is_connect_failure
  loses _ (cut_off m) = refl
  loses _ (cut_off_before m) = refl
  loses _ (unread n) = refl
  loses _ (unsettled e) = refl
  loses _ (broken h) = rw (IsBroken-error h) refl
  loses _ (broken_before h) = rw (IsBroken-error h) refl
  loses _ (refused e n) = refl
  loses _ (waits n) = refl

  pub loses_iff :
      (r : DatabaseResponse Row)
      → ((requires_disconnect r || is_connect_failure r) ≡ true) ↔ Loses r
  loses_iff r = (lost r, loses r)
