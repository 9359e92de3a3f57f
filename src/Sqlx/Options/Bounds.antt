-- ===== src/Sqlx/Options/Bounds.antt =====
-- What the options that `connect` of crates/libs/lib-lualib/src/lua_sqlx.rs accepts give to the actor
-- and to its backoff.
use mathlib.Core.Path.{subst}
use lrust.Base.{
  ℕ, ◌+◌, ◌-◌, ◌*◌, ◌^◌, ◌≤◌, ◌≡◌, refl, arith, false, ltb, ◌||◌, Bool, true, Bool-cases, inl, inr,
  min, List, [], ◌∷◌, ◌++◌, some, length,
}
use lrust.Base.Int.{ℤ, pos, negsuc, ◌≤ℤ◌, ltb_ℤ, pos_part}
use lrust.Base.Time.{millis}
use lrust.Retry.Backoff.{new, reset}
use lrust.Retry.Backoff.Schedule.{fail_all, fail_all-schedule}
use lrust.Sqlx.Client.{Checked, good, bad}
use lrust.Sqlx.Options.{
  Argument, in_bounds, or_default, bounded_option, positive_option, ConnectOptions, ◌>>=◌, u32_max,
  i32_max, ordered, connect_options,
}

abbrev pub IsBetween : ℤ → ℤ → ℤ → Type 0
IsBetween low high v = (low ≤ℤ v) × (v ≤ℤ high)

-- Every option within its bounds, and the first delay at most the longest.
pub record AreUsable (o : ConnectOptions) : Type 0 where
  pub connect_timeout : IsBetween (pos 1) u32_max o.connect_timeout
  pub request_timeout : IsBetween (pos 1) u32_max o.request_timeout
  pub max_rows : IsBetween (pos 1) i32_max o.max_rows
  pub queue_capacity : IsBetween (pos 1) i32_max o.queue_capacity
  pub initial_delay : IsBetween (pos 0) u32_max o.reconnect_initial_delay
  pub max_delay : IsBetween (pos 1) u32_max o.reconnect_max_delay
  pub log_interval : IsBetween (pos 0) u32_max o.reconnect_log_interval
  pub delays : o.reconnect_initial_delay ≤ℤ o.reconnect_max_delay

ltb-total : (a b : ℕ) → ltb a b ≡ false → b ≤ a
ltb-total a b h = ground arith

or_false : (a b : Bool) → (a || b) ≡ false → (a ≡ false) × (b ≡ false)
or_false true b h = cc
or_false false b h = (refl, h)

in_bounds-IsBetween :
    (i : ℕ) (low high v : ℤ) (m : Checked ℤ)
    → in_bounds i low high m ≡ good v
    → IsBetween low high v
in_bounds-IsBetween i low high v (bad e) h = cc
in_bounds-IsBetween i low high v (good x) h = elim (Bool-cases (ltb_ℤ x low || ltb_ℤ high x)) [
  | inl e ↦ absurd (let g = rw e at h in cc g)
  | inr e ↦
      let (above, below) = or_false (ltb_ℤ x low) (ltb_ℤ high x) e in
      let same : x ≡ v = let g = rw e at h in cc g in
      subst (IsBetween low high) same (ltb-total _ _ above, ltb-total _ _ below)
]

bounded_option-IsBetween :
    (i : ℕ) (x : Argument) (default low high v : ℤ)
    → bounded_option i x default low high ≡ good v
    → IsBetween low high v
unfolding bounded_option
bounded_option-IsBetween i x default low high v h =
    in_bounds-IsBetween i low high v (or_default default x) h

positive_option-IsBetween :
    (i : ℕ) (x : Argument) (default high v : ℤ)
    → positive_option i x default high ≡ good v
    → IsBetween (pos 1) high v
unfolding positive_option
positive_option-IsBetween i x default high v h =
    bounded_option-IsBetween i x default (pos 1) high v h

module _ {A B : Type 0} {P : Type 0} where
  >>=-good :
      (m : Checked A) (f : A → Checked B) (b : B)
      → ((a : A) → m ≡ good a → f a ≡ good b → P)
      → (m >>= f) ≡ good b
      → P
  unfolding ◌>>=◌
  >>=-good (good a) f b h e = h a refl e
  >>=-good (bad m) f b h e = cc

ordered-eq-good :
    (o p : ConnectOptions)
    → ordered o ≡ good p
    → (o ≡ p) × (o.reconnect_initial_delay ≤ℤ o.reconnect_max_delay)
ordered-eq-good o p e = elim (Bool-cases (ltb_ℤ o.reconnect_max_delay o.reconnect_initial_delay)) [
  | inl h ↦ absurd (let f = rw h at e in cc f)
  | inr h ↦ let same : o ≡ p = let f = rw h at e in cc f in (same, ltb-total _ _ h)
]

connect_options-AreUsable :
    (arg : ℕ → Argument) (o : ConnectOptions) → connect_options arg ≡ good o → AreUsable o
unfolding connect_options
connect_options-AreUsable arg o = >>=-good _ _ o λ a ea. >>=-good _ _ o λ b eb.
    >>=-good _ _ o λ c ec. >>=-good _ _ o λ d ed. >>=-good _ _ o λ f ef. >>=-good _ _ o λ g eg.
      >>=-good _ _ o λ k ek e.
        let (same, delays) = ordered-eq-good _ o e in
        subst AreUsable same (record {
          connect_timeout = positive_option-IsBetween _ _ _ _ a ea;
          request_timeout = positive_option-IsBetween _ _ _ _ b eb;
          max_rows = positive_option-IsBetween _ _ _ _ c ec;
          queue_capacity = positive_option-IsBetween _ _ _ _ d ed;
          initial_delay = bounded_option-IsBetween _ _ _ _ _ f ef;
          max_delay = positive_option-IsBetween _ _ _ _ g eg;
          log_interval = bounded_option-IsBetween _ _ _ _ _ k ek;
          delays = delays;
        })

pos_part_le : (a b : ℤ) → pos 0 ≤ℤ a → a ≤ℤ b → pos_part a ≤ pos_part b
pos_part_le (pos a) (pos b) h g = omega arith
pos_part_le (pos a) (negsuc b) h g = absurd (omega arith)
pos_part_le (negsuc a) b h g = absurd (omega arith)

-- Options that `connect` accepts are within their bounds, and the backoff that the actor makes of
-- them waits, after the failure number n + 1 in a row from its start, initial * 2 ^ n milliseconds,
-- or the longest delay if that is less.
pub connect_options-schedule :
    (arg : ℕ → Argument) (o : ConnectOptions) (nows : List ℕ) (now : ℕ)
    → connect_options arg ≡ good o
    → let initial = millis (pos_part o.reconnect_initial_delay) in
      let longest = millis (pos_part o.reconnect_max_delay) in
      let delay = min (initial * 2 ^ length nows) longest in
      let failed = fail_all (new initial longest) (nows ++ now ∷ []) in
      AreUsable o × (failed.delay ≡ delay) × (failed.retry_at ≡ some (now + delay))
unfolding new reset
connect_options-schedule arg o nows now e =
    let usable = connect_options-AreUsable arg o e in
    let initial = pos_part o.reconnect_initial_delay in
    let longest = pos_part o.reconnect_max_delay in
    let order : initial ≤ longest =
      pos_part_le o.reconnect_initial_delay o.reconnect_max_delay usable.initial_delay.0
        usable.delays in
    let top : longest ≤ 2 ^ 32 - 1 =
      pos_part_le o.reconnect_max_delay u32_max (omega (arith, usable.max_delay.0))
        usable.max_delay.1 in
    let schedule =
      fail_all-schedule (new (millis initial) (millis longest)) nows now (omega (arith, order))
        (omega (arith, top)) in
    (usable, schedule.0, schedule.1)
