-- ===== src/Log/Filter.antt =====
-- A run of calls of `log`: what is printed, and what is counted.
use orin_os.Prelude.{
  ℕ, ◌+◌, ◌^◌, ◌<◌, ◌≡◌, refl, ap, Bool, true, false, not, ◌&&◌, ◌||◌, List, [], ◌∷◌, none, some,
  Outcome, ok, ◌>>=◌, checked-ok, ltb, leb, length, arith, Bool-cases, inl, inr, if◌then◌else◌,
}
use orin_os.Prelude.Loops.{Gives}
use orin_os.Log.{Level, Target, LogConfig, level_number, is_panic, log}

-- A record as it is handed to the consoles.
abbrev pub Printed : Type 0
Printed = Level × (Target × Bool)

-- The calls in a row, with the records that are printed.
unfoldable pub log_all : LogConfig → List Level → Outcome (LogConfig × List Printed)
log_all c [] = ok (c, [])
log_all c (l ∷ ls) = log c l >>= λ r.
    log_all (r.0) ls >>= λ s. ok (s.0, elim r.1 [ none ↦ s.1 | some x ↦ (l, x) ∷ s.1 ])

-- The records at or above a threshold, and the panics.
unfoldable pub passing : Level → Target × Bool → List Level → List Printed
passing least how [] = []
passing least how (l ∷ ls) =
    let rest = passing least how ls in
    if leb (level_number least) (level_number l) || is_panic l then (l, how) ∷ rest else rest

above : (a b : ℕ) (p : Bool) → (leb b a || p) ≡ true → (ltb a b && not p) ≡ false
above a b true e = ground arith
above a b false e = ground arith

beneath : (a b : ℕ) (p : Bool) → (leb b a || p) ≡ false → (ltb a b && not p) ≡ true
beneath a b true e = ground arith
beneath a b false e = ground arith

log_printed :
    (d : LogConfig) (k : Level)
    → d.emitted + 1 < 2 ^ 64
    → (leb (level_number d.level) (level_number k) || is_panic k) ≡ true
    → log d k ≡ ok (record d { emitted = d.emitted + 1 }, some (d.target, d.show_location))
unfolding log
log_printed d k room e =
    rw
      (
        log,
        above (level_number k) (level_number d.level) (is_panic k) e,
        checked-ok (d.emitted + 1) room,
      )
      refl

log_held :
    (d : LogConfig) (k : Level)
    → d.filtered + 1 < 2 ^ 64
    → (leb (level_number d.level) (level_number k) || is_panic k) ≡ false
    → log d k ≡ ok (record d { filtered = d.filtered + 1 }, none)
unfolding log
log_held d k room e =
    rw
      (
        log,
        beneath (level_number k) (level_number d.level) (is_panic k) e,
        checked-ok (d.filtered + 1) room,
      )
      refl

pub record Logged (c : LogConfig) (ls : List Level) (r : LogConfig × List Printed) : Type 0 where
  pub printed : r.1 ≡ passing c.level (c.target, c.show_location) ls
  pub emitted_is : (r.0).emitted ≡ c.emitted + length r.1
  pub all_counted : (r.0).emitted + (r.0).filtered ≡ c.emitted + c.filtered + length ls
  pub same_level : (r.0).level ≡ c.level
  pub same_target : (r.0).target ≡ c.target

-- While the counters have room, a run of calls of log returns. It prints, in order, the records at or
-- above the level of the configuration and every panic, to its target; `emitted` counts what is printed
-- and `filtered` the rest; the level and the target stay.
pub log_all-Logged :
    (c : LogConfig) (ls : List Level)
    → c.emitted + length ls < 2 ^ 64
    → c.filtered + length ls < 2 ^ 64
    → Gives (Logged c ls) (log_all c ls)
unfolding log_all passing
log_all-Logged c [] re rf = (
  (c, []),
  refl,
  record {
    printed = refl;
    emitted_is = omega arith;
    all_counted = omega arith;
    same_level = refl;
    same_target = refl;
  },
)
log_all-Logged c (l ∷ ls) re rf =
    elim (Bool-cases (leb (level_number c.level) (level_number l) || is_panic l)) [
      | inl e ↦
          let (s, q, h) =
            log_all-Logged (record c { emitted = c.emitted + 1 }) ls (omega arith) (omega arith) in
          (
            (s.0, (l, (c.target, c.show_location)) ∷ s.1),
            rw (log_printed c l (omega arith) e, q) refl,
            record {
              printed =
                  rw e (ap (λ (t : List Printed). (l, (c.target, c.show_location)) ∷ t) h.printed);
              emitted_is = omega (arith, h.emitted_is);
              all_counted = omega (arith, h.all_counted);
              same_level = h.same_level;
              same_target = h.same_target;
            },
          )
      | inr e ↦
          let (s, q, h) =
            log_all-Logged (record c { filtered = c.filtered + 1 }) ls (omega arith)
              (omega arith) in
          (
            (s.0, s.1),
            rw (log_held c l (omega arith) e, q) refl,
            record {
              printed = rw e h.printed;
              emitted_is = omega (arith, h.emitted_is);
              all_counted = omega (arith, h.all_counted);
              same_level = h.same_level;
              same_target = h.same_target;
            },
          )
    ]
