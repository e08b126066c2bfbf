-- ===== src/Prelude/Ports.antt =====
-- Port I/O. What a driver has done to its devices is the trace of its accesses, and a device is
-- any function of that trace: it answers a read by all that was read and written before.
use Prim.Native.Nat.{ℕ, zero, suc, ◌+◌, ◌%◌, ◌≤◌}
use mathlib.Core.Path.{◌≡◌, refl, ◌∙◌}
use mathlib.Core.Bool.{Bool, true, false}
use mathlib.Core.List.{List, ◌∷◌}
use native.Mathlib.Omega.{arith}
use orin_os.Prelude.Lists.{length}
use orin_os.Prelude.Tests.{if◌then◌else◌, if_cases}

-- A port and the byte that was read from it or written to it.
pub data Access : Type 0 where
  reads : ℕ → ℕ → Access
  writes : ℕ → ℕ → Access

-- Newest first.
abbrev pub Trace : Type 0
Trace = List Access

abbrev pub Device : Type 0
Device = Trace → ℕ → ℕ

-- `Port::<u8>::read`
unfoldable pub inb : Device → ℕ → Trace → Trace × ℕ
inb device port t = let v = device t port % 256 in (reads port v ∷ t, v)

-- `Port::<u8>::write`
unfoldable pub outb : ℕ → ℕ → Trace → Trace
outb port v t = writes port v ∷ t

-- A loop that reads a port until `done` holds of what it read, at most so many times; whether it
-- did.
unfoldable pub poll_until : Device → ℕ → (ℕ → Bool) → ℕ → Trace → Trace × Bool
poll_until device port done zero t = (t, false)
poll_until device port done (suc rounds) t =
    let read = inb device port t in
    let rest = poll_until device port done rounds read.0 in
    if done read.1 then (read.0, true) else rest

-- A run that adds at most `n` accesses, and keeps what `check` says of the trace.
pub record Adds (check : Trace → Bool) (n : ℕ) (t t1 : Trace) : Type 0 where
  pub same : check t1 ≡ check t
  pub within : length t1 ≤ length t + n

module _ (check : Trace → Bool) where
  pub none_added : (n : ℕ) (t : Trace) → Adds check n t t
  none_added n t = record { same = refl; within = omega arith }

  pub one_added : (a : Access) (t : Trace) → check (a ∷ t) ≡ check t → Adds check 1 t (a ∷ t)
  one_added a t e = record { same = e; within = omega arith }

  pub both_added :
      {m n : ℕ} {t t1 t2 : Trace} → Adds check m t t1 → Adds check n t1 t2 → Adds check (m + n) t t2
  both_added h k = record { same = k.same ∙ h.same; within = omega (arith, h.within, k.within) }

  pub added_more : {m : ℕ} (n : ℕ) {t t1 : Trace} → m ≤ n → Adds check m t t1 → Adds check n t t1
  added_more n e h = record { same = h.same; within = omega (arith, e, h.within) }

module _ (check : Trace → Bool) (device : Device) (port : ℕ)
    (free : (v : ℕ) (t : Trace) → check (reads port v ∷ t) ≡ check t) where
  pub inb-Adds : (t : Trace) → Adds check 1 t (inb device port t).0
  unfolding inb
  inb-Adds t = one_added check (reads port (device t port % 256)) t (free (device t port % 256) t)

  pub poll_until-Adds :
      (done : ℕ → Bool) (rounds : ℕ) (t : Trace)
      → Adds check rounds t (poll_until device port done rounds t).0
  unfolding poll_until
  poll_until-Adds done zero t = none_added check 0 t
  poll_until-Adds done (suc rounds) t =
      let t1 = (inb device port t).0 in
      if_cases (λ (r : Trace × Bool). Adds check (suc rounds) t r.0) (done (inb device port t).1)
        (t1, true) (poll_until device port done rounds t1)
        (λ _. added_more check (suc rounds) (omega arith) (inb-Adds t))
        (λ _.
          added_more check (suc rounds) (omega arith)
            (both_added check (inb-Adds t) (poll_until-Adds done rounds t1)))

-- A run that ends with a read of the port that `done` holds of.
abbrev pub EndsWith : ℕ → (ℕ → Bool) → Trace → Type 0
EndsWith port done t = (v : ℕ) × (before : Trace) × (t ≡ reads port v ∷ before) × (done v ≡ true)

-- A poll that has succeeded ends with the read that did.
pub poll_until-EndsWith :
    (device : Device) (port : ℕ) (done : ℕ → Bool) (rounds : ℕ) (t : Trace)
    → (poll_until device port done rounds t).1 ≡ true
    → EndsWith port done (poll_until device port done rounds t).0
unfolding poll_until inb
poll_until-EndsWith device port done zero t e = cc
poll_until-EndsWith device port done (suc rounds) t e =
    let v = device t port % 256 in
    let rest = poll_until device port done rounds (reads port v ∷ t) in
    if_cases (λ (r : Trace × Bool). r.1 ≡ true → EndsWith port done r.0) (done v)
      (reads port v ∷ t, true) rest (λ q _. (v, t, refl, q))
      (λ _. poll_until-EndsWith device port done rounds (reads port v ∷ t)) e
