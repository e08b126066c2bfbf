-- ===== src/Keyboard/Controller/Handler.antt =====
-- What the handler of the keyboard's interrupt does with the byte that the device has for it.
use orin_os.Prelude.{
  ℕ, zero, suc, if_cases, ◌+◌, ◌≤◌, ◌%◌, ◌^◌, ◌≡◌, refl, Bool, true, false, not, ◌&&◌, ◌∷◌, Outcome,
  ok, ◌>>=◌, arith, length, ◌==◌, if◌then◌else◌,
}
use orin_os.Prelude.Bits.{bit}
use orin_os.Prelude.Bits.Words.{bit_and-pow_test}
use orin_os.Prelude.Ports.{reads, Trace, Device, inb}
use orin_os.Keyboard.Ring.{Ring, ring_push}
use orin_os.Keyboard.Ring.Queue.{IsRing, Pushed, ring_push-Pushed}
use orin_os.Keyboard.Controller.{
  port_data, port_status, is_clear, flush, flush_output, flush_rounds, take_byte, interrupt_handler,
}
use orin_os.Keyboard.Controller.Probe.{flush_output-Adds}

-- The status that a byte is taken with: no timeout, no parity error, a byte there, and bit 5 set.
unfoldable pub takes : ℕ → Bool
takes s = (bit s 6 == 0) && (bit s 7 == 0) && not (bit s 0 == 0) && not (bit s 5 == 0)

-- The newer trace has nothing but reads more.
pub data OnlyReads (t : Trace) : Trace → Type 0 where
  no_access : OnlyReads t t
  read_more : {u : Trace} (port v : ℕ) → OnlyReads t u → OnlyReads t (reads port v ∷ u)

flush-OnlyReads :
    (device : Device) (rounds : ℕ) {t : Trace} (u : Trace)
    → OnlyReads t u
    → OnlyReads t (flush device rounds u)
unfolding flush inb
flush-OnlyReads device zero u h = h
flush-OnlyReads device (suc rounds) {t} u h =
    let seen = reads port_status (device u port_status % 256) ∷ u in
    let byte = reads port_data (device seen port_data % 256) ∷ seen in
    if_cases (OnlyReads t) _ seen (flush device rounds byte) (λ _. read_more _ _ h)
      (λ _. flush-OnlyReads device rounds byte (read_more _ _ (read_more _ _ h)))

module _ (device : Device) (t : Trace) where
  unfoldable pub status_of : ℕ
  status_of = device t port_status % 256

  unfoldable pub byte_of : ℕ
  byte_of = device (reads port_status status_of ∷ t) port_data % 256

  -- What the handler leaves behind, of the ports and of the ring.
  pub record Handled (r : Ring) (t1 : Trace) (r1 : Ring) : Type 0 where
    pub ring : IsRing r1
    pub taken : takes status_of ≡ true → Pushed r byte_of r1
    pub read_once :
        takes status_of ≡ true → t1 ≡ reads port_data byte_of ∷ reads port_status status_of ∷ t
    pub left : takes status_of ≡ false → r1 ≡ r
    pub only_reads : OnlyReads t t1
    pub few : length t1 ≤ length t + 67

  clear_bit : (k s : ℕ) → is_clear (2 ^ k) s ≡ (bit s k == 0)
  unfolding is_clear
  clear_bit k s = bit_and-pow_test s k

  takes_lem :
      (s : ℕ)
      → takes s ≡ (is_clear 64 s && is_clear 128 s && not (is_clear 1 s) && not (is_clear 32 s))
  unfolding takes
  takes_lem s = rw (clear_bit 6 s, clear_bit 7 s, clear_bit 0 s, clear_bit 5 s) refl

  abbrev Returns : Ring → Outcome (Trace × Ring) → Type 0
  Returns r m = (t1 : Trace) × (r1 : Ring) × (m ≡ ok (t1, r1)) × Handled r t1 r1

  one_read : OnlyReads t (reads port_status status_of ∷ t)
  one_read = read_more port_status status_of no_access

  two_reads : OnlyReads t (reads port_data byte_of ∷ reads port_status status_of ∷ t)
  two_reads = read_more port_data byte_of one_read

  module _ (r : Ring) (v : IsRing r) where
    -- A run that leaves the ring alone.
    ignored :
        (t1 : Trace)
        → takes status_of ≡ false
        → OnlyReads t t1
        → length t1 ≤ length t + 67
        → Returns r (ok (t1, r))
    ignored t1 e quiet few = (
      t1,
      r,
      refl,
      record {
        ring = v;
        taken = λ q. absurd (cc);
        read_once = λ q. absurd (cc);
        left = λ _. refl;
        only_reads = quiet;
        few = few;
      },
    )

    pushed :
        (t1 : Trace)
        → t1 ≡ reads port_data byte_of ∷ reads port_status status_of ∷ t
        → takes status_of ≡ true
        → Returns r (ring_push r byte_of >>= λ q. ok (t1, q))
    pushed t1 same e =
        let (q, run, h) = ring_push-Pushed r byte_of v in
        (
          t1,
          q,
          rw run refl,
          record {
            ring = h.ring;
            taken = λ _. h;
            read_once = λ _. same;
            left = λ q. absurd (cc);
            only_reads = rw same two_reads;
            few = rw same (omega arith);
          },
        )

    -- The four tests of the handler, in its order.
    by_tests :
        (no_timeout no_parity empty from_controller : Bool)
        → takes status_of ≡ (no_timeout && no_parity && not empty && not from_controller)
        → let seen = reads port_status status_of ∷ t in
          let byte = reads port_data byte_of ∷ seen in
          Returns r (
            if not no_timeout
            then ok (flush_output device seen, r)
            else if not no_parity
            then ok (byte, r)
            else if empty
            then ok (seen, r)
            else if from_controller
            then ok (byte, r)
            else (ring_push r byte_of >>= λ q. ok (byte, q)))
    by_tests false _ _ _ e =
        ignored _ e (unfold flush_output in flush-OnlyReads device flush_rounds _ one_read)
          (omega (arith, (flush_output-Adds device (reads port_status status_of ∷ t)).within))
    by_tests true false _ _ e = ignored _ e two_reads (omega arith)
    by_tests true true true _ e = ignored _ e one_read (omega arith)
    by_tests true true false true e = ignored _ e two_reads (omega arith)
    by_tests true true false false e = pushed _ refl e

    -- From a well-formed ring the interrupt handler returns, whatever the devices answer: it makes
    -- at most 67 reads and no write. A status without timeout and parity error, with the output
    -- buffer full and bit 5 set, makes it read the data port once and push that byte; any other
    -- status leaves the ring as it was.
    pub interrupt_handler-Handled :
        (t1 : Trace) × (r1 : Ring) × (interrupt_handler device t r ≡ ok (t1, r1)) × Handled r t1 r1
    unfolding interrupt_handler take_byte inb status_of byte_of
    interrupt_handler-Handled =
        by_tests (is_clear 64 status_of) (is_clear 128 status_of) (is_clear 1 status_of)
          (is_clear 32 status_of) (takes_lem status_of)
