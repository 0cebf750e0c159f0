-- ===== src/Scan/TcpSequencer.antt =====
-- pkg/scan/tcpsequencer.go: the sequence numbers of packets, 32 bits wide.
mod Tests
use naabu.Prelude.{ℕ, zero, suc, ◌+◌, ◌-◌, ◌%◌, ◌^◌, ◌≡◌, ◌<◌, refl, ◌∙◌, ap, arith}

pub record TcpSequencer : Type 0 where
  pub current : ℕ

-- `math.MaxUint32`
abbrev pub new_tcp_sequencer : TcpSequencer
new_tcp_sequencer = record { current = 2 ^ 32 - 1 }

-- `Next`: an atomic addition that wraps around.
unfoldable pub next : TcpSequencer → ℕ × TcpSequencer
next t = let value = (t.current + 1) % 2 ^ 32 in (value, record { current = value })

-- The sequencer after a number of calls.
unfoldable pub after : ℕ → TcpSequencer → TcpSequencer
unfolding next
after zero t = t
after (suc n) t = (next (after n t)).1

after_current :
    (n : ℕ) (t : TcpSequencer) → t.current < 2 ^ 32 → (after n t).current ≡ (t.current + n) % 2 ^ 32
unfolding after next
after_current zero t h = omega arith
after_current (suc n) t h = omega (arith, after_current n t h)

-- The calls of a new sequencer give 0, 1, 2 and so on, modulo 2^32.
pub next-after : (n : ℕ) → (next (after n new_tcp_sequencer)).0 ≡ n % 2 ^ 32
unfolding next
next-after n = omega (arith, after_current n new_tcp_sequencer (omega arith))
