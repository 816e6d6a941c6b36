-- ===== src/Request/Sequence.antt =====
-- Sequence numbers: 1 to 15, in a cycle.
use lufthansa.Base.{ℕ, zero, suc, ◌+◌, ◌%◌, ◌≤◌, ◌<◌, ◌≡◌, ◌≢◌, arith, ok}
use lufthansa.State.{Connection}
use lufthansa.Request.{get_next_sequence_number}

-- The state after a number of calls, and what the next call returns there.
abbrev pub after_calls : ℕ → Connection → Connection
after_calls zero s = s
after_calls (suc k) s = (get_next_sequence_number (after_calls k s)).1

-- The counter stays below 15.
abbrev pub CounterIsValid : Connection → Type 0
CounterIsValid s = s.next_sequence_number < 15

-- A call returns a number from 1 to 15, so never the 0 of a callback, and keeps the counter valid.
pub sequence_number_range :
    (s : Connection)
    → CounterIsValid s
    → (n : ℕ) × ((get_next_sequence_number s).0 ≡ ok n)
      × (1 ≤ n)
      × (n ≤ 15)
      × CounterIsValid (get_next_sequence_number s).1
unfolding get_next_sequence_number
sequence_number_range s valid =
    (s.next_sequence_number + 1, ground arith, ground arith, ground arith, ground arith)

counter-after_calls :
    (k : ℕ) (s : Connection)
    → CounterIsValid s
    → (after_calls k s).next_sequence_number ≡ (s.next_sequence_number + k) % 15
unfolding get_next_sequence_number
counter-after_calls zero s valid = omega arith
counter-after_calls (suc k) s valid = omega (arith, counter-after_calls k s valid)

-- Any two of fifteen calls in a row return different numbers.
pub sequence_numbers_differ :
    (i j : ℕ) (s : Connection)
    → CounterIsValid s
    → i < j
    → j < i + 15
    → (get_next_sequence_number (after_calls i s)).0
      ≢ (get_next_sequence_number (after_calls j s)).0
unfolding get_next_sequence_number
sequence_numbers_differ i j s valid before near same =
    ground (arith, counter-after_calls i s valid, counter-after_calls j s valid)
