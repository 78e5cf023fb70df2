-- ===== src/Ids/Snowflake.antt =====
-- `SnowflakeGen` of crates/exg-common/src/ids.rs. A `u64` is a number below 2 ^ 64. The fields that
-- `|` joins do not overlap, so it is a sum.
use exg.Prelude.{ℕ, zero, suc, ◌+◌, ◌-◌, ◌*◌, ◌/◌, ◌%◌, ltb, leb, Option, none, some, if◌then◌else◌}

-- 2 ^ 64
abbrev pub word : ℕ
word = 18446744073709551616

abbrev pub epoch_ms : ℕ
epoch_ms = 1704067200000

abbrev pub max_node : ℕ
max_node = 1023

abbrev pub max_seq : ℕ
max_seq = 4095

pub record SnowflakeGen : Type 0 where
  pub node_id : ℕ
  -- the milliseconds in the upper 52 bits, the sequence in the lower 12
  pub state : ℕ

-- `SnowflakeGen::new`; `none` is the failed assertion.
unfoldable pub new_gen : ℕ → Option SnowflakeGen
new_gen node_id =
    if leb node_id max_node then some (record { node_id = node_id; state = 0 }) else none

-- The milliseconds and the sequence that follow a state at a reading of the clock; `none` where
-- the sequence of the millisecond is used up.
unfoldable pub advance : ℕ → ℕ → Option (ℕ × ℕ)
advance now_ms old_state =
    if ltb (old_state / 4096) now_ms
    then some (now_ms, 0)
    else if ltb max_seq (old_state % 4096 + 1)
    then none
    else some (old_state / 4096, old_state % 4096 + 1)

unfoldable pub pack : ℕ → ℕ → ℕ
pack new_ms new_seq = new_ms * 4096 % word + new_seq

-- The subtraction of the epoch wraps.
unfoldable pub make_id : ℕ → ℕ → ℕ → ℕ
make_id node_id new_ms new_seq =
    (new_ms + word - epoch_ms) % word * 4194304 % word + node_id * 4096 + new_seq

-- An id, the generator after it, and the number of the next reading of the clock.
abbrev pub Issued : Type 0
Issued = ℕ × SnowflakeGen × ℕ

abbrev pub issue : SnowflakeGen → ℕ → ℕ × ℕ → Issued
issue g t (new_ms, new_seq) =
    (make_id g.node_id new_ms new_seq, record g { state = pack new_ms new_seq }, suc t)

-- The loop of `next_id` in one thread, where the exchange goes through. `clock t` is the reading
-- with number `t`; `none` means that the fuel ran out.
unfoldable pub next_id : ℕ → (ℕ → ℕ) → ℕ → SnowflakeGen → Option Issued
next_id zero clock t g = none
next_id (suc fuel) clock t g = elim (advance (clock t) g.state) [
  | none ↦ next_id fuel clock (suc t) g
  | some new ↦ some (issue g t new)
]
