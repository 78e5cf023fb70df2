-- ===== src/Ring/Tests.antt =====
-- The theorems on crates/exg-ringbuffer, applied to a small buffer.
use exg.Prelude.{ℕ, Bool, leb, arith, refl, [], ◌∷◌}
use exg.Ring.Buffer.{RingBuffer, initial, new, try_push, try_pop, is_power_of_two}
use exg.Ring.Fifo.{Queue, Pushed, Popped, try_push-Pushed, try_pop-Popped}
use exg.Ring.Setup.{SetUp, new-SetUp, initial-Queue}

-- four slots of 16 bytes
abbrev four : RingBuffer
four = initial [] 4 16

four-Queue : Queue four 0 []
unfolding is_power_of_two
four-Queue = initial-Queue [] 4 16 refl (omega arith)

-- mappings of up to a thousand bytes
small : ℕ → Bool
small bytes = leb bytes 1000

new-SetUp_example : SetUp small 4 16 576 (new small [] 4 16)
new-SetUp_example = new-SetUp small [] 4 16 (omega arith) (omega arith) (omega arith)

try_push-Pushed_example : Pushed four 0 [] (7 ∷ 8 ∷ []) (try_push (7 ∷ 8 ∷ []) four)
try_push-Pushed_example = try_push-Pushed four 0 [] four-Queue (7 ∷ 8 ∷ []) (omega arith)

-- the same after a push at sequence number 2 ^ 64 - 1: the tail has wrapped around
abbrev last : ℕ
last = 18446744073709551615

abbrev loaded : RingBuffer
loaded = record {
  head = last;
  tail = 0;
  slots = λ _. record { msg_len = 2; payload = 7 ∷ 8 ∷ 0 ∷ [] };
  slot_count = 4;
  slot_size = 16;
}

loaded-Queue : Queue loaded last ((7 ∷ 8 ∷ []) ∷ [])
loaded-Queue = record {
  sized = four-Queue.sized;
  head = refl;
  tail = refl;
  room = omega arith;
  fits = (omega arith, tt);
  held = ((refl, refl), tt);
}

try_pop-Popped_example : Popped loaded last ((7 ∷ 8 ∷ []) ∷ []) (try_pop 12 loaded)
try_pop-Popped_example =
    try_pop-Popped loaded last ((7 ∷ 8 ∷ []) ∷ []) 12 loaded-Queue (omega arith)
