-- ===== src/Ring/Buffer.antt =====
-- The single producer, single consumer ring buffer of crates/exg-ringbuffer/src/buffer.rs.
-- The steps of the two threads are taken one at a time: each handle writes only its own counter,
-- last, so a step that runs beside one of the other handle sees the state before or after it. The
-- slots have room for the 4 bytes of the length and `max_payload` bytes. A counter is an
-- `AtomicU64`; an index is masked with `slot_count - 1`, and `slot_count` is a power of two, so the
-- mask is `%`.
use exg.Prelude.{
  ℕ, zero, suc, ◌+◌, ◌-◌, ◌*◌, ◌%◌, ◌^◌, ◌==◌, ltb, leb, not, Bool, true, false, Option, none, some,
  List, [], ◌∷◌, ◌++◌, if◌then◌else◌,
}
use exg.Prelude.Lists.{length, take, drop}

abbrev pub Byte : Type 0
Byte = ℕ

-- 2 ^ 64: a sequence number counts modulo this.
abbrev pub sequence_range : ℕ
sequence_range = 18446744073709551616

-- 2 ^ 32, for the length in a slot
abbrev pub length_range : ℕ
length_range = 4294967296

-- The two parts of a slot: the length, and the bytes after it.
pub record Slot : Type 0 where
  pub msg_len : ℕ
  pub payload : List Byte

-- The memory that both handles share.
pub record RingBuffer : Type 0 where
  pub head : ℕ
  pub tail : ℕ
  pub slots : ℕ → Slot
  pub slot_count : ℕ
  pub slot_size : ℕ

pub data RingBufferError : Type 0 where
  would_block empty invalid_slot_count : RingBufferError
  -- the error of the mapping
  io : RingBufferError
  message_too_large : ℕ → ℕ → RingBufferError

pub data Result (A : Type 0) : Type 0 where
  ok : A → Result A
  err : RingBufferError → Result A

-- Whether a number is 2 ^ k for a `k` below the bound.
unfoldable pub is_power_of_two : ℕ → ℕ → Bool
is_power_of_two zero n = false
is_power_of_two (suc k) n = let rest = is_power_of_two k n in if n == 2 ^ k then true else rest

-- The mapping is anonymous, so it starts with zeros: `zeroed` is the payload of a slot.
abbrev pub initial : List Byte → ℕ → ℕ → RingBuffer
initial zeroed slot_count slot_size = record {
  head = 0;
  tail = 0;
  slots = λ _. record { msg_len = 0; payload = zeroed };
  slot_count = slot_count;
  slot_size = slot_size;
}

abbrev pub slots_offset : ℕ
slots_offset = 512

-- The end of the 16 bytes of metadata at 256.
abbrev pub meta_end : ℕ
meta_end = 272

-- The bytes of the mapping; a product or a sum of `usize` wraps.
abbrev pub total_size : ℕ → ℕ → ℕ
total_size slot_count slot_size =
    (slots_offset + slot_count * slot_size % sequence_range) % sequence_range

-- The header and the metadata of a mapping; the slice of the metadata aborts where it is too short.
abbrev pub set_up : List Byte → ℕ → ℕ → Option (Result RingBuffer)
set_up zeroed slot_count slot_size =
    if ltb (total_size slot_count slot_size) meta_end
    then none
    else some (ok (initial zeroed slot_count slot_size))

-- `map_anon` is the one of the crate memmap2: whether a mapping of so many bytes is made.
unfoldable pub new : (ℕ → Bool) → List Byte → ℕ → ℕ → Option (Result RingBuffer)
unfolding is_power_of_two
new map_anon zeroed slot_count slot_size =
    if not (is_power_of_two 64 slot_count)
    then some (err invalid_slot_count)
    else if map_anon (total_size slot_count slot_size)
    then set_up zeroed slot_count slot_size
    else some (err io)

abbrev pub max_payload : RingBuffer → ℕ
max_payload r = r.slot_size - 4

-- `tail.wrapping_sub(head)`
abbrev pub used : RingBuffer → ℕ
used r = (r.tail + (sequence_range - r.head)) % sequence_range

-- `copy_nonoverlapping` of all of `data` to the start of `bytes`.
abbrev pub overwrite : List Byte → List Byte → List Byte
overwrite data_bytes bytes = data_bytes ++ drop (length data_bytes) bytes

abbrev pub write_slot : ℕ → List Byte → (ℕ → Slot) → ℕ → Slot
write_slot idx data_bytes slots i =
    if i == idx
    then record {
      msg_len = length data_bytes % length_range;
      payload = overwrite data_bytes (slots i).payload;
    }
    else slots i

unfoldable pub try_push : List Byte → RingBuffer → Result ℕ × RingBuffer
try_push data_bytes r =
    if ltb (max_payload r) (length data_bytes)
    then (err (message_too_large (length data_bytes) r.slot_size), r)
    else if leb r.slot_count (used r)
    then (err would_block, r)
    else (
      ok r.tail,
      record r {
        slots = write_slot (r.tail % r.slot_count) data_bytes r.slots;
        tail = (r.tail + 1) % sequence_range;
      },
    )

abbrev pub smaller : ℕ → ℕ → ℕ
smaller a b = if leb a b then a else b

-- What a read copies: the length, and the bytes from the start of the buffer.
abbrev pub read_slot : Slot → ℕ → ℕ → List Byte
read_slot s buf_len limit = take (smaller (smaller s.msg_len buf_len) limit) s.payload

-- A read that leaves the message in place, with the bytes that it writes to a buffer of a length.
unfoldable pub peek : ℕ → RingBuffer → Result (List Byte) × RingBuffer
peek buf_len r =
    if r.head == r.tail
    then (err empty, r)
    else (ok (read_slot (r.slots (r.head % r.slot_count)) buf_len (max_payload r)), r)

-- A read that frees the slot.
unfoldable pub try_pop : ℕ → RingBuffer → Result (List Byte) × RingBuffer
try_pop buf_len r = if r.head == r.tail then (err empty, r) else (
  ok (read_slot (r.slots (r.head % r.slot_count)) buf_len (max_payload r)),
  record r { head = (r.head + 1) % sequence_range },
)

-- The loop of `try_push_batch`, with the count so far.
unfoldable pub push_each : List (List Byte) → ℕ → RingBuffer → Result ℕ × RingBuffer
push_each [] count r = (ok count, r)
push_each (item ∷ items) count r =
    let pushed = try_push item r in
    let rest = push_each items (count + 1) pushed.1 in
    elim pushed.0 [
      | ok _ ↦ rest
      | err would_block ↦ if ltb 0 count then (ok count, pushed.1) else (err would_block, pushed.1)
      | err e ↦ (err e, pushed.1)
    ]

unfoldable pub try_push_batch : List (List Byte) → RingBuffer → Result ℕ × RingBuffer
unfolding push_each
try_push_batch items r = push_each items 0 r

-- The loop of `try_pop_batch` over the first `limit` entries: the messages read. Each read is
-- limited only by the size of a slot, since the entry is resized.
unfoldable pub try_pop_batch : ℕ → RingBuffer → List (List Byte) × RingBuffer
try_pop_batch zero r = ([], r)
try_pop_batch (suc limit) r =
    let s = r.slots (r.head % r.slot_count) in
    let rest = try_pop_batch limit (record r { head = (r.head + 1) % sequence_range }) in
    if r.head == r.tail
    then ([], r)
    else (take (smaller s.msg_len (max_payload r)) s.payload ∷ rest.0, rest.1)
