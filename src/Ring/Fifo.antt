-- ===== src/Ring/Fifo.antt =====
-- The ring buffer of crates/exg-ringbuffer/src/buffer.rs as a queue of messages.
use Prim.Native.Nat.{◌∣◌}
use native.Mathlib.Nat.{mod-mod_of_dvd, mod-lt, mod-eq_of_lt, mod-eq-sub-mod, mod-add-mod}
use mathlib.Core.Path.{subst}
use exg.Prelude.{
  ℕ, suc, ◌+◌, ◌-◌, ◌%◌, ◌<◌, ◌≤◌, ◌≡◌, ◌≢◌, ◌∙◌, sym, ap, refl, arith, List, [], ◌∷◌, ◌++◌,
  Bool-cases, inl, inr, false, ltb, leb, ◌==◌, ==_refl, ◌⊎◌, leb→le, ltb→lt,
}
use exg.Prelude.Lists.{length, take, drop, AllOf, AllOf-append, take-append, length-append}
use exg.Ring.Buffer.{
  Byte, Slot, RingBuffer, Result, ok, err, would_block, empty, sequence_range, length_range,
  max_payload, used, write_slot, try_push, try_pop, read_slot, smaller,
}

-- A slot holds a message.
abbrev pub Has : List Byte → Slot → Type 0
Has m s = (s.msg_len ≡ length m) × (take (length m) s.payload ≡ m)

-- The slots from sequence number `n` on hold the messages.
abbrev pub Holds : (ℕ → Slot) → ℕ → ℕ → List (List Byte) → Type 0
Holds slots count n [] = Unit
Holds slots count n (m ∷ ms) = Has m (slots (n % count)) × Holds slots count (n + 1) ms

-- What `new` establishes of the sizes, and that a length fits in its four bytes.
pub record Sized (slot_count slot_size : ℕ) : Type 0 where
  pub positive : 0 < slot_count
  pub below : slot_count < sequence_range
  pub divides : slot_count ∣ sequence_range
  pub width : slot_size - 4 < length_range

-- The buffer stands for the queue `ms`, whose first message has sequence number `n`.
pub record Queue (r : RingBuffer) (n : ℕ) (ms : List (List Byte)) : Type 0 where
  pub sized : Sized r.slot_count r.slot_size
  pub head : r.head ≡ n % sequence_range
  pub tail : r.tail ≡ (n + length ms) % sequence_range
  pub room : length ms ≤ r.slot_count
  pub fits : AllOf (λ m. length m ≤ max_payload r) ms
  pub held : Holds r.slots r.slot_count n ms

ne_test : (a b : ℕ) → a ≢ b → (a == b) ≡ false
ne_test a b h = ground arith

-- Sequence numbers less than `count` apart have different slots.
apart : (c n d : ℕ) → 0 < d → d < c → n % c ≢ (n + d) % c
apart c n d p q e =
    let small : n % c < c = mod-lt n (omega arith) in
    elim (Bool-cases (ltb (n % c + d) c)) [
      | inl fits ↦
          omega
            (arith, e, mod-add-mod n c d, mod-eq_of_lt {n = n % c + d} {m = c} (ltb→lt _ _ fits))
      | inr wraps ↦
          let over : c ≤ n % c + d = ground arith in
          omega (
            arith,
            e,
            over,
            mod-add-mod n c d,
            mod-eq-sub-mod over,
            mod-eq_of_lt {n = n % c + d - c} {m = c} (omega (arith, over)),
          )
    ]

used_lem :
    (n k : ℕ)
    → k < sequence_range
    → ((n + k) % sequence_range + (sequence_range - n % sequence_range)) % sequence_range ≡ k
used_lem n k h = omega arith

-- A write to the slot of a later sequence number leaves the messages that are held.
Holds-write :
    (slots : ℕ → Slot) (c n d : ℕ) (new : List Byte) (ms : List (List Byte))
    → length ms ≤ d
    → d < c
    → Holds slots c n ms
    → Holds (write_slot ((n + d) % c) new slots) c n ms
Holds-write slots c n d new [] l q h = tt
Holds-write slots c n d new (m ∷ ms) l q h =
    let next : n + 1 + (d - 1) ≡ n + d = omega arith in
    (
      rw (ne_test (n % c) ((n + d) % c) (apart c n d (omega arith) q)) h.0,
      subst (λ k. Holds (write_slot (k % c) new slots) c (n + 1) ms) next
          (Holds-write slots c (n + 1) (d - 1) new ms (omega arith) (omega arith) h.1),
    )

add-zero : (n : ℕ) → n + 0 ≡ n
add-zero n = omega arith

add-suc : (n k : ℕ) → n + suc k ≡ n + 1 + k
add-suc n k = omega arith

Holds-append :
    (slots : ℕ → Slot) (c n : ℕ) (ms : List (List Byte)) (m : List Byte)
    → Holds slots c n ms
    → Has m (slots ((n + length ms) % c))
    → Holds slots c n (ms ++ (m ∷ []))
Holds-append slots c n [] m h p = (subst (λ k. Has m (slots (k % c))) (add-zero n) p, tt)
Holds-append slots c n (x ∷ ms) m h p = (
  h.0,
  Holds-append slots c (n + 1) ms m h.1
      (subst (λ k. Has m (slots (k % c))) (add-suc n (length ms)) p),
)

-- What a push of `new` onto the queue `ms` does.
abbrev pub Pushed : RingBuffer → ℕ → List (List Byte) → List Byte → Result ℕ × RingBuffer → Type 0
Pushed r n ms new p =
    ((length ms ≡ r.slot_count) × (p.0 ≡ err would_block) × (p.1 ≡ r))
    ⊎ ((length ms < r.slot_count)
        × (p.0 ≡ ok ((n + length ms) % sequence_range))
        × Queue p.1 n (ms ++ (new ∷ [])))

-- What a pop from the queue does.
abbrev pub Popped : RingBuffer → ℕ → List (List Byte) → Result (List Byte) × RingBuffer → Type 0
Popped r n [] p = (p.0 ≡ err empty) × (p.1 ≡ r)
Popped r n (m ∷ ms) p = (p.0 ≡ ok m) × Queue p.1 (n + 1) ms

too_large-false : (a b : ℕ) → a ≤ b → ltb b a ≡ false
too_large-false a b h = ground arith

leb-false : (a b : ℕ) → b < a → leb a b ≡ false
leb-false a b h = ground arith

tail_next :
    (n k : ℕ) → ((n + k) % sequence_range + 1) % sequence_range ≡ (n + (k + 1)) % sequence_range
tail_next n k = omega arith

write_slot-Has :
    (j : ℕ) (new : List Byte) (slots : ℕ → Slot)
    → length new < length_range
    → Has new (write_slot j new slots j)
write_slot-Has j new slots h =
    rw (==_refl j) (mod-eq_of_lt h, take-append new (drop (length new) (slots j).payload))

module _ (r : RingBuffer) (n : ℕ) (ms : List (List Byte)) (q : Queue r n ms) where
  used-Queue : used r ≡ length ms
  used-Queue = rw (q.head, q.tail) (used_lem n (length ms) (omega (arith, q.room, q.sized.below)))

  index : r.tail % r.slot_count ≡ (n + length ms) % r.slot_count
  index = rw q.tail (mod-mod_of_dvd r.slot_count (n + length ms) q.sized.divides)

  -- A push of a message that fits, onto a ring that stands for a queue: a full ring refuses it and
  -- is as before; otherwise the message goes to the end of the queue, and its sequence number modulo
  -- 2 ^ 64 is returned.
  pub try_push-Pushed :
      (new : List Byte) → length new ≤ max_payload r → Pushed r n ms new (try_push new r)
  unfolding try_push
  try_push-Pushed new small = elim (Bool-cases (leb r.slot_count (length ms))) [
    | inl full ↦ inl (
      omega (arith, q.room, leb→le _ _ full),
      rw (too_large-false (length new) (max_payload r) small, used-Queue, full) refl,
      rw (too_large-false (length new) (max_payload r) small, used-Queue, full) refl,
    )
    | inr space ↦
        let less : length ms < r.slot_count = ground arith in
        inr (
          less,
          rw (too_large-false (length new) (max_payload r) small, used-Queue, space) (ap ok q.tail),
          rw (too_large-false (length new) (max_payload r) small, used-Queue, space)
              (record {
                sized = q.sized;
                head = q.head;
                tail = rw (q.tail, length-append) (tail_next n (length ms));
                room = rw length-append (omega (arith, less));
                fits = AllOf-append _ ms new q.fits small;
                held = rw index (
                    let slots = write_slot ((n + length ms) % r.slot_count) new r.slots in
                    Holds-append slots r.slot_count n ms new
                      (Holds-write r.slots r.slot_count n (length ms) new ms (omega arith) less
                        q.held)
                      (write_slot-Has ((n + length ms) % r.slot_count) new r.slots
                        (omega (arith, small, q.sized.width))));
              }),
        )
  ]

smaller_all : (a b c : ℕ) → a ≤ b → a ≤ c → smaller (smaller a b) c ≡ a
smaller_all a b c h k = ground arith

read_slot-Has :
    (m : List Byte) (s : Slot) (buf_len limit : ℕ)
    → length m ≤ buf_len
    → length m ≤ limit
    → Has m s
    → read_slot s buf_len limit ≡ m
read_slot-Has m s buf_len limit h k has = rw (has.0, smaller_all (length m) buf_len limit h k) has.1

distinct : (n k : ℕ) → suc k < sequence_range → n % sequence_range ≢ (n + suc k) % sequence_range
distinct n k h = apart sequence_range n (suc k) (omega arith) h

head_next : (n : ℕ) → (n % sequence_range + 1) % sequence_range ≡ (n + 1) % sequence_range
head_next n = omega arith

-- A pop from a ring that stands for a queue, into a buffer that a whole message fits in: an empty
-- ring says so and is as before; otherwise the first message comes out, and the rest of the queue
-- stays.
pub try_pop-Popped :
    (r : RingBuffer) (n : ℕ) (ms : List (List Byte)) (buf_len : ℕ)
    → Queue r n ms
    → max_payload r ≤ buf_len
    → Popped r n ms (try_pop buf_len r)
unfolding try_pop
try_pop-Popped r n [] buf_len q wide =
    let same : r.head ≡ r.tail =
      q.head ∙ sym (q.tail ∙ ap (λ k. k % sequence_range) (add-zero n)) in
    rw (same, ==_refl r.tail) (refl, refl)
try_pop-Popped r n (m ∷ ms) buf_len q wide =
    let other : (r.head == r.tail) ≡ false =
      rw (q.head, q.tail)
        (ne_test _ _ (distinct n (length ms) (omega (arith, q.room, q.sized.below)))) in
    let slot : r.head % r.slot_count ≡ n % r.slot_count =
      rw q.head (mod-mod_of_dvd r.slot_count n q.sized.divides) in
    rw other (
      rw slot (
          ap ok (
            read_slot-Has m (r.slots (n % r.slot_count)) buf_len (max_payload r)
              (omega (arith, q.fits.0, wide)) q.fits.0 q.held.0)),
      record {
        sized = q.sized;
        head = rw q.head (head_next n);
        tail = q.tail ∙ ap (λ k. k % sequence_range) (add-suc n (length ms));
        room = omega (arith, q.room);
        fits = q.fits.1;
        held = q.held.1;
      },
    )
