-- ===== src/Ring/Setup.antt =====
-- What `RingBuffer::new` sets up, crates/exg-ringbuffer/src/buffer.rs.
use Prim.Native.Nat.{◌∣◌}
use native.Mathlib.Nat.{pow-suc, dvd-mul_right_of_dvd, dvd_refl, pow-le-pow_right, one-le-pow}
use exg.Prelude.{
  ℕ, zero, suc, ◌+◌, ◌-◌, ◌*◌, ◌^◌, ◌<◌, ◌≤◌, ◌≡◌, ◌∙◌, sym, ap, refl, arith, Bool-cases, inl, inr,
  ◌==◌, ==→eq, List, [], Bool, true, false, leb, ltb, Option, some,
}
use native.Mathlib.Decide.{ℕ_discrete}
use exg.Ring.Buffer.{
  sequence_range, io, Result, total_size, Byte, RingBuffer, ok, err, invalid_slot_count,
  length_range, is_power_of_two, new, initial,
}
use exg.Ring.Fifo.{Queue, Sized}
use mathlib.Core.Path.{subst}

zero_end : (j : ℕ) → j ≡ j + 0
zero_end j = omega arith

pow_next : (j i : ℕ) → 2 ^ (j + i) * 2 ≡ 2 ^ (j + suc i)
pow_next j i = sym (ap (λ (k : ℕ). 2 ^ k) (suc_end j i) ∙ pow-suc 2 (j + i))
  where
    suc_end : (j i : ℕ) → j + suc i ≡ suc (j + i)
    suc_end j i = omega arith

two_pow-dvd : (j i : ℕ) → 2 ^ j ∣ 2 ^ (j + i)
two_pow-dvd j zero = subst (λ k. 2 ^ j ∣ 2 ^ k) (zero_end j) (dvd_refl (2 ^ j))
two_pow-dvd j (suc i) =
    subst (λ k. 2 ^ j ∣ k) (pow_next j i) (dvd-mul_right_of_dvd (2 ^ j) (two_pow-dvd j i) 2)

power_found : (k n : ℕ) → is_power_of_two k n ≡ true → (j : ℕ) × (j < k) × (n ≡ 2 ^ j)
unfolding is_power_of_two
power_found zero n h = cc
power_found (suc k) n h = elim (Bool-cases (n == 2 ^ k)) [
  | inl same ↦ (k, omega arith, ==→eq n (2 ^ k) same)
  | inr other ↦ let (j, below, e) = power_found k n (rw other at h) in (j, omega (arith, below), e)
]

-- A power of two below 2 ^ 64 divides it.
power-Sized :
    (slot_count slot_size : ℕ)
    → is_power_of_two 64 slot_count ≡ true
    → slot_size - 4 < length_range
    → Sized slot_count slot_size
power-Sized slot_count slot_size h w =
    let (j, below, e) = power_found 64 slot_count h in
    let low : 1 ≤ 2 ^ j = one-le-pow j 2 (omega arith) in
    let high : 2 ^ j ≤ 2 ^ 63 =
      pow-le-pow_right (omega arith) {i = j} {j = 63} (omega (arith, below)) in
    let whole : 2 ^ j ∣ 2 ^ (j + (64 - j)) = two_pow-dvd j (64 - j) in
    let sum : j + (64 - j) ≡ 64 = omega (arith, below) in
    record {
      positive = omega (arith, low, e);
      below = omega (arith, high, e);
      divides = rw e (subst (λ k. 2 ^ j ∣ 2 ^ k) sum whole);
      width = w;
    }

pub initial-Queue :
    (zeroed : List Byte) (slot_count slot_size : ℕ)
    → is_power_of_two 64 slot_count ≡ true
    → slot_size - 4 < length_range
    → Queue (initial zeroed slot_count slot_size) 0 []
initial-Queue zeroed slot_count slot_size power w = record {
  sized = power-Sized slot_count slot_size power w;
  head = refl;
  tail = refl;
  room = omega arith;
  fits = tt;
  held = tt;
}

-- Every power of two below 2 ^ 64 is found.
power_is_found : (k j n : ℕ) → j < k → n ≡ 2 ^ j → is_power_of_two k n ≡ true
unfolding is_power_of_two
power_is_found zero j n below e = absurd (omega (arith, below))
power_is_found (suc k) j n below e = elim (Bool-cases (n == 2 ^ k)) [
  | inl same ↦ rw same refl
  | inr other ↦ elim (ℕ_discrete j k) [
    | yes last ↦ absurd (ground (arith, other, e ∙ ap (λ (i : ℕ). 2 ^ i) last))
    | no earlier ↦ rw other (power_is_found k j n (omega (arith, below, earlier)) e)
  ]
]

power-below_64 : (n j : ℕ) → n < sequence_range → n ≡ 2 ^ j → j < 64
power-below_64 n j small e = elim (Bool-cases (leb 64 j)) [
  | inl far ↦
      let large : 2 ^ 64 ≤ 2 ^ j =
        pow-le-pow_right (omega arith) {i = 64} {j = j} (ground (arith, far)) in
      absurd (omega (arith, large, small, e))
  | inr near ↦ ground (arith, near)
]

abbrev pub IsPower : ℕ → Type 0
IsPower n = (j : ℕ) × (n ≡ 2 ^ j)

-- What a setup answers where the bytes of the mapping are so many.
pub data SetUp (map_anon : ℕ → Bool) (slot_count slot_size bytes : ℕ)
    : Option (Result RingBuffer) → Type 0 where
  refused :
      ¬ IsPower slot_count
      → SetUp map_anon slot_count slot_size bytes (some (err invalid_slot_count))
  unmapped :
      IsPower slot_count
      → map_anon bytes ≡ false
      → SetUp map_anon slot_count slot_size bytes (some (err io))
  made :
      (r : RingBuffer)
      → IsPower slot_count
      → map_anon bytes ≡ true
      → r.slot_count ≡ slot_count
      → r.slot_size ≡ slot_size
      → Queue r 0 []
      → SetUp map_anon slot_count slot_size bytes (some (ok r))

-- The number of slots is a `usize`, a slot is shorter than 4 GiB, and the bytes of the header and
-- of all slots are fewer than 2^64: `new` asks for a mapping of exactly so many bytes where the
-- number of slots is a power of two, and refuses every other number. It makes a buffer with this
-- number and size of slots that is an empty queue where the mapping is made, and otherwise hands
-- the error of the mapping on; it never aborts.
pub new-SetUp :
    (map_anon : ℕ → Bool) (zeroed : List Byte) (slot_count slot_size : ℕ)
    → slot_count < sequence_range
    → slot_size - 4 < length_range
    → 512 + slot_count * slot_size < sequence_range
    → SetUp map_anon slot_count slot_size
        (512 + slot_count * slot_size)
        (new map_anon zeroed slot_count slot_size)
unfolding new
new-SetUp map_anon zeroed slot_count slot_size small w sum =
    elim (Bool-cases (is_power_of_two 64 slot_count)) [
      | inr no_power ↦ rw no_power (
          refused (λ (j, e). absurd (
            ground (
              arith,
              no_power,
              power_is_found 64 j slot_count (power-below_64 slot_count j small e) e,
            ))))
      | inl power ↦
          let (j, _, e) = power_found 64 slot_count power in
          let bytes : total_size slot_count slot_size ≡ 512 + slot_count * slot_size =
            omega (arith, sum) in
          elim (Bool-cases (map_anon (512 + slot_count * slot_size))) [
            | inr unavailable ↦ rw (power, bytes, unavailable) (unmapped (j, e) unavailable)
            | inl mapped ↦
                let long : ltb (512 + slot_count * slot_size) 272 ≡ false = ground arith in
                rw (power, bytes, mapped, long)
                  (made (initial zeroed slot_count slot_size) (j, e) mapped refl refl
                    (initial-Queue zeroed slot_count slot_size power w))
          ]
    ]
