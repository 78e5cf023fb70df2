-- ===== src/Ids/Order.antt =====
-- The order of the ids of crates/exg-common/src/ids.rs.
use exg.Prelude.{
  ℕ, ◌≡◌, ltb, ltb→lt, Bool-cases, false, Option, ◌+◌, ◌-◌, ◌*◌, ◌/◌, ◌%◌, ◌≤◌, ◌<◌, ◌⊎◌, inl, inr,
  arith, some,
}
use exg.Ids.Snowflake.{advance, pack, make_id}

abbrev pub at_time : ℕ → ℕ → Option (ℕ × ℕ)
at_time ms seq = some (ms, seq)

time_parts : {a b c d : ℕ} → at_time a b ≡ at_time c d → (a ≡ c) × (b ≡ d)
time_parts h = ground arith

le_of_not_ltb : (a b : ℕ) → ltb a b ≡ false → b ≤ a
le_of_not_ltb a b h = ground arith

-- A time from the epoch on, and before the ids reach 2 ^ 64.
abbrev pub InRange : ℕ → Type 0
InRange ms = (1704067200000 ≤ ms) × (ms < 6102113711104)

-- A packed state from a time in range.
abbrev pub Packed : ℕ → Type 0
Packed s = (1704067200000 * 4096 ≤ s) × (s < 6102113711104 * 4096)

-- Before the first id, or after one.
abbrev pub Ready : ℕ → Type 0
Ready s = (s ≡ 0) ⊎ Packed s

-- A state that a clock in range is not past was left by an id.
waiting-Packed : (now old : ℕ) → InRange now → Ready old → now ≤ old / 4096 → Packed old
waiting-Packed now old h (inl r) le = absurd (omega arith)
waiting-Packed now old h (inr r) le = r

-- The id that a state was left with.
abbrev pub id_at : ℕ → ℕ → ℕ
id_at node_id s = make_id node_id (s / 4096) (s % 4096)

-- What an attempt gives: a later state, and the id of it.
pub record Advanced (node_id old_state new_ms new_seq : ℕ) : Type 0 where
  pub later : old_state < pack new_ms new_seq
  pub packed : Packed (pack new_ms new_seq)
  pub named : make_id node_id new_ms new_seq ≡ id_at node_id (pack new_ms new_seq)

make_id_lem :
    (node_id ms seq : ℕ)
    → InRange ms
    → make_id node_id ms seq ≡ (ms - 1704067200000) * 4194304 + node_id * 4096 + seq
unfolding make_id
make_id_lem node_id ms seq h = omega arith

pack_lem : (ms seq : ℕ) → InRange ms → pack ms seq ≡ ms * 4096 + seq
unfolding pack
pack_lem ms seq h = omega arith

-- Later states have greater ids.
pub id_at_mono :
    (node_id s s' : ℕ) → Packed s → Packed s' → s < s' → id_at node_id s < id_at node_id s'
id_at_mono node_id s s' h h' lt = omega (
  arith,
  make_id_lem node_id (s / 4096) (s % 4096) (omega arith),
  make_id_lem node_id (s' / 4096) (s' % 4096) (omega arith),
)

pack-Advanced :
    (node_id old ms seq : ℕ)
    → InRange ms
    → seq ≤ 4095
    → old < ms * 4096 + seq
    → Advanced node_id old ms seq
pack-Advanced node_id old ms seq h k lt =
    let e : pack ms seq ≡ ms * 4096 + seq = pack_lem ms seq h in
    let high : pack ms seq / 4096 ≡ ms = omega arith in
    let low : pack ms seq % 4096 ≡ seq = omega arith in
    record { later = omega arith; packed = (omega arith, omega arith); named = rw high (rw low) }

-- An attempt on a state at a time in range that does not have to wait.
pub advance-Advanced :
    (node_id now old ms seq : ℕ)
    → InRange now
    → Ready old
    → advance now old ≡ at_time ms seq
    → Advanced node_id old ms seq
unfolding advance
advance-Advanced node_id now old ms seq h r e = elim (Bool-cases (ltb (old / 4096) now)) [
  | inl newer ↦
      let p : at_time now 0 ≡ at_time ms seq = rw newer at e in
      let q : (now ≡ ms) × (0 ≡ seq) = time_parts p in
      let lt : old / 4096 < now = ltb→lt _ _ newer in
      pack-Advanced node_id old ms seq (omega arith, omega arith) (omega arith) (omega arith)
  | inr same ↦ elim (Bool-cases (ltb 4095 (old % 4096 + 1))) [
    | inl full ↦ cc (rw (same, full) at e)
    | inr free ↦
        let p : at_time (old / 4096) (old % 4096 + 1) ≡ at_time ms seq = rw (same, free) at e in
        let q : (old / 4096 ≡ ms) × (old % 4096 + 1 ≡ seq) = time_parts p in
        let k : Packed old = waiting-Packed now old h r (le_of_not_ltb _ _ same) in
        let le : old % 4096 + 1 ≤ 4095 = le_of_not_ltb _ _ free in
        pack-Advanced node_id old ms seq (omega arith, omega arith) (omega arith) (omega arith)
  ]
]
