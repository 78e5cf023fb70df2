-- ===== src/Ids/Clock.antt =====
-- `next_id` of crates/exg-common/src/ids.rs in one thread, with a clock that goes on.
use exg.Prelude.{
  ℕ, zero, suc, ◌≡◌, refl, ◌+◌, ◌/◌, ◌<◌, lt→ltb, none, some, arith, Option-cases, inl, inr,
}
use mathlib.Core.Path.{subst}
use exg.Ids.Snowflake.{SnowflakeGen, Issued, issue, advance, next_id}
use exg.Ids.Order.{InRange, Packed, Ready, id_at, Advanced, advance-Advanced, at_time}

add_zero : (n : ℕ) → n + 0 ≡ n
add_zero n = omega arith

add_suc : (m n : ℕ) → m + suc n ≡ suc m + n
add_suc m n = omega arith

-- What a call of `next_id` did to a generator.
pub record HandedOut (g : SnowflakeGen) (r : Issued) : Type 0 where
  pub named : r.0 ≡ id_at g.node_id r.1.state
  pub later : g.state < r.1.state
  pub packed : Packed r.1.state
  pub same_node : r.1.node_id ≡ g.node_id

advance_past : (now old : ℕ) → old / 4096 < now → advance now old ≡ at_time now 0
unfolding advance
advance_past now old h = rw (lt→ltb _ _ h)

issue-HandedOut :
    (g : SnowflakeGen) (t ms seq : ℕ)
    → Advanced g.node_id g.state ms seq
    → HandedOut g (issue g t (ms, seq))
issue-HandedOut g t ms seq a = record {
  named = a.named;
  later = a.later;
  packed = a.packed;
  same_node = refl;
}

next_id_now :
    (fuel : ℕ) (clock : ℕ → ℕ) (t : ℕ) (g : SnowflakeGen) (new : ℕ × ℕ)
    → advance (clock t) g.state ≡ some new
    → next_id (suc fuel) clock t g ≡ some (issue g t new)
unfolding next_id
next_id_now fuel clock t g new e = rw (e, next_id)

next_id_wait :
    (fuel : ℕ) (clock : ℕ → ℕ) (t : ℕ) (g : SnowflakeGen)
    → advance (clock t) g.state ≡ none
    → next_id (suc fuel) clock t g ≡ next_id fuel clock (suc t) g
unfolding next_id
next_id_wait fuel clock t g e = rw (e, next_id)

next_id_starts :
    (fuel : ℕ) (clock : ℕ → ℕ) (t : ℕ) (g : SnowflakeGen) (new : ℕ × ℕ)
    → InRange (clock t)
    → Ready g.state
    → advance (clock t) g.state ≡ some new
    → (r : Issued) × (next_id (suc fuel) clock t g ≡ some r) × HandedOut g r
next_id_starts fuel clock t g (ms, seq) h ready e = (
  issue g t (ms, seq),
  next_id_now fuel clock t g (ms, seq) e,
  issue-HandedOut g t ms seq (advance-Advanced g.node_id (clock t) g.state ms seq h ready e),
)

-- Where the clock is in range, and within `wait` readings later than the milliseconds of the last
-- id, `next_id` hands out an id with fuel for one more round: its state is later than that of the
-- last id, and is the one that the id is made of.
pub next_id_total :
    (wait : ℕ) (clock : ℕ → ℕ) (t : ℕ) (g : SnowflakeGen)
    → ((i : ℕ) → InRange (clock i))
    → g.state / 4096 < clock (t + wait)
    → Ready g.state
    → (r : Issued) × (next_id (suc wait) clock t g ≡ some r) × HandedOut g r
next_id_total zero clock t g h past ready =
    let late : g.state / 4096 < clock t = subst (λ n. g.state / 4096 < clock n) (add_zero t) past in
    next_id_starts zero clock t g (clock t, 0) (h t) ready (advance_past _ _ late)
next_id_total (suc wait) clock t g h past ready = elim (Option-cases (advance (clock t) g.state)) [
  | inr (new, e) ↦ next_id_starts (suc wait) clock t g new (h t) ready e
  | inl e ↦
      let later : g.state / 4096 < clock (suc t + wait) =
        subst (λ n. g.state / 4096 < clock n) (add_suc t wait) past in
      rw (next_id_wait (suc wait) clock t g e) (next_id_total wait clock (suc t) g h later ready)
]
