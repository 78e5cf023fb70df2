-- ===== src/Ids/Threads.antt =====
-- Threads that share the generator of crates/exg-common/src/ids.rs: the steps of `next_id` between
-- which another thread can run, in the order of a schedule.
use exg.Prelude.{
  ℕ, ◌≡◌, refl, sym, ◌<◌, inl, inr, ◌==◌, ==→eq, Option, none, some, List, [], ◌∷◌, arith,
  Bool-cases, if◌then◌else◌,
}
use mathlib.Core.Path.{subst}
use exg.Prelude.Lists.{AllOf, AllOf-map}
use exg.Ids.Snowflake.{advance, pack, make_id}
use exg.Ids.Order.{InRange, Packed, Ready, id_at, id_at_mono, Advanced, advance-Advanced}

-- Where a thread stands in the loop: before the clock is read, before the state is loaded, and
-- before the exchange.
pub data Attempt : Type 0 where
  fresh : Attempt
  timed : ℕ → Attempt
  loaded : ℕ → ℕ → Attempt

-- The shared state, the ids handed out from the last one, and where each thread stands.
pub record World : Type 0 where
  pub state : ℕ
  pub issued : List ℕ
  pub thread : ℕ → Attempt

abbrev pub stand : ℕ → Attempt → World → World
stand t a w = record w { thread = λ i. if i == t then a else w.thread i }

-- `compare_exchange`: where another thread was first, the attempt is lost.
unfoldable pub exchange : ℕ → ℕ → ℕ → Option (ℕ × ℕ) → World → World
exchange node_id t old_state none w = stand t fresh w
exchange node_id t old_state (some (new_ms, new_seq)) w =
    if w.state == old_state
    then stand t fresh (record w {
      state = pack new_ms new_seq;
      issued = make_id node_id new_ms new_seq ∷ w.issued;
    })
    else stand t fresh w

-- The next step of a thread; `now` is what it reads if it reads the clock.
unfoldable pub step_from : ℕ → ℕ → ℕ → Attempt → World → World
unfolding exchange
step_from node_id t now fresh w = stand t (timed now) w
step_from node_id t now (timed now_ms) w = stand t (loaded now_ms w.state) w
step_from node_id t now (loaded now_ms old_state) w =
    exchange node_id t old_state (advance now_ms old_state) w

unfoldable pub run_threads : ℕ → List (ℕ × ℕ) → World → World
unfolding step_from
run_threads node_id [] w = w
run_threads node_id ((t, now) ∷ schedule) w =
    run_threads node_id schedule (step_from node_id t now (w.thread t) w)

-- A generator that has handed out nothing.
abbrev pub start : World
start = record { state = 0; issued = []; thread = λ _. fresh }

-- Each is greater than those before it.
abbrev pub Increasing : List ℕ → Type 0
Increasing [] = Unit
Increasing (id ∷ ids) = AllOf (λ i. i < id) ids × Increasing ids

abbrev pub Punctual : Attempt → Type 0
Punctual fresh = Unit
Punctual (timed now) = InRange now
Punctual (loaded now old_state) = InRange now

-- The last id is that of the state.
abbrev Current : ℕ → ℕ → List ℕ → Type 0
Current node_id state [] = Unit {0}
Current node_id state (id ∷ ids) = (id ≡ id_at node_id state) × Packed state

record IsFair (node_id : ℕ) (w : World) : Type 0 where
  ready : Ready w.state
  current : Current node_id w.state w.issued
  increasing : Increasing w.issued
  punctual : (t : ℕ) → Punctual (w.thread t)

Punctual-stand :
    (t i : ℕ) (a : Attempt) (w : World)
    → Punctual a
    → Punctual (w.thread i)
    → Punctual ((stand t a w).thread i)
Punctual-stand t i a w p h = elim (Bool-cases (i == t)) [ inl e ↦ rw e p | inr e ↦ rw e h ]

stand-IsFair :
    (node_id t : ℕ) (a : Attempt) (w : World)
    → Punctual a
    → IsFair node_id w
    → IsFair node_id (stand t a w)
stand-IsFair node_id t a w p f = record {
  ready = f.ready;
  current = f.current;
  increasing = f.increasing;
  punctual = λ i. Punctual-stand t i a w p (f.punctual i);
}

-- The id of a later state is greater than all before it.
Increasing-advance :
    (node_id state state' : ℕ) (ids : List ℕ)
    → Current node_id state ids
    → Increasing ids
    → state < state'
    → Packed state'
    → AllOf (λ i. i < id_at node_id state') ids
Increasing-advance node_id state state' [] c h lt p = tt
Increasing-advance node_id state state' (id ∷ ids) c h lt p =
    let less : id < id_at node_id state' = rw c.0 (id_at_mono node_id state state' c.1 p lt) in
    (less, AllOf-map (λ i. i < id) (λ i. i < id_at node_id state') ids (λ i k. omega arith) h.0)

hand_out-IsFair :
    (node_id t ms seq : ℕ) (w : World)
    → Advanced node_id w.state ms seq
    → IsFair node_id w
    → IsFair node_id (
        stand t fresh
          (record w { state = pack ms seq; issued = make_id node_id ms seq ∷ w.issued }))
hand_out-IsFair node_id t ms seq w a f =
    stand-IsFair node_id t fresh
      (record w { state = pack ms seq; issued = make_id node_id ms seq ∷ w.issued }) tt
      (record {
        ready = inr a.packed;
        current = (a.named, a.packed);
        increasing = (
          subst (λ n. AllOf (λ i. i < n) w.issued) (sym a.named)
              (Increasing-advance node_id w.state (pack ms seq) w.issued f.current f.increasing
                a.later a.packed),
          f.increasing,
        );
        punctual = f.punctual;
      })

exchange-IsFair :
    (node_id t now old : ℕ) (new : Option (ℕ × ℕ)) (w : World)
    → advance now old ≡ new
    → InRange now
    → IsFair node_id w
    → IsFair node_id (exchange node_id t old new w)
unfolding exchange
exchange-IsFair node_id t now old none w e h f = stand-IsFair node_id t fresh w tt f
exchange-IsFair node_id t now old (some (ms, seq)) w e h f = elim (Bool-cases (w.state == old)) [
  | inl same ↦
      let s : w.state ≡ old = ==→eq _ _ same in
      let e' : advance now w.state ≡ some (ms, seq) =
        subst (λ o. advance now o ≡ some (ms, seq)) (sym s) e in
      rw same (
        hand_out-IsFair node_id t ms seq w
          (advance-Advanced node_id now w.state ms seq h f.ready e') f)
  | inr other ↦ rw other (stand-IsFair node_id t fresh w tt f)
]

step-IsFair :
    (node_id t now : ℕ) (a : Attempt) (w : World)
    → Punctual a
    → InRange now
    → IsFair node_id w
    → IsFair node_id (step_from node_id t now a w)
unfolding step_from
step-IsFair node_id t now fresh w p h f = stand-IsFair node_id t (timed now) w h f
step-IsFair node_id t now (timed now_ms) w p h f =
    stand-IsFair node_id t (loaded now_ms w.state) w p f
step-IsFair node_id t now (loaded now_ms old) w p h f =
    exchange-IsFair node_id t now_ms old (advance now_ms old) w refl p f

run-IsFair :
    (node_id : ℕ) (schedule : List (ℕ × ℕ)) (w : World)
    → AllOf (λ s. InRange s.1) schedule
    → IsFair node_id w
    → IsFair node_id (run_threads node_id schedule w)
unfolding run_threads
run-IsFair node_id [] w h f = f
run-IsFair node_id ((t, now) ∷ schedule) w h f =
    run-IsFair node_id schedule (step_from node_id t now (w.thread t) w) h.1
      (step-IsFair node_id t now (w.thread t) w (f.punctual t) h.0 f)

-- Any number of threads take the steps of `next_id` on one new generator in any order, and every
-- reading of the clock is from the epoch on and less than 2^42 milliseconds after it: each id that
-- is handed out is greater than all ids handed out before.
pub run_threads-Increasing :
    (node_id : ℕ) (schedule : List (ℕ × ℕ))
    → AllOf (λ s. InRange s.1) schedule
    → Increasing (run_threads node_id schedule start).issued
run_threads-Increasing node_id schedule h =
    let fair : IsFair node_id start = record {
      ready = inl refl;
      current = tt;
      increasing = tt;
      punctual = λ t. tt;
    } in
    (run-IsFair node_id schedule start h fair).increasing
