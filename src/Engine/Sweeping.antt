-- ===== src/Engine/Sweeping.antt =====
-- The expired orders of crates/exg-matching-engine/src/engine.rs and the heap of their times.
use exg.Prelude.{
  ℕ, ◌≡◌, ◌<◌, ◌≤◌, ◌⊎◌, inl, inr, refl, sym, ◌∙◌, ==→eq, ==_refl, arith, true, false, Bool-cases,
  none, List, [], ◌∷◌, ltb, ltb→lt, ◌||◌, ◌&&◌, ◌==◌,
}
use exg.Prelude.Lists.{AllOf, AllOf-map}
use exg.Common.Error.{OrderId, UnixMicros}
use exg.Matching.Book.{OrderBook, remove_order, get_order}
use exg.Matching.View.{get_order-remove_order, ne_of_test}
use exg.Engine.State.{Expiry, MatchingEngine, push_expiry}
use exg.Engine.Expiry.{sweep, check_expirations}

-- A heap pops its entries in the order of their times.
abbrev pub Timed : List Expiry → Type 0
Timed [] = Unit
Timed ((time, id) ∷ heap) = AllOf (λ x. time ≤ x.0) heap × Timed heap

push_expiry-AllOf :
    (P : Expiry → Type 0) (x : Expiry) (heap : List Expiry)
    → P x
    → AllOf P heap
    → AllOf P (push_expiry x heap)
unfolding push_expiry
push_expiry-AllOf P x [] p h = (p, tt)
push_expiry-AllOf P x (y ∷ ys) p h = elim (Bool-cases (ltb x.0 y.0 || x.0 == y.0 && ltb x.1 y.1)) [
  | inl before ↦ rw before (p, h)
  | inr after ↦ rw after (h.0, push_expiry-AllOf P x ys p h.1)
]

not_after : (x y : Expiry) → (ltb x.0 y.0 || x.0 == y.0 && ltb x.1 y.1) ≡ true → x.0 ≤ y.0
not_after x y h = ground arith

not_before : (x y : Expiry) → (ltb x.0 y.0 || x.0 == y.0 && ltb x.1 y.1) ≡ false → y.0 ≤ x.0
not_before x y h = ground arith

-- An entry that is pushed takes its place in the order of the times.
pub push_expiry-Timed : (x : Expiry) (heap : List Expiry) → Timed heap → Timed (push_expiry x heap)
unfolding push_expiry
push_expiry-Timed x [] h = (tt, tt)
push_expiry-Timed x (y ∷ ys) h = elim (Bool-cases (ltb x.0 y.0 || x.0 == y.0 && ltb x.1 y.1)) [
  | inl before ↦
      let le : x.0 ≤ y.0 = not_after x y before in
      rw before ((le, AllOf-map (λ z. y.0 ≤ z.0) (λ z. x.0 ≤ z.0) ys (λ z k. omega arith) h.0), h)
  | inr after ↦ rw after (
    push_expiry-AllOf (λ z. y.0 ≤ z.0) x ys (not_before x y after) h.0,
    push_expiry-Timed x ys h.1,
  )
]

-- An entry of the heap names the order, and its time has come.
abbrev pub IsDue : UnixMicros → OrderId → List Expiry → Type 0
IsDue now i [] = ⊥
IsDue now i ((time, id) ∷ heap) = ((time ≤ now) × (id ≡ i)) ⊎ IsDue now i heap

le_of_not_ltb : (a b : ℕ) → ltb a b ≡ false → b ≤ a
le_of_not_ltb a b h = ground arith

late_heap :
    (now time : UnixMicros) (i : OrderId) (heap : List Expiry)
    → now < time
    → AllOf (λ x. time ≤ x.0) heap
    → IsDue now i heap
    → ⊥
late_heap now time i [] lt h d = elim d [ ]
late_heap now time i ((t, id) ∷ heap) lt h (inl (le, e)) = omega arith
late_heap now time i ((t, id) ∷ heap) lt h (inr d) = late_heap now time i heap lt h.1 d

-- Once off the book, an order stays off it.
sweep_absent :
    (now : UnixMicros) (i : OrderId) (heap : List Expiry) (b : OrderBook)
    → get_order i b ≡ none
    → get_order i (sweep now heap b).book ≡ none
unfolding sweep
sweep_absent now i [] b h = h
sweep_absent now i ((time, id) ∷ heap) b h = elim (Bool-cases (ltb now time)) [
  | inl later ↦ rw later h
  | inr due ↦ rw due (
      sweep_absent now i heap (remove_order id b).1 (
        rw get_order-remove_order
          (elim (Bool-cases (i == id)) [ inl same ↦ rw same refl | inr other ↦ rw other h ])))
]

sweep-heap :
    (now : UnixMicros) (heap : List Expiry) (b : OrderBook)
    → Timed heap
    → AllOf (λ x. now < x.0) (sweep now heap b).heap
unfolding sweep
sweep-heap now [] b h = tt
sweep-heap now ((time, id) ∷ heap) b h = elim (Bool-cases (ltb now time)) [
  | inl later ↦
      let lt : now < time = ltb→lt now time later in
      rw later (lt, AllOf-map (λ z. time ≤ z.0) (λ z. now < z.0) heap (λ z k. omega arith) h.0)
  | inr due ↦ rw due (sweep-heap now heap (remove_order id b).1 h.1)
]

sweep-due :
    (now : UnixMicros) (heap : List Expiry) (b : OrderBook) (i : OrderId)
    → Timed heap
    → IsDue now i heap
    → get_order i (sweep now heap b).book ≡ none
unfolding sweep
sweep-due now [] b i h d = elim d [ ]
sweep-due now ((time, id) ∷ heap) b i h (inl (le, e)) = elim (Bool-cases (ltb now time)) [
  | inl later ↦ absurd (omega (arith, ltb→lt now time later))
  | inr due ↦ rw due (
      sweep_absent now i heap (remove_order id b).1
        (rw get_order-remove_order (rw (e, ==_refl) refl)))
]
sweep-due now ((time, id) ∷ heap) b i h (inr d) = elim (Bool-cases (ltb now time)) [
  | inl later ↦ absurd (late_heap now time i heap (ltb→lt now time later) h.0 d)
  | inr due ↦ rw due (sweep-due now heap (remove_order id b).1 i h.1 d)
]

sweep-rest :
    (now : UnixMicros) (heap : List Expiry) (b : OrderBook) (i : OrderId)
    → (get_order i (sweep now heap b).book ≡ get_order i b) ⊎ IsDue now i heap
unfolding sweep
sweep-rest now [] b i = inl refl
sweep-rest now ((time, id) ∷ heap) b i = elim (Bool-cases (ltb now time)) [
  | inl later ↦ rw later (inl refl)
  | inr due ↦ elim (Bool-cases (i == id)) [
    | inl same ↦ inr (inl (le_of_not_ltb now time due, sym (==→eq i id same)))
    | inr other ↦ elim (sweep-rest now heap (remove_order id b).1 i) [
      | inl kept ↦ rw due (inl (kept ∙ (rw get_order-remove_order (rw other refl))))
      | inr d ↦ inr (inr d)
    ]
  ]
]

IsDue-cases :
    (now : UnixMicros) (i : OrderId) (heap : List Expiry) → IsDue now i heap ⊎ (¬ IsDue now i heap)
IsDue-cases now i [] = inr (λ d. d)
IsDue-cases now i ((time, id) ∷ heap) = elim (IsDue-cases now i heap) [
  | inl d ↦ inl (inr d)
  | inr n ↦ elim (Bool-cases (ltb now time)) [
    | inl later ↦ inr (λ d. elim d [
      | inl here ↦ absurd (omega (arith, ltb→lt now time later, here.0))
      | inr there ↦ n there
    ])
    | inr due ↦ elim (Bool-cases (id == i)) [
      | inl same ↦ inl (inl (le_of_not_ltb now time due, ==→eq id i same))
      | inr other ↦
          inr (λ d. elim d [ inl here ↦ ne_of_test id i other here.1 | inr there ↦ n there ])
    ]
  ]
]

-- The sweep of the orders whose time has come, on a heap that pops in the order of the times: no
-- entry that is due stays in the heap; an order that an entry that is due names is not on the book
-- afterwards; an order that none names is on the book as before, or not as before.
pub check_expirations_lem :
    {Gen : Type 0} (now : UnixMicros) (e : MatchingEngine Gen) (i : OrderId)
    → Timed e.expiry_heap
    → let after = (check_expirations now e).1 in
      AllOf (λ x. now < x.0) after.expiry_heap
      × (((get_order i after.orderbook ≡ none) × IsDue now i e.expiry_heap)
          ⊎ ((get_order i after.orderbook ≡ get_order i e.orderbook)
              × (¬ IsDue now i e.expiry_heap)))
unfolding check_expirations
check_expirations_lem now e i h = (
  sweep-heap now e.expiry_heap e.orderbook h,
  elim (IsDue-cases now i e.expiry_heap) [
    | inl d ↦ inl (sweep-due now e.expiry_heap e.orderbook i h d, d)
    | inr n ↦ elim (sweep-rest now e.expiry_heap e.orderbook i) [
      | inl kept ↦ inr (kept, n)
      | inr d ↦ absurd (n d)
    ]
  ],
)
