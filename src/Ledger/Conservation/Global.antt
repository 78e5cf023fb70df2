-- ===== src/Ledger/Conservation/Global.antt =====
-- What `verify_global_invariant` of crates/exg-ledger/src/invariant.rs says of the sums.
use exg.Prelude.{
  ℕ, ◌+◌, refl, ◌%◌, ◌<◌, ◌≡◌, ◌↔◌, sym, ap, ◌∙◌, arith, true, Bool-cases, inl, inr, List, [], ◌∷◌,
}
use exg.Decimal.{Decimal128, modulus, bits, Fits, zero_dec, add, sub, eq_dec}
use exg.Decimal.Bits.{bits-add, bits-injective, bits-lt, wrap-Fits, bits_laws}
use exg.Ledger.State.{Ledger, ok, JournalEntry, JournalEntryType}
use exg.Ledger.Audit.{
  external_step, net_external, add_accounts, add_system, verify_global_invariant,
}
use exg.Ledger.Sums.{Steady, funds, net, net_bits_lem, bits-add_accounts, bits-add_system}

add-Fits : (a b : Decimal128) → Fits (add a b)
unfolding add
add-Fits a b = wrap-Fits _

sub-Fits : (a b : Decimal128) → Fits (sub a b)
unfolding sub
sub-Fits a b = wrap-Fits _

external_step-Fits : (e : JournalEntry) (acc : Decimal128) → Fits acc → Fits (external_step e acc)
unfolding external_step
external_step-Fits e acc h =
    elim e.entry_type
      as (λ t. Fits (elim t [
        | JournalEntryType.deposit ↦ add acc e.amount
        | JournalEntryType.withdrawal ↦ sub acc e.amount
        | _ ↦ acc
      ])) [
        | JournalEntryType.deposit ↦ add-Fits acc e.amount
        | JournalEntryType.withdrawal ↦ sub-Fits acc e.amount
        | _ ↦ h
      ]

net_external-Fits :
    (j : List JournalEntry) (acc : Decimal128) → Fits acc → Fits (net_external j acc)
unfolding net_external
net_external-Fits [] acc h = h
net_external-Fits (e ∷ j) acc h =
    net_external-Fits j (external_step e acc) (external_step-Fits e acc h)

eq_dec-eq : (a b : Decimal128) → eq_dec a b ≡ true → a ≡ b
unfolding eq_dec
eq_dec-eq a b h = ground arith

eq_dec_refl : (a : Decimal128) → eq_dec a a ≡ true
unfolding eq_dec
eq_dec_refl a = ground arith

-- The sum of all balances is the net of the external entries, modulo 2 ^ 128.
abbrev pub Balanced : Ledger → Type 0
Balanced l = funds l % modulus ≡ net l

abbrev live : Ledger → Decimal128
live l = add (add_accounts l.accounts zero_dec) (add_system l.system_accounts zero_dec)

bits-live : (l : Ledger) → bits (live l) ≡ funds l % modulus
bits-live l = omega (
  bits_laws,
  bits-add (add_accounts l.accounts zero_dec) (add_system l.system_accounts zero_dec),
  bits-add_accounts l.accounts zero_dec,
  bits-add_system l.system_accounts zero_dec,
)

verify-Balanced : (l : Ledger) → verify_global_invariant l ≡ ok tt → Balanced l
unfolding verify_global_invariant
verify-Balanced l h = elim (Bool-cases (eq_dec (live l) (net_external l.journal zero_dec))) [
  | inl same ↦
      sym (bits-live l)
      ∙ (ap bits (eq_dec-eq (live l) (net_external l.journal zero_dec) same)
          ∙ net_bits_lem l.journal)
  | inr other ↦ cc (rw other at h)
]

Balanced-verify : (l : Ledger) → Balanced l → verify_global_invariant l ≡ ok tt
unfolding verify_global_invariant
Balanced-verify l h =
    let same : live l ≡ net_external l.journal zero_dec =
      bits-injective (live l) (net_external l.journal zero_dec) (add-Fits _ _)
        (net_external-Fits l.journal zero_dec (omega arith))
        (bits-live l ∙ (h ∙ sym (net_bits_lem l.journal))) in
    rw (same, eq_dec_refl (net_external l.journal zero_dec))

pub verify_global_invariant-Balanced :
    (l : Ledger) → (verify_global_invariant l ≡ ok tt) ↔ (funds l % modulus ≡ net l)
verify_global_invariant-Balanced l = (verify-Balanced l, Balanced-verify l)

-- What an entry deposits.
abbrev deposit_part : JournalEntryType → ℕ → ℕ
deposit_part JournalEntryType.deposit amount = amount
deposit_part _ amount = 0

-- What an entry withdraws.
abbrev withdrawal_part : JournalEntryType → ℕ → ℕ
withdrawal_part JournalEntryType.withdrawal amount = amount
withdrawal_part _ amount = 0

-- The deposits among journal entries, as unsigned amounts.
abbrev pub deposited : List JournalEntry → ℕ
deposited [] = 0
deposited (e ∷ j) = deposit_part e.entry_type (bits e.amount) + deposited j

-- The withdrawals among them.
abbrev pub withdrawn : List JournalEntry → ℕ
withdrawn [] = 0
withdrawn (e ∷ j) = withdrawal_part e.entry_type (bits e.amount) + withdrawn j

net_external-deposited :
    (j : List JournalEntry) (acc : Decimal128)
    → (bits (net_external j acc) + withdrawn j) % modulus ≡ (bits acc + deposited j) % modulus
unfolding net_external external_step
net_external-deposited [] acc = refl
net_external-deposited (e ∷ j) acc = step (net_external-deposited j) e.entry_type
  where
    stepped : JournalEntryType → Decimal128
    stepped t = elim t [
      | JournalEntryType.deposit ↦ add acc e.amount
      | JournalEntryType.withdrawal ↦ sub acc e.amount
      | _ ↦ acc
    ]

    step :
        ((a : Decimal128)
          → (bits (net_external j a) + withdrawn j) % modulus ≡ (bits a + deposited j) % modulus)
        → (t : JournalEntryType)
        → (bits (net_external j (stepped t)) + (withdrawal_part t (bits e.amount) + withdrawn j))
            % modulus
          ≡ (bits acc + (deposit_part t (bits e.amount) + deposited j)) % modulus
    step rest t =
        elim t
          as (λ k.
            (bits (net_external j (stepped k)) + (withdrawal_part k (bits e.amount) + withdrawn j))
              % modulus
            ≡ (bits acc + (deposit_part k (bits e.amount) + deposited j)) % modulus) [
              | JournalEntryType.deposit ↦
                  omega (arith, bits-add acc e.amount, rest (add acc e.amount))
              | JournalEntryType.withdrawal ↦ omega (bits_laws, rest (sub acc e.amount))
              | _ ↦ omega (arith, rest acc)
            ]

-- The check passes exactly when the sum of all balances, user and system, together with all
-- withdrawals of the journal is the sum of all its deposits, modulo 2 ^ 128.
pub verify_global_invariant_iff :
    (l : Ledger)
    → (verify_global_invariant l ≡ ok tt)
      ↔ ((funds l + withdrawn l.journal) % modulus ≡ deposited l.journal % modulus)
verify_global_invariant_iff l = (
  λ h. omega (
    arith,
    verify-Balanced l h,
    net_external-deposited l.journal zero_dec,
    net_bits_lem l.journal,
  ),
  λ h. Balanced-verify l (
      omega (
        arith,
        h,
        net_external-deposited l.journal zero_dec,
        net_bits_lem l.journal,
        bits-lt (net_external l.journal zero_dec),
      )),
)

-- A change that keeps the sums in step keeps the check passing.
pub Steady-verify :
    (l l' : Ledger)
    → Steady l l'
    → verify_global_invariant l ≡ ok tt
    → verify_global_invariant l' ≡ ok tt
Steady-verify l l' s h =
    Balanced-verify l' (omega (bits_laws, verify-Balanced l h, bits-net l, bits-net l'))
  where
    bits-net : (m : Ledger) → net m < modulus
    bits-net m = rw (← net_bits_lem m.journal) (bits-lt _)
