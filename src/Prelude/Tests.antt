-- ===== src/Prelude/Tests.antt =====
-- Boolean tests on the native numbers, the conditional, and checks over a finite range.
use Prim.Native.Nat.{ℕ, zero, suc, ◌+◌, ◌^◌, ◌≤◌, ◌<◌, compare, Ordering}
use mathlib.Core.Path.{◌≡◌, refl}
use mathlib.Core.Logic.{◌↔◌, ◌⊎◌, inl, inr}
use mathlib.Core.Bool.{Bool, true, false, ◌&&◌, ◌||◌}
use native.Mathlib.Decide.{ℕ_discrete}
use mathlib.Core.Path.{subst}
use native.Mathlib.Omega.{arith}

abbrev pub ltb : ℕ → ℕ → Bool
ltb a b = elim (compare a b) [ Ordering.lt ↦ true | _ ↦ false ]

abbrev pub leb : ℕ → ℕ → Bool
leb a b = elim (compare a b) [ Ordering.gt ↦ false | _ ↦ true ]

infix 50 ◌==◌
abbrev pub ◌==◌ : ℕ → ℕ → Bool
a == b = elim (compare a b) [ Ordering.eq ↦ true | _ ↦ false ]

infix 1 if◌then◌else◌
abbrev pub if◌then◌else◌ {ℓ} : {A : Type ℓ} → Bool → A → A → A
if true then x else y = x
if false then x else y = y

-- `x <= 0` for the C `int` in a 32-bit word.
abbrev pub not_positive : ℕ → Bool
not_positive x = x == 0 || leb (2 ^ 31) x

pub ltb→lt : (a b : ℕ) → ltb a b ≡ true → a < b
ltb→lt a b h = ground arith

pub ==_iff : (a b : ℕ) → ((a == b) ≡ true) ↔ (a ≡ b)
==_iff a b = ground arith

pub Bool-cases : (b : Bool) → (b ≡ true) ⊎ (b ≡ false)
Bool-cases true = inl refl
Bool-cases false = inr refl

-- A test at every number below a bound, and what its success says.
unfoldable pub all_below : ℕ → (ℕ → Bool) → Bool
all_below zero test = true
all_below (suc last) test = all_below last test && test last

pub all_below_sound :
    (bound : ℕ) (test : ℕ → Bool) (i : ℕ) → all_below bound test ≡ true → i < bound → test i ≡ true
unfolding all_below
all_below_sound zero test i passed low = elim low [ ]
all_below_sound (suc last) test i passed low = ground (arith, all_below_sound last test i)

-- A statement at `n` numbers from `i` on, and at one of them.
abbrev pub Each : ℕ → ℕ → (ℕ → Type 0) → Type 0
Each zero i P = Unit {0}
Each (suc n) i P = P i × Each n (i + 1) P

pub each_of : (n i : ℕ) (P : ℕ → Type 0) → Each n i P → (m : ℕ) → i ≤ m → m < i + n → P m
each_of zero i P e m low high = absurd (omega arith)
each_of (suc n) i P e m low high = elim (ℕ_discrete i m) [
  | yes same ↦ subst P same e.0
  | no other ↦ each_of n (i + 1) P e.1 m (ground arith) (omega arith)
]
