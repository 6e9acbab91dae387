-- ===== src/Base/Family.antt =====
-- Values indexed by task: an update at one task, and sums over the first `n` tasks.
use Prim.Native.Nat.{ℕ, zero, suc, ◌+◌, ◌≤◌, ◌<◌}
use mathlib.Core.Path.{◌≡◌, refl}
use mathlib.Core.Logic.{◌≢◌}
use native.Mathlib.Omega.{arith}
use native.Mathlib.Decide.{ℕ_discrete, dec_lt}
use coopsync_tbb.Base.Tests.{◌==◌, if◌then◌else◌}

abbrev pub update {ℓ} : {A : Type ℓ} → (ℕ → A) → ℕ → A → ℕ → A
update f i a j = if i == j then a else f j

abbrev pub total : ℕ → (ℕ → ℕ) → ℕ
total zero f = 0
total (suc n) f = f n + total n f

pub total_congr : (n : ℕ) (f g : ℕ → ℕ) → ((j : ℕ) → j < n → f j ≡ g j) → total n f ≡ total n g
total_congr zero f g same = refl
total_congr (suc n) f g same =
    omega (arith, same n (omega arith), total_congr n f g (λ j h. same j (omega arith)))

-- Two families that differ at one task only.
pub total_change :
    (n : ℕ) (f g : ℕ → ℕ) (i : ℕ)
    → i < n
    → ((j : ℕ) → i ≢ j → f j ≡ g j)
    → total n f + g i ≡ total n g + f i
total_change zero f g i lt same = absurd (omega arith)
total_change (suc n) f g i lt same = elim (dec_lt i n) [
  | yes below ↦ omega (arith, same n (omega arith), total_change n f g i below same)
  | no last ↦
      let e : i ≡ n = omega arith in
      let below : total n f ≡ total n g = total_congr n f g (λ j h. same j (omega arith)) in
      ground arith
]

-- A sum of what the members of a family weigh, after an update of one member.
pub total-update {ℓ} :
    {A : Type ℓ} (n : ℕ) (weigh : A → ℕ) (f : ℕ → A) (i : ℕ) (a : A)
    → i < n
    → total n (λ j. weigh (update f i a j)) + weigh (f i) ≡ total n (λ j. weigh (f j)) + weigh a
total-update n weigh f i a lt =
    let after : ℕ → ℕ = λ j. weigh (update f i a j) in
    let before : ℕ → ℕ = λ j. weigh (f j) in
    let change = total_change n after before i lt (λ j ne. ground arith) in
    let self : after i ≡ weigh a = ground arith in omega arith

pub le-total : (n : ℕ) (f : ℕ → ℕ) (i : ℕ) → i < n → f i ≤ total n f
le-total zero f i lt = absurd (omega arith)
le-total (suc n) f i lt = elim (ℕ_discrete i n) [
  | yes e ↦ ground (arith, e)
  | no ne ↦ omega (arith, le-total n f i (omega arith))
]

pub total-zero : (n : ℕ) (f : ℕ → ℕ) → ((j : ℕ) → j < n → f j ≡ 0) → total n f ≡ 0
total-zero zero f h = refl
total-zero (suc n) f h =
    omega (arith, h n (omega arith), total-zero n f (λ j lt. h j (omega arith)))

-- Some task contributes to a sum that is not zero.
pub of_total_pos : (n : ℕ) (f : ℕ → ℕ) → 0 < total n f → (i : ℕ) × (i < n) × (0 < f i)
of_total_pos zero f h = absurd (omega arith)
of_total_pos (suc n) f h = elim (dec_lt 0 (f n)) [
  | yes here ↦ (n, omega arith, here)
  | no none ↦ let (i, lt, pos) = of_total_pos n f (omega arith) in (i, omega arith, pos)
]

pub add-le-total : (n : ℕ) (f : ℕ → ℕ) (i j : ℕ) → i < n → j < n → i ≢ j → f i + f j ≤ total n f
add-le-total zero f i j lti ltj ne = absurd (omega arith)
add-le-total (suc n) f i j lti ltj ne = elim (ℕ_discrete i n) [
  | yes e ↦ let other = le-total n f j (ground arith) in ground arith
  | no below ↦ elim (ℕ_discrete j n) [
    | yes e ↦ let other = le-total n f i (ground arith) in ground arith
    | no below' ↦ omega (arith, add-le-total n f i j (omega arith) (omega arith) ne)
  ]
]

total-le : (n : ℕ) (f g : ℕ → ℕ) → ((j : ℕ) → f j ≤ g j) → total n f ≤ total n g
total-le zero f g le = omega arith
total-le (suc n) f g le = omega (arith, total-le n f g le, le n)

-- One family stays below another, and leaves at a task the room that the other has there.
pub total-add-le :
    (n : ℕ) (f g : ℕ → ℕ) (i : ℕ)
    → i < n
    → ((j : ℕ) → f j ≤ g j)
    → total n f + g i ≤ total n g + f i
total-add-le zero f g i lt le = absurd (omega arith)
total-add-le (suc n) f g i lt le = elim (ℕ_discrete i n) [
  | yes e ↦ let below = total-le n f g le in ground arith
  | no ne ↦ omega (arith, total-add-le n f g i (omega arith) le, le n)
]

pub total-le_count : (n : ℕ) (f : ℕ → ℕ) → ((j : ℕ) → f j ≤ 1) → total n f ≤ n
total-le_count zero f le = omega arith
total-le_count (suc n) f le = omega (arith, total-le_count n f le, le n)
