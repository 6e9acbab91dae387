-- ===== src/SharedMutex/ScopedLock.antt =====
-- `shared_mutex::scoped_lock` of include/coopsync_tbb/shared_mutex.hpp and src/shared_mutex.cpp. A
-- mutex is named by a number; what a guard does to its mutex is a list of events.
use coopsync_tbb.Base.{
  ℕ, ◌≡◌, refl, ap, ◌∙◌, Bool, true, false, Option, none, some, List, [], ◌∷◌, ◌++◌, if◌then◌else◌,
  arith, ◌==◌,
}

-- Calls of the mutex that have taken or given up an ownership.
pub data Event : Type 0 where
  locked unlocked locked_shared unlocked_shared : ℕ → Event

-- `m_mutex` and `m_is_writer_lock`
pub record ScopedLock : Type 0 where
  pub mutex : Option ℕ
  pub is_writer_lock : Bool

-- The member functions, with their arguments; `success` is what the mutex's `try_lock` or
-- `try_lock_shared` returns.
pub data Op : Type 0 where
  acquire : (m : ℕ) (write : Bool) → Op
  try_acquire : (m : ℕ) (write success : Bool) → Op
  release upgrade_to_writer downgrade_to_reader : Op

-- A guard without a mutex.
abbrev pub unowned : ScopedLock
unowned = record { mutex = none; is_writer_lock = false }

abbrev pub lock_event : Bool → ℕ → Event
lock_event write m = if write then locked m else locked_shared m

abbrev pub unlock_event : Bool → ℕ → Event
unlock_event write m = if write then unlocked m else unlocked_shared m

-- A call on a guard that has the mutex `m`, for writing or not. `none` where it throws
-- `operation_not_permitted`; else its result, the guard that it leaves and the events.
unfoldable pub on_owned : ℕ → Bool → Op → Option (Bool × ScopedLock × List Event)
on_owned m w (acquire _ _) = none
on_owned m w (try_acquire _ _ _) = none
on_owned m w release = some (true, unowned, unlock_event w m ∷ [])
on_owned m w upgrade_to_writer =
    if w
    then some (true, record { mutex = some m; is_writer_lock = w }, [])
    else some
        (false, record { mutex = some m; is_writer_lock = true }, unlocked_shared m ∷ locked m ∷ [])
on_owned m w downgrade_to_reader =
    if w
    then some (
      false,
      record { mutex = some m; is_writer_lock = false },
      unlocked m ∷ locked_shared m ∷ [],
    )
    else some (true, record { mutex = some m; is_writer_lock = w }, [])

-- A call on a guard without a mutex, which is left with its flag.
unfoldable pub on_unowned : Bool → Op → Option (Bool × ScopedLock × List Event)
on_unowned w (acquire m write) =
    some (true, record { mutex = some m; is_writer_lock = write }, lock_event write m ∷ [])
on_unowned w (try_acquire m write success) =
    if success
    then some (true, record { mutex = some m; is_writer_lock = write }, lock_event write m ∷ [])
    else some (false, record { mutex = none; is_writer_lock = w }, [])
on_unowned w release = some (true, record { mutex = none; is_writer_lock = w }, [])
on_unowned w upgrade_to_writer = none
on_unowned w downgrade_to_reader = none

unfoldable pub call : ScopedLock → Op → Option (Bool × ScopedLock × List Event)
unfolding on_owned on_unowned
call g op = elim g.mutex [
  | none ↦ on_unowned g.is_writer_lock op
  | some m ↦ on_owned m g.is_writer_lock op
]

-- A guard's life: a call that throws changes nothing.
unfoldable pub calls : ScopedLock → List Op → ScopedLock × List Event
calls g [] = (g, [])
calls g (op ∷ ops) = elim (call g op) [
  | none ↦ calls g ops
  | some (_, g', es) ↦ ((calls g' ops).0, es ++ (calls g' ops).1)
]

-- The events of a guard's life and of its destructor, which calls `release`.
abbrev pub destroyed : ScopedLock → List Op → List Event
destroyed g ops = (calls g (ops ++ release ∷ [])).1

-- What is owned, a mutex and whether for writing, after one more event; `none` if the event does not
-- fit: an ownership that one has not is given up, or a second one taken.
abbrev pub own : Option (ℕ × Bool) → Event → Option (Option (ℕ × Bool))
own none (locked m) = some (some (m, true))
own none (locked_shared m) = some (some (m, false))
own none (unlocked m) = none
own none (unlocked_shared m) = none
own (some (m', w)) (locked m) = none
own (some (m', w)) (locked_shared m) = none
own (some (m', true)) (unlocked m) = if m == m' then some none else none
own (some (m', false)) (unlocked m) = none
own (some (m', true)) (unlocked_shared m) = none
own (some (m', false)) (unlocked_shared m) = if m == m' then some none else none

abbrev pub then_own : Option (Option (ℕ × Bool)) → List Event → Option (Option (ℕ × Bool))
then_own o [] = o
then_own none (e ∷ es) = none
then_own (some o) (e ∷ es) = then_own (own o e) es

-- The ownership that a guard stands for.
abbrev pub owned_by : ScopedLock → Option (ℕ × Bool)
owned_by g = elim g.mutex [ none ↦ none | some m ↦ some (m, g.is_writer_lock) ]

then_own-append :
    (o : Option (Option (ℕ × Bool))) (es fs : List Event)
    → then_own o (es ++ fs) ≡ then_own (then_own o es) fs
then_own-append o [] fs = refl
then_own-append none (e ∷ es) [] = refl
then_own-append none (e ∷ es) (f ∷ fs) = refl
then_own-append (some o) (e ∷ es) fs = then_own-append (own o e) es fs

-- The events of a call lead from one ownership to the next.
abbrev Fits : Option (ℕ × Bool) → Option (Bool × ScopedLock × List Event) → Type 0
Fits o none = Unit {0}
Fits o (some (b, g, es)) = then_own (some o) es ≡ some (owned_by g)

on_owned-Fits : (m : ℕ) (w : Bool) (op : Op) → Fits (some (m, w)) (on_owned m w op)
unfolding on_owned
on_owned-Fits m w (acquire _ _) = tt
on_owned-Fits m w (try_acquire _ _ _) = tt
on_owned-Fits m true release = ground arith
on_owned-Fits m false release = ground arith
on_owned-Fits m true upgrade_to_writer = refl
on_owned-Fits m false upgrade_to_writer = ground arith
on_owned-Fits m true downgrade_to_reader = ground arith
on_owned-Fits m false downgrade_to_reader = refl

on_unowned-Fits : (w : Bool) (op : Op) → Fits none (on_unowned w op)
unfolding on_unowned
on_unowned-Fits w (acquire m true) = refl
on_unowned-Fits w (acquire m false) = refl
on_unowned-Fits w (try_acquire m true true) = refl
on_unowned-Fits w (try_acquire m false true) = refl
on_unowned-Fits w (try_acquire m write false) = refl
on_unowned-Fits w release = refl
on_unowned-Fits w upgrade_to_writer = tt
on_unowned-Fits w downgrade_to_reader = tt

call-Fits :
    (m : Option ℕ) (w : Bool) (op : Op)
    → Fits
        (owned_by (record { mutex = m; is_writer_lock = w }))
        (call (record { mutex = m; is_writer_lock = w }) op)
unfolding call
call-Fits none w op = on_unowned-Fits w op
call-Fits (some m) w op = on_owned-Fits m w op

-- The result of a life that begins with the result `r` of a call.
abbrev go_on :
    ScopedLock → List Op → Option (Bool × ScopedLock × List Event) → ScopedLock × List Event
go_on g ops none = calls g ops
go_on g ops (some (b, g', es)) = ((calls g' ops).0, es ++ (calls g' ops).1)

abbrev Owns : ScopedLock → ScopedLock × List Event → Type 0
Owns g r = then_own (some (owned_by g)) r.1 ≡ some (owned_by r.0)

calls-Owns : (g : ScopedLock) (ops : List Op) → Owns g (calls g ops)
unfolding calls
calls-Owns g [] = refl
calls-Owns g (op ∷ ops) =
    (elim (call g op) as (λ r. Fits (owned_by g) r → Owns g (go_on g ops r)) [
      | none ↦ λ f. calls-Owns g ops
      | some (b, g', es) ↦ λ f.
          then_own-append (some (owned_by g)) es (calls g' ops).1
          ∙ (ap (λ o. then_own o (calls g' ops).1) f ∙ calls-Owns g' ops)
    ])
      (call-Fits g.mutex g.is_writer_lock op)

release_nothing :
    (m : Option ℕ) (w : Bool)
    → owned_by (calls (record { mutex = m; is_writer_lock = w }) (release ∷ [])).0 ≡ none
unfolding calls call on_owned on_unowned
release_nothing none w = refl
release_nothing (some m) w = refl

destroyed_nothing :
    (g : ScopedLock) (ops : List Op) → owned_by (calls g (ops ++ release ∷ [])).0 ≡ none
unfolding calls
destroyed_nothing g [] = release_nothing g.mutex g.is_writer_lock
destroyed_nothing g (op ∷ ops) =
    elim (call g op) as (λ r. owned_by (go_on g (ops ++ release ∷ []) r).0 ≡ none) [
      | none ↦ destroyed_nothing g ops
      | some (b, g', es) ↦ destroyed_nothing g' ops
    ]

-- Whatever is called of a guard that starts without a mutex, and then of its destructor: each of its
-- events gives up exactly the ownership that the guard has, or takes one when it has none, and in the
-- end nothing is owned.
pub shared_guard_balanced :
    (ops : List Op)
    → (then_own (some none) (calls unowned ops).1 ≡ some (owned_by (calls unowned ops).0))
      × (then_own (some none) (destroyed unowned ops) ≡ some none)
shared_guard_balanced ops = (
  calls-Owns unowned ops,
  calls-Owns unowned (ops ++ release ∷ []) ∙ ap some (destroyed_nothing unowned ops),
)
