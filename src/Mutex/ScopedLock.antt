-- ===== src/Mutex/ScopedLock.antt =====
-- `mutex::scoped_lock` of include/coopsync_tbb/mutex.hpp and src/mutex.cpp. A mutex is named by a
-- number; what a guard does to its mutex is a list of events.
use coopsync_tbb.Base.{
  ℕ, ◌≡◌, refl, ap, ◌∙◌, Bool, true, false, Option, none, some, List, [], ◌∷◌, ◌++◌, if◌then◌else◌,
  arith, ◌==◌,
}

-- Calls of the mutex that have taken or given up the ownership.
pub data Event : Type 0 where
  locked unlocked : ℕ → Event

-- `m_mutex`
abbrev pub ScopedLock : Type 0
ScopedLock = Option ℕ

-- The member functions, with their arguments; `success` is what the mutex's `try_lock` returns.
pub data Op : Type 0 where
  acquire : (m : ℕ) → Op
  try_acquire : (m : ℕ) (success : Bool) → Op
  release : Op

-- `none` where the call throws `operation_not_permitted`; else its result, the guard that it leaves
-- and the events.
unfoldable pub call : ScopedLock → Op → Option (Bool × ScopedLock × List Event)
call none (acquire m) = some (true, some m, locked m ∷ [])
call none (try_acquire m success) =
    if success then some (true, some m, locked m ∷ []) else some (false, none, [])
call none release = some (true, none, [])
call (some m) (acquire _) = none
call (some m) (try_acquire _ _) = none
call (some m) release = some (true, none, unlocked m ∷ [])

-- A guard's life: a call that throws changes nothing. At its end the destructor calls `release`.
unfoldable pub calls : ScopedLock → List Op → ScopedLock × List Event
calls g [] = (g, [])
calls g (op ∷ ops) = elim (call g op) [
  | none ↦ calls g ops
  | some (_, g', es) ↦ ((calls g' ops).0, es ++ (calls g' ops).1)
]

abbrev pub destroyed : ScopedLock → List Op → ScopedLock × List Event
destroyed g ops = calls g (ops ++ release ∷ [])

-- The mutex that is owned after more events; `none` if an event does not fit: an ownership that one
-- has not is given up, or a second one taken.
abbrev pub own : Option ℕ → List Event → Option (Option ℕ)
own o [] = some o
own none (locked m ∷ es) = own (some m) es
own none (unlocked m ∷ es) = none
own (some m') (locked m ∷ es) = none
own (some m') (unlocked m ∷ es) = if m == m' then own none es else none

-- The events of a call lead from one ownership to the next, whatever follows.
abbrev Fits : ScopedLock → Option (Bool × ScopedLock × List Event) → Type 0
Fits g none = Unit {0}
Fits g (some (b, g', es)) = (fs : List Event) → own g (es ++ fs) ≡ own g' fs

call-Fits : (g : ScopedLock) (op : Op) → Fits g (call g op)
unfolding call
call-Fits none (acquire m) = λ fs. refl
call-Fits none (try_acquire m true) = λ fs. refl
call-Fits none (try_acquire m false) = λ fs. refl
call-Fits none release = λ fs. refl
call-Fits (some m) (acquire _) = tt
call-Fits (some m) (try_acquire _ _) = tt
call-Fits (some m) release = λ fs. ground arith

-- The result of a life that begins with the result `r` of a call.
abbrev go_on :
    ScopedLock → List Op → Option (Bool × ScopedLock × List Event) → ScopedLock × List Event
go_on g ops none = calls g ops
go_on g ops (some (b, g', es)) = ((calls g' ops).0, es ++ (calls g' ops).1)

calls-own : (g : ScopedLock) (ops : List Op) → own g (calls g ops).1 ≡ some (calls g ops).0
unfolding calls
calls-own g [] = refl
calls-own g (op ∷ ops) =
    (elim (call g op) as (λ r. Fits g r → own g (go_on g ops r).1 ≡ some (go_on g ops r).0) [
      | none ↦ λ f. calls-own g ops
      | some (b, g', es) ↦ λ f. f (calls g' ops).1 ∙ calls-own g' ops
    ])
      (call-Fits g op)

release_nothing : (g : ScopedLock) → (calls g (release ∷ [])).0 ≡ none
unfolding calls call
release_nothing none = refl
release_nothing (some m) = refl

destroyed_nothing : (g : ScopedLock) (ops : List Op) → (destroyed g ops).0 ≡ none
unfolding calls
destroyed_nothing g [] = release_nothing g
destroyed_nothing g (op ∷ ops) =
    elim (call g op) as (λ r. (go_on g (ops ++ release ∷ []) r).0 ≡ none) [
      | none ↦ destroyed_nothing g ops
      | some (b, g', es) ↦ destroyed_nothing g' ops
    ]

-- Whatever is called of a guard that starts without a mutex, and then of its destructor: each of its
-- events gives up exactly the mutex that the guard has, or takes one when it has none, and in the end
-- nothing is owned.
pub guard_balanced :
    (ops : List Op)
    → (own none (calls none ops).1 ≡ some (calls none ops).0)
      × (own none (destroyed none ops).1 ≡ some none)
guard_balanced ops = (
  calls-own none ops,
  calls-own none (ops ++ release ∷ []) ∙ ap some (destroyed_nothing none ops),
)
