-- ===== src/Examples/Guards.antt =====
-- Guards: a life with a failed try, an upgrade, and a call that throws.
use coopsync_tbb.Base.{◌≡◌, true, false, none, some, List, [], ◌∷◌}
use coopsync_tbb.SharedMutex.ScopedLock.{shared_guard_balanced}
use coopsync_tbb.SharedMutex.ScopedLock as Shared

abbrev life : List Shared.Op
life = Shared.acquire 1 false ∷ Shared.upgrade_to_writer ∷ Shared.acquire 2 true ∷ []

shared_guard_balanced_example :
    (Shared.then_own (some none) (Shared.calls Shared.unowned life).1
      ≡ some (Shared.owned_by (Shared.calls Shared.unowned life).0))
    × (Shared.then_own (some none) (Shared.destroyed Shared.unowned life) ≡ some none)
shared_guard_balanced_example = shared_guard_balanced life
