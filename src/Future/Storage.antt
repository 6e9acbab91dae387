-- ===== src/Future/Storage.antt =====
-- `optional_storage` of include/coopsync_tbb/future.hpp: memory for one value, which is constructed
-- in place. The history says which objects have been constructed and destroyed.
use coopsync_tbb.Base.{
  ◌≡◌, refl, subst, Bool-cases, Bool, true, false, Option, none, some, List, [], ◌∷◌, ◌⊎◌, inl, inr,
  arith, if◌then◌else◌,
}

pub data Event (T : Type 0) : Type 0 where
  constructed destroyed : T → Event T

-- `storage` is the value that was last constructed in the memory, whose life may be over.
pub record OptionalStorage (T : Type 0) : Type 0 where
  pub storage : Option T
  pub has_value : Bool
  pub history : List (Event T)

module _ {T : Type 0} where
  abbrev pub new_storage : OptionalStorage T
  new_storage = record { storage = none; has_value = false; history = [] }

  -- `get`: `none` where there never was a value.
  abbrev pub get : OptionalStorage T → Option T
  get s = s.storage

  abbrev pub record_destroyed : Option T → List (Event T) → List (Event T)
  record_destroyed none es = es
  record_destroyed (some x) es = destroyed x ∷ es

  unfoldable pub destroy : OptionalStorage T → OptionalStorage T
  destroy s = record s { has_value = false; history = record_destroyed (get s) s.history }

  -- What the constructor of the value makes is `r`, which may be an exception.
  abbrev pub place_new : {E : Type 0} → OptionalStorage T → E ⊎ T → Option E × OptionalStorage T
  place_new s (inl e) = (some e, s)
  place_new s (inr x) =
      (none, record { storage = some x; has_value = true; history = constructed x ∷ s.history })

  -- The exception that `emplace` throws, if any, and the storage.
  unfoldable pub emplace : {E : Type 0} → OptionalStorage T → E ⊎ T → Option E × OptionalStorage T
  emplace s r = place_new (if s.has_value then destroy s else s) r

  -- The destructor.
  unfoldable pub destruct : OptionalStorage T → OptionalStorage T
  destruct s = if s.has_value then destroy s else s

  -- A sequence of calls of `emplace`.
  abbrev pub emplace_each : {E : Type 0} → OptionalStorage T → List (E ⊎ T) → OptionalStorage T
  emplace_each s [] = s
  emplace_each s (r ∷ rs) = emplace_each (emplace s r).1 rs

  -- Reading the history from its end, every object is constructed and destroyed in turns; what is
  -- alive at the end is `alive`.
  abbrev pub Lives : List (Event T) → Option T → Type 0
  Lives [] alive = alive ≡ none
  Lives (constructed x ∷ es) alive = (alive ≡ some x) × Lives es none
  Lives (destroyed x ∷ es) alive = (alive ≡ none) × Lives es (some x)

  abbrev alive : OptionalStorage T → Option T
  alive s = if s.has_value then s.storage else none

  record Inv (s : OptionalStorage T) : Type 0 where
    lives : Lives s.history (alive s)
    present : s.has_value ≡ true → (x : T) × (s.storage ≡ some x)

  new_storage-Inv : Inv new_storage
  new_storage-Inv = record { lives = refl; present = λ h. absurd (ground arith) }

  destroy-Inv : (s : OptionalStorage T) → s.has_value ≡ true → Inv s → Inv (destroy s)
  unfolding destroy
  destroy-Inv s h v =
      let (x, e) = v.present h in
      let was : Lives s.history (some x) = subst (Lives s.history) (rw (h, e) refl) v.lives in
      record { lives = rw e (refl, was); present = λ g. absurd (ground arith) }

  -- The storage without a value, in which `emplace` and the destructor leave it.
  emptied-Inv : (s : OptionalStorage T) → Inv s → Inv (if s.has_value then destroy s else s)
  emptied-Inv s v = elim (Bool-cases s.has_value) [
    | inl h ↦ simp h (destroy-Inv s h v)
    | inr h ↦ simp h v
  ]

  emptied : (s : OptionalStorage T) → (if s.has_value then destroy s else s).has_value ≡ false
  unfolding destroy
  emptied s = ground arith

  emplace-Inv : {E : Type 0} (s : OptionalStorage T) (r : E ⊎ T) → Inv s → Inv (emplace s r).1
  unfolding emplace
  emplace-Inv s (inl e) v = emptied-Inv s v
  emplace-Inv s (inr x) v =
      let s' : OptionalStorage T = if s.has_value then destroy s else s in
      let v' : Inv s' = emptied-Inv s v in
      record {
        lives = (refl, subst (Lives s'.history) (rw (emptied s) refl) v'.lives);
        present = λ h. (x, refl);
      }

  emplace_each-Inv :
      {E : Type 0} (s : OptionalStorage T) (rs : List (E ⊎ T)) → Inv s → Inv (emplace_each s rs)
  emplace_each-Inv s [] v = v
  emplace_each-Inv s (r ∷ rs) v = emplace_each-Inv (emplace s r).1 rs (emplace-Inv s r v)

  -- Whatever is emplaced in a new storage that is destructed in the end, constructions that throw
  -- included: the objects are constructed and destroyed in turns, each one once, and none is alive.
  pub storage_balanced :
      {E : Type 0} (rs : List (E ⊎ T)) → Lives (destruct (emplace_each new_storage rs)).history none
  unfolding destruct
  storage_balanced rs =
      let s : OptionalStorage T = emplace_each new_storage rs in
      let v : Inv s = emplace_each-Inv new_storage rs new_storage-Inv in
      let d : Inv (if s.has_value then destroy s else s) = emptied-Inv s v in
      subst (Lives (if s.has_value then destroy s else s).history) (rw (emptied s) refl) d.lives
