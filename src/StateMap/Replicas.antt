-- ===== src/StateMap/Replicas.antt =====
-- A master that is edited and the slaves that follow it, with state maps as what can be read from
-- them: the entries without their order, their remotes and their histories.
pub mod Edits
pub mod Log
pub mod Follow
use mathlib.Core.Quot
use mathlib.Core.Quot.{Quot, Quot-set}
use syncstate.Prelude.{◌≡◌, ap, sym, ◌∙◌, List, [], ◌∷◌, lookup, Outcome, ok, err, panic, or_else}
use syncstate.HashMap.{HashMap, IterOrder, extend, last_write, lookup-extend}
use syncstate.Traits.{StateMapKey}
use syncstate.StateMap.Defs.{StateMap, StateMapError}
use syncstate.StateMap.Modify.{StateMapModifier, set, begin_modification, commit}
use syncstate.StateMap.Lifecycle.{modified}
use syncstate.StateMap.Sync.{SameContents}

-- A call of `set`, or a batch through a `StateMapModifier`.
pub data Edit {ℓ} (K T : Type ℓ) : Type ℓ where
  single : K → T → Edit K T
  batch : List (K × T) → Edit K T

-- The values that an edit writes, in order.
abbrev pub edit_writes {ℓ} : {K T : Type ℓ} → Edit K T → List (K × T)
edit_writes (single k v) = (k, v) ∷ []
edit_writes (batch l) = l

-- Maps of which the same can be read are the same.
abbrev pub Contents {ℓ} : (K T : Type ℓ) ⦃key : StateMapKey K⦄ → Type ℓ
Contents K T = Quot (λ (m m' : HashMap K T). SameContents m m')

module _ {ℓ} {K T : Type ℓ} ⦃key : StateMapKey K⦄ where
  pub extend-SameContents :
      (l : List (K × T)) (m m' : HashMap K T)
      → SameContents m m'
      → SameContents (extend key.eq_dec m l) (extend key.eq_dec m' l)
  extend-SameContents l m m' h q =
      lookup-extend key.eq_dec q m l
      ∙ ap (or_else (last_write key.eq_dec q l)) (h q)
      ∙ sym (lookup-extend key.eq_dec q m' l)

  -- Writes, one after the other.
  abbrev pub write_all : List (K × T) → Contents K T → Contents K T
  write_all l =
      Quot.lift Quot-set (λ m. Quot.mk (extend key.eq_dec m l))
        (λ m m' h. Quot.sound (extend-SameContents l m m' h))

  -- What edits are meant to do.
  abbrev pub edited : List (Edit K T) → Contents K T → Contents K T
  edited [] c = c
  edited (e ∷ es) c = edited es (write_all (edit_writes e) c)

module _ {ℓ} {K T R : Type ℓ} ⦃key : StateMapKey K⦄ where
  abbrev pub view : StateMap K T R → Contents K T
  view s = Quot.mk s.contents

module _ {ℓ} {K T R : Type ℓ} ⦃key : StateMapKey K⦄ ⦃order : IterOrder K T key.eq_dec⦄ where
  abbrev commit_batch :
      List (K × T)
      → Outcome StateMapError (StateMapModifier K T R)
      → StateMap K T R
      → Outcome StateMapError (Unit {0}) × StateMap K T R
  commit_batch l (ok mods) s = commit (modified l mods)
  commit_batch l (err e) s = (err e, s)
  commit_batch l panic s = (panic, s)

  -- What edits do to a state map.
  abbrev pub apply_edit :
      Edit K T → StateMap K T R → Outcome StateMapError (Unit {0}) × StateMap K T R
  apply_edit (single k v) s = set k v s
  apply_edit (batch l) s = commit_batch l (begin_modification s) s

  abbrev pub apply_edits : List (Edit K T) → StateMap K T R → StateMap K T R
  apply_edits [] s = s
  apply_edits (e ∷ es) s = apply_edits es (apply_edit e s).1
