-- ===== src/StateMap/Replicas/Follow.antt =====
-- Slaves that follow an edited master.
use mathlib.Core.Quot
use mathlib.Core.Option.{is_set}
use syncstate.Prelude.{
  ℕ, ◌+◌, ◌<◌, ◌≤◌, min, ◌≡◌, ◌⊎◌, inl, inr, ap, sym, ◌∙◌, some, Option, List, lookup, length, take,
  ok, err, arith, u64_mod,
}
use syncstate.HashMap.{HashMap, IterOrder}
use syncstate.Traits.{StateMapKey}
use syncstate.Diff.{Diff}
use syncstate.StateMap.Defs.{StateMap, Remote, Hash, empty_diff}
use syncstate.StateMap.GetDiff.{get_diff}
use syncstate.StateMap.History.{IsMaster, snapshot}
use syncstate.StateMap.Sync.{SameContents}
use syncstate.StateMap.Update.{set_update_id}
use syncstate.StateMap.Update.Slave.{set_update_id-sync}
use syncstate.StateMap.Replicas.{Edit, Contents, view, edited, apply_edits}
use syncstate.StateMap.Replicas.Edits.{AllCovered}
use syncstate.StateMap.Replicas.Log.{apply_edits-IsLog}

module _ {ℓ} {K T : Type ℓ} ⦃key : StateMapKey K⦄ (t_set : IsSet T) where
  -- What is read at a key.
  abbrev read_at : K → Contents K T → Option T
  read_at q = Quot.lift (is_set t_set) (λ m. lookup key.eq_dec q m) (λ m m' h. h q)

  view-SameContents :
      (m m' : HashMap K T) → ◌≡◌ {A = Contents K T} (Quot.mk m) (Quot.mk m') → SameContents m m'
  view-SameContents m m' h q = ap (read_at q) h

-- A slave that has followed a number of edits of a master.
pub record IsReplica {ℓ} {K T R R' : Type ℓ} ⦃key : StateMapKey K⦄ (master : StateMap K T R)
    (es : List (Edit K T)) (n : ℕ) (s : StateMap K T R') : Type ℓ where
  pub at_edit : s.update_id ≡ master.update_id + n
  pub same_view : view s ≡ edited (take n es) (view master)

module _ {ℓ} {K T R R' W : Type ℓ} ⦃key : StateMapKey K⦄ ⦃order : IterOrder K T key.eq_dec⦄
    (t_set : IsSet T) (remotes : Remote K T R' W) where
  -- The values form a set. A master makes a list of edits, each a `set` or a batch of keys that it
  -- has, up to an update id below 2^64. A frozen slave that has followed the first `n` of them, and
  -- whose remote hands it the master's diffs, asks for the update id of a later edit `u`. Then it
  -- reads as the master did before all edits with the first `u` of them made, or all if there are
  -- fewer, and it has the update id of the last of these, or there was nothing to write, which is
  -- the error `EmptyDiff` and leaves it as it was.
  pub set_update_id-IsReplica :
      (master : StateMap K T R) (es : List (Edit K T)) (n u : ℕ) (s : StateMap K T R') (w : W)
      (h : Hash)
      → IsMaster master
      → AllCovered key.eq_dec es master.contents
      → master.update_id + length es < u64_mod
      → s.hash ≡ some h
      → n ≤ length es
      → IsReplica master es n s
      → n < u
      → ((d : Diff K T)
          → get_diff s.update_id (master.update_id + u) (apply_edits es master) ≡ ok d
          → (remotes.fetch_updates s.remote s.update_id (master.update_id + u) h w).0 ≡ ok d)
      → (view (set_update_id remotes (master.update_id + u) s w).1
          ≡ edited (take (min u (length es)) es) (view master))
        × ((((set_update_id remotes (master.update_id + u) s w).0 ≡ ok tt)
              × ((set_update_id remotes (master.update_id + u) s w).1.update_id
                  ≡ master.update_id + min u (length es)))
            ⊎ (((set_update_id remotes (master.update_id + u) s w).0 ≡ err empty_diff)
                × ((set_update_id remotes (master.update_id + u) s w).1 ≡ s)))
  set_update_id-IsReplica master es n u s w h m cov b frozen fits replica ahead served =
      let log = apply_edits-IsLog es master m cov b in
      let there : Quot.mk (snapshot (apply_edits es master) s.update_id)
          ≡ edited (take n es) (view master) =
        ap (λ i. Quot.mk (snapshot (apply_edits es master) i)) replica.at_edit ∙ log.told n fits in
      let same =
        view-SameContents t_set s.contents (snapshot (apply_edits es master) s.update_id)
          (replica.same_view ∙ sym there) in
      let (effect, ends) =
        set_update_id-sync remotes (apply_edits es master) s (master.update_id + u) w h log.still
          frozen (omega (arith, replica.at_edit, log.reached)) (omega (arith, replica.at_edit)) same
          served in
      let id : min (master.update_id + u) (apply_edits es master).update_id
          ≡ master.update_id + min u (length es) =
        omega (arith, log.reached) in
      (
        Quot.sound effect
            ∙ ap (λ i. Quot.mk (snapshot (apply_edits es master) i)) id
            ∙ log.told (min u (length es)) (omega arith),
        elim ends [ inl (done, at) ↦ inl (done, at ∙ id) | inr idle ↦ inr idle ],
      )
