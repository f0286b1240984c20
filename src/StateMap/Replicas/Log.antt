-- ===== src/StateMap/Replicas/Log.antt =====
-- The history of a master that is edited: at each update id, what the edits so far were meant to do.
use mathlib.Core.Quot
use syncstate.Prelude.{
  ℕ, zero, suc, ◌+◌, ◌<◌, ◌≤◌, ◌≡◌, refl, ap, sym, ◌∙◌, true, List, [], ◌∷◌, length, take, arith,
  u64_mod, subst,
}
use syncstate.HashMap.{IterOrder, contains_key, lookup-extend}
use syncstate.Traits.{StateMapKey}
use syncstate.StateMap.Defs.{StateMap}
use syncstate.StateMap.History.{IsMaster, snapshot}
use syncstate.StateMap.Sync.{snapshot_now}
use syncstate.StateMap.Replicas.{Edit, edit_writes, view, edited, apply_edit, apply_edits}
use syncstate.StateMap.Replicas.Edits.{AllCovered, AllCovered-grows, IsEdited, apply_edit-IsEdited}

module _ {ℓ} {K T R : Type ℓ} ⦃key : StateMapKey K⦄ ⦃order : IterOrder K T key.eq_dec⦄ where
  -- A master after some edits, each of which has an update id of its own.
  pub record IsLog (es : List (Edit K T)) (s s' : StateMap K T R) : Type ℓ where
    pub still : IsMaster s'
    pub reached : s'.update_id ≡ s.update_id + length es
    pub past : (i : ℕ) → i ≤ s.update_id → snapshot s' i ≡ snapshot s i
    pub told :
        (n : ℕ)
        → n ≤ length es
        → Quot.mk (snapshot s' (s.update_id + n)) ≡ edited (take n es) (view s)

  told_now :
      (s s' : StateMap K T R)
      → IsMaster s
      → snapshot s' s.update_id ≡ snapshot s s.update_id
      → Quot.mk (snapshot s' (s.update_id + 0)) ≡ view s
  told_now s s' m past =
      let here : s.update_id + 0 ≡ s.update_id = omega arith in
      ap (λ i. Quot.mk (snapshot s' i)) here
      ∙ ap (λ x. Quot.mk x) past
      ∙ Quot.sound (λ q. sym (snapshot_now s m q))

  told_later :
      (e : Edit K T) (es : List (Edit K T)) (s s' : StateMap K T R)
      → IsMaster s
      → IsEdited (edit_writes e) s (apply_edit e s)
      → IsLog es (apply_edit e s).1 s'
      → (n : ℕ) → n ≤ length (e ∷ es)
      → Quot.mk (snapshot s' (s.update_id + n)) ≡ edited (take n (e ∷ es)) (view s)
  told_later e es s s' m now later zero fits =
      told_now s s' m
        (later.past s.update_id (omega (arith, now.next)) ∙ now.past s.update_id (omega arith))
  told_later e es s s' m now later (suc n) fits =
      let there : s.update_id + suc n ≡ (apply_edit e s).1.update_id + n =
        omega (arith, now.next) in
      ap (λ i. Quot.mk (snapshot s' i)) there
      ∙ later.told n (omega arith)
      ∙ ap (edited (take n es)) (Quot.sound now.reads)

  no_edits-IsLog : (s : StateMap K T R) → IsMaster s → IsLog [] s s
  no_edits-IsLog s m = record {
    still = m;
    reached = omega arith;
    past = λ i p. refl;
    told = λ n fits.
        let none_left : 0 ≡ n = omega arith in
        subst (λ n. Quot.mk (snapshot s (s.update_id + n)) ≡ edited (take n []) (view s)) none_left
          (told_now s s m refl);
  }

  more_edits-IsLog :
      (e : Edit K T) (es : List (Edit K T)) (s s' : StateMap K T R)
      → IsMaster s
      → IsEdited (edit_writes e) s (apply_edit e s)
      → IsLog es (apply_edit e s).1 s'
      → IsLog (e ∷ es) s s'
  more_edits-IsLog e es s s' m now later = record {
    still = later.still;
    reached = omega (arith, later.reached, now.next);
    past = λ i p. later.past i (omega (arith, now.next)) ∙ now.past i p;
    told = told_later e es s s' m now later;
  }

  pub apply_edits-IsLog :
      (es : List (Edit K T)) (s : StateMap K T R)
      → IsMaster s
      → AllCovered key.eq_dec es s.contents
      → s.update_id + length es < u64_mod
      → IsLog es s (apply_edits es s)
  apply_edits-IsLog [] s m cov b = no_edits-IsLog s m
  apply_edits-IsLog (e ∷ es) s m cov b =
      let now = apply_edit-IsEdited e s m cov.0 (omega arith) in
      let grows : (q : K)
          → contains_key key.eq_dec q s.contents ≡ true
          → contains_key key.eq_dec q (apply_edit e s).1.contents ≡ true =
        λ q h. ground (arith, now.reads q, lookup-extend key.eq_dec q s.contents (edit_writes e)) in
      more_edits-IsLog e es s (apply_edits es (apply_edit e s).1) m now (
        apply_edits-IsLog es (apply_edit e s).1 now.still
          (AllCovered-grows key.eq_dec es s.contents _ grows cov.1) (omega (arith, now.next)))
