-- ===== src/StateMap/Replicas/Edits.antt =====
-- Edits of a master.

use syncstate.Prelude.{
  ℕ, suc, ◌+◌, ◌<◌, ◌≤◌, ◌≡◌, refl, ap, sym, ◌∙◌, true, false, some, none, Option, Outcome, List,
  [], ◌∷◌, lookup, inl, inr, ok, arith, is_some, ite, or_else, u64_mod, not, ◌||◌, subst,
}
use syncstate.HashMap.{
  HashMap, IterOrder, contains_key, extend, last_write, lookup-extend, lookup-insert,
}
use syncstate.Traits.{StateMapKey}
use syncstate.StateMap.Defs.{StateMap, StateMapError, get}
use syncstate.StateMap.History.{IsMaster, snapshot}
use syncstate.StateMap.Modify.{
  StateMapModifier, new_modifier, begin_modification, modifier_get, modifier_set,
}
use syncstate.StateMap.Modify.Master.{set_lem}
use syncstate.StateMap.Modify.Batch.{Covered, IsModifier, modifier_set_lem, commit_lem}
use syncstate.StateMap.Lifecycle.{modified}
use syncstate.StateMap.Lifecycle.Frozen.{modified-statemap}
use syncstate.StateMap.Lifecycle.Master.{modified-IsModifier, begun-IsModifier}
use syncstate.StateMap.Sync.{SameContents}
use syncstate.StateMap.Replicas.{Edit, single, batch, edit_writes, apply_edit, commit_batch}

module _ {ℓ} {K T : Type ℓ} (dec : Discrete K) where
  sooner :
      (q k : K) (v : T) (before after : Option T)
      → or_else after (ite (dec q k) (some v) before)
        ≡ or_else (or_else after (ite (dec q k) (some v) none)) before
  sooner q k v before none =
      elim (dec q k) as (λ d. ite d (some v) before ≡ or_else (ite d (some v) none) before) [
        | yes e ↦ refl
        | no n ↦ refl
      ]
  sooner q k v before (some w) = refl

  Covered-grows :
      (l : List (K × T)) (m m' : HashMap K T)
      → ((q : K) → contains_key dec q m ≡ true → contains_key dec q m' ≡ true)
      → Covered dec l m
      → Covered dec l m'
  Covered-grows [] m m' grows h = tt
  Covered-grows (e ∷ l) m m' grows h = (grows e.0 h.0, Covered-grows l m m' grows h.1)

  -- Every key that an edit writes is there.
  abbrev pub AllCovered : List (Edit K T) → HashMap K T → Type 0
  AllCovered [] m = Unit
  AllCovered (e ∷ es) m = Covered dec (edit_writes e) m × AllCovered es m

  pub AllCovered-grows :
      (es : List (Edit K T)) (m m' : HashMap K T)
      → ((q : K) → contains_key dec q m ≡ true → contains_key dec q m' ≡ true)
      → AllCovered es m
      → AllCovered es m'
  AllCovered-grows [] m m' grows h = tt
  AllCovered-grows (e ∷ es) m m' grows h =
      (Covered-grows (edit_writes e) m m' grows h.0, AllCovered-grows es m m' grows h.1)

module _ {ℓ} {K T R : Type ℓ} ⦃key : StateMapKey K⦄ where
  -- A modifier reads as its map with its writes.
  modified-reads :
      (l : List (K × T)) (mods : StateMapModifier K T R) (q : K)
      → IsModifier mods
      → Covered key.eq_dec l mods.statemap.contents
      → modifier_get q (modified l mods) ≡ or_else (last_write key.eq_dec q l) (modifier_get q mods)
  unfolding last_write get
  modified-reads [] mods q h cov = refl
  modified-reads ((k, v) ∷ l) mods q h cov =
      let next = (modifier_set k v mods).1 in
      let (valid, held, told) = modifier_set_lem k v mods h in
      let cov' : Covered key.eq_dec l next.statemap.contents =
        subst (λ x. Covered key.eq_dec l x.contents) (sym held) cov.1 in
      elim told [
        | inl (missing, _) ↦ let e : false ≡ true = sym (ap is_some missing) ∙ cov.0 in absurd cc
        | inr (_, reads) ↦
            modified-reads l next q valid cov'
            ∙ ap (or_else (last_write key.eq_dec q l)) (reads q)
            ∙ sooner key.eq_dec q k v _ (last_write key.eq_dec q l)
      ]

module _ {ℓ} {K T R : Type ℓ} ⦃key : StateMapKey K⦄ ⦃order : IterOrder K T key.eq_dec⦄ where
  -- What writes leave of a master.
  pub record IsEdited (l : List (K × T)) (s : StateMap K T R)
      (x : Outcome StateMapError (Unit {0}) × StateMap K T R) : Type ℓ where
    pub done : x.0 ≡ ok tt
    pub still : IsMaster x.1
    pub next : x.1.update_id ≡ suc s.update_id
    pub reads : SameContents x.1.contents (extend key.eq_dec s.contents l)
    pub past : (i : ℕ) → i ≤ s.update_id → snapshot x.1 i ≡ snapshot s i

  master_begins : (s : StateMap K T R) → IsMaster s → begin_modification s ≡ ok (new_modifier s)
  unfolding begin_modification
  master_begins s m =
      let may : not (is_some s.hash) || s.is_master ≡ true = ground (arith, m.master) in rw may refl

  pub apply_edit-IsEdited :
      (e : Edit K T) (s : StateMap K T R)
      → IsMaster s
      → Covered key.eq_dec (edit_writes e) s.contents
      → s.update_id + 1 < u64_mod
      → IsEdited (edit_writes e) s (apply_edit e s)
  unfolding get extend new_modifier modifier_get lookup
  apply_edit-IsEdited (single k v) s m cov b =
      let (done, still, next, reads, past) = set_lem k v s m cov.0 b in
      record {
        done = done;
        still = still;
        next = next;
        reads = λ q. reads q ∙ sym (lookup-insert key.eq_dec q k v s.contents);
        past = past;
      }
  apply_edit-IsEdited (batch l) s m cov b =
      let mods = modified l (new_modifier s) in
      let begun = master_begins s m in
      let valid = (begun-IsModifier s (new_modifier s) begun).0 in
      let same : mods.statemap ≡ s = modified-statemap l (new_modifier s) in
      let (done, still, next, reads, past) =
        commit_lem mods (modified-IsModifier l (new_modifier s) valid) (subst IsMaster (sym same) m)
          (subst (λ x. x.update_id + 1 < u64_mod) (sym same) b) in
      subst (λ o. IsEdited l s (commit_batch l o s)) (sym begun)
        (record {
          done = done;
          still = still;
          next = next ∙ ap (λ x. suc x.update_id) same;
          reads = λ q.
              reads q
              ∙ modified-reads l (new_modifier s) q valid cov
              ∙ sym (lookup-extend key.eq_dec q s.contents l);
          past = λ i p.
              past i (subst (λ x. i ≤ x.update_id) (sym same) p) ∙ ap (λ x. snapshot x i) same;
        })
