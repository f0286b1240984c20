-- ===== src/StateMap/Lifecycle/Frozen.antt =====
-- Calls on a frozen state map, master or not.
use syncstate.Prelude.{
  ℕ, ◌≡◌, ◌≢◌, refl, ap, sym, ◌∙◌, true, not, ◌||◌, Bool, Option, some, none, List, [], ◌∷◌, ◌++◌,
  append-nil, append_assoc, Outcome, ok, err, panic, if_intro, Bool-cases, inl, inr, is_some,
  if◌then◌else◌, u64_inc, subst, ltb, ok_inj,
}
use syncstate.HashMap.{IterOrder, contains_key}
use syncstate.Traits.{StateMapKey, StateMapValue}
use syncstate.Diff
use syncstate.Diff.{Diff}
use syncstate.StateMap.Defs.{
  StateMap, StateMapError, Remote, Hash, set_master, is_frozen, frozen, key_not_found,
}
use syncstate.StateMap.Build.{frozen_refuses}
use syncstate.StateMap.Freeze.{Sha256}
use syncstate.StateMap.Freeze.Laws.{freeze_frozen}
use syncstate.StateMap.Modify.{
  StateMapModifier, new_modifier, set, begin_modification, modifier_set, commit, commit_loop,
  record_change, insert_existing,
}
use syncstate.StateMap.Update.{set_update_id, fetch_with, commit_fetched}
use syncstate.StateMap.Lifecycle.{
  Calls, modified, no_calls, push_called, set_master_called, freeze_called, set_called,
  commit_called, set_update_id_called,
}

module _ {ℓ} {K T R : Type ℓ} where
  -- What stays of a state map while its contents and its update id change.
  pub record IsKept (s s' : StateMap K T R) : Type ℓ where
    pub same_hash : s'.hash ≡ s.hash
    pub same_role : s'.is_master ≡ s.is_master
    pub same_order : s'.order ≡ s.order
    pub same_remote : s'.remote ≡ s.remote
    pub grows : (ds : List (Diff K T)) × (s'.diffs ≡ s.diffs ++ ds)

  pub IsKept-refl : (s : StateMap K T R) → IsKept s s
  IsKept-refl s = record {
    same_hash = refl;
    same_role = refl;
    same_order = refl;
    same_remote = refl;
    grows = ([], sym (append-nil s.diffs));
  }

  pub IsKept-trans : (s s' s'' : StateMap K T R) → IsKept s s' → IsKept s' s'' → IsKept s s''
  IsKept-trans s s' s'' h h' = record {
    same_hash = h'.same_hash ∙ h.same_hash;
    same_role = h'.same_role ∙ h.same_role;
    same_order = h'.same_order ∙ h.same_order;
    same_remote = h'.same_remote ∙ h.same_remote;
    grows =
        let (ds, e) = h.grows in
        let (ds', e') = h'.grows in
        (ds ++ ds', e' ∙ ap (λ l. l ++ ds') e ∙ append_assoc s.diffs ds ds');
  }

not_ok {ℓ κ} : {E : Type ℓ} {A : Type κ} {e : E} {a : A} → ◌≢◌ {A = Outcome E A} (err e) (ok a)
not_ok h = cc

module _ {ℓ} {K T R : Type ℓ} ⦃key : StateMapKey K⦄ where
  insert_existing-IsKept : (k : K) (v : T) (s : StateMap K T R) → IsKept s (insert_existing k v s).1
  unfolding insert_existing
  insert_existing-IsKept k v s = record {
    same_hash = refl;
    same_role = refl;
    same_order = refl;
    same_remote = refl;
    grows = ([], sym (append-nil s.diffs));
  }

  -- The diff that is recorded goes to the end.
  record_change-IsKept :
      (changes : List (K × T)) (s : StateMap K T R)
      (x : Outcome StateMapError (Unit {0}) × StateMap K T R)
      → IsKept s x.1
      → IsKept s (record_change changes x).1
  unfolding record_change
  record_change-IsKept changes s (ok done, s') h = IsKept-trans s s' _ h (record {
    same_hash = refl;
    same_role = refl;
    same_order = refl;
    same_remote = refl;
    grows = (_, refl);
  })
  record_change-IsKept changes s (err e, s') h = h
  record_change-IsKept changes s (panic, s') h = h

  commit_loop-IsKept :
      (l : List (K × T)) (s : StateMap K T R)
      (x : Outcome StateMapError (Unit {0}) × StateMap K T R)
      → IsKept s x.1
      → IsKept s (commit_loop l x).1
  unfolding commit_loop
  commit_loop-IsKept [] s x h = h
  commit_loop-IsKept ((k, v) ∷ l) s (ok done, s') h =
      commit_loop-IsKept l s (insert_existing k v s')
        (IsKept-trans s s' _ h (insert_existing-IsKept k v s'))
  commit_loop-IsKept ((k, v) ∷ l) s (err e, s') h = h
  commit_loop-IsKept ((k, v) ∷ l) s (panic, s') h = h

  pub set_master_refused :
      (b : Bool) (s : StateMap K T R) → is_frozen s ≡ true → (set_master b s).1 ≡ s
  unfolding set_master
  set_master_refused b s h = rw h refl

  pub set-IsKept : (k : K) (v : T) (s : StateMap K T R) → IsKept s (set k v s).1
  unfolding set insert_existing
  set-IsKept k v s =
      let Kept = λ (x : Outcome StateMapError (Unit {0}) × StateMap K T R). IsKept s x.1 in
      let (asserted, s') = insert_existing k v s in
      let written : Outcome StateMapError (Unit {0}) × StateMap K T R =
        (asserted, record s' { update_id = u64_inc s'.update_id }) in
      let may = not (is_frozen s) || s.is_master in
      if_intro Kept (contains_key key.eq_dec k s.contents)
        (if may then record_change ((k, v) ∷ []) written else (err frozen, s))
        (err key_not_found, s)
        (if_intro Kept may (record_change ((k, v) ∷ []) written) (err frozen, s)
          (record_change-IsKept ((k, v) ∷ []) s written (record {
            same_hash = refl;
            same_role = refl;
            same_order = refl;
            same_remote = refl;
            grows = ([], sym (append-nil s.diffs));
          }))
          (IsKept-refl s))
        (IsKept-refl s)

  pub modified-statemap :
      (l : List (K × T)) (mods : StateMapModifier K T R)
      → (modified l mods).statemap ≡ mods.statemap
  modified-statemap [] mods = refl
  modified-statemap ((k, v) ∷ l) mods =
      modified-statemap l (modifier_set k v mods).1
      ∙ (unfold modifier_set in
          if_intro
            (λ (x : Outcome StateMapError (Unit {0}) × StateMapModifier K T R).
              x.1.statemap ≡ mods.statemap)
            (contains_key key.eq_dec k mods.statemap.contents) _ _ refl refl)

  pub begin_modification-statemap :
      (s : StateMap K T R) (mods : StateMapModifier K T R)
      → begin_modification s ≡ ok mods
      → mods.statemap ≡ s
  unfolding begin_modification new_modifier
  begin_modification-statemap s mods h = elim (Bool-cases (not (is_frozen s) || s.is_master)) [
    | inl may ↦ sym (ap (λ m. m.statemap) (ok_inj (rw may at h)))
    | inr refused ↦ absurd (not_ok (rw refused at h))
  ]

  pub commit-IsKept :
      ⦃order : IterOrder K T key.eq_dec⦄ (mods : StateMapModifier K T R)
      → IsKept mods.statemap (commit mods).1
  unfolding commit
  commit-IsKept ⦃order⦄ mods = record_change-IsKept (order.iter mods.diff) mods.statemap _ (
      commit_loop-IsKept (order.iter mods.diff) mods.statemap _ (record {
        same_hash = refl;
        same_role = refl;
        same_order = refl;
        same_remote = refl;
        grows = ([], sym (append-nil mods.statemap.diffs));
      }))

  commit_fetched-IsKept :
      (x : Outcome StateMapError (Diff K T)) (s : StateMap K T R) → IsKept s (commit_fetched x s).1
  unfolding commit_fetched
  commit_fetched-IsKept (err e) s = IsKept-refl s
  commit_fetched-IsKept panic s = IsKept-refl s
  commit_fetched-IsKept (ok d) s =
      let Kept = λ (x : Outcome StateMapError (Unit {0}) × StateMap K T R). IsKept s x.1 in
      if_intro Kept (Diff.is_empty d) _ _ (IsKept-refl s) (
        if_intro Kept (ltb s.update_id d.from_update_id) _ _ (IsKept-refl s) (record {
          same_hash = refl;
          same_role = refl;
          same_order = refl;
          same_remote = refl;
          grows = ([], sym (append-nil s.diffs));
        }))

module _ {ℓ} {K T R W : Type ℓ} ⦃key : StateMapKey K⦄ (remotes : Remote K T R W) where
  fetch_with-IsKept :
      (u : ℕ) (o : Option Hash) (s : StateMap K T R) (w : W)
      → IsKept s (fetch_with remotes u o s w).1
  unfolding fetch_with
  fetch_with-IsKept u none s w = IsKept-refl s
  fetch_with-IsKept u (some h) s w = commit_fetched-IsKept _ s

  pub set_update_id-IsKept :
      (u : ℕ) (s : StateMap K T R) (w : W) → IsKept s (set_update_id remotes u s w).1
  unfolding set_update_id
  set_update_id-IsKept u s w =
      if_intro (λ (x : Outcome StateMapError (Unit {0}) × StateMap K T R × W). IsKept s x.1)
        (ltb s.update_id u) _ _ (fetch_with-IsKept u s.hash s w) (IsKept-refl s)

module _ {ℓ} {K T R W : Type ℓ} ⦃key : StateMapKey K⦄ ⦃value : StateMapValue T⦄ ⦃sha : Sha256⦄
    ⦃order : IterOrder K T key.eq_dec⦄ (remotes : Remote K T R W) (s : StateMap K T R) where
  -- Whatever is called on a frozen state map, and whatever its remote answers, it keeps its hash,
  -- its role, the order of its keys and its remote, and no diff of its history is lost or changed:
  -- new ones come after the old.
  pub Calls-IsKept :
      (n : ℕ) (s' : StateMap K T R) → is_frozen s ≡ true → Calls remotes s n s' → IsKept s s'
  unfolding is_frozen
  Calls-IsKept n _ shut no_calls = IsKept-refl s
  Calls-IsKept n _ shut (push_called m s' k v run) =
      let so_far = Calls-IsKept m s' shut run in
      let still = ap is_some so_far.same_hash ∙ shut in
      subst (IsKept s) (sym (ap (λ x. x.1) (frozen_refuses k v true s' still).0)) so_far
  Calls-IsKept n _ shut (set_master_called m s' b run) =
      let so_far = Calls-IsKept m s' shut run in
      let still = ap is_some so_far.same_hash ∙ shut in
      subst (IsKept s) (sym (set_master_refused b s' still)) so_far
  Calls-IsKept n _ shut (freeze_called m s' w run) =
      let so_far = Calls-IsKept m s' shut run in
      let still = ap is_some so_far.same_hash ∙ shut in
      subst (IsKept s) (sym (ap (λ x. x.1) (freeze_frozen remotes s' w still))) so_far
  Calls-IsKept n _ shut (set_called m s' k v run) =
      IsKept-trans s s' _ (Calls-IsKept m s' shut run) (set-IsKept k v s')
  Calls-IsKept n _ shut (commit_called m s' mods l begun run) =
      IsKept-trans s s' _ (Calls-IsKept m s' shut run) (
        subst (λ x. IsKept x (commit (modified l mods)).1)
          (modified-statemap l mods ∙ begin_modification-statemap s' mods begun)
          (commit-IsKept (modified l mods)))
  Calls-IsKept n _ shut (set_update_id_called m s' u w run) =
      IsKept-trans s s' _ (Calls-IsKept m s' shut run) (set_update_id-IsKept remotes u s' w)
