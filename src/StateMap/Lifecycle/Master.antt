-- ===== src/StateMap/Lifecycle/Master.antt =====
-- Calls on a master whose remote has no updates for it, as `DummyRemote`.
use syncstate.Prelude.{
  ℕ, suc, ◌+◌, ◌<◌, ◌≤◌, ◌≡◌, refl, ap, sym, ◌∙◌, true, some, none, Option, List, [], ◌∷◌, Outcome,
  ok, err, panic, map_err, if_intro, Bool-cases, inl, inr, arith, subst, ltb, u64_mod, ok_inj,
  map_err-ok,
}
use syncstate.HashMap.{IterOrder, contains_key}
use syncstate.Traits.{StateMapKey, StateMapValue}
use syncstate.Diff
use syncstate.Diff.{Diff}
use syncstate.StateMap.Defs.{StateMap, StateMapError, Remote, Hash, fetch_update_error}
use syncstate.StateMap.Build.{frozen_refuses}
use syncstate.StateMap.Freeze.{Sha256}
use syncstate.StateMap.Freeze.Laws.{freeze_frozen}
use syncstate.StateMap.History.{IsMaster, snapshot}
use syncstate.StateMap.Modify.{StateMapModifier, set, begin_modification, modifier_set, commit}
use syncstate.StateMap.Modify.Master.{set_missing, set_lem}
use syncstate.StateMap.Modify.Batch.{
  IsModifier, begin_modification-IsModifier, modifier_set_lem, commit_lem,
}
use syncstate.StateMap.Update.{set_update_id, fetch_with, commit_fetched}
use syncstate.StateMap.Lifecycle.{
  Calls, modified, no_calls, push_called, set_master_called, freeze_called, set_called,
  commit_called, set_update_id_called,
}
use syncstate.StateMap.Lifecycle.Frozen.{
  set-IsKept, commit-IsKept, set_master_refused, modified-statemap,
}

-- A remote that never has anything for a map.
abbrev pub HasNoUpdates {ℓ} : {K T R W : Type ℓ} → Remote K T R W → R → Type ℓ
HasNoUpdates {K} {T} {W = W} remotes r =
    (from upto : ℕ) (h : Hash) (w : W) (d : Diff K T)
    → (remotes.fetch_updates r from upto h w).0 ≡ ok d
    → d.diff ≡ []

module _ {ℓ} {K T R : Type ℓ} ⦃key : StateMapKey K⦄ where
  -- What a master is after a number of calls.
  pub record IsContinued (s s' : StateMap K T R) (n : ℕ) : Type ℓ where
    pub still : IsMaster s'
    pub ahead : s.update_id ≤ s'.update_id
    pub bounded : s'.update_id ≤ s.update_id + n
    pub past : (i : ℕ) → i ≤ s.update_id → snapshot s' i ≡ snapshot s i
    pub same_remote : s'.remote ≡ s.remote

  IsContinued-step :
      (s s' s'' : StateMap K T R) (n : ℕ)
      → IsContinued s s' n
      → IsContinued s' s'' 1
      → IsContinued s s'' (suc n)
  IsContinued-step s s' s'' n h h' = record {
    still = h'.still;
    ahead = omega (arith, h.ahead, h'.ahead);
    bounded = omega (arith, h.bounded, h'.bounded);
    past = λ i p. h'.past i (omega (arith, h.ahead)) ∙ h.past i p;
    same_remote = h'.same_remote ∙ h.same_remote;
  }

  unchanged-IsContinued : (s s' : StateMap K T R) → IsMaster s → s' ≡ s → IsContinued s s' 1
  unchanged-IsContinued s s' m e =
      subst (λ x. IsContinued s x 1) (sym e)
        (record {
          still = m;
          ahead = omega arith;
          bounded = omega arith;
          past = λ i p. refl;
          same_remote = refl;
        })

  set-IsContinued :
      (k : K) (v : T) (s : StateMap K T R)
      → IsMaster s
      → s.update_id + 1 < u64_mod
      → IsContinued s (set k v s).1 1
  set-IsContinued k v s m b = elim (Bool-cases (contains_key key.eq_dec k s.contents)) [
    | inl here ↦
        let (done, still, next, reads, past) = set_lem k v s m here b in
        record {
          still = still;
          ahead = omega (arith, next);
          bounded = omega (arith, next);
          past = past;
          same_remote = (set-IsKept k v s).same_remote;
        }
    | inr missing ↦ unchanged-IsContinued s (set k v s).1 m (set_missing k v s missing)
  ]

  pub modified-IsModifier :
      (l : List (K × T)) (mods : StateMapModifier K T R)
      → IsModifier mods
      → IsModifier (modified l mods)
  modified-IsModifier [] mods h = h
  modified-IsModifier ((k, v) ∷ l) mods h =
      modified-IsModifier l (modifier_set k v mods).1 (modifier_set_lem k v mods h).0

  pub begun-IsModifier :
      (s : StateMap K T R) (mods : StateMapModifier K T R)
      → begin_modification s ≡ ok mods
      → IsModifier mods × (mods.statemap ≡ s)
  begun-IsModifier s mods h = elim (begin_modification-IsModifier s) [
    | inl (refused, _, _) ↦ absurd cc (h, refused)
    | inr (mods', begun, same, valid, reads) ↦
        let e : mods' ≡ mods = ok_inj (sym begun ∙ h) in
        (subst IsModifier e valid, ap (λ m. m.statemap) (sym e) ∙ same)
  ]

  commit-IsContinued :
      ⦃order : IterOrder K T key.eq_dec⦄ (mods : StateMapModifier K T R)
      → IsModifier mods
      → IsMaster mods.statemap
      → mods.statemap.update_id + 1 < u64_mod
      → IsContinued mods.statemap (commit mods).1 1
  commit-IsContinued mods h m b =
      let (done, still, next, reads, past) = commit_lem mods h m b in
      record {
        still = still;
        ahead = omega (arith, next);
        bounded = omega (arith, next);
        past = past;
        same_remote = (commit-IsKept mods).same_remote;
      }

  commit_fetched_nothing :
      (o : Outcome StateMapError (Diff K T)) (s : StateMap K T R)
      → ((d : Diff K T) → o ≡ ok d → d.diff ≡ [])
      → (commit_fetched o s).1 ≡ s
  unfolding commit_fetched Diff.is_empty
  commit_fetched_nothing (err e) s nothing = refl
  commit_fetched_nothing panic s nothing = refl
  commit_fetched_nothing (ok d) s nothing =
      let none_sent : Diff.is_empty d ≡ true =
        ap (λ l. Diff.is_empty (record d { diff = l })) (nothing d refl) in
      rw (none_sent, commit_fetched)

module _ {ℓ} {K T R W : Type ℓ} ⦃key : StateMapKey K⦄ (remotes : Remote K T R W) where
  fetch_with_nothing :
      (u : ℕ) (o : Option Hash) (s : StateMap K T R) (w : W)
      → HasNoUpdates remotes s.remote
      → (fetch_with remotes u o s w).1 ≡ s
  unfolding fetch_with
  fetch_with_nothing u none s w nothing = refl
  fetch_with_nothing u (some h) s w nothing =
      let fetched = (remotes.fetch_updates s.remote s.update_id u h w).0 in
      commit_fetched_nothing (map_err fetch_update_error fetched) s
        (λ d e. nothing s.update_id u h w d (map_err-ok fetch_update_error fetched d e))

  set_update_id_nothing :
      (u : ℕ) (s : StateMap K T R) (w : W)
      → HasNoUpdates remotes s.remote
      → (set_update_id remotes u s w).1 ≡ s
  unfolding set_update_id
  set_update_id_nothing u s w nothing =
      if_intro (λ (x : Outcome StateMapError (Unit {0}) × StateMap K T R × W). x.1 ≡ s)
        (ltb s.update_id u) _ _ (fetch_with_nothing u s.hash s w nothing) refl

module _ {ℓ} {K T R W : Type ℓ} ⦃key : StateMapKey K⦄ ⦃value : StateMapValue T⦄ ⦃sha : Sha256⦄
    ⦃order : IterOrder K T key.eq_dec⦄ (remotes : Remote K T R W) (s : StateMap K T R) where
  -- A master whose remote has no updates for it stays one, whatever is called on it, if its update
  -- id and the number of calls together stay below 2^64. Its update id does not go back and grows
  -- by at most the number of calls, what the history tells of the ids up to the first stays, and
  -- its remote is the same.
  pub Calls-IsContinued :
      (n : ℕ) (s' : StateMap K T R)
      → IsMaster s
      → HasNoUpdates remotes s.remote
      → s.update_id + n < u64_mod
      → Calls remotes s n s'
      → IsContinued s s' n
  Calls-IsContinued n _ m nothing b no_calls = record {
    still = m;
    ahead = omega arith;
    bounded = omega arith;
    past = λ i p. refl;
    same_remote = refl;
  }
  Calls-IsContinued n _ m nothing b (push_called n' s' k v run) =
      let h = Calls-IsContinued n' s' m nothing (omega arith) run in
      IsContinued-step s s' _ n' h (
        unchanged-IsContinued s' _ h.still
          (ap (λ x. x.1) (frozen_refuses k v true s' h.still.frozen).0))
  Calls-IsContinued n _ m nothing b (set_master_called n' s' role run) =
      let h = Calls-IsContinued n' s' m nothing (omega arith) run in
      IsContinued-step s s' _ n' h
        (unchanged-IsContinued s' _ h.still (set_master_refused role s' h.still.frozen))
  Calls-IsContinued n _ m nothing b (freeze_called n' s' w run) =
      let h = Calls-IsContinued n' s' m nothing (omega arith) run in
      IsContinued-step s s' _ n' h (
        unchanged-IsContinued s' _ h.still
          (ap (λ x. x.1) (freeze_frozen remotes s' w h.still.frozen)))
  Calls-IsContinued n _ m nothing b (set_called n' s' k v run) =
      let h = Calls-IsContinued n' s' m nothing (omega arith) run in
      IsContinued-step s s' _ n' h (set-IsContinued k v s' h.still (omega (arith, h.bounded)))
  Calls-IsContinued n _ m nothing b (commit_called n' s' mods l begun run) =
      let h = Calls-IsContinued n' s' m nothing (omega arith) run in
      let (valid, same) = begun-IsModifier s' mods begun in
      let held : (modified l mods).statemap ≡ s' = modified-statemap l mods ∙ same in
      IsContinued-step s s' _ n' h (
        subst (λ x. IsContinued x (commit (modified l mods)).1 1) held
          (commit-IsContinued (modified l mods) (modified-IsModifier l mods valid)
            (subst IsMaster (sym held) h.still)
            (omega (arith, h.bounded, ap (λ x. x.update_id) held))))
  Calls-IsContinued n _ m nothing b (set_update_id_called n' s' u w run) =
      let h = Calls-IsContinued n' s' m nothing (omega arith) run in
      IsContinued-step s s' _ n' h (
        unchanged-IsContinued s' _ h.still (
          set_update_id_nothing remotes u s' w
            (subst (HasNoUpdates remotes) (sym h.same_remote) nothing)))
