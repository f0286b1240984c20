-- ===== src/StateMap/Update/Slave.antt =====
-- `set_update_id` on every branch, and with a remote that serves a master.
use syncstate.Prelude.{
  ℕ, ◌<◌, ◌≤◌, min, ◌≡◌, ◌≢◌, ◌⊎◌, inl, inr, refl, ap, sym, ◌∙◌, true, false, Option, none, some,
  [], Outcome, ok, err, panic, map_err, arith, ltb, Bool-cases, lookup, or_else,
}
use syncstate.HashMap.{IterOrder, extend, last_write, lookup-extend}
use syncstate.Traits.{StateMapKey}
use syncstate.Diff
use syncstate.Diff.{Diff}
use syncstate.StateMap.Defs.{
  StateMap, StateMapError, Remote, Hash, unfrozen, empty_diff, fetch_update_error, get,
}
use syncstate.StateMap.History.{IsMaster, snapshot}
use syncstate.StateMap.GetDiff.{get_diff}
use syncstate.StateMap.Sync.{SameContents, sync_lem}
use syncstate.StateMap.Update.{commit_fetched, fetch_with, set_update_id, inconsistent_message}

is_empty-false {ℓ} : {K T : Type ℓ} (d : Diff K T) → Diff.is_empty d ≡ false → d.diff ≢ []
unfolding Diff.is_empty Diff.get_diff
is_empty-false d h e = ground arith

module _ {ℓ} {K T R W : Type ℓ} ⦃key : StateMapKey K⦄ (remotes : Remote K T R W) where
  commit_fetched_failed :
      (o : Outcome StateMapError (Diff K T)) (s : StateMap K T R)
      → (commit_fetched o s).0 ≢ ok tt
      → (commit_fetched o s).1 ≡ s
  unfolding commit_fetched
  commit_fetched_failed (err e) s h = refl
  commit_fetched_failed panic s h = refl
  commit_fetched_failed (ok d) s h = elim (Bool-cases (Diff.is_empty d)) [
    | inl none_sent ↦ rw (none_sent, commit_fetched)
    | inr sent ↦ elim (Bool-cases (ltb s.update_id d.from_update_id)) [
      | inl gap ↦ rw (sent, gap, commit_fetched)
      | inr fits ↦ absurd (h (rw (sent, fits, commit_fetched)))
    ]
  ]

  fetch_with_failed :
      (u : ℕ) (o : Option Hash) (s : StateMap K T R) (w : W)
      → (fetch_with remotes u o s w).0 ≢ ok tt
      → (fetch_with remotes u o s w).1 ≡ s
  unfolding fetch_with
  fetch_with_failed u none s w h = refl
  fetch_with_failed u (some hash) s w h = commit_fetched_failed _ s h

  -- `set_update_id` with an id that is not ahead of the map succeeds, changes nothing and does not
  -- ask the remote, also on a map that is not frozen. Wherever it fails, by an error or a panic, it
  -- leaves the map as it was. An unfrozen map that is asked for an id ahead of its own is refused
  -- with the error `Unfrozen`, without asking the remote.
  pub set_update_id_errors :
      (u : ℕ) (s : StateMap K T R) (w : W)
      → (u ≤ s.update_id → set_update_id remotes u s w ≡ (ok tt, s, w))
        × ((set_update_id remotes u s w).0 ≢ ok tt → (set_update_id remotes u s w).1 ≡ s)
        × (s.update_id < u → s.hash ≡ none → set_update_id remotes u s w ≡ (err unfrozen, s, w))
  unfolding set_update_id fetch_with
  set_update_id_errors u s w = (
    λ behind. let e : ltb s.update_id u ≡ false = ground arith in rw e,
    elim (Bool-cases (ltb s.update_id u)) [
      | inl ahead ↦ rw ahead (fetch_with_failed u s.hash s w)
      | inr behind ↦ rw behind (λ h. refl)
    ],
    λ ahead open_hash.
        let e : ltb s.update_id u ≡ true = ground arith in
        rw e (ap (λ o. fetch_with remotes u o s w) open_hash),
  )

  set_update_id-eq :
      (u : ℕ) (s : StateMap K T R) (w : W) (h : Hash)
      → s.update_id < u
      → s.hash ≡ some h
      → let fetched = remotes.fetch_updates s.remote s.update_id u h w in
        let done = commit_fetched (map_err fetch_update_error fetched.0) s in
        set_update_id remotes u s w ≡ (done.0, done.1, fetched.1)
  unfolding set_update_id
  set_update_id-eq u s w h ahead e =
      let test : ltb s.update_id u ≡ true = ground arith in
      rw test (unfold fetch_with in ap (λ o. fetch_with remotes u o s w) e)

  commit_fetched_cases :
      (s : StateMap K T R) (d : Diff K T)
      → ((d.diff ≡ [])
          × ((commit_fetched (ok d) s).0 ≡ err empty_diff)
          × ((commit_fetched (ok d) s).1 ≡ s))
        ⊎ (((d.diff ≢ [])
              × (s.update_id < d.from_update_id)
              × ((commit_fetched (ok d) s).0
                  ≡ err (fetch_update_error (inconsistent_message d.from_update_id s.update_id)))
              × ((commit_fetched (ok d) s).1 ≡ s))
            ⊎ ((d.diff ≢ [])
                × (d.from_update_id ≤ s.update_id)
                × ((commit_fetched (ok d) s).0 ≡ ok tt)
                × ((commit_fetched (ok d) s).1 ≡ record s {
                  update_id = d.upto_update_id;
                  contents = extend key.eq_dec s.contents d.diff;
                })))
  unfolding commit_fetched Diff.is_empty Diff.get_diff
  commit_fetched_cases s d = elim (Bool-cases (Diff.is_empty d)) [
    | inl none_sent ↦
        inl (ground arith, rw (none_sent, commit_fetched), rw (none_sent, commit_fetched))
    | inr sent ↦ elim (Bool-cases (ltb s.update_id d.from_update_id)) [
      | inl gap ↦ inr (
          inl (
            is_empty-false d sent,
            ground arith,
            rw (sent, gap, commit_fetched),
            rw (sent, gap, commit_fetched),
          ))
      | inr fits ↦ inr (
          inr (
            is_empty-false d sent,
            ground arith,
            rw (sent, fits, commit_fetched),
            rw (sent, fits, commit_fetched),
          ))
    ]
  ]

  pub set_update_id_cases :
      (u : ℕ) (s : StateMap K T R) (w : W) (h : Hash) (d : Diff K T)
      → s.update_id < u
      → s.hash ≡ some h
      → (remotes.fetch_updates s.remote s.update_id u h w).0 ≡ ok d
      → ((d.diff ≡ [])
          × ((set_update_id remotes u s w).0 ≡ err empty_diff)
          × ((set_update_id remotes u s w).1 ≡ s))
        ⊎ (((d.diff ≢ [])
              × (s.update_id < d.from_update_id)
              × ((set_update_id remotes u s w).0
                  ≡ err (fetch_update_error (inconsistent_message d.from_update_id s.update_id)))
              × ((set_update_id remotes u s w).1 ≡ s))
            ⊎ ((d.diff ≢ [])
                × (d.from_update_id ≤ s.update_id)
                × ((set_update_id remotes u s w).0 ≡ ok tt)
                × ((set_update_id remotes u s w).1 ≡ record s {
                  update_id = d.upto_update_id;
                  contents = extend key.eq_dec s.contents d.diff;
                })))
  set_update_id_cases u s w h d ahead e fetched =
      rw (set_update_id-eq u s w h ahead e, fetched) (commit_fetched_cases s d)

  -- What a frozen map does with a diff that its remote returned for an id ahead of its own. An empty
  -- diff is refused with `EmptyDiff`, whatever its ids. Another one that starts after the map's own
  -- update id is refused as inconsistent. A refusal leaves the map as it was. Every other diff is
  -- taken, also if its final id is smaller than the map's own: the map then has that id, and reads at
  -- each key the last write of the diff to it, or what it read before if there is none.
  pub set_update_id_takes :
      (u : ℕ) (s : StateMap K T R) (w : W) (h : Hash) (d : Diff K T)
      → s.update_id < u
      → s.hash ≡ some h
      → (remotes.fetch_updates s.remote s.update_id u h w).0 ≡ ok d
      → ((d.diff ≡ [])
          × ((set_update_id remotes u s w).0 ≡ err empty_diff)
          × ((set_update_id remotes u s w).1 ≡ s))
        ⊎ (((d.diff ≢ [])
              × (s.update_id < d.from_update_id)
              × ((set_update_id remotes u s w).0
                  ≡ err (fetch_update_error (inconsistent_message d.from_update_id s.update_id)))
              × ((set_update_id remotes u s w).1 ≡ s))
            ⊎ ((d.diff ≢ [])
                × (d.from_update_id ≤ s.update_id)
                × ((set_update_id remotes u s w).0 ≡ ok tt)
                × ((set_update_id remotes u s w).1.update_id ≡ d.upto_update_id)
                × ((q : K)
                    → get q (set_update_id remotes u s w).1
                      ≡ or_else (last_write key.eq_dec q d.diff) (get q s))))
  unfolding get
  set_update_id_takes u s w h d ahead e fetched =
      elim (set_update_id_cases u s w h d ahead e fetched) [
        | inl refused ↦ inl refused
        | inr (inl refused) ↦ inr (inl refused)
        | inr (inr (sent, starts, done, taken)) ↦ inr (
            inr (
              sent,
              starts,
              done,
              ap (λ t. t.update_id) taken,
              λ q.
                  ap (λ t. lookup key.eq_dec q t.contents) taken
                  ∙ lookup-extend key.eq_dec q s.contents d.diff,
            ))
      ]

  -- A frozen slave that agrees with its master at its own update id, whose remote hands it the
  -- master's diffs, agrees with the master at the id that it asks for, or at the master's own if
  -- that is smaller. It takes that id, unless there was nothing to write, which is the error
  -- `EmptyDiff` and leaves it as it was.
  pub set_update_id-sync :
      {R' : Type ℓ} ⦃order : IterOrder K T key.eq_dec⦄ (master : StateMap K T R')
      (s : StateMap K T R) (u : ℕ) (w : W) (h : Hash)
      → IsMaster master
      → s.hash ≡ some h
      → s.update_id ≤ master.update_id
      → s.update_id < u
      → SameContents s.contents (snapshot master s.update_id)
      → ((d : Diff K T)
          → get_diff s.update_id u master ≡ ok d
          → (remotes.fetch_updates s.remote s.update_id u h w).0 ≡ ok d)
      → SameContents
          (set_update_id remotes u s w).1.contents
          (snapshot master (min u master.update_id))
        × ((((set_update_id remotes u s w).0 ≡ ok tt)
              × ((set_update_id remotes u s w).1.update_id ≡ min u master.update_id))
            ⊎ (((set_update_id remotes u s w).0 ≡ err empty_diff)
                × ((set_update_id remotes u s w).1 ≡ s)))
  unfolding extend
  set_update_id-sync master s u w h m e behind ahead same served =
      let (d, b) = sync_lem master m s.contents s.update_id u behind ahead same in
      elim (set_update_id_cases u s w h d ahead e (served d b.answered)) [
        | inl (none_sent, failed, kept) ↦ (
          λ q.
              ap (λ c. lookup key.eq_dec q c.contents) kept
              ∙ ap (λ l. lookup key.eq_dec q (extend key.eq_dec s.contents l)) (sym none_sent)
              ∙ b.effect q,
          inr (failed, kept),
        )
        | inr (inl (_, gap, _, _)) ↦ absurd (omega (arith, b.starts))
        | inr (inr (_, _, done, taken)) ↦ (
          λ q. ap (λ c. lookup key.eq_dec q c.contents) taken ∙ b.effect q,
          inl (done, ap (λ c. c.update_id) taken ∙ b.ends),
        )
      ]
