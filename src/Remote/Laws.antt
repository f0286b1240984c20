-- ===== src/Remote/Laws.antt =====
-- A state map behind a `DummyRemote`.
use syncstate.Prelude.{ℕ, ◌<◌, ◌≡◌, some, err, ap, arith, ltb, true}
use syncstate.Traits.{StateMapKey}
use syncstate.Diff
use syncstate.StateMap.Defs.{StateMap, Hash, empty_diff}
use syncstate.StateMap.Update.{set_update_id, fetch_with, commit_fetched}
use syncstate.Remote.{DummyRemote, dummy_remote}

-- A frozen state map behind a `DummyRemote` that is asked to move ahead reports an empty diff and
-- stays as it was.
set_update_id-dummy {ℓ} :
    {K T W : Type ℓ} ⦃key : StateMapKey K⦄ (s : StateMap K T (DummyRemote {ℓ})) (u : ℕ) (w : W)
    (h : Hash)
    → s.update_id < u
    → s.hash ≡ some h
    → set_update_id dummy_remote u s w ≡ (err empty_diff, s, w)
unfolding set_update_id fetch_with commit_fetched dummy_remote Diff.is_empty
set_update_id-dummy s u w h ahead e =
    let test : ltb s.update_id u ≡ true = ground arith in
    rw test (ap (λ o. fetch_with dummy_remote u o s w) e)
