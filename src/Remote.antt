-- ===== src/Remote.antt =====
-- src/remote.rs: `DummyRemote`. The trait `Remote` is in `StateMap.Defs`, since its `init` takes a
-- state map.
pub mod Laws
use syncstate.Prelude.{ℕ, String, false, List, [], Outcome, ok}
use syncstate.Diff
use syncstate.Diff.{Diff}
use syncstate.StateMap.Defs.{StateMap, Hash, Remote}

-- The trait `EventBroadcaster`, for broadcasters of type `R` that act on a world `W`.
pub record EventBroadcaster {ℓ} (R W : Type ℓ) : Type ℓ where
  pub send_event : R → List ℕ → Hash → W → Outcome String (Unit {0}) × W

pub data DummyRemote {ℓ} : Type ℓ where
  dummy : DummyRemote

module _ {ℓ} {K T W : Type ℓ} where
  unfoldable pub dummy_fetch_updates :
      DummyRemote {ℓ} → ℕ → ℕ → Hash → W → Outcome String (Diff K T) × W
  unfolding Diff.new
  dummy_fetch_updates r update_id_current update_id_new hash w = (ok (Diff.new [] false 0 0), w)

  unfoldable pub dummy_init :
      DummyRemote {ℓ} → StateMap K T (DummyRemote {ℓ}) → W → Outcome String (Unit {0}) × W
  dummy_init r statemap w = (ok tt, w)

unfoldable pub dummy_remote {ℓ} : {K T W : Type ℓ} → Remote K T (DummyRemote {ℓ}) W
unfolding dummy_fetch_updates dummy_init
dummy_remote = record { fetch_updates = dummy_fetch_updates; init = dummy_init }

unfoldable pub dummy_send_event {ℓ} :
    {W : Type ℓ} → DummyRemote {ℓ} → List ℕ → Hash → W → Outcome String (Unit {0}) × W
dummy_send_event r encoded_event hash w = (ok tt, w)

unfoldable pub dummy_broadcaster {ℓ} : {W : Type ℓ} → EventBroadcaster (DummyRemote {ℓ}) W
unfolding dummy_send_event
dummy_broadcaster = record { send_event = dummy_send_event }
