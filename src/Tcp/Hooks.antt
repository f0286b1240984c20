-- ===== src/Tcp/Hooks.antt =====
-- src/hooks.rs: `Hook` and `InitHook`, which the user of the library implements. A hook is what it
-- does to the mutex that it is given, as one step that returns; a `Box<dyn Error>` is its text. A hook
-- that blocks or never returns, and what an init hook does with the `Arc` that it is given after it
-- has returned, for example in a thread of its own, are not modelled.
use syncstate.Prelude.{String, Bool, false, Outcome}
use syncstate.Event.{Event}
use syncstate.StateMap.Defs.{StateMap}
use syncstate.Remote.{DummyRemote}

-- `std::sync::Mutex`: it is poisoned when a thread panics while it holds the lock.
pub record Mutex (A : Type 0) : Type 0 where
  pub inner : A
  pub poisoned : Bool

module _ {A : Type 0} where
  unfoldable pub new_mutex : A → Mutex A
  new_mutex a = record { inner = a; poisoned = false }

-- What `lock` fails with on a poisoned mutex: the text of a `PoisonError`.
abbrev pub poison_error : String
poison_error = "poisoned lock: another task failed inside"

-- The state maps of a server.
abbrev pub ServerMap : Type 0 → Type 0 → Type 0
ServerMap K T = StateMap K T (DummyRemote {0})

pub record Hook (K T E : Type 0) : Type 0 where
  pub process_event :
      Mutex (ServerMap K T) → Event E → Outcome String (Unit {0}) × Mutex (ServerMap K T)

pub record InitHook (K T : Type 0) : Type 0 where
  pub process_init : Mutex (ServerMap K T) → Outcome String (Unit {0}) × Mutex (ServerMap K T)
