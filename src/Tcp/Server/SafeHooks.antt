-- ===== src/Tcp/Server/SafeHooks.antt =====
-- Hooks that lock the map once and call `set` of src/statemap.rs on it, as often as they like.
use syncstate.Prelude.{
  ℕ, ◌+◌, ◌<◌, ◌≤◌, u64_mod, arith, ◌≡◌, ◌∙◌, sym, some, List, [], ◌∷◌, length, Outcome, String,
  Bool-cases, inl, inr, subst,
}
use syncstate.HashMap.{contains_key}
use syncstate.Event.{Event}
use syncstate.Traits.{StateMapKey}
use syncstate.StateMap.Defs.{Hash}
use syncstate.StateMap.History.{IsMaster}
use syncstate.StateMap.Modify.{set, insert_existing, record_change}
use syncstate.StateMap.Modify.Master.{set_lem, set_missing}
use syncstate.Tcp.Hooks.{Mutex, ServerMap}
use syncstate.Tcp.Server.Safe.{IsStored, Keep, KeepInit}

module _ {K T : Type 0} ⦃key : StateMapKey K⦄ where
  set-hash : (k : K) (v : T) (s : ServerMap K T) → (set k v s).1.hash ≡ s.hash
  unfolding set insert_existing record_change
  set-hash k v s = ground arith

  -- The map after some calls of `set`, each of which may fail.
  unfoldable pub written : List (K × T) → ServerMap K T → ServerMap K T
  written [] s = s
  written ((k, v) ∷ l) s = written l (set k v s).1

  set-IsMaster :
      (hash : Hash) (b : ℕ) (k : K) (v : T) (s : ServerMap K T)
      → b + 1 < u64_mod
      → IsMaster s × (s.hash ≡ some hash) × (s.update_id ≤ b)
      → IsMaster (set k v s).1
        × ((set k v s).1.hash ≡ some hash)
        × ((set k v s).1.update_id ≤ b + 1)
  set-IsMaster hash b k v s fits (is_master, named, low) =
      elim (Bool-cases (contains_key key.eq_dec k s.contents)) [
        | inl here ↦
            let (done, still, next, reads, past) = set_lem k v s is_master here (omega arith) in
            (still, set-hash k v s ∙ named, omega arith)
        | inr missing ↦
            subst (λ t. IsMaster t × (t.hash ≡ some hash) × (t.update_id ≤ b + 1))
              (sym (set_missing k v s missing)) (is_master, named, omega arith)
      ]

  written-IsMaster :
      (hash : Hash) (b : ℕ) (l : List (K × T)) (s : ServerMap K T)
      → b + length l < u64_mod
      → IsMaster s × (s.hash ≡ some hash) × (s.update_id ≤ b)
      → IsMaster (written l s)
        × ((written l s).hash ≡ some hash)
        × ((written l s).update_id ≤ b + length l)
  unfolding written
  written-IsMaster hash b [] s fits (is_master, named, low) = (is_master, named, omega arith)
  written-IsMaster hash b ((k, v) ∷ l) s fits h =
      let (is_master, named, low) =
        written-IsMaster hash (b + 1) l (set k v s).1 (omega arith)
          (set-IsMaster hash b k v s (omega arith) h) in
      (is_master, named, omega arith)

  written-IsStored :
      (hash : Hash) (k b : ℕ) (l : List (K × T)) (m : Mutex (ServerMap K T))
      → length l ≤ k
      → IsStored hash b m
      → b + k < u64_mod
      → IsStored hash (b + k) (record m { inner = written l m.inner })
  written-IsStored hash k b l m few h fits clear =
      let (is_master, named, low) = written-IsMaster hash b l m.inner (omega arith) (h clear) in
      (is_master, named, omega arith)

  -- An init hook that makes at most `k` calls of `set`, with keys and values that it takes from the
  -- map, leaves a stored map a stored map and raises its update id by at most `k`. What it returns
  -- does not matter.
  pub written-KeepInit :
      (k : ℕ) (writes : ServerMap K T → List (K × T))
      (result : ServerMap K T → Outcome String (Unit {0}))
      → ((s : ServerMap K T) → length (writes s) ≤ k)
      → KeepInit k k (
          record {
            process_init =
                λ m. (result m.inner, record m { inner = written (writes m.inner) m.inner });
          }
          ∷ [])
  written-KeepInit k writes result few =
      (λ hash b m. written-IsStored hash k b (writes m.inner) m (few m.inner), omega arith, tt)

module _ {K T E : Type 0} ⦃key : StateMapKey K⦄ where
  -- A hook makes at most `k` calls of `set`, one after the other, with keys and values that it
  -- takes from the event and from the map; whatever it returns, and whether the calls fail or not,
  -- it leaves a master that stands under its own hash, in a mutex that is not poisoned, such a
  -- master, and raises its update id by at most `k`, if the id stays below 2 ^ 64.
  pub written-Keep :
      (k : ℕ) (writes : ServerMap K T → Event E → List (K × T))
      (result : ServerMap K T → Event E → Outcome String (Unit {0}))
      → ((s : ServerMap K T) (evt : Event E) → length (writes s evt) ≤ k)
      → Keep k (
          record {
            process_event = λ m evt.
                (result m.inner evt, record m { inner = written (writes m.inner evt) m.inner });
          }
          ∷ [])
  written-Keep k writes result few =
      (λ hash b m evt. written-IsStored hash k b (writes m.inner evt) m (few m.inner evt), tt)
