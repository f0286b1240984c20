-- ===== src/Tcp/Server/HookLoop.antt =====
-- The loop over the hooks in the thread that `Event` of src/tcp/server.rs spawns, as a whole.
use syncstate.Prelude.{
  ℕ, zero, suc, ◌≡◌, ◌≢◌, refl, ap, sym, ◌∙◌, some, List, [], ◌∷◌, ◌++◌, Outcome, ok, err, panic,
  String, length, lookup, subst, append-nil,
}
use syncstate.Event.{Event}
use syncstate.HashMap.{insert, lookup-insert_self, lookup-insert_ne}
use syncstate.StateMap.Defs.{Hash}
use syncstate.Tcp.Hooks.{Mutex, Hook, ServerMap}
use syncstate.Tcp.Server.{TcpStateServer, Task, hash_discrete}
use syncstate.Tcp.Server.Steps.{run_hook, run_on, hooks_left}

module _ {K T E : Type 0} where
  abbrev pub thread : Hash → Event E → List (Hook K T E) → Task K T E
  thread hash evt hooks = record { statemap = hash; event = evt; hooks = hooks }

  -- Some steps of a thread, with no other thread between them.
  unfoldable pub thread_steps :
      ℕ → List (Task K T E) → TcpStateServer K T E → TcpStateServer K T E × List (Task K T E)
  thread_steps zero tasks serv = (serv, tasks)
  thread_steps (suc n) [] serv = (serv, [])
  thread_steps (suc n) (task ∷ tasks) serv =
      let (serv', next) = run_hook task serv in thread_steps n next serv'

  -- What hooks do to a map one after the other, whatever they return.
  unfoldable pub hooked :
      List (Hook K T E) → Event E → Mutex (ServerMap K T) → Mutex (ServerMap K T)
  hooked [] evt m = m
  hooked (hook ∷ hooks) evt m = hooked hooks evt (hook.process_event m evt).1

  -- None of the hooks panics on the map that the ones before it leave.
  abbrev pub NoPanic : List (Hook K T E) → Event E → Mutex (ServerMap K T) → Type 0
  NoPanic [] evt m = Unit
  NoPanic (hook ∷ hooks) evt m =
      ((hook.process_event m evt).0 ≢ panic) × NoPanic hooks evt (hook.process_event m evt).1

  run_hook-next :
      (hash : Hash) (evt : Event E) (hook : Hook K T E) (hooks : List (Hook K T E))
      (m : Mutex (ServerMap K T)) (serv : TcpStateServer K T E)
      → lookup hash_discrete hash serv.statemaps ≡ some m
      → run_hook (thread hash evt (hook ∷ hooks)) serv ≡ (
        record serv {
          statemaps = insert hash_discrete hash (hook.process_event m evt).1 serv.statemaps;
        },
        hooks_left (hook.process_event m evt).0 hash evt hooks,
      )
  unfolding run_hook run_on
  run_hook-next hash evt hook hooks m serv found =
      ap (λ o. run_on (thread hash evt (hook ∷ hooks)) (hook ∷ hooks) o serv) found

  hooks_left-calm :
      (result : Outcome String (Unit {0})) (hash : Hash) (evt : Event E) (hooks : List (Hook K T E))
      → result ≢ panic
      → hooks_left result hash evt hooks ≡ thread hash evt hooks ∷ []
  unfolding hooks_left
  hooks_left-calm (ok a) hash evt hooks calm = refl
  hooks_left-calm (err e) hash evt hooks calm = refl
  hooks_left-calm panic hash evt hooks calm = absurd (calm refl)

  -- What a thread has left before it, with the map that it works on, and all other maps as they were.
  pub record IsAt (hash : Hash) (tasks : List (Task K T E)) (m : Mutex (ServerMap K T))
      (serv : TcpStateServer K T E) (r : TcpStateServer K T E × List (Task K T E)) : Type 0 where
    pub left : r.1 ≡ tasks
    pub stored : lookup hash_discrete hash r.0.statemaps ≡ some m
    pub others :
        (other : Hash)
        → other ≢ hash
        → lookup hash_discrete other r.0.statemaps ≡ lookup hash_discrete other serv.statemaps

  thread_steps-IsAt :
      (hash : Hash) (evt : Event E) (before after : List (Hook K T E)) (m : Mutex (ServerMap K T))
      (serv : TcpStateServer K T E)
      → lookup hash_discrete hash serv.statemaps ≡ some m
      → NoPanic before evt m
      → IsAt hash
          (thread hash evt after ∷ [])
          (hooked before evt m)
          serv
          (thread_steps (length before) (thread hash evt (before ++ after) ∷ []) serv)
  unfolding thread_steps hooked
  thread_steps-IsAt hash evt [] after m serv found calm = record {
    left = refl;
    stored = found;
    others = λ other differs. refl;
  }
  thread_steps-IsAt hash evt (hook ∷ before) after m serv found (calm, calm') =
      let m' = (hook.process_event m evt).1 in
      let serv' : TcpStateServer K T E = record serv {
        statemaps = insert hash_discrete hash m' serv.statemaps;
      } in
      let next : run_hook (thread hash evt (hook ∷ (before ++ after))) serv
          ≡ (serv', thread hash evt (before ++ after) ∷ []) =
        run_hook-next hash evt hook (before ++ after) m serv found
        ∙ ap (λ l. (serv', l)) (hooks_left-calm (hook.process_event m evt).0 hash evt _ calm) in
      let rest =
        thread_steps-IsAt hash evt before after m' serv'
          (lookup-insert_self hash_discrete hash m' serv.statemaps) calm' in
      subst
        (λ r.
          IsAt hash (thread hash evt after ∷ []) (hooked before evt m') serv
            (thread_steps (length before) r.1 r.0))
        (sym next)
        (record {
          left = rest.left;
          stored = rest.stored;
          others = λ other differs.
              rest.others other differs
              ∙ lookup-insert_ne hash_discrete other hash m' serv.statemaps differs;
        })

  thread_steps-suc :
      (n : ℕ) (tasks : List (Task K T E)) (serv : TcpStateServer K T E)
      → thread_steps (suc n) tasks serv
        ≡ (let (serv', left) = thread_steps n tasks serv in thread_steps 1 left serv')
  unfolding thread_steps
  thread_steps-suc zero tasks serv = refl
  thread_steps-suc (suc n) [] serv = refl
  thread_steps-suc (suc n) (task ∷ tasks) serv =
      thread_steps-suc n (run_hook task serv).1 (run_hook task serv).0

  -- The last step of a thread.
  ended :
      (hash : Hash) (evt : Event E) (m : Mutex (ServerMap K T)) (serv : TcpStateServer K T E)
      (r : TcpStateServer K T E × List (Task K T E))
      → IsAt hash (thread hash evt [] ∷ []) m serv r
      → IsAt hash [] m serv (thread_steps 1 r.1 r.0)
  unfolding thread_steps run_hook run_on
  ended hash evt m serv r at =
      subst (λ l. IsAt hash [] m serv (thread_steps 1 l r.0)) (sym at.left)
        (record { left = refl; stored = at.stored; others = at.others })

  panicked :
      (hash : Hash) (evt : Event E) (hook : Hook K T E) (after : List (Hook K T E))
      (m : Mutex (ServerMap K T)) (serv : TcpStateServer K T E)
      (r : TcpStateServer K T E × List (Task K T E))
      → IsAt hash (thread hash evt (hook ∷ after) ∷ []) m serv r
      → (hook.process_event m evt).0 ≡ panic
      → IsAt hash [] (hook.process_event m evt).1 serv (thread_steps 1 r.1 r.0)
  unfolding thread_steps hooks_left
  panicked hash evt hook after m serv r at fails =
      let m' = (hook.process_event m evt).1 in
      let serv' : TcpStateServer K T E = record r.0 {
        statemaps = insert hash_discrete hash m' r.0.statemaps;
      } in
      let last : thread_steps 1 r.1 r.0 ≡ (serv', []) =
        ap (λ l. thread_steps 1 l r.0) at.left
        ∙ run_hook-next hash evt hook after m r.0 at.stored
        ∙ ap (λ o. (serv', hooks_left o hash evt after)) fails in
      subst (IsAt hash [] m' serv) (sym last) (record {
        left = refl;
        stored = lookup-insert_self hash_discrete hash m' r.0.statemaps;
        others = λ other differs.
            lookup-insert_ne hash_discrete other hash m' r.0.statemaps differs
            ∙ at.others other differs;
      })

  -- The thread for an event works on a map that the server has, and no hook panics. After as many
  -- steps as there are hooks, and one more, it has run all hooks in their order, each on the map that
  -- the ones before it left, also those after a hook that returned an error, and has ended. No other
  -- map has changed.
  pub thread_runs_hooks :
      (hash : Hash) (evt : Event E) (hooks : List (Hook K T E)) (m : Mutex (ServerMap K T))
      (serv : TcpStateServer K T E)
      → lookup hash_discrete hash serv.statemaps ≡ some m
      → NoPanic hooks evt m
      → IsAt hash []
          (hooked hooks evt m)
          serv
          (thread_steps (suc (length hooks)) (thread hash evt hooks ∷ []) serv)
  thread_runs_hooks hash evt hooks m serv found calm =
      subst (IsAt hash [] (hooked hooks evt m) serv)
        (sym (thread_steps-suc (length hooks) (thread hash evt hooks ∷ []) serv))
        (ended hash evt (hooked hooks evt m) serv _ (
          subst
            (λ l.
              IsAt hash (thread hash evt [] ∷ []) (hooked hooks evt m) serv
                (thread_steps (length hooks) (thread hash evt l ∷ []) serv))
            (append-nil hooks) (thread_steps-IsAt hash evt hooks [] m serv found calm)))

  -- The thread for an event works on a map that the server has. A hook panics, on the map that the
  -- hooks before it left, of which none panics. Then the thread ends with that hook: what the hook did
  -- to the map stays, also that its mutex is poisoned, and the hooks after it do not run. No other map
  -- has changed.
  pub panic_ends_thread :
      (hash : Hash) (evt : Event E) (before : List (Hook K T E)) (hook : Hook K T E)
      (after : List (Hook K T E)) (m : Mutex (ServerMap K T)) (serv : TcpStateServer K T E)
      → lookup hash_discrete hash serv.statemaps ≡ some m
      → NoPanic before evt m
      → (hook.process_event (hooked before evt m) evt).0 ≡ panic
      → IsAt hash []
          (hook.process_event (hooked before evt m) evt).1
          serv
          (thread_steps (suc (length before)) (thread hash evt (before ++ hook ∷ after) ∷ []) serv)
  panic_ends_thread hash evt before hook after m serv found calm fails =
      let here = hooked before evt m in
      subst (IsAt hash [] (hook.process_event here evt).1 serv)
        (sym
          (thread_steps-suc (length before) (thread hash evt (before ++ hook ∷ after) ∷ []) serv))
        (panicked hash evt hook after here serv _
          (thread_steps-IsAt hash evt before (hook ∷ after) m serv found calm) fails)
