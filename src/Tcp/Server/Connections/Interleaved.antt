-- ===== src/Tcp/Server/Connections/Interleaved.antt =====
-- Connections that are served at the same time, and the steps of `Tcp.Server.Steps`.
use syncstate.Prelude.{
  ℕ, suc, ◌≡◌, refl, ap, sym, ◌∙◌, List, [], ◌∷◌, ◌++◌, append-nil, append_assoc, Outcome, ok, err,
  panic, inl, inr, ◌⊎◌, subst, if◌then◌else◌, ite, Bool, true, false,
}
use syncstate.HashMap.{IterOrder}
use syncstate.Traits.{StateMapKey, StateMapValue}
use syncstate.Bincode.{Codec}
use syncstate.StateMap.Freeze.{Sha256}
use syncstate.Tcp.Hooks.{Mutex}
use syncstate.Tcp.Messages.{
  TcpStateServerRequestWrapper, TcpStateServerResponse, incorrect_password,
}
use syncstate.Tcp.Server.{TcpStateServer, TcpStateServerError, Task, hash_discrete}
use syncstate.Tcp.Server.Init.{PendingInit, finish_init}
use syncstate.Tcp.Server.Requests.{start_request}
use syncstate.Tcp.Server.Steps.{System, Reachable, begun_inits}
use syncstate.Tcp.Server.Preserved.{IsPreserved, Reachable-IsPreserved}
use syncstate.Tcp.Server.Stream.{TlsStream, read_stream, write_response}
use syncstate.Tcp.Server.Connections.{
  Phase, spawned, reading, refusing, asking, initialising, answering, returned, Connection,
  connection, begun, compare_password, write_answer, step, advance, Listening, Serves, idle, accept,
  turn, hook_runs,
}

module _ {K T : Type 0} where
  abbrev pub phase_inits : Phase K T → List (PendingInit K T)
  phase_inits (initialising pending) = pending ∷ []
  phase_inits _ = []

  begun-phase_inits :
      (x : Outcome TcpStateServerError TcpStateServerResponse ⊎ PendingInit K T)
      → phase_inits (begun x) ≡ begun_inits x
  begun-phase_inits (inl answer) = refl
  begun-phase_inits (inr pending) = refl

  compare_password-phase_inits :
      (password : List ℕ) (req : Outcome TcpStateServerError TcpStateServerRequestWrapper)
      → phase_inits (compare_password {K = K} {T = T} password req) ≡ []
  unfolding compare_password
  compare_password-phase_inits password (ok req) =
      elim (hash_discrete password req.password)
        as (λ d. phase_inits (ite d (asking req.event) refusing) ≡ []) [
          | yes e ↦ refl
          | no n ↦ refl
        ]
  compare_password-phase_inits password (err e) = refl
  compare_password-phase_inits password panic = refl

  if-phase_inits :
      (b : Bool) (x : Outcome TcpStateServerError TcpStateServerResponse) (password : List ℕ)
      → phase_inits (if b then returned x else reading password) ≡ []
  if-phase_inits true x password = refl
  if-phase_inits false x password = refl

module _ {K T W : Type 0} where
  -- The `Init`s that are under way.
  abbrev pub pendings : List (Connection K T W) → List (PendingInit K T)
  pendings [] = []
  pendings (c ∷ cs) = phase_inits c.phase ++ pendings cs

  pendings-append :
      (cs ds : List (Connection K T W)) → pendings (cs ++ ds) ≡ pendings cs ++ pendings ds
  pendings-append [] ds = refl
  pendings-append (c ∷ cs) ds =
      ap (λ l. phase_inits c.phase ++ l) (pendings-append cs ds)
      ∙ sym (append_assoc (phase_inits c.phase) (pendings cs) (pendings ds))

  -- A listening server as a system of `Tcp.Server.Steps`.
  abbrev pub system : {E : Type 0} → Listening K T E W → System K T E
  system ν = record { server = ν.server; tasks = ν.tasks; inits = pendings ν.connections }

-- A step that neither begins nor ends an `Init` and spawns no thread.
quiet_turn :
    {K T E : Type 0} (P : System K T E → Type 0) (server : Mutex (TcpStateServer K T E))
    (tasks : List (Task K T E)) (inits : List (PendingInit K T)) (phase : Phase K T)
    → phase_inits phase ≡ []
    → P (record { server = server; tasks = tasks; inits = inits })
    → P (record { server = server; tasks = tasks ++ []; inits = inits ++ phase_inits phase })
quiet_turn P server tasks inits phase none path = rw (none, append-nil tasks, append-nil inits) path

module _ {K T E W : Type 0} ⦃key : StateMapKey K⦄ ⦃value : StateMapValue T⦄ ⦃sha : Sha256⦄
    ⦃order : IterOrder K T key.eq_dec⦄ ⦃entries : Codec (List (K × T))⦄ ⦃events : Codec E⦄
    ⦃requests : Codec TcpStateServerRequestWrapper⦄ ⦃responses : Codec TcpStateServerResponse⦄ where
  step-IsPreserved :
      (P : ℕ → System K T E → Type 0)
      → IsPreserved P
      → (n : ℕ) (phase : Phase K T) (stream : TlsStream W) (w : W)
        (server : Mutex (TcpStateServer K T E)) (tasks : List (Task K T E))
        (before after : List (PendingInit K T))
      → P n (record {
        server = server;
        tasks = tasks;
        inits = before ++ (phase_inits phase ++ after);
      })
      → P n (record {
        server = (step phase stream w server).1;
        tasks = tasks ++ (step phase stream w server).2;
        inits = (before ++ after) ++ phase_inits (step phase stream w server).0.phase;
      })
  unfolding step
  step-IsPreserved P kept n spawned stream w server tasks before after path =
      quiet_turn (P n) server tasks (before ++ after) _ (if-phase_inits server.poisoned _ _) path
  step-IsPreserved P kept n (reading password) stream w server tasks before after path =
      quiet_turn (P n) server tasks (before ++ after)
        (compare_password password (read_stream stream w).0)
        (compare_password-phase_inits password (read_stream stream w).0) path
  step-IsPreserved P kept n refusing stream w server tasks before after path =
      quiet_turn (P n) server tasks (before ++ after)
        (returned (write_response stream incorrect_password w).0) refl path
  step-IsPreserved P kept n (asking request) stream w server tasks before after path =
      subst
        (λ l. P n (record {
          server = (start_request request server).1;
          tasks = tasks ++ (start_request request server).2;
          inits = (before ++ after) ++ l;
        }))
        (sym (begun-phase_inits (start_request request server).0)) (kept.serves n _ request path)
  step-IsPreserved P kept n (initialising pending) stream w server tasks before after path =
      quiet_turn (P n) (finish_init pending server).1 tasks (before ++ after)
        (answering (finish_init pending server).0) refl
        (kept.finishes n server tasks before pending after path)
  step-IsPreserved P kept n (answering answer) stream w server tasks before after path =
      quiet_turn (P n) server tasks (before ++ after) (returned (write_answer stream answer w).0)
        refl path
  step-IsPreserved P kept n (returned result) stream w server tasks before after path =
      quiet_turn (P n) server tasks (before ++ after) (returned result) refl path

  -- How many hooks were run while connections were served.
  abbrev pub hooks_run :
      (Accepts : TlsStream W → Type 0) (ν ν' : Listening K T E W) → Serves Accepts ν ν' → ℕ
  hooks_run Accepts ν _ idle = 0
  hooks_run Accepts ν _ (accept ν' stream w accepted run) = hooks_run Accepts ν ν' run
  hooks_run Accepts ν _ (turn server tasks before c after run) = hooks_run Accepts ν _ run
  hooks_run Accepts ν _ (hook_runs server connections before task after run) =
      suc (hooks_run Accepts ν _ run)

  -- A predicate that every step of a system preserves holds of the system of a listening server, as
  -- long as it held at first.
  pub Serves-IsPreserved :
      (P : ℕ → System K T E → Type 0)
      → IsPreserved P
      → (Accepts : TlsStream W → Type 0) (ν ν' : Listening K T E W) → P 0 (system ν)
      → (run : Serves Accepts ν ν') → P (hooks_run Accepts ν ν' run) (system ν')
  unfolding advance step
  Serves-IsPreserved P kept Accepts ν _ path idle = path
  Serves-IsPreserved P kept Accepts ν _ path (accept ν' stream w accepted run) =
      subst
        (λ l.
          P (hooks_run Accepts ν ν' run)
            (record { server = ν'.server; tasks = ν'.tasks; inits = l }))
        (sym (
          pendings-append ν'.connections (connection stream w ∷ [])
          ∙ append-nil (pendings ν'.connections)))
        (Serves-IsPreserved P kept Accepts ν ν' path run)
  Serves-IsPreserved P kept Accepts ν _ path (turn server tasks before c after run) =
      let n = hooks_run Accepts ν _ run in
      let (c', server', more) = advance c server in
      let now : pendings ((before ++ after) ++ c' ∷ [])
          ≡ (pendings before ++ pendings after) ++ phase_inits c'.phase =
        pendings-append (before ++ after) (c' ∷ [])
        ∙ ap (λ l. l ++ (phase_inits c'.phase ++ [])) (pendings-append before after)
        ∙ ap (λ l. (pendings before ++ pendings after) ++ l) (append-nil (phase_inits c'.phase)) in
      subst (λ l. P n (record { server = server'; tasks = tasks ++ more; inits = l })) (sym now)
        (step-IsPreserved P kept n c.phase c.stream c.world server tasks (pendings before)
          (pendings after)
          (subst (λ l. P n (record { server = server; tasks = tasks; inits = l }))
            (pendings-append before (c ∷ after)) (Serves-IsPreserved P kept Accepts ν _ path run)))
  Serves-IsPreserved P kept Accepts ν _ path (hook_runs server connections before task after run) =
      kept.hooks (hooks_run Accepts ν _ run) server (pendings connections) before task after
        (Serves-IsPreserved P kept Accepts ν _ path run)

  -- A listening server that is, taken as a system of `Tcp.Server.Steps`, reachable from `σ` serves
  -- connections. Whatever connects, and in whatever order the threads of the connections and of the
  -- hooks take their steps, what it becomes is again reachable from `σ`, so that whatever holds of
  -- every reachable system holds of it.
  pub Serves-Reachable :
      (Accepts : TlsStream W → Type 0) (σ : System K T E) (ν ν' : Listening K T E W)
      → Reachable σ (system ν)
      → Serves Accepts ν ν'
      → Reachable σ (system ν')
  Serves-Reachable Accepts σ ν ν' path run =
      Serves-IsPreserved (λ n. Reachable σ) (Reachable-IsPreserved σ) Accepts ν ν' path run
