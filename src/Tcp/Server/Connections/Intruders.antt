-- ===== src/Tcp/Server/Connections/Intruders.antt =====
-- Connections without the password, served at the same time.
use syncstate.Prelude.{
  ℕ, ◌≡◌, ◌≢◌, refl, sym, List, [], ◌∷◌, ◌++◌, Outcome, ok, err, panic, if_intro, if_neg, subst,
}
use syncstate.HashMap.{IterOrder}
use syncstate.Traits.{StateMapKey, StateMapValue}
use syncstate.Bincode.{Codec}
use syncstate.StateMap.Freeze.{Sha256}
use syncstate.Tcp.Hooks.{Mutex}
use syncstate.Tcp.Messages.{TcpStateServerRequestWrapper, TcpStateServerResponse}
use syncstate.Tcp.Server.{TcpStateServer, TcpStateServerError, Task, hash_discrete}
use syncstate.Tcp.Server.Intruders.{IsIntruder}
use syncstate.Tcp.Server.SafeRequests.{Every, Every-append, Every-parts}
use syncstate.Tcp.Server.Stream.{TlsStream, read_stream}
use syncstate.Tcp.Server.Connections.{
  Phase, spawned, reading, refusing, asking, initialising, answering, returned, Connection,
  connection, compare_password, step, advance, Listening, Serves, idle, accept, turn, hook_runs,
}

module _ {K T : Type 0} where
  -- The phases of a thread whose request is not looked at.
  abbrev pub IsKeptOut : List ℕ → Phase K T → Type 0
  IsKeptOut password (reading copy) = copy ≡ password
  IsKeptOut password (asking request) = ⊥
  IsKeptOut password (initialising pending) = ⊥
  IsKeptOut password (answering answer) = ⊥
  IsKeptOut password _ = Unit

pub compare_password-IsKeptOut :
    (K T : Type 0) (password : List ℕ)
    (x : Outcome TcpStateServerError TcpStateServerRequestWrapper)
    → ((req : TcpStateServerRequestWrapper) → x ≡ ok req → password ≢ req.password)
    → IsKeptOut password (compare_password {K = K} {T = T} password x)
unfolding compare_password
compare_password-IsKeptOut K T password (ok req) wrong =
    subst (IsKeptOut {K = K} {T = T} password)
      (sym (if_neg (hash_discrete password req.password) (wrong req refl) _ _)) tt
compare_password-IsKeptOut K T password (err e) wrong = tt
compare_password-IsKeptOut K T password panic wrong = tt

not_empty :
    {A : Type 0} (before : List A) (a : A) (after : List A)
    → ◌≢◌ {A = List A} (before ++ a ∷ after) []
not_empty [] a after e = cc
not_empty (b ∷ before) a after e = cc

module _ {K T W : Type 0} ⦃requests : Codec TcpStateServerRequestWrapper⦄ where
  abbrev IsOutside : List ℕ → Connection K T W → Type 0
  IsOutside password c = IsIntruder password c.stream × IsKeptOut password c.phase

module _ {K T E W : Type 0} ⦃key : StateMapKey K⦄ ⦃value : StateMapValue T⦄ ⦃sha : Sha256⦄
    ⦃order : IterOrder K T key.eq_dec⦄ ⦃entries : Codec (List (K × T))⦄ ⦃events : Codec E⦄
    ⦃requests : Codec TcpStateServerRequestWrapper⦄ ⦃responses : Codec TcpStateServerResponse⦄ where
  -- A listening server that nobody got into.
  record IsUntouched (server : Mutex (TcpStateServer K T E)) (ν : Listening K T E W) : Type 0 where
    same : ν.server ≡ server
    idles : ν.tasks ≡ []
    outside : Every (IsOutside server.inner.password) ν.connections

  -- What a step of such a thread leaves.
  pub record IsTurnedAway (server : Mutex (TcpStateServer K T E))
      (x : Connection K T W × Mutex (TcpStateServer K T E) × List (Task K T E)) : Type 0 where
    pub same : x.1 ≡ server
    pub idles : x.2 ≡ []
    outside : IsOutside server.inner.password x.0

  pub step-IsTurnedAway :
      (phase : Phase K T) (stream : TlsStream W) (w : W) (server : Mutex (TcpStateServer K T E))
      → IsIntruder server.inner.password stream
      → IsKeptOut server.inner.password phase
      → IsTurnedAway server (step phase stream w server)
  unfolding step
  step-IsTurnedAway spawned stream w server out kept = record {
    same = refl;
    idles = refl;
    outside = (out, if_intro (IsKeptOut server.inner.password) server.poisoned _ _ tt refl);
  }
  step-IsTurnedAway (reading copy) stream w server out kept = record {
    same = refl;
    idles = refl;
    outside = (
      out,
      subst
          (λ p.
            IsKeptOut {K = K} {T = T} server.inner.password
              (compare_password p (read_stream stream w).0))
          (sym kept)
          (compare_password-IsKeptOut K T server.inner.password (read_stream stream w).0 (out w)),
    );
  }
  step-IsTurnedAway refusing stream w server out kept = record {
    same = refl;
    idles = refl;
    outside = (out, tt);
  }
  step-IsTurnedAway (asking request) stream w server out kept = absurd kept
  step-IsTurnedAway (initialising pending) stream w server out kept = absurd kept
  step-IsTurnedAway (answering answer) stream w server out kept = absurd kept
  step-IsTurnedAway (returned result) stream w server out kept = record {
    same = refl;
    idles = refl;
    outside = (out, tt);
  }

  -- A step of one of the threads.
  turn-IsUntouched :
      (first server : Mutex (TcpStateServer K T E)) (tasks : List (Task K T E))
      (before : List (Connection K T W)) (c : Connection K T W) (after : List (Connection K T W))
      → IsUntouched first
          (record { server = server; tasks = tasks; connections = before ++ c ∷ after })
      → IsUntouched first (record {
        server = (advance c server).1;
        tasks = tasks ++ (advance c server).2;
        connections = (before ++ after) ++ (advance c server).0 ∷ [];
      })
  unfolding advance
  turn-IsUntouched first server tasks before c after untouched =
      let P = IsOutside first.inner.password in
      let (first_ones, others) = Every-parts P before (c ∷ after) untouched.outside in
      let away : IsTurnedAway first (advance c first) =
        step-IsTurnedAway c.phase c.stream c.world first others.0.0 others.0.1 in
      let now : IsUntouched first (record {
        server = (advance c first).1;
        tasks = [] ++ (advance c first).2;
        connections = (before ++ after) ++ (advance c first).0 ∷ [];
      }) =
        record {
          same = away.same;
          idles = away.idles;
          outside =
              Every-append P (before ++ after) _ (Every-append P before after first_ones others.1)
                (away.outside, tt);
        } in
      subst
        (λ (s : Mutex (TcpStateServer K T E)). IsUntouched first (record {
          server = (advance c s).1;
          tasks = tasks ++ (advance c s).2;
          connections = (before ++ after) ++ (advance c s).0 ∷ [];
        }))
        (sym untouched.same)
        (subst
          (λ l. IsUntouched first (record {
            server = (advance c first).1;
            tasks = l ++ (advance c first).2;
            connections = (before ++ after) ++ (advance c first).0 ∷ [];
          }))
          (sym untouched.idles) now)

  Serves-IsUntouched :
      (server : Mutex (TcpStateServer K T E)) (ν ν' : Listening K T E W)
      → IsUntouched server ν
      → Serves (IsIntruder server.inner.password) ν ν'
      → IsUntouched server ν'
  Serves-IsUntouched server ν _ untouched idle = untouched
  Serves-IsUntouched server ν _ untouched (accept ν' stream w out run) =
      let so_far = Serves-IsUntouched server ν ν' untouched run in
      record {
        same = so_far.same;
        idles = so_far.idles;
        outside =
            Every-append (IsOutside server.inner.password) ν'.connections (connection stream w ∷ [])
              so_far.outside ((out, tt), tt);
      }
  Serves-IsUntouched server ν _ untouched (turn server' tasks before c after run) =
      turn-IsUntouched server server' tasks before c after
        (Serves-IsUntouched server ν _ untouched run)
  Serves-IsUntouched server ν _ untouched (hook_runs server' connections before task after run) =
      absurd (not_empty before task after (Serves-IsUntouched server ν _ untouched run).idles)

  -- However many connections are made on which no request with the server's password can be read,
  -- and in whatever order their threads take their steps, the server is left as it was, and no
  -- thread that runs hooks is spawned.
  Serves_intruders :
      (server : Mutex (TcpStateServer K T E)) (ν : Listening K T E W)
      → Serves
          (IsIntruder server.inner.password)
          (record { server = server; tasks = []; connections = [] })
          ν
      → (ν.server ≡ server) × (ν.tasks ≡ [])
  Serves_intruders server ν run =
      let untouched =
        Serves-IsUntouched server (record { server = server; tasks = []; connections = [] }) ν
          (record { same = refl; idles = refl; outside = tt }) run in
      (untouched.same, untouched.idles)
