-- ===== src/Tcp/Server/Connections/Answers.antt =====
-- What a thread answers to a request for a diff while other connections and hooks are served.
use syncstate.Prelude.{
  ℕ, ◌+◌, ◌*◌, u64_mod, arith, subst, ◌<◌, ◌≤◌, min, ◌≡◌, ap, ◌∙◌, false, some, List, [], ◌∷◌, ◌++◌,
  lookup, ok, inl, map_err, ◌>>=◌,
}
use syncstate.HashMap.{HashMap, IterOrder, extend}
use syncstate.Traits.{StateMapKey, StateMapValue}
use syncstate.Bincode.{Codec}
use syncstate.Diff
use syncstate.Diff.{Diff}
use syncstate.StateMap.Defs.{Hash}
use syncstate.StateMap.Freeze.{Sha256}
use syncstate.StateMap.GetDiff
use syncstate.StateMap.History.{snapshot}
use syncstate.StateMap.Sync.{SameContents, sync_lem}
use syncstate.Tcp.Hooks.{Mutex, Hook, InitHook, ServerMap, new_mutex}
use syncstate.Tcp.Messages.{TcpStateServerRequestWrapper, TcpStateServerResponse, get_diff, diff}
use syncstate.Tcp.Remote.{received_diff}
use syncstate.Tcp.Server.{
  TcpStateServer, Task, hash_discrete, handle_get_diff, answer_diff, encode_error, lock_and_diff,
}
use syncstate.Tcp.Server.Listening.{set_up}
use syncstate.Tcp.Server.Requests.{start_request, process_locked, poisons}
use syncstate.Tcp.Server.Safe.{Keep, KeepInit}
use syncstate.Tcp.Server.SafeSteps.{IsSafe, IsSafe-IsPreserved, start-IsSafe}
use syncstate.Tcp.Server.Stream.{TlsStream}
use syncstate.Tcp.Server.Connections.{
  asking, answering, Connection, step, advance, begun, Listening, Serves,
}
use syncstate.Tcp.Server.Connections.Interleaved.{system, hooks_run, Serves-IsPreserved}

-- The answer with a diff, the writes of which are encoded.
abbrev pub answer_with : {K T : Type 0} → Diff K T → List ℕ → TcpStateServerResponse
answer_with d bytes = diff d.from_update_id d.upto_update_id d.is_full bytes

module _ {K T E : Type 0} ⦃key : StateMapKey K⦄ ⦃value : StateMapValue T⦄ ⦃sha : Sha256⦄
    ⦃order : IterOrder K T key.eq_dec⦄ ⦃entries : Codec (List (K × T))⦄ ⦃events : Codec E⦄ where
  handle_get_diff-ok :
      (hash : Hash) (f u : ℕ) (serv : TcpStateServer K T E) (v : Mutex (ServerMap K T))
      (d : Diff K T) (bytes : List ℕ)
      → lookup hash_discrete hash serv.statemaps ≡ some v
      → v.poisoned ≡ false
      → GetDiff.get_diff f u v.inner ≡ ok d
      → entries.encode d.diff ≡ ok bytes
      → handle_get_diff hash f u serv ≡ (ok (answer_with d bytes), serv)
  unfolding handle_get_diff lock_and_diff answer_diff Diff.get_diff Diff.is_full_update
  handle_get_diff-ok hash f u serv v d bytes found clear has encoded =
      rw (found, handle_get_diff)
        (rw (clear, lock_and_diff)
          (ap (λ o. answer_diff hash v o serv) has
            ∙ ap
                (λ o. (
                  map_err encode_error o >>= λ b.
                      ok (diff d.from_update_id d.upto_update_id d.is_full b),
                  serv,
                ))
                encoded))

  start_request-get_diff :
      (hash : Hash) (f u : ℕ) (server : Mutex (TcpStateServer K T E)) (v : Mutex (ServerMap K T))
      (d : Diff K T) (bytes : List ℕ)
      → server.poisoned ≡ false
      → lookup hash_discrete hash server.inner.statemaps ≡ some v
      → v.poisoned ≡ false
      → GetDiff.get_diff f u v.inner ≡ ok d
      → entries.encode d.diff ≡ ok bytes
      → start_request (get_diff hash f u) server ≡ (inl (ok (answer_with d bytes)), server, [])
  unfolding start_request process_locked poisons new_mutex
  start_request-get_diff hash f u server v d bytes open_lock found clear has encoded =
      rw (open_lock, start_request)
        (ap (λ x. (inl x.0, poisons x.0 x.1, []))
          (handle_get_diff-ok hash f u server.inner v d bytes found clear has encoded))

module _ {K T E W : Type 0} ⦃key : StateMapKey K⦄ ⦃value : StateMapValue T⦄ ⦃sha : Sha256⦄
    ⦃order : IterOrder K T key.eq_dec⦄ ⦃entries : Codec (List (K × T))⦄ ⦃events : Codec E⦄
    ⦃requests : Codec TcpStateServerRequestWrapper⦄ ⦃responses : Codec TcpStateServerResponse⦄ where
  step-get_diff :
      (c : Connection K T W) (hash : Hash) (f u : ℕ) (server : Mutex (TcpStateServer K T E))
      (answer : TcpStateServerResponse)
      → c.phase ≡ asking (get_diff hash f u)
      → start_request (get_diff hash f u) server ≡ (inl (ok answer), server, [])
      → advance c server ≡ (record c { phase = answering (ok answer) }, server, [])
  unfolding advance step
  step-get_diff c hash f u server answer asked answered =
      ap (λ phase. step phase c.stream c.world server) asked
      ∙ ap (λ x. (record { stream = c.stream; world = c.world; phase = begun x.0 }, x.1, x.2))
          answered

  -- What a client that holds `m` as of the update id `f` gets from a thread that it asked for the
  -- changes up to `u` of a stored map `v`.
  pub record IsAnswered (c : Connection K T W) (server : Mutex (TcpStateServer K T E))
      (v : ServerMap K T) (m : HashMap K T) (f u : ℕ) : Type 0 where
    pub sent : Diff K T
    pub answer : TcpStateServerResponse
    pub answers : advance c server ≡ (record c { phase = answering (ok answer) }, server, [])
    pub received : received_diff answer ≡ ok sent
    pub starts : sent.from_update_id ≤ f
    pub ends : sent.upto_update_id ≡ min u v.update_id
    pub effect : SameContents (extend key.eq_dec m sent.diff) (snapshot v (min u v.update_id))

  -- A server is set up with hooks each of which, run on a master that stands under its own hash,
  -- leaves it such a map and raises its update id by at most `k`, as long as that stays below 2 ^
  -- 64, and does not clear the poison of a mutex; so does each hook that runs in an `Init`, and
  -- these together raise it by at most `a`. It serves connections, whatever is sent on them and in
  -- whatever order all threads take their steps, with so few hook runs that `a` and `k` for each of
  -- them stay below 2 ^ 64. Every list of entries can be encoded. A thread that is about to process
  -- a request for the changes of a stored map from `f` to a later `u`, with `f` not past the map's
  -- update id and neither mutex poisoned, answers it and leaves the server as it is. The client
  -- reads from the answer a diff that starts at `f` or before, ends at `u` or at the update id that
  -- the map has at that moment if that is smaller, and brings contents that agree with the map at
  -- `f` to agree with it at that id.
  pub get_diff-IsAnswered :
      (hooks : List (Hook K T E)) (init_hooks : List (InitHook K T)) (password : List ℕ)
      (Accepts : TlsStream W → Type 0) (server : Mutex (TcpStateServer K T E))
      (tasks : List (Task K T E)) (before : List (Connection K T W)) (c : Connection K T W)
      (after : List (Connection K T W)) (hash : Hash) (f u : ℕ) (v : Mutex (ServerMap K T))
      (m : HashMap K T) (k a : ℕ)
      → Keep k hooks
      → KeepInit k a init_hooks
      → (run : Serves Accepts
          (record {
            server = new_mutex (set_up hooks init_hooks password);
            tasks = [];
            connections = [];
          })
          (record { server = server; tasks = tasks; connections = before ++ c ∷ after }))
      → a + hooks_run Accepts _ _ run * k < u64_mod
      → c.phase ≡ asking (get_diff hash f u)
      → server.poisoned ≡ false
      → lookup hash_discrete hash server.inner.statemaps ≡ some v
      → v.poisoned ≡ false
      → f ≤ v.inner.update_id
      → f < u
      → SameContents m (snapshot v.inner f)
      → ((l : List (K × T)) → (bytes : List ℕ) × (entries.encode l ≡ ok bytes))
      → IsAnswered c server v.inner m f u
  unfolding received_diff Diff.new
  get_diff-IsAnswered hooks init_hooks password Accepts server tasks before c after hash f u v m k a
        keep keep_init run few asked open_lock found clear behind ahead same encodes =
      let first : Listening K T E W = record {
        server = new_mutex (set_up hooks init_hooks password);
        tasks = [];
        connections = [];
      } in
      let now : Listening K T E W = record {
        server = server;
        tasks = tasks;
        connections = before ++ c ∷ after;
      } in
      let safe =
        Serves-IsPreserved (λ n σ. a + n * k < u64_mod → IsSafe k a (a + n * k) σ)
          (IsSafe-IsPreserved k a a) Accepts first now
          (λ small.
            subst (λ top. IsSafe k a top (system first)) (omega arith)
              (start-IsSafe k a hooks init_hooks password keep keep_init))
          run few in
      let master = (safe.safe.stored hash v found clear).0 in
      let (d, brings) = sync_lem v.inner master m f u behind ahead same in
      let (bytes, encoded) = encodes d.diff in
      record {
        sent = d;
        answer = answer_with d bytes;
        answers = step-get_diff c hash f u server (answer_with d bytes) asked (
            start_request-get_diff hash f u server v d bytes open_lock found clear brings.answered
              encoded);
        received =
            ap (λ o. o >>= λ l. ok (Diff.new l d.is_full d.from_update_id d.upto_update_id))
              (entries.decode-encode d.diff bytes encoded);
        starts = brings.starts;
        ends = brings.ends;
        effect = brings.effect;
      }
