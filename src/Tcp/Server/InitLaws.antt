-- ===== src/Tcp/Server/InitLaws.antt =====
-- What an `Init` that no other thread interrupts is answered, and what it leaves of the server.
use syncstate.Prelude.{
  ℕ, ◌≡◌, ◌≢◌, refl, ap, sym, ◌∙◌, some, none, List, [], lookup, ok, err, panic, inr, if_pos,
  if_neg, or_else-none, ok_inj, Outcome, String,
}
use syncstate.HashMap.{
  IterOrder, Distinct, insert, remove, extend, lookup-remove, extend-Distinct, lookup-extend,
  last_write_of_Distinct, last_write,
}
use syncstate.Bincode.{Codec}
use syncstate.Traits.{StateMapKey, StateMapValue}
use syncstate.StateMap.Defs.{Hash, new}
use syncstate.StateMap.Build.{push_all}
use syncstate.StateMap.Freeze.{Sha256, calculate_hash}
use syncstate.StateMap.Freeze.HashLaws.{calculate_hash-push_all}
use syncstate.StateMap.History.{IsMaster}
use syncstate.StateMap.Sync.{SameContents}
use syncstate.Tcp.Hooks.{Mutex, ServerMap, new_mutex}
use syncstate.Tcp.Messages.{get_diff, init, init_success, hash_not_found, hash_mismatch}
use syncstate.Tcp.Server.{TcpStateServer, hash_discrete}
use syncstate.Tcp.Server.Init.{
  PendingInit, begin_init, finish_init, after_build, after_hash, after_hooks, register,
  run_init_hooks, decode_and_build,
}
use syncstate.Tcp.Server.InitTaken.{taken, process_request-taken, process_request_unknown}
use syncstate.Tcp.Server.Rebuild.{build_lem, no_remote}
use syncstate.Tcp.Server.Requests.{
  start_request, process_locked, process_request, complete, init_begun,
}

module _ {K T : Type 0} ⦃key : StateMapKey K⦄ ⦃value : StateMapValue T⦄ ⦃sha : Sha256⦄
    ⦃order : IterOrder K T key.eq_dec⦄ ⦃entries : Codec (List (K × T))⦄ where
  -- The data of an `Init` lists each key once, and its entries have the digest.
  pub record Describes {R : Type 0} (init_data : List ℕ) (l : List (K × T)) (r : R) (d : Hash)
      : Type 0 where
    pub decoded : entries.decode init_data ≡ ok l
    pub distinct : Distinct key.eq_dec l
    pub digest : (calculate_hash (push_all l (new r)).1).0 ≡ ok d

  -- The map that stands for the entries.
  pub record IsRebuilt (l : List (K × T)) (d : Hash) (s : ServerMap K T) : Type 0 where
    pub is_master : IsMaster s
    pub starts : s.update_id ≡ 0
    pub contents : SameContents s.contents l
    pub hashed : s.hash ≡ some d

  decode_and_build_ok :
      {R : Type 0} (init_data : List ℕ) (l : List (K × T)) (r : R) (d : Hash)
      → Describes init_data l r d
      → (s : ServerMap K T) × (decode_and_build init_data ≡ ok s) × IsRebuilt l d s
  unfolding decode_and_build lookup
  decode_and_build_ok init_data l r d h =
      let raw = extend key.eq_dec [] l in
      let clean = extend-Distinct key.eq_dec [] l tt in
      let (s, built, b) = build_lem raw clean in
      let same : SameContents raw l = λ q.
        lookup-extend key.eq_dec q [] l
        ∙ or_else-none (last_write key.eq_dec q l)
        ∙ last_write_of_Distinct key.eq_dec q l h.distinct in
      let digests : b.digest ≡ d = ok_inj (
        sym b.hash_of
        ∙ calculate_hash-push_all (order.iter raw) l no_remote r (order.iter-Distinct raw clean)
            h.distinct (λ q. order.lookup-iter q raw ∙ same q)
        ∙ h.digest) in
      (
        s,
        rw h.decoded built,
        record {
          is_master = b.is_master;
          starts = b.starts;
          contents = λ q. b.contents q ∙ same q;
          hashed = b.hashed ∙ ap some digests;
        },
      )

module _ {K T E : Type 0} ⦃key : StateMapKey K⦄ ⦃value : StateMapValue T⦄ ⦃sha : Sha256⦄
    ⦃order : IterOrder K T key.eq_dec⦄ ⦃entries : Codec (List (K × T))⦄ ⦃events : Codec E⦄ where
  abbrev pub pending : Hash → List ℕ → TcpStateServer K T E → PendingInit K T
  pending hash init_data serv = record {
    hash = hash;
    init_data = init_data;
    init_hooks = serv.init_hooks;
  }

  pub start_request-init :
      (hash : Hash) (init_data : List ℕ) (serv : TcpStateServer K T E)
      → lookup hash_discrete hash serv.statemaps ≡ none
      → lookup hash_discrete hash serv.processed_hashes ≡ none
      → start_request (init hash init_data) (new_mutex serv)
        ≡ (inr (pending hash init_data serv), new_mutex (taken hash serv), [])
  unfolding start_request process_locked init_begun begin_init new_mutex
  start_request-init hash init_data serv p q = rw (begin_init, p) (rw q refl)

  after_build_match :
      (p : PendingInit K T) (s : ServerMap K T) (d : Hash) (server : Mutex (TcpStateServer K T E))
      → s.hash ≡ some d
      → d ≡ p.hash
      → after_build p (ok s) server
        ≡ after_hooks p.hash (run_init_hooks p.init_hooks (new_mutex s)) server
  unfolding after_build after_hash
  after_build_match p s d server h e =
      ap (λ o. after_hash p s o server) h ∙ if_pos (hash_discrete d p.hash) e _ _

  after_build_mismatch :
      (p : PendingInit K T) (s : ServerMap K T) (d : Hash) (server : Mutex (TcpStateServer K T E))
      → s.hash ≡ some d
      → d ≢ p.hash
      → after_build p (ok s) server ≡ (ok hash_mismatch, server)
  unfolding after_build after_hash
  after_build_mismatch p s d server h n =
      ap (λ o. after_hash p s o server) h ∙ if_neg (hash_discrete d p.hash) n _ _

  -- The server after an `Init` that succeeded.
  abbrev pub registered : Hash → Mutex (ServerMap K T) → TcpStateServer K T E → TcpStateServer K T E
  registered hash m serv = record serv {
    statemaps = insert hash_discrete hash m serv.statemaps;
    processed_hashes = remove hash_discrete hash (taken hash serv).processed_hashes;
  }

  after_hooks-registered :
      (hash : Hash) (r : Outcome String (Unit {0}) × Mutex (ServerMap K T))
      (serv : TcpStateServer K T E)
      → r.0 ≡ ok tt
      → after_hooks hash r (new_mutex (taken hash serv))
        ≡ (ok init_success, new_mutex (registered hash r.1 serv))
  unfolding after_hooks register new_mutex
  after_hooks-registered hash (ok a, m) serv h = refl
  after_hooks-registered hash (err e, m) serv h = absurd cc
  after_hooks-registered hash (panic, m) serv h = absurd cc

  after_build_of_init :
      (hash : Hash) (init_data : List ℕ) (serv : TcpStateServer K T E) (s : ServerMap K T)
      → lookup hash_discrete hash serv.statemaps ≡ none
      → lookup hash_discrete hash serv.processed_hashes ≡ none
      → decode_and_build init_data ≡ ok s
      → process_request (init hash init_data) (new_mutex serv) ≡ (
        (after_build (pending hash init_data serv) (ok s) (new_mutex (taken hash serv))).0,
        (after_build (pending hash init_data serv) (ok s) (new_mutex (taken hash serv))).1,
        [],
      )
  unfolding process_request complete finish_init
  after_build_of_init hash init_data serv s p q built =
      ap complete (start_request-init hash init_data serv p q) ∙ (λ i.
        let x = after_build (pending hash init_data serv) (built i) (new_mutex (taken hash serv)) in
        (x.0, x.1, []))

  -- An `Init` for a hash that the server does not know, whose data lists each key once and has that
  -- hash as its digest, builds a master with the listed contents at update id 0, under that hash. If
  -- no init hook fails, it answers `InitSuccess`, the map that the hooks leave is stored under the
  -- hash, and the hash is not marked as being processed any more.
  pub init-IsRebuilt :
      {R : Type 0} (hash : Hash) (init_data : List ℕ) (l : List (K × T)) (r : R)
      (serv : TcpStateServer K T E)
      → Describes init_data l r hash
      → lookup hash_discrete hash serv.statemaps ≡ none
      → lookup hash_discrete hash serv.processed_hashes ≡ none
      → ((m : Mutex (ServerMap K T)) → (run_init_hooks serv.init_hooks m).0 ≡ ok tt)
      → (s : ServerMap K T) × IsRebuilt l hash s
        × (process_request (init hash init_data) (new_mutex serv) ≡ (
          ok init_success,
          new_mutex (registered hash (run_init_hooks serv.init_hooks (new_mutex s)).1 serv),
          [],
        ))
        × (lookup hash_discrete hash
              (process_request (init hash init_data) (new_mutex serv)).1.inner.processed_hashes
            ≡ none)
  unfolding process_request complete finish_init
  init-IsRebuilt hash init_data l r serv h p q hooks =
      let (s, built, b) = decode_and_build_ok init_data l r hash h in
      let done =
        after_hooks-registered hash (run_init_hooks serv.init_hooks (new_mutex s)) serv
          (hooks (new_mutex s)) in
      let ready = new_mutex (taken hash serv) in
      let ran =
        after_build_of_init hash init_data serv s p q built
        ∙ ap (λ x. (x.0, x.1, []))
            (after_build_match (pending hash init_data serv) s hash ready b.hashed refl ∙ done) in
      (
        s,
        b,
        ran,
        ap (λ x. lookup hash_discrete hash x.1.inner.processed_hashes) ran
            ∙ lookup-remove hash_discrete hash hash (taken hash serv).processed_hashes
            ∙ if_pos (hash_discrete hash hash) refl _ _,
      )

  -- An `Init` whose data has another digest than its hash is answered with `HashMismatch`, but the
  -- hash stays marked as being processed: a second `Init` for it, also one with the right data, is
  -- answered with `InitSuccess` and no map is stored, so the changes it is then asked for are not
  -- found.
  pub init_mismatch :
      {R : Type 0} (hash d : Hash) (init_data retry_data : List ℕ) (l : List (K × T)) (r : R)
      (serv : TcpStateServer K T E)
      → Describes init_data l r d
      → d ≢ hash
      → lookup hash_discrete hash serv.statemaps ≡ none
      → lookup hash_discrete hash serv.processed_hashes ≡ none
      → (process_request (init hash init_data) (new_mutex serv)
          ≡ (ok hash_mismatch, new_mutex (taken hash serv), []))
        × (process_request (init hash retry_data) (new_mutex (taken hash serv))
            ≡ (ok init_success, new_mutex (taken hash serv), []))
        × ((f u : ℕ)
            → process_request (get_diff hash f u) (new_mutex (taken hash serv))
              ≡ (ok hash_not_found, new_mutex (taken hash serv), []))
  init_mismatch hash d init_data retry_data l r serv h n p q =
      let (s, built, b) = decode_and_build_ok init_data l r d h in
      let ready = new_mutex (taken hash serv) in
      (
        after_build_of_init hash init_data serv s p q built
            ∙ ap (λ x. (x.0, x.1, []))
                (after_build_mismatch (pending hash init_data serv) s d ready b.hashed n),
        process_request-taken hash retry_data serv p,
        λ f u. process_request_unknown hash f u (taken hash serv) p,
      )
