-- ===== src/Tcp/Loopback/Prepared.antt =====
-- A client that is ready to be frozen, and the entries that it sends.
use syncstate.Prelude.{
  sym, map_err, ◌>>=◌, ok_inj, some, ℕ, ◌≡◌, refl, ap, ◌∙◌, List, [], ok, lookup, or_else-none,
}
use syncstate.HashMap.{
  IterOrder, Distinct, extend, extend-Distinct, lookup-extend, lookup-extend-iter, last_write,
  last_write_of_Distinct,
}
use syncstate.Traits.{StateMapKey, StateMapValue}
use syncstate.Bincode.{Codec}
use syncstate.StateMap.Defs.{Remote, from_dyn_error, StateMap, Hash, new, is_frozen, into_iter}
use syncstate.StateMap.Build.{push_all_lem, IsFresh, new-IsFresh, push_all, push_all-eq}
use syncstate.StateMap.Freeze.{freeze, Sha256, calculate_hash}
use syncstate.StateMap.Freeze.Laws.{freeze-opened, opened}
use syncstate.StateMap.Freeze.HashLaws.{calculate_hash-push_all}
use syncstate.StateMap.Sync.{SameContents}
use syncstate.Tcp.Server.InitLaws.{Describes}
use syncstate.Tcp.Remote.{TcpStateRemote}

module _ {K T : Type 0} ⦃key : StateMapKey K⦄ ⦃order : IterOrder K T key.eq_dec⦄ where
  -- The entries that a client sends.
  abbrev pub sent_entries : StateMap K T TcpStateRemote → List (K × T)
  sent_entries c = order.iter (extend key.eq_dec [] (into_iter c))

module _ {K T : Type 0} ⦃key : StateMapKey K⦄ where
  -- A map to which the entries were pushed.
  abbrev pub pushed : TcpStateRemote → List (K × T) → StateMap K T TcpStateRemote
  pushed r l = (push_all l (new r)).1

  -- A map that is frozen under a digest, at update id 0, with the entries.
  pub record IsFrozenAt (r : TcpStateRemote) (l : List (K × T)) (h : Hash)
      (s : StateMap K T TcpStateRemote) : Type 0 where
    pub hashed : s.hash ≡ some h
    pub starts : s.update_id ≡ 0
    pub contents : SameContents s.contents l
    pub remote : s.remote ≡ r

module _ {K T : Type 0} ⦃key : StateMapKey K⦄ ⦃value : StateMapValue T⦄ ⦃sha : Sha256⦄
    ⦃order : IterOrder K T key.eq_dec⦄ where
  pub record IsPrepared (r : TcpStateRemote) (l : List (K × T)) (h : Hash)
      (s : StateMap K T TcpStateRemote) : Type 0 where
    pub fresh : IsFresh s
    pub contents : SameContents s.contents l
    pub digest : (calculate_hash s).0 ≡ ok h
    pub remote : s.remote ≡ r

  pub pushed-IsPrepared :
      (r : TcpStateRemote) (l : List (K × T)) (h : Hash)
      → Distinct key.eq_dec l
      → (calculate_hash (pushed r l)).0 ≡ ok h
      → IsPrepared r l h (pushed r l)
  unfolding new is_frozen lookup
  pushed-IsPrepared r l h d digests = record {
    fresh = (push_all_lem l (new r) (new-IsFresh r)).1;
    contents = λ q.
        ap (λ x. lookup key.eq_dec q x.1.contents) (push_all-eq l (new r) refl)
        ∙ lookup-extend key.eq_dec q [] l
        ∙ or_else-none (last_write key.eq_dec q l)
        ∙ last_write_of_Distinct key.eq_dec q l d;
    digest = digests;
    remote = ap (λ x. x.1.remote) (push_all-eq l (new r) refl);
  }

  -- A client whose remote is content with `init`.
  pub freeze-pushed :
      {W : Type 0} (remotes : Remote K T TcpStateRemote W) (r : TcpStateRemote) (l : List (K × T))
      (h : Hash) (w w' : W)
      → Distinct key.eq_dec l
      → (calculate_hash (pushed r l)).0 ≡ ok h
      → ((c : StateMap K T TcpStateRemote)
          → c.hash ≡ some h
          → c.contents ≡ (pushed r l).contents
          → remotes.init r c w ≡ (ok tt, w'))
      → ((freeze remotes (pushed r l) w).0 ≡ ok tt)
        × IsFrozenAt r l h (freeze remotes (pushed r l) w).1
        × ((freeze remotes (pushed r l) w).2 ≡ w')
  unfolding calculate_hash
  freeze-pushed remotes r l h w w' d digests inits =
      let c = pushed r l in
      let ready = pushed-IsPrepared r l h d digests in
      let (bytes, e, shown) = freeze-opened remotes c w ready.fresh in
      let digest : sha.digest bytes ≡ h =
        ok_inj (sym (ap (λ b. b >>= λ x. ok (sha.digest x)) e) ∙ ready.digest) in
      let told =
        ap (λ x. remotes.init x (opened remotes c bytes) w) ready.remote
        ∙ inits (opened remotes c bytes) (ap some digest) refl in
      (
        ap (λ x. x.0) shown ∙ ap (λ x. map_err from_dyn_error x.0) told,
        record {
          hashed = ap (λ x. x.1.hash) shown ∙ ap some digest;
          starts = ap (λ x. x.1.update_id) shown ∙ ready.fresh.no_updates;
          contents = λ q. ap (λ x. lookup key.eq_dec q x.1.contents) shown ∙ ready.contents q;
          remote = ap (λ x. x.1.remote) shown ∙ ready.remote;
        },
        ap (λ x. x.2) shown ∙ ap (λ x. x.1) told,
      )

  -- The entries that are sent are those of the map.
  pub sent_entries-SameContents :
      (c : StateMap K T TcpStateRemote)
      → Distinct key.eq_dec c.contents
      → SameContents (sent_entries c) c.contents
  unfolding into_iter lookup
  sent_entries-SameContents c d q =
      order.lookup-iter q (extend key.eq_dec [] (into_iter c))
      ∙ lookup-extend-iter order q c.contents [] d
      ∙ or_else-none (lookup key.eq_dec q c.contents)

  -- What a client sends for a map that stands for the entries, as the server reads it.
  pub sent_entries-Describes :
      ⦃entries : Codec (List (K × T))⦄ (c : StateMap K T TcpStateRemote) (r : TcpStateRemote)
      (l : List (K × T)) (h : Hash) (init_data : List ℕ)
      → Distinct key.eq_dec c.contents
      → Distinct key.eq_dec l
      → SameContents c.contents l
      → (calculate_hash (push_all l (new r)).1).0 ≡ ok h
      → entries.encode (sent_entries c) ≡ ok init_data
      → Describes init_data (sent_entries c) r h
  sent_entries-Describes ⦃entries⦄ c r l h init_data distinct d same digests encoded =
      let sent = order.iter-Distinct _ (extend-Distinct key.eq_dec [] (into_iter c) tt) in
      record {
        decoded = entries.decode-encode (sent_entries c) init_data encoded;
        distinct = sent;
        digest =
            calculate_hash-push_all (sent_entries c) l r r sent d
              (λ q. sent_entries-SameContents c distinct q ∙ same q)
            ∙ digests;
      }
