-- ===== src/Tcp/Server/Rebuild.antt =====
-- The state map that a server builds from the data of an `Init`.
use syncstate.Prelude.{
  ℕ, ◌≡◌, refl, ap, sym, ◌∙◌, true, some, List, [], lookup, ok, map_err, ◌>>=◌, bind-ok, map_err-ok,
  ok_inj, or_else-none, subst,
}
use syncstate.HashMap.{HashMap, IterOrder, Distinct, extend, extend-Distinct, lookup-extend-iter}
use syncstate.Traits.{StateMapKey, StateMapValue}
use syncstate.Bincode.{Codec}
use syncstate.StateMap.Defs.{new, set_master, is_frozen}
use syncstate.StateMap.Build.{
  IsFresh, new-IsFresh, set_master-IsFresh, set_master-eq, push_all, push_all-eq, push_all_lem,
}
use syncstate.StateMap.Freeze.{Sha256, freeze, calculate_hash}
use syncstate.StateMap.Freeze.Laws.{freeze-IsMaster, freeze-opened, opened}
use syncstate.StateMap.History.{IsMaster}
use syncstate.StateMap.Sync.{SameContents}
use syncstate.Remote.{DummyRemote, dummy, dummy_remote}
use syncstate.Tcp.Hooks.{ServerMap}
use syncstate.Tcp.Server.{decode_error}
use syncstate.Tcp.Server.Init.{build, decode_and_build}

abbrev pub no_remote : DummyRemote {0}
no_remote = dummy

module _ {K T : Type 0} ⦃key : StateMapKey K⦄ ⦃value : StateMapValue T⦄ ⦃sha : Sha256⦄
    ⦃order : IterOrder K T key.eq_dec⦄ where
  -- A frozen map that stands for some contents.
  pub record IsBuilt (raw_map : HashMap K T) (s : ServerMap K T) : Type 0 where
    pub is_master : IsMaster s
    pub starts : s.update_id ≡ 0
    pub contents : SameContents s.contents raw_map
    pub digest : List ℕ
    pub hashed : s.hash ≡ some digest
    pub hash_of : (calculate_hash (push_all (order.iter raw_map) (new no_remote)).1).0 ≡ ok digest

  -- What `build` has once its three calls are known.
  build_of_calls :
      (raw_map : HashMap K T) (m s : ServerMap K T)
      → (push_all (order.iter raw_map) (new no_remote)).0 ≡ ok tt
      → set_master true (push_all (order.iter raw_map) (new no_remote)).1 ≡ (ok tt, m)
      → freeze {W = Unit {0}} dummy_remote m tt ≡ (ok tt, s, tt)
      → build raw_map ≡ ok s
  unfolding build
  build_of_calls raw_map m s p q r = rw (p, q, r)

  -- For a map with distinct keys the `expect`s hold and the freeze succeeds: the result is a master
  -- at update id 0 with the given contents, under the digest of those contents.
  pub build_lem :
      (raw_map : HashMap K T)
      → Distinct key.eq_dec raw_map
      → (s : ServerMap K T) × (build raw_map ≡ ok s) × IsBuilt raw_map s
  unfolding dummy_remote new is_frozen lookup calculate_hash
  build_lem raw_map d =
      let pushed = (push_all (order.iter raw_map) (new no_remote)).1 in
      let (all, fresh) =
        push_all_lem (order.iter raw_map) (new no_remote) (new-IsFresh no_remote) in
      let to_master : ServerMap K T = record pushed { is_master = true } in
      let set_it = set_master-eq pushed fresh in
      let ready : IsFresh to_master =
        subst (λ c. IsFresh c.1) set_it (set_master-IsFresh true pushed fresh).1 in
      let (bytes, e, shown) = freeze-opened {W = Unit {0}} dummy_remote to_master tt ready in
      let (m, u, reads) = freeze-IsMaster {W = Unit {0}} dummy_remote to_master tt ready refl in
      let p = push_all-eq (order.iter raw_map) (new no_remote) refl in
      (
        opened {W = Unit {0}} dummy_remote to_master bytes,
        build_of_calls raw_map to_master _ all set_it shown,
        record {
          is_master = subst (λ c. IsMaster c.1) shown m;
          starts = ap (λ c. c.1.update_id) (sym shown) ∙ u;
          contents = λ q.
              ap (λ c. lookup key.eq_dec q c.1.contents) p
              ∙ lookup-extend-iter order q raw_map [] d
              ∙ or_else-none (lookup key.eq_dec q raw_map);
          digest = sha.digest bytes;
          hashed = refl;
          hash_of = ap (λ b. b >>= λ c. ok (sha.digest c)) e;
        },
      )

  -- Whatever could be decoded is built.
  pub decode_and_build_lem :
      ⦃entries : Codec (List (K × T))⦄ (init_data : List ℕ) (s : ServerMap K T)
      → decode_and_build init_data ≡ ok s
      → (l : List (K × T)) × (entries.decode init_data ≡ ok l) × IsBuilt (extend key.eq_dec [] l) s
  unfolding decode_and_build
  decode_and_build_lem ⦃entries⦄ init_data s h =
      let (l, decoded, built) = bind-ok (map_err decode_error (entries.decode init_data)) _ s h in
      let (s', same, result) =
        build_lem (extend key.eq_dec [] l) (extend-Distinct key.eq_dec [] l tt) in
      (
        l,
        map_err-ok decode_error (entries.decode init_data) l decoded,
        subst (IsBuilt (extend key.eq_dec [] l)) (ok_inj (sym same ∙ built)) result,
      )
