-- ===== src/StateMap/History/Grow.antt =====
-- One more update at the end of a master's history.
use syncstate.Prelude.{
  ℕ, suc, ◌≤◌, ◌≡◌, sym, ap, ◌∙◌, List, [], ◌∷◌, ◌++◌, lookup, arith, append-nil, take-append_le,
  or_else,
}
use syncstate.HashMap.{HashMap, Distinct, extend, last_write, lookup-extend}
use syncstate.Traits.{StateMapKey}
use syncstate.Diff.{Diff, replay, writes, replay-append}
use syncstate.StateMap.Defs.{StateMap, is_frozen}
use syncstate.StateMap.History.{Chain, IsHistory, IsHistory-length, IsMaster, snapshot}

module _ {ℓ} {K T : Type ℓ} where
  Chain-append :
      (a : ℕ) (ds : List (Diff K T)) (n : ℕ) (d : Diff K T)
      → Chain a ds n
      → d.from_update_id ≡ n
      → d.upto_update_id ≡ suc n
      → Chain a (ds ++ d ∷ []) (suc n)
  Chain-append a [] n d c p q = omega arith
  Chain-append a (e ∷ ds) n d c p q = (c.0, c.1, Chain-append (suc a) ds n d c.2 p q)

  IsHistory-append :
      (ds : List (Diff K T)) (n : ℕ) (d : Diff K T)
      → IsHistory ds n
      → d.from_update_id ≡ n
      → d.upto_update_id ≡ suc n
      → IsHistory (ds ++ d ∷ []) (suc n)
  IsHistory-append [] n d h p q = absurd h
  IsHistory-append (e ∷ ds) n d h p q = (h.0, h.1, Chain-append 0 ds n d h.2 p q)

module _ {ℓ} {K T R : Type ℓ} ⦃key : StateMapKey K⦄ where
  -- A state map after a change of its contents that its history records.
  abbrev pub grown : StateMap K T R → HashMap K T → Diff K T → StateMap K T R
  grown s contents d = record s {
    contents = contents;
    update_id = suc s.update_id;
    diffs = s.diffs ++ d ∷ [];
  }

  module _ (s : StateMap K T R) (h : IsMaster s) (contents : HashMap K T) (d : Diff K T)
      (starts : d.from_update_id ≡ s.update_id) (ends : d.upto_update_id ≡ suc s.update_id) where
    -- The past stays as it was.
    pub snapshot-grown : (i : ℕ) → i ≤ s.update_id → snapshot (grown s contents d) i ≡ snapshot s i
    unfolding snapshot
    snapshot-grown i p =
        let n = IsHistory-length s.diffs s.update_id h.history in
        ap (replay []) (take-append_le (suc i) s.diffs (d ∷ []) (omega arith))

    pub grown-IsMaster :
        ((q : K)
          → lookup key.eq_dec q contents
            ≡ lookup key.eq_dec q (extend key.eq_dec s.contents d.diff))
        → Distinct key.eq_dec contents
        → IsMaster (grown s contents d)
    unfolding replay writes is_frozen
    grown-IsMaster effect distinct = record {
      frozen = h.frozen;
      master = h.master;
      history = IsHistory-append s.diffs s.update_id d h.history starts ends;
      current = λ q.
          effect q
          ∙ lookup-extend key.eq_dec q s.contents d.diff
          ∙ ap (λ o. or_else (last_write key.eq_dec q d.diff) o) (h.current q)
          ∙ sym (lookup-extend key.eq_dec q (replay [] s.diffs) d.diff)
          ∙ ap (λ l. lookup key.eq_dec q (extend key.eq_dec (replay [] s.diffs) l))
              (sym (append-nil d.diff))
          ∙ ap (lookup key.eq_dec q) (sym (replay-append [] s.diffs (d ∷ [])));
      distinct = distinct;
    }
