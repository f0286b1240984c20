-- ===== src/Tests/Fixtures.antt =====
-- Keys and values that are numbers, a digest that is the bytes themselves, a map that iterates in
-- order of insertion, and a master built from the program's own operations.
use syncstate.Prelude.{
  ℕ, ◌≡◌, refl, true, false, [], ◌∷◌, arith, leb, ℕ_discrete, dec_lt, lookup, to_be_bytes, u64_inc,
  u64_dec,
}
use syncstate.HashMap.{IterOrder, in_order, insert, extend}
use syncstate.Traits.{StateMapKey, StateMapValue}
use syncstate.Sort.{sort}
use syncstate.StateMap.Defs.{StateMap, Hash, new, push, set_master, is_frozen, full_diff, get}
use syncstate.StateMap.Build.{IsFresh, new-IsFresh, push_lem, set_master-IsFresh}
use syncstate.StateMap.Freeze.{Sha256, freeze, hash_input, calculate_hash}
use syncstate.StateMap.Freeze.Laws.{freeze-IsMaster}
use syncstate.StateMap.History.{IsMaster, snapshot}
use syncstate.StateMap.Modify.{set}
use syncstate.StateMap.Modify.Master.{set_lem}
use syncstate.StateMap.GetDiff.{get_diff}
use syncstate.Remote.{DummyRemote, dummy, dummy_remote}

pub nat_total : (a b : ℕ) → leb a b ≡ false → leb b a ≡ true
nat_total a b h = ground arith

pub nat_antisymm : (a b : ℕ) → leb a b ≡ true → leb b a ≡ true → a ≡ b
nat_antisymm a b h k = ground arith

pub nat_trans : (a b c : ℕ) → leb a b ≡ true → leb b c ≡ true → leb a c ≡ true
nat_trans a b c h k = ground arith

instance abbrev pub nat_key : StateMapKey ℕ
nat_key = record {
  eq_dec = ℕ_discrete;
  leb = leb;
  as_ref = λ n. n ∷ [];
  leb_total = nat_total;
  leb_antisymm = nat_antisymm;
  leb_trans = nat_trans;
}

instance abbrev pub nat_value : StateMapValue ℕ
nat_value = record { value_bytes = λ n. n ∷ [] }

instance abbrev pub identity_digest : Sha256
identity_digest = record { digest = λ bytes. bytes }

instance abbrev pub nat_order : IterOrder ℕ ℕ ℕ_discrete
nat_order = in_order ℕ_discrete

abbrev pub NatMap : Type 0
NatMap = StateMap ℕ ℕ (DummyRemote {0})

abbrev pub one_pushed : NatMap
one_pushed = (push 1 10 (new dummy)).1

abbrev pub two_pushed : NatMap
two_pushed = (push 2 20 one_pushed).1

abbrev pub to_master : NatMap
to_master = (set_master true two_pushed).1

abbrev pub master : NatMap
master = (freeze {W = Unit {0}} dummy_remote to_master tt).1

abbrev pub written_once : NatMap
written_once = (set 1 11 master).1

abbrev pub written_twice : NatMap
written_twice = (set 2 22 written_once).1

-- What a run of the model computes with.
unfoldable pub evaluated : Unit {0}
unfolding new push set_master freeze hash_input calculate_hash sort to_be_bytes set get u64_inc
    u64_dec is_frozen full_diff dummy_remote insert extend lookup ℕ_discrete dec_lt get_diff
    snapshot
evaluated = tt

pub two_pushed-IsFresh : IsFresh two_pushed
two_pushed-IsFresh = (push_lem 2 20 one_pushed (push_lem 1 10 (new dummy) (new-IsFresh dummy)).1).1

pub to_master-IsFresh : IsFresh to_master
to_master-IsFresh = (set_master-IsFresh true two_pushed two_pushed-IsFresh).1

pub master-IsMaster : IsMaster master
unfolding evaluated
master-IsMaster =
    (freeze-IsMaster {W = Unit {0}} dummy_remote to_master tt to_master-IsFresh refl).0

pub written_once-IsMaster : IsMaster written_once
unfolding evaluated
written_once-IsMaster = (set_lem 1 11 master master-IsMaster refl (omega arith)).1

pub written_twice-IsMaster : IsMaster written_twice
unfolding evaluated
written_twice-IsMaster = (set_lem 2 22 written_once written_once-IsMaster refl (omega arith)).1

abbrev pub digest_of_two : Hash
digest_of_two =
    0 ∷ 0 ∷ 0 ∷ 0 ∷ 0 ∷ 0 ∷ 0 ∷ 1 ∷ 1 ∷ 0 ∷ 0 ∷ 0 ∷ 0 ∷ 0 ∷ 0 ∷ 0 ∷ 1 ∷ 10 ∷ 0 ∷ 0 ∷ 0 ∷ 0 ∷ 0 ∷ 0
    ∷ 0 ∷ 1 ∷ 2 ∷ 0 ∷ 0 ∷ 0 ∷ 0 ∷ 0 ∷ 0 ∷ 0 ∷ 1 ∷ 20 ∷ []
