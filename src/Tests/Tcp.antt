-- ===== src/Tests/Tcp.antt =====
-- A slave that is updated over TCP: the theorem at a fixture.
use syncstate.Prelude.{ℕ, ◌≡◌, refl, false, [], ◌∷◌, some, ok, from_be_bytes}
use syncstate.Diff
use syncstate.Diff.{Diff}
use syncstate.StateMap.Defs.{StateMap}
use syncstate.StateMap.History.{snapshot}
use syncstate.StateMap.Sync.{SameContents}
use syncstate.Tcp.Hooks.{new_mutex}
use syncstate.Tcp.Messages.{TcpStateServerResponse, get_diff, diff}
use syncstate.Tcp.Server.{hash_discrete}
use syncstate.Tcp.Server.Requests.{process_request}
use syncstate.Tcp.Wire.{Wire, wire, read_wire, write_wire}
use syncstate.Tests.Codecs.{request_bytes, response_bytes}
use syncstate.Tcp.Remote.{TcpStateRemote, send_request}
use syncstate.Tests.Fixtures.{
  nat_key, nat_value, identity_digest, nat_order, evaluated, digest_of_two, written_twice,
}
use syncstate.Tests.Server.{nat_entries, nat_event, stocked}

abbrev pub slave : StateMap ℕ ℕ TcpStateRemote
slave = record {
  contents = (1, 10) ∷ (2, 20) ∷ [];
  order = 1 ∷ 2 ∷ [];
  update_id = 0;
  hash = some digest_of_two;
  remote = record { password = [] };
  is_master = false;
  diffs = [];
}

-- The answer: a diff from 0 to 2, as the last writes to both keys.
abbrev reply : Wire
reply = (0 ∷ 0 ∷ 0 ∷ 9 ∷ 1 ∷ 1 ∷ 1 ∷ 0 ∷ 2 ∷ 1 ∷ 11 ∷ 2 ∷ 22 ∷ [], [])

abbrev answer : TcpStateServerResponse
answer = diff 0 2 false (1 ∷ 11 ∷ 2 ∷ 22 ∷ [])

answered : (process_request {E = ℕ} (get_diff digest_of_two 0 9) (new_mutex stocked)).0 ≡ ok answer
unfolding evaluated process_request new_mutex Diff.merge hash_discrete
answered = refl

received : (send_request (wire 100) slave.remote (get_diff digest_of_two 0 9) reply).0 ≡ ok answer
unfolding evaluated send_request from_be_bytes wire read_wire write_wire
received = refl

pub slave-SameContents : SameContents slave.contents (snapshot written_twice 0)
unfolding evaluated
slave-SameContents q = refl
