-- ===== src/Tests/Sizes.antt =====
-- The bytes that are hashed and the entries of a diff: the theorems at fixtures.
use syncstate.Prelude.{ℕ, ◌≡◌, ◌<◌, ◌+◌, refl, List, [], ◌∷◌, ok, length}
use syncstate.StateMap.Build.{push_all}
use syncstate.StateMap.Defs.{new, push}
use syncstate.StateMap.Freeze.{entry_bytes, calculate_hash}
use syncstate.StateMap.Freeze.Duplicates.{push_twice}
use syncstate.StateMap.GetDiff.Bounds.{IsCompact, get_diff-IsCompact}
use syncstate.Tests.Fixtures.{
  nat_key, nat_value, identity_digest, nat_order, evaluated, written_twice, written_twice-IsMaster,
}
use syncstate.Tests.Loopback.{changes, changed}
use syncstate.Tests.Server.{two_entries, client_remote}

-- What a server has of a map to which 1 was pushed twice.
abbrev rebuilt : List (ℕ × ℕ)
rebuilt = (1, 11) ∷ (2, 20) ∷ []

push_twice_example :
    (bytes : List ℕ) × (bytes' : List ℕ) × ((calculate_hash
        (push 1 11 (push_all two_entries (new client_remote)).1).1).0
      ≡ ok bytes)
    × ((calculate_hash (push_all rebuilt (new client_remote)).1).0 ≡ ok bytes')
    × (length bytes ≡ length bytes' + length (entry_bytes {K = ℕ} {T = ℕ} 1 11))
    × (length bytes' < length bytes)
unfolding evaluated push_all
push_twice_example =
    push_twice two_entries 1 11 rebuilt client_remote client_remote (refl, (refl, tt)) refl
      (refl, (refl, tt)) (λ q. refl)

get_diff-IsCompact_example : IsCompact written_twice written_twice-IsMaster changes
get_diff-IsCompact_example =
    get_diff-IsCompact written_twice written_twice-IsMaster 0 9 changes changed
