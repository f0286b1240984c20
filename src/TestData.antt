-- ===== src/TestData.antt =====
-- src/test_data.rs: the certificates and the key of the tests. The PEM parser is not part of the
-- program: what its iterators yield is a parameter, an error or an item each time.
use syncstate.Prelude.{String, List, [], ◌∷◌, Outcome, ok, err, ◌⊎◌, inl, inr}

-- `filter_map(|result| result.ok())`
unfoldable pub oks : {A : Type 0} → List (String ⊎ A) → List A
oks [] = []
oks (inl e ∷ l) = oks l
oks (inr a ∷ l) = a ∷ oks l

-- The first key, with the certificates that were found.
abbrev with_key : {C P : Type 0} → List C → List P → Outcome String (List C × P)
with_key certs [] = err "No private key found in PEM slice"
with_key certs (key ∷ keys) = ok (certs, key)

unfoldable pub load_certs_and_key :
    {C P : Type 0} → List (String ⊎ C) → List (String ⊎ P) → Outcome String (List C × P)
unfolding oks
load_certs_and_key certs keys = elim (oks certs) [
  | [] ↦ err "No certificates found in PEM slice"
  | cert ∷ rest ↦ with_key (cert ∷ rest) (oks keys)
]
