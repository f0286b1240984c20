-- ===== src/Tests/TestData.antt =====
-- Loading certificates and a key: runs.
use syncstate.Prelude.{ℕ, String, ◌≡◌, refl, List, [], ◌∷◌, ok, err, ◌⊎◌, inl, inr}
use syncstate.TestData.{load_certs_and_key}

abbrev two_parsed : List (String ⊎ ℕ)
two_parsed = inl "no end marker" ∷ inr 1 ∷ inr 2 ∷ []

abbrev none_parsed : List (String ⊎ ℕ)
none_parsed = inl "no end marker" ∷ []

loaded : load_certs_and_key two_parsed two_parsed ≡ ok (1 ∷ 2 ∷ [], 1)
unfolding load_certs_and_key
loaded = refl

no_certificates :
    load_certs_and_key none_parsed two_parsed ≡ err "No certificates found in PEM slice"
unfolding load_certs_and_key
no_certificates = refl

no_key : load_certs_and_key two_parsed none_parsed ≡ err "No private key found in PEM slice"
unfolding load_certs_and_key
no_key = refl
