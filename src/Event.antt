-- ===== src/Event.antt =====
-- src/event.rs: an event is its content, carried as bytes.
use syncstate.Prelude.{ℕ, String, ◌≡◌, List, Outcome, ok, ◌>>=◌}
use syncstate.Bincode.{Codec}

pub record Event {ℓ} (E : Type ℓ) : Type ℓ where
  pub content : E

module _ {ℓ} {E : Type ℓ} where
  unfoldable pub new : E → Event E
  new content = record { content = content }

module _ {ℓ} {E : Type ℓ} ⦃codec : Codec E⦄ where
  unfoldable pub serialize : Event E → Outcome String (List ℕ)
  serialize event = codec.encode event.content

  unfoldable pub deserialize : List ℕ → Outcome String (Event E)
  unfolding new
  deserialize evt = codec.decode evt >>= λ content. ok (new content)

  -- An event that could be serialized is read back from its bytes as it was.
  pub deserialize-serialize :
      (event : Event E) (bytes : List ℕ) → serialize event ≡ ok bytes → deserialize bytes ≡ ok event
  unfolding serialize deserialize
  deserialize-serialize event bytes h = rw (codec.decode-encode event.content bytes h)
