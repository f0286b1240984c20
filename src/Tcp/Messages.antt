-- ===== src/Tcp/Messages.antt =====
-- src/tcp/mod.rs: what is sent between a `TcpStateRemote` and a `TcpStateServer`.
use syncstate.Prelude.{ℕ, String, Bool, List}
use syncstate.StateMap.Defs.{Hash}

pub data TcpStateServerRequest : Type 0 where
  get_update_id : (hash : Hash) → TcpStateServerRequest
  event : (hash : Hash) (evt_data : List ℕ) → TcpStateServerRequest
  get_diff : (hash : Hash) (from_update_id upto_update_id : ℕ) → TcpStateServerRequest
  init : (hash : Hash) (init_data : List ℕ) → TcpStateServerRequest

pub record TcpStateServerRequestWrapper : Type 0 where
  pub password : List ℕ
  pub event : TcpStateServerRequest

pub data TcpStateServerResponse : Type 0 where
  incorrect_password : TcpStateServerResponse
  update_id : (update_id : ℕ) → TcpStateServerResponse
  hash_not_found event_in_process init_success hash_mismatch : TcpStateServerResponse
  diff :
      (from_update_id upto_update_id : ℕ) (is_full : Bool) (encoded_diff : List ℕ)
      → TcpStateServerResponse
  init_failure : (error_message : String) → TcpStateServerResponse
