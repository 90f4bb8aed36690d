-- ===== src/Query/Response.antt =====
-- paradigm/query.go and paradigm/error.go: what goes back to the front end, and the channel of a query on
-- which one response waits.
use rappa_master.Base.{
  String, Bool, true, false, Option, none, some, List, [], ◌∷◌, ◌++◌, if◌then◌else◌,
}

pub data ErrorType : Type 0 where
  runtime_error value_error slot_life_error chunk_recover_error : ErrorType

pub data Response {ℓ} (A : Type ℓ) : Type ℓ where
  success_response : A → Response A
  error_response : ErrorType → String → Response A

-- The channel of a query: it holds one response, and is closed after it.
pub record Channel {ℓ} (A : Type ℓ) : Type ℓ where
  pub responses : List (Response A)
  pub is_closed : Bool

-- NewBasicChannelQuery
abbrev pub new_channel {ℓ} : {A : Type ℓ} → Channel A
new_channel = record { responses = []; is_closed = false }

-- SendResponse: `none` is the panic on a closed channel.
unfoldable pub send_response {ℓ} : {A : Type ℓ} → Response A → Channel A → Option (Channel A)
send_response r c =
    if c.is_closed
    then none
    else some (record { responses = c.responses ++ r ∷ []; is_closed = true })
