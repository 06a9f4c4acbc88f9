-- ===== src/Http/Ws.antt =====
-- fox-http/src/ws_client.rs: the messages, the options and the delay of the WebSocket client, and the
-- table of messages that wait for a connection (fox-storage/src/repository/ws_messages.rs).
pub mod Backoff
pub mod Client
pub mod Task
pub mod Delivery
pub mod Heartbeat
pub mod Stopping
pub mod Rows
pub mod Stored
pub mod Signals
mod Tests
use rust_fox.Prelude.{
  ℕ, zero, suc, ◌+◌, ◌-◌, ◌*◌, ◌%◌, ◌^◌, ◌≤◌, min, Bool, true, false, not, ◌&&◌, List, [], ◌∷◌,
  ◌++◌, Option, none, some, any, keep, leb, ltb, eqb, if◌then◌else◌, ◌==◌, list_eq, nat_eq,
}
use rust_fox.Prelude.Sort.{sort_by}
use rust_fox.Prelude.Text.{Text, codes}

abbrev pub outbox_capacity : ℕ
outbox_capacity = 1024

-- Milliseconds.
abbrev pub ws_message_ttl : ℕ
ws_message_ttl = 24 * 60 * 60 * 1000

abbrev pub u32_max : ℕ
u32_max = 2 ^ 32 - 1

abbrev pub u64_max : ℕ
u64_max = 2 ^ 64 - 1

pub data WsState : Type 0 where
  connecting_state open_state closed_state error_state : WsState

-- `WsMessage` and `WsOutgoing`, which have the same constructors; bytes are numbers.
pub data WsMessage : Type 0 where
  text : Text → WsMessage
  binary : List ℕ → WsMessage
  ping : List ℕ → WsMessage

pub data WsEvent : Type 0 where
  state : WsState → WsEvent
  message : WsMessage → WsEvent
  failed : Text → WsEvent

-- Durations are in milliseconds.
pub record WsOptions : Type 0 where
  pub heartbeat_interval : ℕ
  pub max_missed_pongs : ℕ
  pub backoff_base : ℕ
  pub backoff_max : ℕ
  pub auto_reconnect : Bool

abbrev pub default_options : WsOptions
default_options = record {
  heartbeat_interval = 10000;
  max_missed_pongs = 3;
  backoff_base = 500;
  backoff_max = 30000;
  auto_reconnect = true;
}

-- The factor of `backoff_delay`: `2u64.checked_pow(…).unwrap_or(u64::MAX)`.
abbrev pub factor : (exponent : ℕ) → ℕ
factor exponent = if ltb exponent 64 then 2 ^ exponent else u64_max

unfoldable pub backoff_delay : WsOptions → (attempt : ℕ) → ℕ
backoff_delay options attempt =
    let base_ms = options.backoff_base % 2 ^ 64 in
    let max_ms = options.backoff_max % 2 ^ 64 in
    min (min (base_ms * factor (attempt - 1)) u64_max) max_ms

-- `u32::saturating_add(1)`
abbrev pub saturating_suc : ℕ → ℕ
saturating_suc n = min (n + 1) u32_max

pub data WsMessageType : Type 0 where
  text_type binary_type ping_type : WsMessageType

unfoldable pub message_type : WsMessage → WsMessageType
message_type (text s) = text_type
message_type (binary bytes) = binary_type
message_type (ping bytes) = ping_type

-- base64, of which the source uses the standard alphabet.
pub record Base64 : Type 0 where
  pub encode : List ℕ → Text
  pub decode : Text → Option (List ℕ)

abbrev pub with_bytes : (List ℕ → WsMessage) → Option (List ℕ) → Option WsMessage
with_bytes f none = none
with_bytes f (some bytes) = some (f bytes)

module _ (base64 : Base64) where
  unfoldable pub encoded : WsMessage → Text
  encoded (text s) = s
  encoded (binary bytes) = base64.encode bytes
  encoded (ping bytes) = base64.encode bytes

  unfoldable pub from_record : WsMessageType → (payload : Text) → Option WsMessage
  from_record text_type payload = some (text payload)
  from_record binary_type payload = with_bytes binary (base64.decode payload)
  from_record ping_type payload = with_bytes ping (base64.decode payload)

-- A row of `ws_messages`; ids are numbers, and `created_at` is in milliseconds.
pub record WsMessageRow : Type 0 where
  pub id : ℕ
  pub target : Text
  pub message_type : WsMessageType
  pub payload : Text
  pub created_at : ℕ

abbrev pub Table : Type 0
Table = List WsMessageRow

unfoldable pub enqueue_ws_message :
    (id now : ℕ) (target : Text) → WsMessageType → (payload : Text) → Table → Table
enqueue_ws_message id now target type payload rows =
    rows
    ++ record { id = id; target = target; message_type = type; payload = payload; created_at = now }
      ∷ []

-- `WHERE target = ? ORDER BY created_at`
unfoldable pub list_pending_ws_messages : (target : Text) → Table → Table
unfolding sort_by
list_pending_ws_messages target rows =
    sort_by (λ r s. leb r.created_at s.created_at) (keep (λ r. r.target == target) rows)

unfoldable pub delete_ws_messages : (ids : List ℕ) → Table → Table
delete_ws_messages ids = keep (λ r. not (any (eqb r.id) ids))

-- `created_at < now - retention`
abbrev pub is_expired : (now : ℕ) → WsMessageRow → Bool
is_expired now r = ltb (r.created_at + ws_message_ttl) now

unfoldable pub purge_expired_ws_messages : (target : Text) (now : ℕ) → Table → Table
purge_expired_ws_messages target now = keep (λ r. not (r.target == target && is_expired now r))
