-- ===== src/Mailbox/Table.antt =====
-- The rows of `mail_messages`, and the values of agent/runtime/mailbox.py that go in and out. A
-- time is a count of microseconds, the unit of the texts that the source stores and compares.
use mathlib.Core.Logic.{dite}
use bridle.Prelude.{
  List, [], ◌∷◌, none, some, Option, Bool, ℕ, String, rowcount, if◌then◌else◌, max, not, Eq, ◌==◌,
  string_eq, leb, nat_eq, arith, ap, ◌≡◌,
}

pub record AgentAddress : Type 0 where
  pub project_id : String
  pub agent_id : String
  pub generation : ℕ

pub address_ext :
    (a b : AgentAddress)
    → a.project_id ≡ b.project_id
    → a.agent_id ≡ b.agent_id
    → a.generation ≡ b.generation
    → a ≡ b
address_ext a b p q r = ground arith

-- Addresses have the same text exactly when their three parts agree.
instance unfoldable pub address_eq : Eq AgentAddress
address_eq = record {
  dec = λ a b.
      dite (string_eq.dec a.project_id b.project_id)
        (λ p.
          dite (string_eq.dec a.agent_id b.agent_id)
            (λ q.
              dite (nat_eq.dec a.generation b.generation) (λ r. yes (address_ext a b p q r))
                (λ n. no (λ e. n (ap (λ x. x.generation) e))))
            (λ n. no (λ e. n (ap (λ x. x.agent_id) e))))
        (λ n. no (λ e. n (ap (λ x. x.project_id) e)));
}

-- An envelope that its constructor accepted: the identifiers are not empty, and `payload_json` is
-- the canonical text of the payload. The last four fields are the metadata of a delivery.
pub record MailEnvelope : Type 0 where
  pub message_id : String
  pub message_type : String
  pub source : AgentAddress
  pub target : AgentAddress
  pub payload_json : String
  pub sequence_no : Option ℕ
  pub attempt : ℕ
  pub created_at : Option ℕ
  pub updated_at : Option ℕ

pub data MailStatus : Type 0 where
  pending leased retry_wait delivered : MailStatus

unfoldable pub MailStatus-discrete : Discrete MailStatus
MailStatus-discrete = hlevel

instance unfoldable pub mail_status_eq : Eq MailStatus
unfolding MailStatus-discrete
mail_status_eq = record { dec = MailStatus-discrete }

-- A row. The addresses stand for their canonical texts, which determine them.
pub record Message : Type 0 where
  pub message_id : String
  pub source_address : AgentAddress
  pub target_address : AgentAddress
  pub message_type : String
  pub payload_json : String
  pub sequence_no : ℕ
  pub status : MailStatus
  pub attempt : ℕ
  pub next_retry_at : Option ℕ
  pub lease_owner : Option String
  pub lease_token : Option String
  pub lease_expires_at : Option ℕ
  pub created_at : ℕ
  pub updated_at : ℕ

-- The statuses of a `MailboxResult`.
pub data ResultStatus : Type 0 where
  inserted existing backpressure claimed empty renewed acked nacked lost_lease : ResultStatus
  mailbox_busy closed : ResultStatus

pub record MailboxResult : Type 0 where
  pub status : ResultStatus
  pub message_id : Option String
  pub sequence_no : Option ℕ
  pub attempt : ℕ
  pub lease_token : Option String
  pub lease_expires_at : Option ℕ
  pub next_retry_at : Option ℕ
  pub envelope : Option MailEnvelope

-- `MailEnvelope.from_storage`
unfoldable pub from_storage : Message → MailEnvelope
from_storage m = record {
  message_id = m.message_id;
  message_type = m.message_type;
  source = m.source_address;
  target = m.target_address;
  payload_json = m.payload_json;
  sequence_no = some m.sequence_no;
  attempt = m.attempt;
  created_at = some m.created_at;
  updated_at = some m.updated_at;
}

-- `_result` without a row.
abbrev pub bare_result : ResultStatus → MailboxResult
bare_result status = record {
  status = status;
  message_id = none;
  sequence_no = none;
  attempt = 0;
  lease_token = none;
  lease_expires_at = none;
  next_retry_at = none;
  envelope = none;
}

-- `_result` with a row.
unfoldable pub row_result : ResultStatus → Message → MailboxResult
unfolding from_storage
row_result status m = record {
  status = status;
  message_id = some m.message_id;
  sequence_no = some m.sequence_no;
  attempt = m.attempt;
  lease_token = none;
  lease_expires_at = none;
  next_retry_at = none;
  envelope = some (from_storage m);
}

abbrev pub is_message : String → Message → Bool
is_message message_id m = m.message_id == message_id

-- `status != 'delivered'`
abbrev pub is_active : Message → Bool
is_active m = not (m.status == delivered)

-- `SELECT COUNT(*) FROM mail_messages WHERE status != 'delivered'`
abbrev pub active_count : List Message → ℕ
active_count = rowcount is_active

-- `SELECT COALESCE(MAX(sequence_no), 0)`
unfoldable pub last_sequence : List Message → ℕ
last_sequence [] = 0
last_sequence (m ∷ ms) = max m.sequence_no (last_sequence ms)

-- `ORDER BY sequence_no LIMIT 1` on the rows that pass the test.
abbrev pub earlier : Message → Option Message → Message
earlier m none = m
earlier m (some n) = if leb m.sequence_no n.sequence_no then m else n

unfoldable pub earliest : (Message → Bool) → List Message → Option Message
earliest p [] = none
earliest p (m ∷ ms) = let rest = earliest p ms in if p m then some (earlier m rest) else rest
