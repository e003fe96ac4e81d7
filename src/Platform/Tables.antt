-- ===== src/Platform/Tables.antt =====
-- The rows of apps/platform/models.py and apps/audit/models.py, and the two functions by which the
-- services write them.
use vidalys_flow.Common.{ℕ, suc, Bool, true, false, ◌&&◌, Option, none, List, [], ◌∷◌, any, ◌==◌}
use vidalys_flow.Text.{Text, text_eq}

pub data OutboxStatus : Type 0 where
  pending processing retry processed dead : OutboxStatus

-- `f"{kind}:{aggregate}:{event_type}:{command_id}"`, kept in its parts.
pub record OutboxKey : Type 0 where
  pub kind : Text
  pub aggregate : ℕ
  pub event : Text
  pub command : Text

abbrev pub key_eq : OutboxKey → OutboxKey → Bool
key_eq a b =
    text_eq a.kind b.kind
    && a.aggregate == b.aggregate
    && text_eq a.event b.event
    && text_eq a.command b.command

-- The fields that the payloads of orders, fulfillments and payments share.
pub record EventPayload : Type 0 where
  pub order : ℕ
  pub status : Text
  pub version : ℕ

pub record OutboxEvent : Type 0 where
  pub id : ℕ
  pub organization : ℕ
  pub event_type : Text
  pub aggregate_type : Text
  pub aggregate : ℕ
  pub payload : EventPayload
  pub status : OutboxStatus
  pub attempts : ℕ
  pub available_at : ℕ
  pub processed_at : Option ℕ
  pub last_error : Text
  pub idempotency_key : OutboxKey

pub record AuditEvent : Type 0 where
  pub organization : ℕ
  pub actor : Option ℕ
  pub action : Text
  pub entity_type : Text
  pub entity : ℕ
  pub version : ℕ

-- The audit trail and the outbox, with the identifiers and the clock of the transaction.
pub record Journal : Type 0 where
  pub outbox : List OutboxEvent
  pub audit : List AuditEvent
  pub next_id : ℕ
  pub now : ℕ

abbrev pub is_key : ℕ → OutboxKey → OutboxEvent → Bool
is_key organization key e = e.organization == organization && key_eq e.idempotency_key key

-- `enqueue_event` with the contract version 1, which every caller of the model passes.
unfoldable pub enqueue_event : ℕ → Text → Text → ℕ → EventPayload → OutboxKey → Journal → Journal
enqueue_event organization event_type aggregate_type aggregate payload key j =
    elim (any (is_key organization key) j.outbox) [
      | true ↦ j
      | false ↦ record j {
        outbox =
            record {
              id = j.next_id;
              organization = organization;
              event_type = event_type;
              aggregate_type = aggregate_type;
              aggregate = aggregate;
              payload = payload;
              status = pending;
              attempts = 0;
              available_at = j.now;
              processed_at = none;
              last_error = [];
              idempotency_key = key;
            }
            ∷ j.outbox;
        next_id = suc j.next_id;
      }
    ]

-- `record_event`: a row is added whatever the table holds.
unfoldable pub record_event : ℕ → Option ℕ → Text → Text → ℕ → ℕ → Journal → Journal
record_event organization actor action entity_type entity version j = record j {
  audit =
      record {
        organization = organization;
        actor = actor;
        action = action;
        entity_type = entity_type;
        entity = entity;
        version = version;
      }
      ∷ j.audit;
}
