-- ===== src/Event.antt =====
-- The data that every part shares: pkg/persistence/log.go (LogRecord, Revision) and the fields
-- that the sources use of the protobuf messages mvccpb.KeyValue and mvccpb.Event. Revisions,
-- versions and lease ids are natural numbers: a revision grows by one with each commit and stays
-- far below 2^63, and a lease id is the 64-bit pattern of its int64.
use cloudetcd.Base.{ℕ, Bytes, List, Option}

pub record KeyValue : Type 0 where
  pub key : Bytes
  pub value : Bytes
  pub create_revision : ℕ
  pub mod_revision : ℕ
  pub version : ℕ
  pub lease : ℕ

-- `other` is any number that the enumeration does not name.
pub data EventType : Type 0 where
  put : EventType
  delete : EventType
  other : ℕ → EventType

pub record Event : Type 0 where
  pub kind : EventType
  pub kv : KeyValue
  pub prev_kv : Option KeyValue

pub record LogRecord : Type 0 where
  pub events : List Event
