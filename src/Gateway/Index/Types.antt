-- ===== src/Gateway/Index/Types.antt =====
-- openjax-gateway/src/transcript/session_index_types.rs, and the metadata file of a session: the records that the
-- index of sessions keeps on disk.
use open_jax.Prelude.{ℕ, String, Option, List, []}

pub record IndexSessionEntry : Type 0 where
  pub session_id : String
  pub title : Option String
  pub created_at : String
  pub updated_at : String
  pub last_event_seq : ℕ
  pub last_preview : String

pub record SessionIndexSnapshot : Type 0 where
  pub schema_version : ℕ
  pub updated_at : String
  pub sessions : List IndexSessionEntry

pub data IndexLogOpKind : Type 0 where
  upsert_session delete_session : IndexLogOpKind

pub record SessionIndexLogRecord : Type 0 where
  pub op : IndexLogOpKind
  pub session_id : String
  pub ts : String
  pub payload : Option IndexSessionEntry

-- A line of the log: the line of a record, a beginning of one that was not written to its end, or two that run into
-- each other because the first has no newline. Only the first kind can be parsed.
pub data LogLine : Type 0 where
  whole part : SessionIndexLogRecord → LogLine
  joined : LogLine → LogLine → LogLine

pub record SessionMetadata : Type 0 where
  pub schema_version : ℕ
  pub session_id : String
  pub title : Option String
  pub created_at : String
  pub updated_at : String
  pub tags : List String

abbrev pub from_index_entry : IndexSessionEntry → SessionMetadata
from_index_entry entry = record {
  schema_version = 1;
  session_id = entry.session_id;
  title = entry.title;
  created_at = entry.created_at;
  updated_at = entry.updated_at;
  tags = [];
}
