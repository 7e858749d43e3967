-- ===== src/Queue.antt =====
-- internal/queue/queue.go: the job that `Publish` writes to the broker.
use ragline.Base.{ℕ, Bool, List, ◌++◌, Bytes, replicate}

-- `IngestJob`
pub record IngestJob : Type 0 where
  pub document_id : ℕ
  pub source_uri : Bytes
  pub title : Bytes
  pub attempt : ℕ
  pub enqueued_at : ℕ

-- `kafka.Message`: the key is the document's identifier. The encoding of the value is left out.
pub record Message : Type 0 where
  pub topic : Bytes
  pub key : ℕ
  pub value : IngestJob

-- What the broker made of one call of `WriteMessages`: how often the message stands in the topic
-- behind it (a write can be tried again), and whether the call returned no error.
pub record Delivery : Type 0 where
  pub copies : ℕ
  pub acknowledged : Bool

-- `Publish`
unfoldable pub publish : Delivery → Bytes → IngestJob → List Message → List Message × Bool
publish d topic job log =
    let message : Message = record { topic = topic; key = job.document_id; value = job } in
    (log ++ replicate d.copies message, d.acknowledged)
