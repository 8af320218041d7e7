-- ===== src/Analytics.antt =====
-- internal/analytics/ingestor.go: the buffer of events and its flushes. The event store's `InsertEvents` is
-- given the batches in order, and its error is dropped: the batches are a field of the state.
-- `time.Now().UnixMilli()` is an argument. Calls come one after the other: two flushes at the same time may
-- hand over their batches in either order. The loop's ticker and `Stop` are flushes. A float is any type.
pub mod NoLoss
pub mod EventStore
use pennant.Prelude.{
  ℕ, String, Option, List, [], ◌∷◌, ◌++◌, Bool, true, false, not, length, if◌then◌else◌,
}
use pennant.Prelude.Int.{ℤ, pos, eqb_ℤ, ltb_ℤ}

pub data EventKind : Type 0 where
  eval_event custom_event exposure_event : EventKind
  other_event : String → EventKind

pub record Event (F : Type 0) : Type 0 where
  pub kind : EventKind
  pub flag_key : String
  pub environment_key : String
  pub project_key : String
  pub context_key : String
  pub context_kind : String
  pub variation_index : Option ℤ
  pub reason_kind : String
  pub metric_name : String
  pub metric_value : F
  pub experiment_key : String
  pub timestamp : ℤ
  pub properties : String

pub record Ingestor (F : Type 0) : Type 0 where
  pub buf : List (Event F)
  pub max_batch : ℤ
  pub inserted : List (List (Event F))

module _ {F : Type 0} where
  unfoldable pub new_ingestor : ℤ → Ingestor F
  new_ingestor max_batch = record { buf = []; max_batch = max_batch; inserted = [] }

  -- `if len(ing.buf) == 0 { return }`, or the buffer as a batch.
  abbrev pub insert_batch : List (Event F) → Ingestor F → Ingestor F
  insert_batch [] ing = ing
  insert_batch (e ∷ es) ing = record ing { buf = []; inserted = ing.inserted ++ (e ∷ es) ∷ [] }

  unfoldable pub flush : Ingestor F → Ingestor F
  flush ing = insert_batch ing.buf ing

  -- `if e.Timestamp == 0 { e.Timestamp = time.Now().UnixMilli() }`
  abbrev pub stamp : ℤ → Event F → Event F
  stamp now e = if eqb_ℤ e.timestamp (pos 0) then record e { timestamp = now } else e

  unfoldable pub track : ℤ → Ingestor F → Event F → Ingestor F
  track now ing e =
      let ing' = record ing { buf = ing.buf ++ stamp now e ∷ [] } in
      let flushed = flush ing' in
      if not (ltb_ℤ (pos (length ing'.buf)) ing.max_batch) then flushed else ing'
