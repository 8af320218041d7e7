-- ===== src/Analytics/NoLoss.antt =====
-- internal/analytics/ingestor.go: no event is lost, doubled or reordered on the way to the store.
use mathlib.Core.List.{append-nil, append_assoc}
use pennant.Prelude.{
  List, [], ◌∷◌, ◌++◌, Bool, true, false, not, ◌≡◌, refl, ◌∙◌, sym, ap, length, if◌then◌else◌,
}
use pennant.Prelude.Int.{ℤ, pos, ltb_ℤ}
use pennant.Analytics.{Event, Ingestor, new_ingestor, insert_batch, flush, stamp, track}

-- What happens to an ingestor: an event is tracked at a time, or a tick or a stop flushes.
pub data Happening (F : Type 0) : Type 0 where
  tracking : ℤ → Event F → Happening F
  flushing : Happening F

module _ {F : Type 0} where
  unfoldable pub run : Ingestor F → List (Happening F) → Ingestor F
  run ing [] = ing
  run ing (tracking now e ∷ hs) = run (track now ing e) hs
  run ing (flushing ∷ hs) = run (flush ing) hs

  -- The events that were tracked, stamped, in order.
  abbrev pub tracked : List (Happening F) → List (Event F)
  tracked [] = []
  tracked (tracking now e ∷ hs) = stamp now e ∷ tracked hs
  tracked (flushing ∷ hs) = tracked hs

  abbrev pub concat : List (List (Event F)) → List (Event F)
  concat [] = []
  concat (b ∷ bs) = b ++ concat bs

  -- All that the store was given, and then what waits in the buffer.
  abbrev pub seen : Ingestor F → List (Event F)
  seen ing = concat ing.inserted ++ ing.buf

  concat-snoc :
      (bs : List (List (Event F))) (b : List (Event F)) → concat (bs ++ b ∷ []) ≡ concat bs ++ b
  concat-snoc [] b = append-nil b
  concat-snoc (c ∷ bs) b =
      ap (λ es. c ++ es) (concat-snoc bs b) ∙ sym (append_assoc c (concat bs) b)

  seen-insert_batch :
      (es : List (Event F)) (ing : Ingestor F)
      → ing.buf ≡ es
      → seen (insert_batch es ing) ≡ seen ing
  seen-insert_batch [] ing h = refl
  seen-insert_batch (e ∷ es) ing h =
      append-nil (concat (ing.inserted ++ (e ∷ es) ∷ []))
      ∙ concat-snoc ing.inserted (e ∷ es)
      ∙ ap (λ b. concat ing.inserted ++ b) (sym h)

  seen-flush : (ing : Ingestor F) → seen (flush ing) ≡ seen ing
  unfolding flush
  seen-flush ing = seen-insert_batch ing.buf ing refl

  seen-track :
      (now : ℤ) (ing : Ingestor F) (e : Event F)
      → seen (track now ing e) ≡ seen ing ++ stamp now e ∷ []
  unfolding track
  seen-track now ing e = by_size (not (ltb_ℤ (pos (length next.buf)) ing.max_batch))
    where
      next : Ingestor F
      next = record ing { buf = ing.buf ++ stamp now e ∷ [] }

      by_size : (b : Bool) → seen (if b then flush next else next) ≡ seen ing ++ stamp now e ∷ []
      by_size true =
          seen-flush next ∙ sym (append_assoc (concat ing.inserted) ing.buf (stamp now e ∷ []))
      by_size false = sym (append_assoc (concat ing.inserted) ing.buf (stamp now e ∷ []))

  seen-run :
      (ing : Ingestor F) (hs : List (Happening F)) → seen (run ing hs) ≡ seen ing ++ tracked hs
  unfolding run
  seen-run ing [] = sym (append-nil (seen ing))
  seen-run ing (tracking now e ∷ hs) =
      seen-run (track now ing e) hs
      ∙ ap (λ es. es ++ tracked hs) (seen-track now ing e)
      ∙ append_assoc (seen ing) (stamp now e ∷ []) (tracked hs)
  seen-run ing (flushing ∷ hs) =
      seen-run (flush ing) hs ∙ ap (λ es. es ++ tracked hs) (seen-flush ing)

-- The batches that the store was given, one after the other, and then the buffer are exactly the events
-- that were tracked, in order, with the time filled in where it was zero: nothing is dropped, however
-- large the buffer. A flush at the end leaves nothing in the buffer.
pub run_keeps_events :
    {F : Type 0} (max_batch : ℤ) (hs : List (Happening F))
    → (concat (run (new_ingestor max_batch) hs).inserted ++ (run (new_ingestor max_batch) hs).buf
        ≡ tracked hs)
      × (concat (flush (run (new_ingestor max_batch) hs)).inserted ≡ tracked hs)
run_keeps_events {F} max_batch hs = (
  all,
  sym (append-nil (concat done.inserted))
      ∙ ap (λ b. concat done.inserted ++ b) (sym (emptied ing))
      ∙ seen-flush ing
      ∙ all,
)
  where
    ing : Ingestor F
    ing = run (new_ingestor max_batch) hs

    done : Ingestor F
    done = flush ing

    all : seen ing ≡ tracked hs
    all = seen-run (new_ingestor max_batch) hs ∙ (unfold new_ingestor in refl)

    emptied : (i : Ingestor F) → (flush i).buf ≡ []
    emptied i = unfold flush in by_buf i.buf i refl
      where
        by_buf : (es : List (Event F)) (i : Ingestor F) → i.buf ≡ es → (insert_batch es i).buf ≡ []
        by_buf [] i h = h
        by_buf (e ∷ es) i h = refl
