-- ===== src/Async/Sink/Pipe/Lossless.antt =====
-- The pipe of Async/Sink/Pipe where no call finds it full.
use ngin_log.Base.{
  ℕ, ◌+◌, ◌≤◌, Bool, true, false, List, [], ◌∷◌, ◌++◌, map, arith, leb, if◌then◌else◌, length,
  length-append, ◌≡◌, refl, sym, ap, ◌∙◌,
}
use mathlib.Core.List.{append_assoc, append-nil}
use ngin_log.Types.{LogRecordView}
use ngin_log.Async.Owned.{cut}
use ngin_log.Async.Sink.{AsyncOverflowPolicy}
use ngin_log.Async.Sink.Accounting.{Event, writes, consumes}
use ngin_log.Async.Sink.Pipe.{Pipe, overflow, pipe_run}
use ngin_log.Async.Sink.Pipe.Noted.{note, noted, passed}

-- Runs of first rounds of calls and of deliveries, with the records of the calls.
pub data IsWritten : List Event → List LogRecordView → Type 0 where
  over : IsWritten [] []
  written :
      {in_time : Bool} {r : LogRecordView} {es : List Event} {rs : List LogRecordView}
      → IsWritten es rs
      → IsWritten (writes in_time r ∷ es) (r ∷ rs)
  consumed :
      {es : List Event} {rs : List LogRecordView} → IsWritten es rs → IsWritten (consumes ∷ es) rs

noted-append_one :
    (waiting : List LogRecordView) (r : LogRecordView) (rs : List LogRecordView)
    → noted (waiting ++ r ∷ []) rs ≡ noted waiting rs ++ cut r ∷ []
noted-append_one [] r rs = refl
noted-append_one (x ∷ waiting) r rs = noted-append_one waiting r (rs ++ cut x ∷ [])

module _ (capacity : ℕ) (policy : AsyncOverflowPolicy) where
  abbrev outcome : List Event → Pipe (List LogRecordView) → List LogRecordView
  outcome es p = let q = pipe_run note capacity policy es p in noted q.waiting q.world

  outcome_lem :
      {es : List Event} {rs : List LogRecordView}
      → IsWritten es rs
      → (waiting world : List LogRecordView) → length waiting + length rs ≤ capacity
      → outcome es (record { waiting = waiting; running = true; world = world })
        ≡ noted waiting world ++ map cut rs
  unfolding pipe_run
  outcome_lem over waiting world room = sym (append-nil (noted waiting world))
  outcome_lem (written {in_time} {r} {es} {rs} h) waiting world room =
      let grown : length (waiting ++ r ∷ []) + length rs ≤ capacity =
        rw (length-append waiting (r ∷ [])) (omega arith) in
      let free : leb capacity (length waiting) ≡ false = ground arith in
      let p : Pipe (List LogRecordView) = record {
        waiting = waiting;
        running = true;
        world = world;
      } in
      ap
        (λ b.
          outcome es
            (if b then overflow note policy r p else record p { waiting = waiting ++ r ∷ [] }))
        free
      ∙ outcome_lem h (waiting ++ r ∷ []) world grown
      ∙ ap (λ l. l ++ map cut rs) (noted-append_one waiting r world)
      ∙ append_assoc (noted waiting world) (cut r ∷ []) (map cut rs)
  outcome_lem (consumed h) [] world room = outcome_lem h [] world room
  outcome_lem (consumed h) (x ∷ waiting) world room =
      outcome_lem h waiting (world ++ cut x ∷ []) (omega arith)

  pub passed-IsWritten :
      {es : List Event} {rs : List LogRecordView}
      → IsWritten es rs
      → length rs ≤ capacity
      → passed capacity policy es ≡ map cut rs
  passed-IsWritten h room = outcome_lem h [] [] (omega arith)
