-- ===== src/Async/Sink/Pipe/Returned.antt =====
-- Calls of `Write` on the asynchronous sink of include/NGIN/Log/Sinks/AsyncSink.hpp that return at once.
use ngin_log.Base.{
  ℕ, suc, ◌+◌, ◌≤◌, ◌^◌, add_u64, Bool, true, false, List, [], ◌∷◌, ◌++◌, All, arith, leb,
  if◌then◌else◌, length, length-append, ◌≡◌, refl, sym, ap, subst, ◌∙◌, inl, inr,
}
use ngin_log.Types.{LogRecordView}
use ngin_log.Async.{MpscBoundedQueue, OwnedLogRecord, to_owned}
use ngin_log.Async.Queue.{contents}
use ngin_log.Async.Fifo.{try_enqueue-contents}
use ngin_log.Async.Sink.{
  new_sink, AsyncOverflowPolicy, AsyncSink, update_high_watermark, enqueued, try_enqueue_owned,
  after_attempt, attempt, write_round, returned, record_drop,
}
use ngin_log.Async.Sink.Accounting.{Event, writes, consumes, counted, step, run}
use ngin_log.Async.Sink.Pipe.{Pipe, IsCountedEvent, overflow, Follows}
use ngin_log.Async.Sink.Pipe.Runs.{length-map-to_owned, step-Follows, new_sink-Follows}
use ngin_log.Async.Sink.Pipe.Lossless.{IsWritten, over, written, consumed}

module _ {W : Type 0} (write : LogRecordView → W → Bool × W) where
  -- A call on a sink that runs and has room returns.
  writes_returned :
      (k n : ℕ) (policy : AsyncOverflowPolicy) (in_time : Bool) (r : LogRecordView)
      (s : AsyncSink W) (p : Pipe W)
      → Follows write k policy s p
      → p.running ≡ true
      → leb (2 ^ k) (length p.waiting) ≡ false
      → (step write (2 ^ k) (writes in_time r) (n, s)).0 ≡ suc n
  unfolding step write_round attempt try_enqueue_owned enqueued update_high_watermark after_attempt
      counted
  writes_returned k n policy in_time r s p v runs free =
      let s' : AsyncSink W = record s { outstanding = add_u64 s.outstanding 1 } in
      let size : length (contents (2 ^ k) s.queue) ≡ length p.waiting =
        ap length v.holds ∙ length-map-to_owned write p.waiting in
      let small : leb (2 ^ k) (length (contents (2 ^ k) s.queue)) ≡ false =
        ap (leb (2 ^ k)) size ∙ free in
      ap
        (λ b.
          (counted n (
            if b
            then attempt write (2 ^ k) in_time (to_owned r) s
            else returned (record_drop s))).0)
        (v.running ∙ runs)
      ∙ elim (try_enqueue-contents k s.queue (to_owned r) v.valid) [
        | inl (full, e) ↦ let clash : true ≡ false = sym full ∙ small in cc
        | inr (q, room, e, held, valid) ↦
            ap
              (λ (o : Bool × MpscBoundedQueue OwnedLogRecord).
                (counted n (after_attempt write in_time (to_owned r) (enqueued o s'))).0)
              e
      ]

  returned_from :
      (k n : ℕ) (policy : AsyncOverflowPolicy) {es : List Event} {rs : List LogRecordView}
      → IsWritten es rs
      → (s : AsyncSink W) (waiting : List LogRecordView) (world : W) → All IsCountedEvent es
      → Follows write k policy s (record { waiting = waiting; running = true; world = world })
      → length waiting + length rs ≤ 2 ^ k
      → (run write (2 ^ k) es (n, s)).0 ≡ n + length rs
  unfolding run
  returned_from k n policy over s waiting world c v room = omega arith
  returned_from k n policy (written {in_time} {r} {es} {rs} h) s waiting world (c, cs) v room =
      let p : Pipe W = record { waiting = waiting; running = true; world = world } in
      let free : leb (2 ^ k) (length waiting) ≡ false = ground arith in
      let (m, t) = step write (2 ^ k) (writes in_time r) (n, s) in
      let m_ : m ≡ suc n = writes_returned k n policy in_time r s p v refl free in
      let grown : length (waiting ++ r ∷ []) + length rs ≤ 2 ^ k =
        rw (length-append waiting (r ∷ [])) (omega arith) in
      let follows =
        subst
          (λ b.
            Follows write k policy t
              (if b then overflow write policy r p else record p { waiting = waiting ++ r ∷ [] }))
          free (step-Follows write k n policy (writes in_time r) s p c v) in
      let rest = returned_from k m policy h t (waiting ++ r ∷ []) world cs follows grown in
      omega (arith, rest, m_)
  returned_from k n policy (consumed h) s [] world (c, cs) v room =
      returned_from k n policy h _ [] world cs (step-Follows write k n policy consumes s _ c v) room
  returned_from k n policy (consumed h) s (x ∷ waiting) world (c, cs) v room =
      returned_from k n policy h _ waiting _ cs (step-Follows write k n policy consumes s _ c v)
        (omega arith)

  -- On a new sink with a place for each call, all calls return.
  pub run-returned :
      (k : ℕ) (policy : AsyncOverflowPolicy) (blank : OwnedLogRecord) (world : W) {es : List Event}
      {rs : List LogRecordView}
      → IsWritten es rs
      → All IsCountedEvent es
      → length rs ≤ 2 ^ k
      → (run write (2 ^ k) es (0, new_sink (2 ^ k) policy blank world)).0 ≡ length rs
  run-returned k policy blank world {es} {rs} h c room =
      let all =
        returned_from k 0 policy h (new_sink (2 ^ k) policy blank world) [] world c
          (new_sink-Follows write k policy blank world) (omega arith) in
      omega (arith, all)
