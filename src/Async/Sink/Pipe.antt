-- ===== src/Async/Sink/Pipe.antt =====
-- The asynchronous sink of include/NGIN/Log/Sinks/AsyncSink.hpp as a pipe of records in front of the
-- wrapped sink: an abstract machine without ring, copies or counters, which the sink follows.
pub mod Runs
pub mod Drained
pub mod Noted
pub mod Lossless
pub mod Returned
use ngin_log.Base.{
  ℕ, ◌^◌, ◌<◌, ◌≤◌, add_u64, Bool, true, false, List, [], ◌∷◌, ◌++◌, some, map, All, All-append,
  arith, leb, if◌then◌else◌, length, ◌≡◌, refl, sym, ap, ap₂, subst, ◌∙◌, inl, inr,
}
use ngin_log.Types.{LogRecordView}
use ngin_log.Async.{
  MpscBoundedQueue, OwnedLogRecord, to_owned, delivered_record, try_enqueue, try_dequeue,
}
use ngin_log.Async.Owned.{cut, delivered_record-to_owned}
use ngin_log.Async.Queue
use ngin_log.Async.Queue.{contents, new_queue-IsValid, walk}
use ngin_log.Async.Fifo.{try_enqueue-contents, try_dequeue-contents}
use ngin_log.Async.Sink.{
  new_sink, AsyncOverflowPolicy, drop_newest, block, block_for_timeout, sync_fallback, AsyncSink,
  Outcome, returned, record_drop, record_timeout_drop, update_high_watermark, enqueued,
  try_enqueue_owned, delivered_or_failed, deliver, after_attempt, attempt, write_round, stopped,
  retry_round, consumed, consume_one, shut_down, sub_one,
}
use ngin_log.Async.Sink.Accounting.{Event, writes, retries, consumes, stops, counted, step, run}

-- The records that wait, the oldest first; whether the sink runs; and the wrapped sink.
pub record Pipe (W : Type 0) : Type 0 where
  pub waiting : List LogRecordView
  pub running : Bool
  pub world : W

-- The truncation counts of a record have the width of their type.
pub record IsCounted (r : LogRecordView) : Type 0 where
  pub bytes : r.truncated_bytes < 2 ^ 32
  pub attributes : r.truncated_attribute_count < 2 ^ 32

abbrev pub IsCountedEvent : Event → Type 0
IsCountedEvent (writes in_time r) = IsCounted r
IsCountedEvent (retries in_time r) = IsCounted r
IsCountedEvent _ = Unit {0}

module _ {W : Type 0} (write : LogRecordView → W → Bool × W) where
  -- The wrapped sink is given a record, cut to the capacities of the copy that waits.
  abbrev pub hand_on : LogRecordView → W → W
  hand_on r w = (write (cut r) w).1

  -- A record that finds the pipe full goes on at once under `SyncFallback`, and nowhere otherwise.
  abbrev pub overflow : AsyncOverflowPolicy → LogRecordView → Pipe W → Pipe W
  overflow sync_fallback r p = record p { world = hand_on r p.world }
  overflow _ r p = p

  abbrev pub put : ℕ → AsyncOverflowPolicy → LogRecordView → Pipe W → Pipe W
  put capacity policy r p =
      if p.running
      then if leb capacity (length p.waiting)
        then overflow policy r p
        else record p { waiting = p.waiting ++ r ∷ [] }
      else p

  abbrev pub taken : List LogRecordView → Pipe W → Pipe W
  taken [] p = p
  taken (r ∷ rs) p = record p { waiting = rs; world = hand_on r p.world }

  abbrev pub pipe_step : ℕ → AsyncOverflowPolicy → Event → Pipe W → Pipe W
  pipe_step capacity policy (writes in_time r) p = put capacity policy r p
  pipe_step capacity policy (retries in_time r) p = put capacity policy r p
  pipe_step capacity policy consumes p = taken p.waiting p
  pipe_step capacity policy stops p = record p { running = false }

  unfoldable pub pipe_run : ℕ → AsyncOverflowPolicy → List Event → Pipe W → Pipe W
  pipe_run capacity policy [] p = p
  pipe_run capacity policy (e ∷ es) p = pipe_run capacity policy es (pipe_step capacity policy e p)

  -- The sink holds copies of the records that wait in the pipe, in the same order, and the wrapped
  -- sink is in the same state.
  pub record Follows (k : ℕ) (policy : AsyncOverflowPolicy) (s : AsyncSink W) (p : Pipe W)
      : Type 0 where
    pub valid : Queue.IsValid (2 ^ k) s.queue
    pub wrapped : s.has_sink ≡ true
    pub policy_ : policy ≡ s.overflow_policy
    pub running : s.running ≡ p.running
    pub world : s.world ≡ p.world
    pub holds : contents (2 ^ k) s.queue ≡ map to_owned p.waiting
    pub counted_ : All IsCounted p.waiting

  -- Only the queue, the wrapped sink and three settings matter.
  pub same :
      {k : ℕ} {policy : AsyncOverflowPolicy} {s : AsyncSink W} {p : Pipe W} (t : AsyncSink W)
      → Follows k policy s p
      → t.queue ≡ s.queue
      → t.has_sink ≡ s.has_sink
      → t.overflow_policy ≡ s.overflow_policy
      → t.running ≡ s.running
      → (w : W) → t.world ≡ w
      → Follows k policy t (record p { world = w })
  same {k} t v q h o r w e = record {
    valid = subst (Queue.IsValid (2 ^ k)) (sym q) v.valid;
    wrapped = h ∙ v.wrapped;
    policy_ = v.policy_ ∙ sym o;
    running = r ∙ v.running;
    world = e;
    holds = ap (contents (2 ^ k)) q ∙ v.holds;
    counted_ = v.counted_;
  }

  given :
      {k : ℕ} {policy : AsyncOverflowPolicy} {p : Pipe W} (o : Bool × W) (s : AsyncSink W)
      → Follows k policy s p
      → Follows k policy (delivered_or_failed write o s) (record p { world = o.1 })
  unfolding delivered_or_failed
  given (true, w) s v = same _ v refl refl refl refl w refl
  given (false, w) s v = same _ v refl refl refl refl w refl

  pub deliver-Follows :
      {k : ℕ} {policy : AsyncOverflowPolicy} {p : Pipe W} (r : LogRecordView) (s : AsyncSink W)
      → IsCounted r
      → Follows k policy s p
      → Follows k policy (deliver write (to_owned r) s) (record p { world = hand_on r p.world })
  unfolding deliver
  deliver-Follows {k} {policy} {p} r s c v =
      let w = write (delivered_record (to_owned r)) s.world in
      let same_record : w ≡ write (cut r) p.world =
        ap₂ write (delivered_record-to_owned r c.bytes c.attributes) v.world in
      subst
        (λ b.
          Follows k policy (if b then delivered_or_failed write w s else s)
            (record p { world = hand_on r p.world }))
        (sym v.wrapped)
        (subst (λ o. Follows k policy (delivered_or_failed write w s) (record p { world = o.1 }))
          same_record (given w s v))

  fallback-Follows :
      {k : ℕ} {policy : AsyncOverflowPolicy} {p : Pipe W} (r : LogRecordView) (s : AsyncSink W)
      (n : ℕ) (w : ℕ)
      → IsCounted r
      → Follows k policy s p
      → let t = deliver write (to_owned r) (record s { outstanding = n; fallback_writes = w }) in
        Follows k policy
          (record t { outstanding = sub_one t.outstanding })
          (record p { world = hand_on r p.world })
  fallback-Follows r s n w c v =
      let s' : AsyncSink W = record s { outstanding = n; fallback_writes = w } in
      let d = deliver-Follows r s' c (same s' v refl refl refl refl _ v.world) in
      same _ d refl refl refl refl _ d.world

  -- A call that found no room, under each policy.
  pub full-Follows :
      (k n : ℕ) (policy : AsyncOverflowPolicy) (in_time : Bool) (r : LogRecordView)
      (s : AsyncSink W) (p : Pipe W)
      → policy ≡ s.overflow_policy
      → IsCounted r
      → Follows k policy s p
      → Follows k policy
          (counted n (after_attempt write in_time (to_owned r) (false, s))).1
          (overflow policy r p)
  unfolding after_attempt counted record_drop record_timeout_drop
  full-Follows k n drop_newest in_time r s p e c v = rw⁻¹ e (same _ v refl refl refl refl _ v.world)
  full-Follows k n block in_time r s p e c v = rw⁻¹ e v
  full-Follows k n block_for_timeout true r s p e c v = rw⁻¹ e v
  full-Follows k n block_for_timeout false r s p e c v =
      rw⁻¹ e (same _ v refl refl refl refl _ v.world)
  full-Follows k n sync_fallback in_time r s p e c v = rw⁻¹ e (fallback-Follows r s _ _ c v)
