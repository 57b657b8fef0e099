-- ===== src/Async/Sink/Pipe/Runs.antt =====
-- The asynchronous sink of include/NGIN/Log/Sinks/AsyncSink.hpp follows the pipe of Async/Sink/Pipe
-- through any run.
use ngin_log.Base.{
  ℕ, ◌^◌, add_u64, Bool, true, false, List, [], ◌∷◌, ◌++◌, some, map, All, All-append, arith, leb,
  if◌then◌else◌, length, ◌≡◌, refl, sym, ap, subst, ◌∙◌, inl, inr,
}
use ngin_log.Types.{LogRecordView}
use ngin_log.Async.{MpscBoundedQueue, OwnedLogRecord, to_owned, try_enqueue}
use ngin_log.Async.Queue.{contents, new_queue-IsValid, walk}
use ngin_log.Async.Fifo.{try_enqueue-contents, try_dequeue-contents}
use ngin_log.Async.Sink.{
  new_sink, AsyncOverflowPolicy, drop_newest, block, block_for_timeout, sync_fallback, AsyncSink,
  Outcome, returned, record_drop, record_timeout_drop, update_high_watermark, enqueued,
  try_enqueue_owned, after_attempt, attempt, write_round, stopped, retry_round, consumed,
  consume_one, shut_down, sub_one,
}
use ngin_log.Async.Sink.Accounting.{Event, writes, retries, consumes, stops, counted, step, run}
use ngin_log.Async.Sink.Pipe.{
  Pipe, IsCounted, IsCountedEvent, overflow, taken, pipe_step, pipe_run, Follows, same,
  deliver-Follows, full-Follows,
}

module _ {W : Type 0} (write : LogRecordView → W → Bool × W) where
  map-append_one :
      (rs : List LogRecordView) (r : LogRecordView)
      → map to_owned (rs ++ r ∷ []) ≡ map to_owned rs ++ to_owned r ∷ []
  map-append_one [] r = refl
  map-append_one (x ∷ rs) r = ap (λ l. to_owned x ∷ l) (map-append_one rs r)

  pub length-map-to_owned : (rs : List LogRecordView) → length (map to_owned rs) ≡ length rs
  length-map-to_owned [] = refl
  length-map-to_owned (r ∷ rs) = omega (arith, length-map-to_owned rs)

  -- What a pipe of so many records does with one more.
  abbrev put_if : Bool → AsyncOverflowPolicy → LogRecordView → Pipe W → Pipe W
  put_if b policy r p =
      if b then overflow write policy r p else record p { waiting = p.waiting ++ r ∷ [] }

  attempt-Follows :
      (k n : ℕ) (policy : AsyncOverflowPolicy) (in_time : Bool) (r : LogRecordView)
      (s : AsyncSink W) (p : Pipe W)
      → IsCounted r
      → Follows write k policy s p
      → Follows write k policy
          (counted n (attempt write (2 ^ k) in_time (to_owned r) s)).1
          (put_if (leb (2 ^ k) (length p.waiting)) policy r p)
  unfolding attempt try_enqueue_owned enqueued update_high_watermark counted after_attempt
  attempt-Follows k n policy in_time r s p c v =
      let s' : AsyncSink W = record s { outstanding = add_u64 s.outstanding 1 } in
      let size : length (contents (2 ^ k) s.queue) ≡ length p.waiting =
        ap length v.holds ∙ length-map-to_owned p.waiting in
      let after = λ (o : Bool × MpscBoundedQueue OwnedLogRecord).
        (counted n (after_attempt write in_time (to_owned r) (enqueued o s'))).1 in
      elim (try_enqueue-contents k s.queue (to_owned r) v.valid) [
        | inl (full, e) ↦
            let u : AsyncSink W = record s' { outstanding = sub_one s'.outstanding } in
            subst
              (λ b.
                Follows write k policy (after (try_enqueue (2 ^ k) s.queue (to_owned r)))
                  (put_if b policy r p))
              (sym full ∙ ap (leb (2 ^ k)) size)
              (subst (λ o. Follows write k policy (after o) (overflow write policy r p)) (sym e)
                (full-Follows write k n policy in_time r u p v.policy_ c
                  (same write u v refl refl refl refl _ v.world)))
        | inr (q, room, e, held, valid) ↦
            let grown : Pipe W = record p { waiting = p.waiting ++ r ∷ [] } in
            subst
              (λ b.
                Follows write k policy (after (try_enqueue (2 ^ k) s.queue (to_owned r)))
                  (put_if b policy r p))
              (sym room ∙ ap (leb (2 ^ k)) size)
              (subst (λ o. Follows write k policy (after o) grown) (sym e)
                (record {
                  valid = valid;
                  wrapped = v.wrapped;
                  policy_ = v.policy_;
                  running = v.running;
                  world = v.world;
                  holds =
                      held
                      ∙ ap (λ l. l ++ to_owned r ∷ []) v.holds
                      ∙ sym (map-append_one p.waiting r);
                  counted_ = All-append IsCounted p.waiting (r ∷ []) v.counted_ (c, tt);
                }))
      ]

  -- What a sink that does not run makes of a call: nothing but a count.
  stopped-Follows :
      (q : AsyncOverflowPolicy) {k : ℕ} {policy : AsyncOverflowPolicy} {p : Pipe W} (n : ℕ)
      (s : AsyncSink W)
      → Follows write k policy s p
      → Follows write k policy (counted n (stopped write q s)).1 p
  unfolding stopped counted record_drop record_timeout_drop
  stopped-Follows drop_newest n s v = same write _ v refl refl refl refl _ v.world
  stopped-Follows block n s v = same write _ v refl refl refl refl _ v.world
  stopped-Follows block_for_timeout n s v = same write _ v refl refl refl refl _ v.world
  stopped-Follows sync_fallback n s v = same write _ v refl refl refl refl _ v.world

  consume-Follows :
      {k : ℕ} {policy : AsyncOverflowPolicy} (s : AsyncSink W) (rs : List LogRecordView)
      (p : Pipe W)
      → p.waiting ≡ rs
      → Follows write k policy s p
      → Follows write k policy (consume_one write (2 ^ k) s) (taken write rs p)
  unfolding consume_one consumed
  consume-Follows {k} {policy} s [] p none_ v = elim (try_dequeue-contents k s.queue v.valid) [
    | inl (e, _) ↦ subst (λ o. Follows write k policy (consumed write o s) p) (sym e) v
    | inr (x, q, e, held, valid) ↦
        let ne : x ∷ contents (2 ^ k) q ≡ [] = sym held ∙ v.holds ∙ ap (map to_owned) none_ in cc
  ]
  consume-Follows {k} {policy} s (r ∷ rs) p first v =
      elim (try_dequeue-contents k s.queue v.valid) [
        | inl (e, empty) ↦
            let ne : [] ≡ to_owned r ∷ map to_owned rs =
              sym empty ∙ v.holds ∙ ap (map to_owned) first in
            cc
        | inr (x, q, e, held, valid) ↦
            let whole : x ∷ contents (2 ^ k) q ≡ to_owned r ∷ map to_owned rs =
              sym held ∙ v.holds ∙ ap (map to_owned) first in
            let head : to_owned r ≡ x = cc in
            let tail : contents (2 ^ k) q ≡ map to_owned rs = cc in
            let (c, cs) = subst (All IsCounted) first v.counted_ in
            let d =
              deliver-Follows write {p = record p { waiting = rs }} r (record s { queue = q }) c
                (record {
                  valid = valid;
                  wrapped = v.wrapped;
                  policy_ = v.policy_;
                  running = v.running;
                  world = v.world;
                  holds = tail;
                  counted_ = cs;
                }) in
            subst (λ o. Follows write k policy (consumed write o s) (taken write (r ∷ rs) p))
              (sym e)
              (subst
                (λ y.
                  Follows write k policy (consumed write (some y, q) s) (taken write (r ∷ rs) p))
                head (same write _ d refl refl refl refl _ d.world))
      ]

  if_running :
      {k : ℕ} (n : ℕ) {policy : AsyncOverflowPolicy} {p p' : Pipe W} (b : Bool) (x y : Outcome W)
      → Follows write k policy (counted n x).1 p'
      → Follows write k policy (counted n y).1 p
      → Follows write k policy (counted n (if b then x else y)).1 (if b then p' else p)
  if_running n true x y hx hy = hx
  if_running n false x y hx hy = hy

  pub step-Follows :
      (k n : ℕ) (policy : AsyncOverflowPolicy) (e : Event) (s : AsyncSink W) (p : Pipe W)
      → IsCountedEvent e
      → Follows write k policy s p
      → Follows write k policy (step write (2 ^ k) e (n, s)).1 (pipe_step write (2 ^ k) policy e p)
  unfolding step write_round retry_round shut_down
  step-Follows k n policy (writes in_time r) s p c v =
      subst
        (λ b.
          Follows write k policy (step write (2 ^ k) (writes in_time r) (n, s)).1
            (if b then put_if (leb (2 ^ k) (length p.waiting)) policy r p else p))
        v.running
        (if_running n s.running (attempt write (2 ^ k) in_time (to_owned r) s)
          (returned (record_drop s)) (attempt-Follows k n policy in_time r s p c v)
          (stopped-Follows drop_newest n s v))
  step-Follows k n policy (retries in_time r) s p c v =
      subst
        (λ b.
          Follows write k policy (step write (2 ^ k) (retries in_time r) (n, s)).1
            (if b then put_if (leb (2 ^ k) (length p.waiting)) policy r p else p))
        v.running
        (if_running n s.running (attempt write (2 ^ k) in_time (to_owned r) s)
          (stopped write s.overflow_policy s) (attempt-Follows k n policy in_time r s p c v)
          (stopped-Follows s.overflow_policy n s v))
  step-Follows k n policy consumes s p c v = consume-Follows s p.waiting p refl v
  step-Follows k n policy stops s p c v = record {
    valid = v.valid;
    wrapped = v.wrapped;
    policy_ = v.policy_;
    running = refl;
    world = v.world;
    holds = v.holds;
    counted_ = v.counted_;
  }

  run-from :
      (k n : ℕ) (policy : AsyncOverflowPolicy) (es : List Event) (s : AsyncSink W) (p : Pipe W)
      → All IsCountedEvent es
      → Follows write k policy s p
      → Follows write k policy (run write (2 ^ k) es (n, s)).1 (pipe_run write (2 ^ k) policy es p)
  unfolding run pipe_run
  run-from k n policy [] s p c v = v
  run-from k n policy (e ∷ es) s p (c, cs) v =
      let (m, t) = step write (2 ^ k) e (n, s) in
      run-from k m policy es t (pipe_step write (2 ^ k) policy e p) cs
        (step-Follows k n policy e s p c v)

  pub new_sink-Follows :
      (k : ℕ) (policy : AsyncOverflowPolicy) (blank : OwnedLogRecord) (world : W)
      → Follows write k policy
          (new_sink (2 ^ k) policy blank world)
          (record { waiting = []; running = true; world = world })
  unfolding walk
  new_sink-Follows k policy blank world = record {
    valid = new_queue-IsValid k blank;
    wrapped = refl;
    policy_ = refl;
    running = refl;
    world = refl;
    holds = refl;
    counted_ = tt;
  }

  -- A sink of a capacity `2^k` is constructed around another, and calls of `Write`, their further rounds,
  -- deliveries by the worker and a shutdown come in any order. It then holds copies of exactly the records
  -- that wait in the abstract pipe, in their order, and has done to the wrapped sink what the pipe has: a
  -- record waits where there is room and the sink runs, the oldest goes on first, cut to the capacities of
  -- a copy, and one that finds no room goes on at once under `SyncFallback` and not at all otherwise.
  pub run-Follows :
      (k : ℕ) (policy : AsyncOverflowPolicy) (blank : OwnedLogRecord) (world : W) (es : List Event)
      → All IsCountedEvent es
      → Follows write k policy (run write (2 ^ k) es (0, new_sink (2 ^ k) policy blank world)).1 (
          pipe_run write (2 ^ k) policy es (record { waiting = []; running = true; world = world }))
  run-Follows k policy blank world es c =
      run-from k 0 policy es (new_sink (2 ^ k) policy blank world)
        (record { waiting = []; running = true; world = world }) c
        (new_sink-Follows k policy blank world)
