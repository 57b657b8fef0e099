-- ===== src/Async/Sink/Ending.antt =====
-- The end of the worker: its rounds empty the queue of a sink that was stopped, and it ends.
use ngin_log.Base.{
  ℕ, zero, suc, ◌^◌, ◌≤◌, ◌<◌, Bool, false, not, ◌&&◌, ◌||◌, List, [], ◌∷◌, some, arith, ◌==◌,
  if◌then◌else◌, length, length-drop, take, drop, take-nil, take-append-drop, ◌≡◌, inl, inr, refl,
  sym, ap, ap₂, ◌∙◌, Bool-cases,
}
use ngin_log.Async.{OwnedLogRecord}
use ngin_log.Async.Queue.{contents}
use ngin_log.Async.Sink.{AsyncSink, returned, waits}
use ngin_log.Async.Sink.Draining.{
  IsReady, IsStepped, write_each, write_report, drain-IsStepped, size_contents,
}
use ngin_log.Async.Sink.Worker.{
  Setting, finish, drain, worker_round, worker_rounds, flush_round, consume_loop,
}
use ngin_log.Async.Sink.Reporting.{
  served, left_over, write_each_append, report-IsStepped, write_report_again, left_over_again,
  finish-IsStepped,
}

drop-nil : (n : ℕ) → drop {A = OwnedLogRecord} n [] ≡ []
drop-nil zero = refl
drop-nil (suc n) = refl

no_length : (xs : List OwnedLogRecord) → length xs ≡ 0 → xs ≡ []
no_length [] e = refl
no_length (x ∷ xs) e = absurd (omega (arith, e))

nonzero : (n : ℕ) → (n == 0) ≡ false → 0 < n
nonzero n e = ground arith

module _ {W : Type 0} (g : Setting W) where
  -- The worker's end: no record is left, none counts as outstanding, and the wrapped sink was served.
  pub record IsEnded (k : ℕ) (s t : AsyncSink W) : Type 0 where
    pub emptied : t.queue.size ≡ 0
    pub none_outstanding : t.outstanding ≡ 0
    pub unreported : t.unreported_dropped ≡ left_over g s.unreported_dropped
    pub world : t.world ≡ served g s.unreported_dropped (contents (2 ^ k) s.queue) s.world

  module _ (k : ℕ) (fits : 2 ^ k < 2 ^ 64) where
    round-IsStepped :
        (s : AsyncSink W)
        → IsReady k s
        → IsStepped g k s
            (worker_round g (2 ^ k) s)
            (left_over g s.unreported_dropped)
            (drop g.batch_size (contents (2 ^ k) s.queue))
            (write_report g s.unreported_dropped
              (write_each g (take g.batch_size (contents (2 ^ k) s.queue)) s.world))
    unfolding worker_round
    round-IsStepped s r =
        let a = drain-IsStepped g k fits g.batch_size s (contents (2 ^ k) s.queue) r refl in
        let b = report-IsStepped g k (drain g (2 ^ k) g.batch_size s) a.ready in
        record {
          ready = b.ready;
          running = b.running ∙ a.running;
          unreported = b.unreported ∙ ap (left_over g) a.unreported;
          holds = b.holds ∙ a.holds;
          world = b.world ∙ ap₂ (write_report g) a.unreported a.world;
        }

    loop_end :
        (s : AsyncSink W) → IsReady k s → contents (2 ^ k) s.queue ≡ [] → IsEnded k s (finish g s)
    unfolding write_each
    loop_end s r e =
        let h = finish-IsStepped g k s r in
        let size : (finish g s).queue.size ≡ 0 =
          sym (size_contents g k fits (finish g s).queue h.ready.valid) ∙ ap length (h.holds ∙ e) in
        record {
          emptied = size;
          none_outstanding = h.ready.waiting ∙ size;
          unreported = h.unreported;
          world =
              h.world
              ∙ sym (
                  ap (λ xs. served g s.unreported_dropped xs s.world) e
                  ∙ ap₂
                      (λ xs ys.
                        (g.flush (
                          write_each g xs
                            (write_report g s.unreported_dropped (write_each g ys s.world)))).1)
                      (drop-nil g.batch_size) (take-nil g.batch_size));
        }

    served_further :
        (d : ℕ) (xs : List OwnedLogRecord) (w : W)
        → served g (left_over g d) xs w ≡ (g.flush (write_each g xs w)).1
    served_further d xs w =
        ap (λ u. (g.flush (write_each g (drop g.batch_size xs) u)).1)
          (write_report_again g d (write_each g (take g.batch_size xs) w))
        ∙ ap (λ u. (g.flush u).1)
            (sym (write_each_append g (take g.batch_size xs) (drop g.batch_size xs) w)
              ∙ ap (λ l. write_each g l w) (take-append-drop g.batch_size xs))

    pub loop-IsEnded :
        (fuel : ℕ) (s : AsyncSink W)
        → IsReady k s
        → s.running ≡ false
        → 0 < g.batch_size
        → length (contents (2 ^ k) s.queue) < fuel
        → (t : AsyncSink W) × (consume_loop g (2 ^ k) fuel s ≡ some t) × IsEnded k s t
    unfolding consume_loop
    loop-IsEnded zero s r stopped some_ less = absurd (omega arith)
    loop-IsEnded (suc fuel) s r stopped some_ less =
        let xs = contents (2 ^ k) s.queue in
        let size = size_contents g k fits s.queue r.valid in
        let u = worker_round g (2 ^ k) s in
        let next = λ (run empty : Bool).
          if run || not empty then consume_loop g (2 ^ k) fuel u else some (finish g s) in
        elim (Bool-cases (s.queue.size == 0)) [
          | inl z ↦ (
            finish g s,
            ap₂ next stopped z,
            loop_end s r (no_length xs (ground (arith, size, z))),
          )
          | inr z ↦
              let h = round-IsStepped s r in
              let shorter : length (contents (2 ^ k) u.queue) < fuel = omega (
                arith,
                ap length h.holds,
                length-drop g.batch_size xs,
                size,
                nonzero s.queue.size z,
              ) in
              let (t, ends, v) = loop-IsEnded fuel u h.ready (h.running ∙ stopped) some_ shorter in
              (
                t,
                ap₂ next stopped z ∙ ends,
                record {
                  emptied = v.emptied;
                  none_outstanding = v.none_outstanding;
                  unreported =
                      v.unreported
                      ∙ ap (left_over g) h.unreported
                      ∙ left_over_again g s.unreported_dropped;
                  world =
                      v.world
                      ∙ ap (λ d. served g d (contents (2 ^ k) u.queue) u.world) h.unreported
                      ∙ ap₂ (served g (left_over g s.unreported_dropped)) h.holds h.world
                      ∙ served_further s.unreported_dropped (drop g.batch_size xs) _;
                },
              )
        ]

    -- So many rounds as there are records empty the queue.
    pub rounds-IsReady :
        (n : ℕ) (s : AsyncSink W)
        → IsReady k s
        → 0 < g.batch_size
        → length (contents (2 ^ k) s.queue) ≤ n
        → IsReady k (worker_rounds g (2 ^ k) n s)
          × (contents (2 ^ k) (worker_rounds g (2 ^ k) n s).queue ≡ [])
    unfolding worker_rounds
    rounds-IsReady zero s r some_ less = (r, no_length (contents (2 ^ k) s.queue) (omega arith))
    rounds-IsReady (suc n) s r some_ less =
        let h = round-IsStepped s r in
        rounds-IsReady n (worker_round g (2 ^ k) s) h.ready some_
          (omega (arith, ap length h.holds, length-drop g.batch_size (contents (2 ^ k) s.queue)))

    pub flush-returned :
        (s : AsyncSink W)
        → IsReady k s
        → contents (2 ^ k) s.queue ≡ []
        → (flush_round g s ≡ returned (finish g s)) × IsEnded k s (finish g s)
    unfolding flush_round
    flush-returned s r e =
        let size : s.queue.size ≡ 0 = sym (size_contents g k fits s.queue r.valid) ∙ ap length e in
        (
          ap₂ (λ (o n : ℕ). if o == 0 && n == 0 then returned (finish g s) else waits s)
              (r.waiting ∙ size) size,
          loop_end s r e,
        )
