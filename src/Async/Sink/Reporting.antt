-- ===== src/Async/Sink/Reporting.antt =====
-- What drop reports, flushes and the last steps of the worker leave of the sink.
use ngin_log.Base.{
  ℕ, ◌^◌, Bool, true, false, not, ◌||◌, List, [], ◌∷◌, ◌++◌, ◌==◌, if◌then◌else◌, take, drop, ◌≡◌,
  inl, inr, refl, sym, ap, subst, ◌∙◌, Bool-cases,
}
use ngin_log.Async.{OwnedLogRecord, delivered_record}
use ngin_log.Async.Queue.{contents}
use ngin_log.Async.Sink.{AsyncSink}
use ngin_log.Async.Sink.Draining.{IsReady, IsStepped, write_each, write_report}
use ngin_log.Async.Sink.Worker.{
  Setting, drop_report, done_or_failed, emit_drop_report_if_needed_locked, report_if_wanted,
  flush_wrapped_sink, finish,
}

module _ {W : Type 0} (g : Setting W) where
  -- The wrapped sink after the worker's last rounds over the records `xs`: a first batch, the report of
  -- the drops, the other records, and a flush.
  abbrev pub served : ℕ → List OwnedLogRecord → W → W
  served dropped xs w =
      (g.flush (
        write_each g (drop g.batch_size xs)
          (write_report g dropped (write_each g (take g.batch_size xs) w)))).1

  abbrev pub left_over : ℕ → ℕ
  left_over dropped = if g.emit_drop_reports then 0 else dropped

  pub write_each_append :
      (xs ys : List OwnedLogRecord) (w : W)
      → write_each g (xs ++ ys) w ≡ write_each g ys (write_each g xs w)
  unfolding write_each
  write_each_append [] ys w = refl
  write_each_append (x ∷ xs) ys w = write_each_append xs ys (g.write (delivered_record x) w).1

  pub done-IsStepped :
      (k : ℕ) (p : Bool × W) (s : AsyncSink W)
      → IsReady k s
      → IsStepped g k s (done_or_failed g p s) s.unreported_dropped (contents (2 ^ k) s.queue) p.1
  unfolding done_or_failed
  done-IsStepped k (true, w) s r = record {
    ready = record { valid = r.valid; waiting = r.waiting; wrapped = r.wrapped };
    running = refl;
    unreported = refl;
    holds = refl;
    world = refl;
  }
  done-IsStepped k (false, w) s r = record {
    ready = record { valid = r.valid; waiting = r.waiting; wrapped = r.wrapped };
    running = refl;
    unreported = refl;
    holds = refl;
    world = refl;
  }

  -- A report forgets the drops that it reports.
  pub emit-IsStepped :
      (k : ℕ) (s : AsyncSink W)
      → IsReady k s
      → IsStepped g k s (emit_drop_report_if_needed_locked g s) 0 (contents (2 ^ k) s.queue) (
          if s.unreported_dropped == 0
          then s.world
          else (g.write (drop_report g s.unreported_dropped s.world) s.world).1)
  unfolding emit_drop_report_if_needed_locked
  emit-IsStepped k s r =
      let d = s.unreported_dropped in
      let p = g.write (drop_report g d s.world) s.world in
      let t : AsyncSink W = record s { unreported_dropped = 0 } in
      let r' : IsReady k t = record { valid = r.valid; waiting = r.waiting; wrapped = r.wrapped } in
      let goal : Bool → Bool → Type 0 = λ none_ wrapped.
        IsStepped g k s (if none_ || not wrapped then t else done_or_failed g p t) 0
          (contents (2 ^ k) s.queue) (if none_ then s.world else p.1) in
      subst (goal (d == 0)) (sym r.wrapped) (elim (Bool-cases (d == 0)) [
        | inl e ↦
            subst (λ b. goal b true) (sym e)
              (record { ready = r'; running = refl; unreported = refl; holds = refl; world = refl })
        | inr e ↦
            let h = done-IsStepped k p t r' in
            subst (λ b. goal b true) (sym e)
              (record {
                ready = h.ready;
                running = h.running;
                unreported = h.unreported;
                holds = h.holds;
                world = h.world;
              })
      ])

  pub report-IsStepped :
      (k : ℕ) (s : AsyncSink W)
      → IsReady k s
      → IsStepped g k s
          (report_if_wanted g s)
          (left_over s.unreported_dropped)
          (contents (2 ^ k) s.queue)
          (write_report g s.unreported_dropped s.world)
  unfolding report_if_wanted write_report
  report-IsStepped k s r =
      let h = emit-IsStepped k s r in
      let d = s.unreported_dropped in
      let w = if d == 0 then s.world else (g.write (drop_report g d s.world) s.world).1 in
      let goal : Bool → Type 0 = λ b.
        IsStepped g k s (if b then emit_drop_report_if_needed_locked g s else s)
          (if b then 0 else d) (contents (2 ^ k) s.queue) (if b then w else s.world) in
      elim (Bool-cases g.emit_drop_reports) [
        | inl e ↦ subst goal (sym e) h
        | inr e ↦
            subst goal (sym e)
              (record { ready = r; running = refl; unreported = refl; holds = refl; world = refl })
      ]

  -- Nothing more is reported behind a report.
  pub write_report_again : (d : ℕ) (w : W) → write_report g (left_over d) w ≡ w
  unfolding write_report
  write_report_again d w = elim (Bool-cases g.emit_drop_reports) [
    | inl e ↦ rw e refl
    | inr e ↦ rw e refl
  ]

  pub left_over_again : (d : ℕ) → left_over (left_over d) ≡ left_over d
  left_over_again d = elim (Bool-cases g.emit_drop_reports) [
    | inl e ↦ rw e refl
    | inr e ↦ rw e refl
  ]

  pub flush-IsStepped :
      (k : ℕ) (s : AsyncSink W)
      → IsReady k s
      → IsStepped g k s
          (flush_wrapped_sink g s)
          s.unreported_dropped
          (contents (2 ^ k) s.queue)
          (g.flush s.world).1
  unfolding flush_wrapped_sink
  flush-IsStepped k s r =
      let h = done-IsStepped k (g.flush s.world) s r in
      subst
        (λ b.
          IsStepped g k s (if b then done_or_failed g (g.flush s.world) s else s)
            s.unreported_dropped (contents (2 ^ k) s.queue) (g.flush s.world).1)
        (sym r.wrapped) h

  pub finish-IsStepped :
      (k : ℕ) (s : AsyncSink W)
      → IsReady k s
      → IsStepped g k s
          (finish g s)
          (left_over s.unreported_dropped)
          (contents (2 ^ k) s.queue)
          (g.flush (write_report g s.unreported_dropped s.world)).1
  unfolding finish
  finish-IsStepped k s r =
      let a = report-IsStepped k s r in
      let b = flush-IsStepped k (report_if_wanted g s) a.ready in
      record {
        ready = b.ready;
        running = b.running ∙ a.running;
        unreported = b.unreported ∙ a.unreported;
        holds = b.holds ∙ a.holds;
        world = b.world ∙ ap (λ w. (g.flush w).1) a.world;
      }
