-- ===== src/Logger/Dispatch.antt =====
-- What a dispatch does to the sinks, to the error counter and to the recursion flag.
use ngin_log.Base.{
  ℕ, true, false, List, [], ◌∷◌, ◌++◌, Option, none, some, ◌≡◌, ◌≢◌, refl, ap, Bool-cases, inl, inr,
}
use ngin_log.Level.{LogLevel}
use ngin_log.Types.{SourceLocation, LogRecordView}
use ngin_log.Builder.{RecordBuilder}
use ngin_log.Logger.{
  State, count_error, get_sinks_snapshot, make_record, Sinks, enter, leave, write_all, dispatch_to,
  dispatch,
}

-- The sinks of a snapshot that are there.
unfoldable pub live : List (Option ℕ) → List ℕ
live [] = []
live (none ∷ sinks) = live sinks
live (some i ∷ sinks) = i ∷ live sinks

-- Sinks that reach nothing of the logger and of its thread: each write and flush changes what is
-- outside.
abbrev pub outside : {W : Type 0} → (ℕ → LogRecordView → W → W) → (ℕ → W → W) → Sinks W
outside write flush = record {
  write = λ i r s. record s { world = write i r s.world };
  flush = λ i s. record s { world = flush i s.world };
}

-- Each of the sinks is given the record, one after the other.
unfoldable pub deliver_all :
    {W : Type 0} → (ℕ → LogRecordView → W → W) → List ℕ → LogRecordView → W → W
deliver_all write [] r w = w
deliver_all write (i ∷ is) r w = deliver_all write is r (write i r w)

-- Sinks that only note what they are given.
abbrev pub Delivered : Type 0
Delivered = List (ℕ × LogRecordView)

abbrev pub note : ℕ → LogRecordView → Delivered → Delivered
note i r w = w ++ (i, r) ∷ []

abbrev pub noting : Sinks Delivered
noting = outside note (λ i w. w)

module _ {W : Type 0} (write : ℕ → LogRecordView → W → W) (flush : ℕ → W → W) where
  -- The state after deliveries.
  abbrev pub after : List ℕ → LogRecordView → State W → State W
  after is r s = record s { world = deliver_all write is r s.world }

  write_all-after :
      (sinks : List (Option ℕ)) (r : LogRecordView) (s : State W)
      → write_all (outside write flush) sinks r s ≡ after (live sinks) r s
  unfolding write_all live deliver_all
  write_all-after [] r s = refl
  write_all-after (none ∷ sinks) r s = write_all-after sinks r s
  write_all-after (some i ∷ sinks) r s =
      write_all-after sinks r (record s { world = write i r s.world })

  dispatch_to-after :
      (sinks : List (Option ℕ)) (level : LogLevel) (b : RecordBuilder) (source : SourceLocation)
      (now hash : ℕ) (s : State W)
      → s.in_dispatch ≡ false
      → dispatch_to (outside write flush) sinks level b source now hash s
        ≡ after (live sinks) (make_record s.logger.name s.context level b source now hash) s
  unfolding dispatch_to live deliver_all
  dispatch_to-after [] level b source now hash s idle = refl
  dispatch_to-after (i ∷ sinks) level b source now hash s idle =
      let r = make_record s.logger.name s.context level b source now hash in
      rw (idle, dispatch_to) (ap leave (write_all-after (i ∷ sinks) r (enter s)))

dispatch_to_guarded :
    {W : Type 0} (k : Sinks W) (sinks : List (Option ℕ)) (level : LogLevel) (b : RecordBuilder)
    (source : SourceLocation) (now hash : ℕ) (s : State W)
    → (s.in_dispatch ≡ true
        → sinks ≢ []
        → dispatch_to k sinks level b source now hash s
          ≡ record s { logger = count_error s.logger })
      × ((dispatch_to k sinks level b source now hash s).in_dispatch ≡ s.in_dispatch)
unfolding dispatch_to
dispatch_to_guarded k [] level b source now hash s = ((λ e ne. absurd (ne refl)), refl)
dispatch_to_guarded k (i ∷ sinks) level b source now hash s =
    ((λ e ne. rw e), elim (Bool-cases s.in_dispatch) [ inl e ↦ rw e | inr e ↦ rw (e, dispatch_to) ])

-- Sinks are given that do anything outside the logger and its thread. A dispatch that is not inside another
-- gives one and the same record, of the thread's context and the builder, to every sink of the snapshot
-- that is there, once, in order; and nothing of the logger, its error counter, the context and the
-- recursion flag changes.
pub dispatch-after :
    {W : Type 0} (write : ℕ → LogRecordView → W → W) (flush : ℕ → W → W) (level : LogLevel)
    (b : RecordBuilder) (source : SourceLocation) (now hash : ℕ) (s : State W)
    → s.in_dispatch ≡ false
    → dispatch (outside write flush) level b source now hash s
      ≡ after write flush
          (live (get_sinks_snapshot s.logger))
          (make_record s.logger.name s.context level b source now hash)
          s
unfolding dispatch
dispatch-after write flush level b source now hash s idle =
    dispatch_to-after write flush (get_sinks_snapshot s.logger) level b source now hash s idle

-- The recursion guard: whatever the sinks do, a dispatch inside another, as when a sink logs on its
-- own thread while it is written to, writes to no sink and counts one error, if the snapshot has
-- any sinks at all.
pub dispatch_nested :
    {W : Type 0} (k : Sinks W) (level : LogLevel) (b : RecordBuilder) (source : SourceLocation)
    (now hash : ℕ) (s : State W)
    → s.in_dispatch ≡ true
    → get_sinks_snapshot s.logger ≢ []
    → dispatch k level b source now hash s ≡ record s { logger = count_error s.logger }
unfolding dispatch
dispatch_nested k level b source now hash s =
    (dispatch_to_guarded k (get_sinks_snapshot s.logger) level b source now hash s).0

-- A dispatch leaves the thread's recursion flag as it found it, whatever the sinks do to it.
pub in_dispatch-dispatch :
    {W : Type 0} (k : Sinks W) (level : LogLevel) (b : RecordBuilder) (source : SourceLocation)
    (now hash : ℕ) (s : State W)
    → (dispatch k level b source now hash s).in_dispatch ≡ s.in_dispatch
unfolding dispatch
in_dispatch-dispatch k level b source now hash s =
    (dispatch_to_guarded k (get_sinks_snapshot s.logger) level b source now hash s).1
