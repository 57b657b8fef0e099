-- ===== src/Async/Sink/Pipe/Noted.antt =====
-- The pipe of Async/Sink/Pipe in front of a list: which records go on to the wrapped sink, and in which
-- order, does not depend on what that sink is.
use ngin_log.Base.{
  ℕ, Bool, true, false, List, [], ◌∷◌, ◌++◌, leb, if◌then◌else◌, length, ◌≡◌, refl, sym, ap, ◌∙◌,
}
use ngin_log.Types.{LogRecordView}
use ngin_log.Async.Owned.{cut}
use ngin_log.Async.Sink.{AsyncOverflowPolicy, drop_newest, block, block_for_timeout, sync_fallback}
use ngin_log.Async.Sink.Accounting.{Event, writes, retries, consumes, stops}
use ngin_log.Async.Sink.Pipe.{Pipe, overflow, put, taken, pipe_step, pipe_run}

-- A wrapped sink that notes its records.
abbrev pub note : LogRecordView → List LogRecordView → Bool × List LogRecordView
note r rs = (false, rs ++ r ∷ [])

abbrev pub empty_pipe : Pipe (List LogRecordView)
empty_pipe = record { waiting = []; running = true; world = [] }

abbrev pub noted : List LogRecordView → List LogRecordView → List LogRecordView
noted [] rs = rs
noted (r ∷ waiting) rs = noted waiting (rs ++ cut r ∷ [])

-- The records that go on through a run of the pipe, and behind it those that still wait.
abbrev pub passed : ℕ → AsyncOverflowPolicy → List Event → List LogRecordView
passed capacity policy es =
    let p = pipe_run note capacity policy es empty_pipe in noted p.waiting p.world

module _ {W : Type 0} (write : LogRecordView → W → Bool × W) where
  unfoldable pub give_all : List LogRecordView → W → W
  give_all [] w = w
  give_all (r ∷ rs) w = give_all rs (write r w).1

  pub give_all-append_one :
      (rs : List LogRecordView) (r : LogRecordView) (w : W)
      → give_all (rs ++ r ∷ []) w ≡ (write r (give_all rs w)).1
  unfolding give_all
  give_all-append_one [] r w = refl
  give_all-append_one (x ∷ rs) r w = give_all-append_one rs r (write x w).1

  module _ (world : W) where
    -- The pipe in front of the sink, where the list has noted what the sink was given.
    abbrev pub given_pipe : Pipe (List LogRecordView) → Pipe W
    given_pipe p = record {
      waiting = p.waiting;
      running = p.running;
      world = give_all p.world world;
    }

    hand_on-given :
        (r : LogRecordView) (waiting : List LogRecordView) (running : Bool)
        (rs : List LogRecordView)
        → ◌≡◌ {A = Pipe W}
            (record {
              waiting = waiting;
              running = running;
              world = (write (cut r) (give_all rs world)).1;
            })
            (given_pipe (record { waiting = waiting; running = running; world = rs ++ cut r ∷ [] }))
    hand_on-given r waiting running rs =
        ap (λ (w : W). record { waiting = waiting; running = running; world = w })
          (sym (give_all-append_one rs (cut r) world))

    overflow-given :
        (policy : AsyncOverflowPolicy) (r : LogRecordView) (p : Pipe (List LogRecordView))
        → overflow write policy r (given_pipe p) ≡ given_pipe (overflow note policy r p)
    overflow-given drop_newest r p = refl
    overflow-given block r p = refl
    overflow-given block_for_timeout r p = refl
    overflow-given sync_fallback r p = hand_on-given r p.waiting p.running p.world

    put_by :
        (runs full : Bool) (policy : AsyncOverflowPolicy) (r : LogRecordView)
        (p : Pipe (List LogRecordView))
        → (if runs
            then if full
              then overflow write policy r (given_pipe p)
              else record (given_pipe p) { waiting = p.waiting ++ r ∷ [] }
            else given_pipe p)
          ≡ given_pipe (
              if runs
              then if full
                then overflow note policy r p
                else record p { waiting = p.waiting ++ r ∷ [] }
              else p)
    put_by true true policy r p = overflow-given policy r p
    put_by true false policy r p = refl
    put_by false full policy r p = refl

    put-given :
        (capacity : ℕ) (policy : AsyncOverflowPolicy) (r : LogRecordView)
        (p : Pipe (List LogRecordView))
        → put write capacity policy r (given_pipe p) ≡ given_pipe (put note capacity policy r p)
    put-given capacity policy r p = put_by p.running (leb capacity (length p.waiting)) policy r p

    taken-given :
        (waiting : List LogRecordView) (p : Pipe (List LogRecordView))
        → taken write waiting (given_pipe p) ≡ given_pipe (taken note waiting p)
    taken-given [] p = refl
    taken-given (r ∷ rs) p = hand_on-given r rs p.running p.world

    step-given :
        (capacity : ℕ) (policy : AsyncOverflowPolicy) (e : Event) (p : Pipe (List LogRecordView))
        → pipe_step write capacity policy e (given_pipe p)
          ≡ given_pipe (pipe_step note capacity policy e p)
    step-given capacity policy (writes in_time r) p = put-given capacity policy r p
    step-given capacity policy (retries in_time r) p = put-given capacity policy r p
    step-given capacity policy consumes p = taken-given p.waiting p
    step-given capacity policy stops p = refl

    pub run-given :
        (capacity : ℕ) (policy : AsyncOverflowPolicy) (es : List Event)
        (p : Pipe (List LogRecordView))
        → pipe_run write capacity policy es (given_pipe p)
          ≡ given_pipe (pipe_run note capacity policy es p)
    unfolding pipe_run
    run-given capacity policy [] p = refl
    run-given capacity policy (e ∷ es) p =
        ap (pipe_run write capacity policy es) (step-given capacity policy e p)
        ∙ run-given capacity policy es (pipe_step note capacity policy e p)
