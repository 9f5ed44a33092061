-- ===== src/Sdk/Replayer/Parks/Grown.antt =====
-- What a run leaves alone up to the Yield that it parks in, and what it adds.
use flowd_engine.Base.{
  get_elem?, [], append-nil, append_assoc, ◌∙◌, ℕ, suc, ◌≡◌, refl, sym, ap, String, Option, none,
  some, List, ◌∷◌, ◌++◌,
}
use flowd_engine.Proto.{Command, start_timer, Int64, Payload}
use flowd_engine.Sdk.Replayer.{
  ActivityOptions, Code, Execution, ScheduledActivity, ScheduledTimer, command_of, schedule, start,
  schedule_against, start_against,
}
use flowd_engine.Sdk.Replayer.Parks.{
  IsSequential, Parks, parked, scheduled, started, got, passed, answering, modified,
}

-- The commands that a call adds.
abbrev pub asked_for :
    Option ScheduledActivity → ℕ → String → Option Payload → ActivityOptions → List Command
asked_for (some r) id type input opts = []
asked_for none id type input opts = command_of id type input opts ∷ []

abbrev pub timer_asked_for : Option ScheduledTimer → ℕ → Int64 → List Command
timer_asked_for (some r) id d = []
timer_asked_for none id d = start_timer (record { timer_id = id; duration = some d }) ∷ []

module _ {U : Type 0} where
  -- What a parked execution has of the run: the rest is as before.
  abbrev pub grown : Execution U → Execution U → Execution U
  grown e f = record e {
    vars = f.vars;
    next_activity_idx = f.next_activity_idx;
    next_timer_idx = f.next_timer_idx;
    new_commands = f.new_commands;
    query_handlers = f.query_handlers;
  }

  pub schedule_against_lem :
      (o : Option ScheduledActivity) (type : String) (input : Option Payload)
      (opts : ActivityOptions) (e : Execution U)
      → (schedule_against o type input opts e).1 ≡ record e {
        next_activity_idx = suc e.next_activity_idx;
        new_commands = e.new_commands ++ asked_for o (suc e.next_activity_idx) type input opts;
      }
  unfolding schedule_against
  schedule_against_lem (some r) type input opts e =
      ap (λ cs. record e { next_activity_idx = suc e.next_activity_idx; new_commands = cs })
        (sym (append-nil e.new_commands))
  schedule_against_lem none type input opts e = refl

  pub start_against_lem :
      (o : Option ScheduledTimer) (d : Int64) (e : Execution U)
      → (start_against o d e).1 ≡ record e {
        next_timer_idx = suc e.next_timer_idx;
        new_commands = e.new_commands ++ timer_asked_for o (suc e.next_timer_idx) d;
      }
  unfolding start_against
  start_against_lem (some r) d e =
      ap (λ cs. record e { next_timer_idx = suc e.next_timer_idx; new_commands = cs })
        (sym (append-nil e.new_commands))
  start_against_lem none d e = refl

  pub schedule_lem :
      (type : String) (input : Option Payload) (opts : ActivityOptions) (e : Execution U)
      → (schedule type input opts e).1 ≡ record e {
        next_activity_idx = suc e.next_activity_idx;
        new_commands =
            e.new_commands
            ++ asked_for
                (get_elem? e.scheduled_activities e.next_activity_idx)
                (suc e.next_activity_idx)
                type
                input
                opts;
      }
  unfolding schedule
  schedule_lem type input opts e =
      schedule_against_lem (get_elem? e.scheduled_activities e.next_activity_idx) type input opts e

  pub start_lem :
      (d : Int64) (e : Execution U)
      → (start d e).1 ≡ record e {
        next_timer_idx = suc e.next_timer_idx;
        new_commands =
            e.new_commands
            ++ timer_asked_for
                (get_elem? e.scheduled_timers e.next_timer_idx)
                (suc e.next_timer_idx)
                d;
      }
  unfolding start
  start_lem d e = start_against_lem (get_elem? e.scheduled_timers e.next_timer_idx) d e

  pub Parks-grown :
      (c' : Code U) (f : Execution U) (c : Code U) (e : Execution U)
      → Parks c' f c e
      → f ≡ grown e f
  Parks-grown c' f c e parked = refl
  Parks-grown c' f c e (scheduled type input opts k _ q p) =
      Parks-grown c' f _ _ p ∙ ap (λ x. grown x f) (schedule_lem type input opts e)
  Parks-grown c' f c e (started d k _ q p) =
      Parks-grown c' f _ _ p ∙ ap (λ x. grown x f) (start_lem d e)
  Parks-grown c' f c e (got id k _ o q p) = Parks-grown c' f _ _ p
  Parks-grown c' f c e (passed id k _ q p) = Parks-grown c' f _ _ p
  Parks-grown c' f c e (answering type h k _ p) = Parks-grown c' f _ _ p
  Parks-grown c' f c e (modified g k _ p) = Parks-grown c' f _ _ p

  abbrev pub Adds : Execution U → Execution U → Type 0
  Adds e f = (more : List Command) × (f.new_commands ≡ e.new_commands ++ more)

  Adds-before :
      (e x f : Execution U) (cs : List Command)
      → x.new_commands ≡ e.new_commands ++ cs
      → Adds x f
      → Adds e f
  Adds-before e x f cs q (more, h) =
      (cs ++ more, h ∙ ap (λ l. l ++ more) q ∙ append_assoc e.new_commands cs more)

  pub Parks-Adds :
      (c' : Code U) (f : Execution U) (c : Code U) (e : Execution U) → Parks c' f c e → Adds e f
  Parks-Adds c' f c e parked = ([], sym (append-nil f.new_commands))
  Parks-Adds c' f c e (scheduled type input opts k _ q p) =
      Adds-before e (schedule type input opts e).1 f _
        (ap (λ x. x.new_commands) (schedule_lem type input opts e)) (Parks-Adds c' f _ _ p)
  Parks-Adds c' f c e (started d k _ q p) =
      Adds-before e (start d e).1 f _ (ap (λ x. x.new_commands) (start_lem d e))
        (Parks-Adds c' f _ _ p)
  Parks-Adds c' f c e (got id k _ o q p) = Parks-Adds c' f _ _ p
  Parks-Adds c' f c e (passed id k _ q p) = Parks-Adds c' f _ _ p
  Parks-Adds c' f c e (answering type h k _ p) = Parks-Adds c' f _ _ p
  Parks-Adds c' f c e (modified g k _ p) = Parks-Adds c' f _ _ p

  pub Parks-IsSequential :
      (c' : Code U) (f : Execution U) (c : Code U) (e : Execution U)
      → Parks c' f c e
      → IsSequential c
      → IsSequential c'
  unfolding IsSequential
  Parks-IsSequential c' f c e parked s = s
  Parks-IsSequential c' f c e (scheduled type input opts k _ q p) s =
      Parks-IsSequential c' f _ _ p (s _)
  Parks-IsSequential c' f c e (started d k _ q p) s = Parks-IsSequential c' f _ _ p (s _)
  Parks-IsSequential c' f c e (got id k _ o q p) s = Parks-IsSequential c' f _ _ p (s o)
  Parks-IsSequential c' f c e (passed id k _ q p) s = Parks-IsSequential c' f _ _ p s
  Parks-IsSequential c' f c e (answering type h k _ p) s = Parks-IsSequential c' f _ _ p s
  Parks-IsSequential c' f c e (modified g k _ p) s = Parks-IsSequential c' f _ _ p (s _)
