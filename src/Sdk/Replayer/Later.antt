-- ===== src/Sdk/Replayer/Later.antt =====
-- A run that is repeated over a history that has recorded what it asked for.
use flowd_engine.Base.{
  ℕ, suc, ◌+◌, ◌≡◌, refl, sym, ap, ◌∙◌, String, str_eq, str_eq_refl, ◌&&◌, Option, none, some, List,
  [], ◌∷◌, ◌++◌, append_assoc, get_elem?, get_elem?-none, get_elem?-front, get_elem?-next, length,
  length-append, arith, ◌==◌, if◌then◌else◌,
}
use flowd_engine.Proto.{Int64, Payload, start_timer}
use flowd_engine.Sdk.Replayer.{
  ActivityOptions, ScheduledActivity, ScheduledTimer, Code, Execution, schedule, start,
  schedule_against, start_against, command_of, activity_mismatch, timer_mismatch,
}
use flowd_engine.Sdk.Replayer.Recorded.{
  activities_of, timers_of, activities_of-append, timers_of-append,
}
use flowd_engine.Sdk.Replayer.Run.{run, or_panic}
use flowd_engine.Sdk.Replayer.Parks.{
  Parks, parked, scheduled, started, got, passed, answering, modified,
}
use flowd_engine.Sdk.Replayer.Parks.Grown.{Parks-Adds, Adds}
use flowd_engine.Sdk.Replayer.Ready.{InStep-at, Ready, schedule-Ready, start-Ready, own_variables}

-- What the later run meets where the first one asked: its own request, as history records it.
met :
    {A : Type 0} (recorded before more : List A) (x : A) (idx : ℕ)
    → idx ≡ length recorded + length before
    → get_elem? (recorded ++ (before ++ x ∷ more)) idx ≡ some x
met recorded before more x idx h =
    ap (λ xs. get_elem? xs idx) (sym (append_assoc recorded before (x ∷ more)))
    ∙ ap (get_elem? ((recorded ++ before) ++ x ∷ more))
        (omega (arith, h, length-append recorded before))
    ∙ get_elem?-next (recorded ++ before) more x

asked_again :
    (type : String) (id : ℕ)
    → (if id == id && str_eq type type then none else some (activity_mismatch id type id type))
      ≡ none
asked_again type id = ground (arith, str_eq_refl type)

timer_asked_again : (id : ℕ) → (if id == id then none else some (timer_mismatch id id)) ≡ none
timer_asked_again id = ground arith

module _ {U : Type 0} where
  -- The execution `e` of the run, as it is over the history that `g` has loaded.
  abbrev pub later : Execution U → Execution U → Execution U
  later g e = record g {
    vars = e.vars;
    next_activity_idx = e.next_activity_idx;
    next_timer_idx = e.next_timer_idx;
    new_commands = [];
    query_handlers = e.query_handlers;
  }

  schedule-later :
      (type : String) (input : Option Payload) (opts : ActivityOptions) (g f e : Execution U)
      → Ready g f e
      → Adds (schedule type input opts e).1 f
      → (schedule type input opts e).0 ≡ none
      → schedule type input opts (later g e) ≡ (none, later g (schedule type input opts e).1)
  unfolding schedule activities_of
  schedule-later type input opts g f e r (more, a) h =
      split (get_elem? e.scheduled_activities e.next_activity_idx) refl h a
    where
      split :
          (o : Option ScheduledActivity)
          → get_elem? e.scheduled_activities e.next_activity_idx ≡ o
          → (schedule_against o type input opts e).0 ≡ none
          → f.new_commands ≡ (schedule_against o type input opts e).1.new_commands ++ more
          → schedule_against
              (get_elem? g.scheduled_activities e.next_activity_idx)
              type
              input
              opts
              (later g e)
            ≡ (none, later g (schedule_against o type input opts e).1)
      split (some x) q h a =
          ap (λ o. schedule_against o type input opts (later g e))
            (ap (λ xs. get_elem? xs e.next_activity_idx) r.activities
              ∙ get_elem?-front e.scheduled_activities (activities_of f.new_commands)
                  e.next_activity_idx x q)
          ∙ ap (λ p. (p, later g (schedule_against (some x) type input opts e).1)) h
      split none q h a =
          let cmd = command_of (suc e.next_activity_idx) type input opts in
          let asked : ScheduledActivity = record {
            activity_id = suc e.next_activity_idx;
            activity_type = type;
          } in
          ap (λ o. schedule_against o type input opts (later g e))
            (ap (λ xs. get_elem? xs e.next_activity_idx)
                (r.activities
                  ∙ ap (λ xs. e.scheduled_activities ++ activities_of xs)
                      (a ∙ append_assoc e.new_commands (cmd ∷ []) more)
                  ∙ ap (◌++◌ e.scheduled_activities)
                      (activities_of-append e.new_commands (cmd ∷ more)))
              ∙ met e.scheduled_activities (activities_of e.new_commands) (activities_of more) asked
                  e.next_activity_idx
                  (InStep-at _ _ _ r.in_step
                    (get_elem?-none e.scheduled_activities e.next_activity_idx q)))
          ∙ ap (λ p. (p, later g (schedule_against none type input opts e).1))
              (asked_again type (suc e.next_activity_idx))

  start-later :
      (d : Int64) (g f e : Execution U)
      → Ready g f e
      → Adds (start d e).1 f
      → (start d e).0 ≡ none
      → start d (later g e) ≡ (none, later g (start d e).1)
  unfolding start timers_of
  start-later d g f e r (more, a) h = split (get_elem? e.scheduled_timers e.next_timer_idx) refl h a
    where
      split :
          (o : Option ScheduledTimer)
          → get_elem? e.scheduled_timers e.next_timer_idx ≡ o
          → (start_against o d e).0 ≡ none
          → f.new_commands ≡ (start_against o d e).1.new_commands ++ more
          → start_against (get_elem? g.scheduled_timers e.next_timer_idx) d (later g e)
            ≡ (none, later g (start_against o d e).1)
      split (some x) q h a =
          ap (λ o. start_against o d (later g e))
            (ap (λ xs. get_elem? xs e.next_timer_idx) r.timers
              ∙ get_elem?-front e.scheduled_timers (timers_of f.new_commands) e.next_timer_idx x q)
          ∙ ap (λ p. (p, later g (start_against (some x) d e).1)) h
      split none q h a =
          let cmd = start_timer (record { timer_id = suc e.next_timer_idx; duration = some d }) in
          let asked : ScheduledTimer = record { timer_id = suc e.next_timer_idx; duration = d } in
          ap (λ o. start_against o d (later g e))
            (ap (λ xs. get_elem? xs e.next_timer_idx)
                (r.timers
                  ∙ ap (λ xs. e.scheduled_timers ++ timers_of xs)
                      (a ∙ append_assoc e.new_commands (cmd ∷ []) more)
                  ∙ ap (◌++◌ e.scheduled_timers) (timers_of-append e.new_commands (cmd ∷ more)))
              ∙ met e.scheduled_timers (timers_of e.new_commands) (timers_of more) asked
                  e.next_timer_idx
                  (InStep-at _ _ _ r.timers_in_step
                    (get_elem?-none e.scheduled_timers e.next_timer_idx q)))
          ∙ ap (λ p. (p, later g (start_against none d e).1))
              (timer_asked_again (suc e.next_timer_idx))

  pub Parks-later :
      (c' : Code U) (f : Execution U) (c : Code U) (e g : Execution U)
      → Parks c' f c e
      → Ready g f e
      → run c (later g e) ≡ run c' (later g f)
  unfolding run
  Parks-later c' f c e g parked r = refl
  Parks-later c' f c e g (scheduled type input opts k _ q p) r =
      ap (λ x. or_panic x.0 (run (k (suc e.next_activity_idx)) x.1) x.1)
        (schedule-later type input opts g f e r (Parks-Adds c' f _ _ p) q)
      ∙ Parks-later c' f _ _ g p (schedule-Ready type input opts g f e r)
  Parks-later c' f c e g (started d k _ q p) r =
      ap (λ x. or_panic x.0 (run (k (suc e.next_timer_idx)) x.1) x.1)
        (start-later d g f e r (Parks-Adds c' f _ _ p) q)
      ∙ Parks-later c' f _ _ g p (start-Ready d g f e r)
  Parks-later c' f c e g (got id k _ o q p) r =
      rw (r.outcomes id o q, run) (Parks-later c' f _ _ g p r)
  Parks-later c' f c e g (passed id k _ q p) r = rw (r.fired id q, run) (Parks-later c' f _ _ g p r)
  Parks-later c' f c e g (answering type h k _ p) r =
      Parks-later c' f _ _ g p (own_variables g f e e.vars _ r)
  Parks-later c' f c e g (modified h k _ p) r =
      Parks-later c' f _ _ g p (own_variables g f e _ e.query_handlers r)

  pub Parks-Ready :
      (c' : Code U) (f : Execution U) (c : Code U) (e g : Execution U)
      → Parks c' f c e
      → Ready g f e
      → Ready g f f
  Parks-Ready c' f c e g parked r = r
  Parks-Ready c' f c e g (scheduled type input opts k _ q p) r =
      Parks-Ready c' f _ _ g p (schedule-Ready type input opts g f e r)
  Parks-Ready c' f c e g (started d k _ q p) r = Parks-Ready c' f _ _ g p (start-Ready d g f e r)
  Parks-Ready c' f c e g (got id k _ o q p) r = Parks-Ready c' f _ _ g p r
  Parks-Ready c' f c e g (passed id k _ q p) r = Parks-Ready c' f _ _ g p r
  Parks-Ready c' f c e g (answering type h k _ p) r =
      Parks-Ready c' f _ _ g p (own_variables g f e e.vars _ r)
  Parks-Ready c' f c e g (modified h k _ p) r =
      Parks-Ready c' f _ _ g p (own_variables g f e _ e.query_handlers r)
