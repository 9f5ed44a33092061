-- ===== src/Sdk/Replayer/Ready.antt =====
-- The history that has recorded what a run asks for, kept along the run.
use flowd_engine.Base.{
  ℕ, suc, ◌+◌, ◌≤◌, ◌<◌, ◌≡◌, refl, sym, ap, ◌∙◌, subst, inl, inr, ◌⊎◌, String, true, Option, none,
  some, List, ◌++◌, append-nil, contains, get_elem?, get_elem?-none, get_elem?-some, length,
  length-append, arith,
}
use flowd_engine.Proto.{Int64, Payload}
use flowd_engine.Sdk.Replayer.{
  ActivityOutcome, ActivityOptions, ScheduledActivity, ScheduledTimer, QueryHandler, Execution,
  outcome_of, schedule, start,
}
use flowd_engine.Sdk.Replayer.Recorded.{
  activities_of, timers_of, activities_of-append, timers_of-append,
}
use flowd_engine.Sdk.Replayer.Parks.Grown.{asked_for, timer_asked_for, schedule_lem, start_lem}

-- Of `n` recorded requests and `m` new ones, `idx` have been made: no new one until all the
-- recorded ones have been met.
abbrev pub InStep : ℕ → ℕ → ℕ → Type 0
InStep idx n m = ((idx ≤ n) × (m ≡ 0)) ⊎ (idx ≡ n + m)

InStep-found : (idx n m m' : ℕ) → InStep idx n m → idx < n → m' ≡ m → InStep (suc idx) n m'
InStep-found idx n m m' (inl (h, k)) l q = inl (omega (arith, l), omega (arith, q, k))
InStep-found idx n m m' (inr h) l q = absurd (omega (arith, h, l))

InStep-missing : (idx n m m' : ℕ) → InStep idx n m → n ≤ idx → m' ≡ suc m → InStep (suc idx) n m'
InStep-missing idx n m m' (inl (h, k)) l q = inr (omega (arith, h, k, l, q))
InStep-missing idx n m m' (inr h) l q = inr (omega (arith, h, l, q))

pub InStep-at : (idx n m : ℕ) → InStep idx n m → n ≤ idx → idx ≡ n + m
InStep-at idx n m (inl (h, k)) l = omega (arith, h, k, l)
InStep-at idx n m (inr h) l = h

module _ {U : Type 0} where
  -- `g` has recorded what the run up to `f` asks for, and knows the outcomes that `e` knows.
  pub record Ready (g f e : Execution U) : Type 0 where
    pub in_step :
        InStep e.next_activity_idx
          (length e.scheduled_activities)
          (length (activities_of e.new_commands))
    pub timers_in_step :
        InStep e.next_timer_idx (length e.scheduled_timers) (length (timers_of e.new_commands))
    pub activities : g.scheduled_activities ≡ e.scheduled_activities ++ activities_of f.new_commands
    pub timers : g.scheduled_timers ≡ e.scheduled_timers ++ timers_of f.new_commands
    pub outcomes :
        (id : ℕ) (o : ActivityOutcome)
        → outcome_of id e.activity_outcomes ≡ some o
        → outcome_of id g.activity_outcomes ≡ some o
    pub fired : (id : ℕ) → contains id e.fired_timers ≡ true → contains id g.fired_timers ≡ true

  pub schedule-Ready :
      (type : String) (input : Option Payload) (opts : ActivityOptions) (g f e : Execution U)
      → Ready g f e
      → Ready g f (schedule type input opts e).1
  unfolding activities_of timers_of
  schedule-Ready type input opts g f e r =
      subst (Ready g f) (sym (schedule_lem type input opts e))
        (split (get_elem? e.scheduled_activities e.next_activity_idx) refl)
    where
      split :
          (o : Option ScheduledActivity)
          → get_elem? e.scheduled_activities e.next_activity_idx ≡ o
          → Ready g f (record e {
            next_activity_idx = suc e.next_activity_idx;
            new_commands = e.new_commands ++ asked_for o (suc e.next_activity_idx) type input opts;
          })
      split (some _) q = record {
        in_step =
            InStep-found _ _ _ _ r.in_step
              (get_elem?-some e.scheduled_activities e.next_activity_idx _ q)
              (ap (λ cs. length (activities_of cs)) (append-nil e.new_commands));
        timers_in_step =
            subst
              (λ cs. InStep e.next_timer_idx (length e.scheduled_timers) (length (timers_of cs)))
              (sym (append-nil e.new_commands)) r.timers_in_step;
        activities = r.activities;
        timers = r.timers;
        outcomes = r.outcomes;
        fired = r.fired;
      }
      split none q = record {
        in_step =
            InStep-missing _ _ _ _ r.in_step
              (get_elem?-none e.scheduled_activities e.next_activity_idx q)
              (omega (
                arith,
                ap length (
                    activities_of-append e.new_commands
                      (asked_for none (suc e.next_activity_idx) type input opts)),
                length-append (activities_of e.new_commands)
                    (activities_of (asked_for none (suc e.next_activity_idx) type input opts)),
              ));
        timers_in_step =
            subst (λ ts. InStep e.next_timer_idx (length e.scheduled_timers) (length ts))
              (sym (
                timers_of-append e.new_commands
                  (asked_for none (suc e.next_activity_idx) type input opts)
                ∙ append-nil (timers_of e.new_commands)))
              r.timers_in_step;
        activities = r.activities;
        timers = r.timers;
        outcomes = r.outcomes;
        fired = r.fired;
      }

  pub start-Ready : (d : Int64) (g f e : Execution U) → Ready g f e → Ready g f (start d e).1
  unfolding activities_of timers_of
  start-Ready d g f e r =
      subst (Ready g f) (sym (start_lem d e))
        (split (get_elem? e.scheduled_timers e.next_timer_idx) refl)
    where
      split :
          (o : Option ScheduledTimer)
          → get_elem? e.scheduled_timers e.next_timer_idx ≡ o
          → Ready g f (record e {
            next_timer_idx = suc e.next_timer_idx;
            new_commands = e.new_commands ++ timer_asked_for o (suc e.next_timer_idx) d;
          })
      split (some _) q = record {
        in_step =
            subst
              (λ cs.
                InStep e.next_activity_idx (length e.scheduled_activities)
                  (length (activities_of cs)))
              (sym (append-nil e.new_commands)) r.in_step;
        timers_in_step =
            InStep-found _ _ _ _ r.timers_in_step
              (get_elem?-some e.scheduled_timers e.next_timer_idx _ q)
              (ap (λ cs. length (timers_of cs)) (append-nil e.new_commands));
        activities = r.activities;
        timers = r.timers;
        outcomes = r.outcomes;
        fired = r.fired;
      }
      split none q = record {
        in_step =
            subst (λ ts. InStep e.next_activity_idx (length e.scheduled_activities) (length ts))
              (sym (
                activities_of-append e.new_commands (timer_asked_for none (suc e.next_timer_idx) d)
                ∙ append-nil (activities_of e.new_commands)))
              r.in_step;
        timers_in_step =
            InStep-missing _ _ _ _ r.timers_in_step
              (get_elem?-none e.scheduled_timers e.next_timer_idx q)
              (omega (
                arith,
                ap length (
                    timers_of-append e.new_commands
                      (timer_asked_for none (suc e.next_timer_idx) d)),
                length-append (timers_of e.new_commands)
                    (timers_of (timer_asked_for none (suc e.next_timer_idx) d)),
              ));
        activities = r.activities;
        timers = r.timers;
        outcomes = r.outcomes;
        fired = r.fired;
      }

  pub own_variables :
      (g f e : Execution U) (u : U) (hs : List (String × QueryHandler U))
      → Ready g f e
      → Ready g f (record e { vars = u; query_handlers = hs })
  own_variables g f e u hs r = record {
    in_step = r.in_step;
    timers_in_step = r.timers_in_step;
    activities = r.activities;
    timers = r.timers;
    outcomes = r.outcomes;
    fired = r.fired;
  }
