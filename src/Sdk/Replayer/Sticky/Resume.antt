-- ===== src/Sdk/Replayer/Sticky/Resume.antt =====
-- The round of a kept execution and the round of a replay.
use flowd_engine.Base.{◌≡◌, sym, ap, ◌∙◌, subst, List, [], ◌∷◌, ◌++◌, set_elem}
use flowd_engine.History.Dispatch.Decode.{HistoryEvent}
use flowd_engine.Sdk.Replayer.{Code, waiting, Execution, reset_round_output}
use flowd_engine.Sdk.Replayer.Load.{load_new_events}
use flowd_engine.Sdk.Replayer.Load.Laws.{with_recorded}
use flowd_engine.Sdk.Replayer.Run.{run, execute_round}
use flowd_engine.Sdk.Replayer.Parks.{run-Parks}
use flowd_engine.Sdk.Replayer.Parks.Grown.{grown, Parks-grown, Parks-IsSequential}
use flowd_engine.Sdk.Replayer.Later.{Parks-later}
use flowd_engine.Sdk.Replayer.Past.{over, IsPast, run-over}
use flowd_engine.Sdk.Replayer.Sticky.{
  begin, Parked, kept, put_back, round_of_one, begin-code, begin-Ready, kept_lem, later_lem,
  kept-IsPast, later-IsPast, later-begin,
}

module _ {U : Type 0} where
  replayed_run :
      (c : Code U) (u : U) (xs ys : List HistoryEvent) (c' : Code U) (f : Execution U)
      → Parked c u xs ys c' f
      → run c (begin c u (xs ++ ys)) ≡ (
        (run c' (kept c' f ys)).0,
        over
            (waiting c ∷ [])
            (begin c u (xs ++ ys)).scheduled_activities
            (begin c u (xs ++ ys)).scheduled_timers
            (run c' (kept c' f ys)).1,
      )
  replayed_run c u xs ys c' f p =
      let g = begin c u (xs ++ ys) in
      let parks = run-Parks c p.sequential (begin c u xs) c' f p.ran in
      ap (run c) (later-begin c u xs ys)
      ∙ Parks-later c' f c (begin c u xs) g parks (begin-Ready c u xs ys c' f p)
      ∙ ap (run c') (later_lem c u xs ys c' f p)
      ∙ run-over (waiting c ∷ []) g.scheduled_activities g.scheduled_timers c'
          (Parks-IsSequential c' f c (begin c u xs) parks p.sequential) (kept c' f ys)
          (kept-IsPast c u xs ys c' f p)
          (subst IsPast (later_lem c u xs ys c' f p) (later-IsPast c u xs ys c' f p))

  kept_coroutines :
      (c : Code U) (u : U) (xs ys : List HistoryEvent) (c' : Code U) (f : Execution U)
      → Parked c u xs ys c' f
      → (run c' (kept c' f ys)).1.coroutines ≡ waiting c' ∷ []
  unfolding reset_round_output
  kept_coroutines c u xs ys c' f p =
      let parks = run-Parks c p.sequential (begin c u xs) c' f p.ran in
      let past = kept-IsPast c u xs ys c' f p in
      let e = kept c' f ys in
      ap (λ x. x.1.coroutines)
        (run-over e.coroutines e.scheduled_activities e.scheduled_timers c'
          (Parks-IsSequential c' f c (begin c u xs) parks p.sequential) e past past)
      ∙ ap (λ x. x.coroutines) (kept_lem c u xs ys c' f p)

  pub first_round :
      (c : Code U) (u : U) (xs ys : List HistoryEvent) (c' : Code U) (f : Execution U)
      → Parked c u xs ys c' f
      → execute_round (begin c u xs) ≡ record f { coroutines = waiting c' ∷ [] }
  unfolding begin
  first_round c u xs ys c' f p =
      let b = begin c u xs in
      round_of_one c b (ap (λ e. e.coroutines) (begin-code c u xs))
      ∙ ap put_back p.ran
      ∙ ap (λ cs. record f { coroutines = set_elem cs 0 (waiting c') })
          (ap (λ e. e.coroutines)
            (Parks-grown c' f c b (run-Parks c p.sequential b c' f p.ran)
              ∙ ap (λ e. grown e f) (begin-code c u xs)))

  -- Sequential workflow code is begun over the events `xs`; its first round meets every activity
  -- and timer recorded in them, and parks it. If the events `ys` record what that round asked for,
  -- and tell no outcome a second time, then the round after is the same, with the coroutine, the
  -- variables, the commands and the result that it leaves, whether the execution is kept and takes
  -- in `ys`, or a new one is replayed over all of the events: they differ only in the lists of
  -- what history has recorded.
  pub replay-resume :
      (c : Code U) (u : U) (xs ys : List HistoryEvent) (c' : Code U) (f : Execution U)
      → Parked c u xs ys c' f
      → execute_round (begin c u (xs ++ ys))
        ≡ with_recorded
            (begin c u (xs ++ ys)).scheduled_activities
            (begin c u (xs ++ ys)).scheduled_timers
            (execute_round (load_new_events ys (reset_round_output (execute_round (begin c u xs)))))
  unfolding begin reset_round_output
  replay-resume c u xs ys c' f p =
      let g = begin c u (xs ++ ys) in
      round_of_one c g (ap (λ e. e.coroutines) (begin-code c u (xs ++ ys)))
      ∙ ap put_back (replayed_run c u xs ys c' f p)
      ∙ ap (with_recorded g.scheduled_activities g.scheduled_timers) (
          ap
            (λ cs. record (run c' (kept c' f ys)).1 {
              coroutines = set_elem cs 0 (run c' (kept c' f ys)).0;
            })
            (sym (kept_coroutines c u xs ys c' f p))
          ∙ sym
              (round_of_one c' (kept c' f ys) (ap (λ e. e.coroutines) (kept_lem c u xs ys c' f p)))
          ∙ ap (λ e. execute_round (load_new_events ys (reset_round_output e)))
              (sym (first_round c u xs ys c' f p)))
