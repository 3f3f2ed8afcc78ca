-- ===== src/Tests/Sessions.antt =====
-- Sessions at concrete inputs: app.py.
use coding_agents_databricks.Base.{
  ℕ, ◌≡◌, refl, String, Bool, true, false, some, List, [], ◌∷◌, ◌++◌, string_has_eq, if◌then◌else◌,
  arith,
}
use coding_agents_databricks.Base.Dict.{Dict, find, store, pop}
use coding_agents_databricks.Capacity.Controller.{evaluate, usable, latch, reserve_fits}
use coding_agents_databricks.Sessions.{
  Session, new_session, Server, created, too_many, Launch, launched, evaluate_capacity,
  reserve_slot, insert_session, start_reader, finish_launch, launch_reserved, create_session,
}
use coding_agents_databricks.Sessions.Slots.{System, Reach, here, IsSafe, Reach-IsSafe}
use coding_agents_databricks.Sessions.Creation.{
  sys, create_session-Reach, table_after, create_session-table_after,
}
use coding_agents_databricks.Sessions.Polling.{
  max_chunks, join, get_output, get_output_batch, idle, warned, sweep, terminate_all,
  cleanup_stale_sessions,
}
use coding_agents_databricks.Sessions.Polling.Output.{
  IsTail, emit_each, chunks_of, get_output-emit_each,
}
use coding_agents_databricks.Sessions.Polling.Batch.{get_output_batch-get_output}
use coding_agents_databricks.Sessions.Polling.Stale.{among}
use coding_agents_databricks.Tests.Memory.{percents, controller, reading}

abbrev shell : ℕ → Session
shell = new_session 17 4 "shell"

abbrev one_session : Server percents 2
one_session = record {
  sessions = ("a", shell 5) ∷ [];
  browser_pending = 0;
  capacity = controller false;
}

abbrev launch : Bool → Launch
launch starts = launched "b" (shell 9) starts

-- The table is full once the second session is inserted, and the third request is refused.
created_then_refused :
    let r =
      create_session percents 2 (reading 600) (reading 600) (launch true) (λ t. t) one_session in
    (r.0 ≡ created "b")
    × ((create_session percents 2 (reading 600) (reading 600) (launch true) (λ t. t) r.1).0
        ≡ too_many)
unfolding create_session launch_reserved reserve_slot evaluate_capacity evaluate finish_launch
    insert_session start_reader usable latch reserve_fits store
created_then_refused = (refl, refl)

one_session-IsSafe : IsSafe percents 2 (sys percents 2 one_session 0)
one_session-IsSafe = record {
  bounded = omega arith;
  counted = refl;
  valid = record { ordered = refl };
}

create_session-Reach_example : Reach percents 2 (sys percents 2 one_session 0) (
    sys percents 2
      (create_session percents 2 (reading 600) (reading 600) (launch true) (λ t. t) one_session).1
      (if (reserve_slot percents 2 (reading 600) one_session).0 then 0 else 0))
create_session-Reach_example =
    create_session-Reach percents 2 (reading 600) (reading 600) (launch true) (λ t. t) one_session 0
      0 (λ t. here)

abbrev both : System percents 2
both =
    sys percents 2
      (create_session percents 2 (reading 600) (reading 600) (launch true) (λ t. t) one_session).1
      (if (reserve_slot percents 2 (reading 600) one_session).0 then 0 else 0)

Reach-IsSafe_example : IsSafe percents 2 both
Reach-IsSafe_example = Reach-IsSafe percents 2 one_session-IsSafe (
    create_session-Reach percents 2 (reading 600) (reading 600) (launch true) (λ t. t) one_session 0
      0 (λ t. here))

create_session-table_after_example :
    let r =
      create_session percents 2 (reading 600) (reading 600) (launch false) (λ t. t) one_session in
    (r.1.sessions ≡ table_after percents 2 r.0 (launch false) one_session.sessions)
    × (r.1.browser_pending ≡ 0)
unfolding find
create_session-table_after_example =
    create_session-table_after percents 2 (reading 600) (reading 600) (launch false) one_session
      refl

abbrev table : Dict Session
table = ("a", shell 5) ∷ ("b", shell 80000) ∷ ("c", shell 90000) ∷ []

-- At second 90000 the first session is stale, and none is near the timeout.
cleanup_of_table : cleanup_stale_sessions 90000 table ≡ ("b", shell 80000) ∷ ("c", shell 90000) ∷ []
unfolding cleanup_stale_sessions sweep terminate_all idle warned pop new_session
cleanup_of_table = refl

get_output-emit_each_example :
    (kept : List String) × (IsTail max_chunks kept
        ([] ++ chunks_of ((6, "ls") ∷ (7, "") ∷ (8, " -l") ∷ []))
      × ((get_output "a" 9 (emit_each "a" ((6, "ls") ∷ (7, "") ∷ (8, " -l") ∷ []) table)).0
          ≡ some (join kept, false)))
unfolding find new_session
get_output-emit_each_example =
    get_output-emit_each "a" ((6, "ls") ∷ (7, "") ∷ (8, " -l") ∷ []) 9 table (shell 5) refl
      (omega arith)

get_output_batch-get_output_example :
    let r = get_output_batch ("c" ∷ "x" ∷ "c" ∷ []) 90001 table in
    (find "c" r.0 ≡ (get_output "c" 90001 table).0)
    × (find "c" r.1 ≡ find "c" (get_output "c" 90001 table).1)
unfolding among
get_output_batch-get_output_example =
    get_output_batch-get_output ("c" ∷ "x" ∷ "c" ∷ []) "c" 90001 table
