-- ===== src/Sessions/Creation.antt =====
-- `create_session` as steps of the reservation protocol, and what it leaves behind when it fails.
use mathlib.Core.Path.{subst⁻¹, ◌∙◌, ap}
use coding_agents_databricks.Base.{
  ℕ, suc, ◌-◌, ◌≡◌, refl, String, Bool, true, false, arith, if◌then◌else◌, none,
}
use coding_agents_databricks.Base.Dict.{Dict, find, store, pop, pop-store}
use coding_agents_databricks.Capacity.Cgroup.{CgroupMemory}
use coding_agents_databricks.Capacity.Controller.{Floats}
use coding_agents_databricks.Sessions.{
  Session, Server, Launch, launch_failed, launched, Response, created, too_many, server_error,
  evaluate_capacity, reserve_slot, insert_session, release_slot, drop_session, start_reader,
  finish_launch, launch_reserved, create_session,
}
use coding_agents_databricks.Sessions.Slots.{
  System, reserve, refuse, insert, release, remove, Reach, here, next, Reach-trans,
}

module _ (F : Floats) (max_sessions : ℕ) where
  abbrev pub sys : Server F max_sessions → ℕ → System F max_sessions
  sys s n = record { server = s; holders = n }

  start_reader-Reach :
      {a : System F max_sessions} (session_id : String) (starts : Bool)
      (r : Bool × Server F max_sessions) (n : ℕ)
      → Reach F max_sessions a (sys r.1 n)
      → Reach F max_sessions a (sys (start_reader F max_sessions session_id starts r).1 n)
  unfolding start_reader
  start_reader-Reach session_id true (true, s) n q = q
  start_reader-Reach session_id false (true, s) n q = next q (remove session_id refl)
  start_reader-Reach session_id starts (false, s) n q = q

  finish_launch-Reach :
      {a : System F max_sessions} (memory : CgroupMemory) (launch : Launch)
      (s : Server F max_sessions) (n : ℕ)
      → Reach F max_sessions a (sys s (suc n))
      → Reach F max_sessions a (sys (finish_launch F max_sessions memory launch s).1 n)
  unfolding finish_launch
  finish_launch-Reach memory launch_failed s n q = next q (release n refl refl)
  finish_launch-Reach memory (launched session_id session starts) s n q =
      start_reader-Reach session_id starts
        (insert_session F max_sessions memory session_id session s) n
        (next q (insert memory session_id session n refl refl))

  launch_reserved-Reach :
      (after : CgroupMemory) (launch : Launch)
      (others : Server F max_sessions → Server F max_sessions) (a : System F max_sessions) (n m : ℕ)
      (r : Bool × Server F max_sessions)
      → (r.0 ≡ true → Reach F max_sessions a (sys r.1 (suc n)))
      → (r.0 ≡ false → Reach F max_sessions a (sys r.1 n))
      → (r.0 ≡ true → Reach F max_sessions (sys r.1 (suc n)) (sys (others r.1) (suc m)))
      → Reach F max_sessions a
          (sys (launch_reserved F max_sessions after launch others r).1 (if r.0 then m else n))
  unfolding launch_reserved
  launch_reserved-Reach after launch others a n m (true, s) t f q =
      finish_launch-Reach after launch (others s) m (Reach-trans F max_sessions (t refl) (q refl))
  launch_reserved-Reach after launch others a n m (false, s) t f q = f refl

  -- If what other requests do during the launch, once a slot is reserved, is a run of the
  -- reservation protocol in which this request keeps its slot, then `create_session` is a run of
  -- it, whatever the launch comes to: at the end the slots held are those of the others.
  pub create_session-Reach :
      (before after : CgroupMemory) (launch : Launch)
      (others : Server F max_sessions → Server F max_sessions) (s : Server F max_sessions) (n m : ℕ)
      → ((reserve_slot F max_sessions before s).0 ≡ true
          → Reach F max_sessions
              (sys (reserve_slot F max_sessions before s).1 (suc n))
              (sys (others (reserve_slot F max_sessions before s).1) (suc m)))
      → Reach F max_sessions (sys s n) (
          sys
            (create_session F max_sessions before after launch others s).1
            (if (reserve_slot F max_sessions before s).0 then m else n))
  unfolding create_session
  create_session-Reach before after launch others s n m q =
      launch_reserved-Reach after launch others (sys s n) n m (reserve_slot F max_sessions before s)
        (λ t. next here (reserve before t refl)) (λ f. next here (refuse before f refl)) q

  abbrev pub IsFresh : Launch → Dict Session → Type 0
  IsFresh launch_failed d = Unit
  IsFresh (launched session_id session starts) d = find session_id d ≡ none

  -- The table after an answer, given the table before it.
  unfoldable pub table_after : Response → Launch → Dict Session → Dict Session
  table_after (created session_id) launch_failed d = d
  table_after (created session_id) (launched key session starts) d = store session_id session d
  table_after too_many launch d = d
  table_after server_error launch d = d

  start_reader-table_after :
      (session_id : String) (session : Session) (starts : Bool) (d : Dict Session)
      (r : Bool × Server F max_sessions)
      → find session_id d ≡ none
      → r.1.sessions ≡ (if r.0 then store session_id session d else d)
      → let a = start_reader F max_sessions session_id starts r in
        (a.1.sessions ≡ table_after a.0 (launched session_id session starts) d)
        × (a.1.browser_pending ≡ r.1.browser_pending)
  unfolding start_reader drop_session table_after
  start_reader-table_after session_id session true d (true, s) h e = (e, refl)
  start_reader-table_after session_id session false d (true, s) h e =
      (ap (pop session_id) e ∙ pop-store session_id session d h, refl)
  start_reader-table_after session_id session starts d (false, s) h e = (e, refl)

  insert_session-sessions :
      (memory : CgroupMemory) (session_id : String) (session : Session) (s : Server F max_sessions)
      → let r = insert_session F max_sessions memory session_id session s in
        (r.1.sessions ≡ (if r.0 then store session_id session s.sessions else s.sessions))
        × (r.1.browser_pending ≡ s.browser_pending - 1)
  unfolding insert_session evaluate_capacity
  insert_session-sessions memory session_id session s = ground arith

  finish_launch-table_after :
      (memory : CgroupMemory) (launch : Launch) (s : Server F max_sessions)
      → IsFresh launch s.sessions
      → let r = finish_launch F max_sessions memory launch s in
        (r.1.sessions ≡ table_after r.0 launch s.sessions)
        × (r.1.browser_pending ≡ s.browser_pending - 1)
  unfolding finish_launch release_slot table_after
  finish_launch-table_after memory launch_failed s h = (refl, refl)
  finish_launch-table_after memory (launched session_id session starts) s h =
      let (e, p) = insert_session-sessions memory session_id session s in
      let (t, q) =
        start_reader-table_after session_id session starts s.sessions
          (insert_session F max_sessions memory session_id session s) h e in
      (t, q ∙ p)

  reserve_slot-sessions :
      (memory : CgroupMemory) (s : Server F max_sessions)
      → let r = reserve_slot F max_sessions memory s in
        (r.1.sessions ≡ s.sessions)
        × (r.1.browser_pending ≡ (if r.0 then suc s.browser_pending else s.browser_pending))
  unfolding reserve_slot evaluate_capacity
  reserve_slot-sessions memory s = ground arith

  launch_reserved-table_after :
      (after : CgroupMemory) (launch : Launch) (d : Dict Session) (n : ℕ)
      (r : Bool × Server F max_sessions)
      → IsFresh launch d
      → r.1.sessions ≡ d
      → r.1.browser_pending ≡ (if r.0 then suc n else n)
      → let a = launch_reserved F max_sessions after launch (λ t. t) r in
        (a.1.sessions ≡ table_after a.0 launch d) × (a.1.browser_pending ≡ n)
  unfolding launch_reserved table_after
  launch_reserved-table_after after launch d n (true, s) h e p =
      let (t, q) = finish_launch-table_after after launch s (subst⁻¹ (IsFresh launch) e h) in
      (t ∙ ap (table_after _ launch) e, ground (arith, q, p))
  launch_reserved-table_after after launch d n (false, s) h e p = (e, p)

  -- A `create_session` during which nothing else changes the server, with an id that is not in the
  -- table, leaves `browser_pending` as it was on every path, and the table too, unless it answers
  -- with the id of the session, which is then stored under that id.
  pub create_session-table_after :
      (before after : CgroupMemory) (launch : Launch) (s : Server F max_sessions)
      → IsFresh launch s.sessions
      → let r = create_session F max_sessions before after launch (λ t. t) s in
        (r.1.sessions ≡ table_after r.0 launch s.sessions)
        × (r.1.browser_pending ≡ s.browser_pending)
  unfolding create_session
  create_session-table_after before after launch s h =
      let (e, p) = reserve_slot-sessions before s in
      launch_reserved-table_after after launch s.sessions s.browser_pending
        (reserve_slot F max_sessions before s) h e p
