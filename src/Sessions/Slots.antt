-- ===== src/Sessions/Slots.antt =====
-- The reservation protocol over every interleaving of requests: the sessions and the pending
-- launches together never pass the limit, and no slot is lost or freed twice.
use mathlib.Core.Path.{subst⁻¹, ◌∙◌, ap}
use coding_agents_databricks.Base.{
  ℕ, suc, ◌+◌, ◌-◌, ◌≤◌, ◌<◌, ◌≡◌, String, true, false, length, arith, Option-cases, inl, inr,
}
use coding_agents_databricks.Base.Dict.{Dict, find, length-store, length-pop, length-store_present}
use coding_agents_databricks.Capacity.Cgroup.{CgroupMemory}
use coding_agents_databricks.Capacity.Controller.{Floats, evaluate}
use coding_agents_databricks.Capacity.Controller.Admission.{
  IsValid, admitted_fits, evaluate-IsValid,
}
use coding_agents_databricks.Sessions.{
  Session, on_session, Server, evaluate_capacity, reserve_slot, insert_session, release_slot,
  drop_session,
}

module _ (F : Floats) (max_sessions : ℕ) where
  -- The server, and the number of requests that hold a slot.
  pub record System : Type 0 where
    pub server : Server F max_sessions
    pub holders : ℕ

  -- One locked section of one request or thread; `change` is what a poll, an output or the search
  -- for stale sessions does to a session of the table, and `report` an evaluation that is made outside
  -- the lock to report the capacity, with numbers that may be out of date.
  pub data Step (a b : System) : Type 0 where
    reserve :
        (memory : CgroupMemory)
        → (reserve_slot F max_sessions memory a.server).0 ≡ true
        → b ≡ record {
          server = (reserve_slot F max_sessions memory a.server).1;
          holders = suc a.holders;
        }
        → Step a b
    refuse :
        (memory : CgroupMemory)
        → (reserve_slot F max_sessions memory a.server).0 ≡ false
        → b
          ≡ record { server = (reserve_slot F max_sessions memory a.server).1; holders = a.holders }
        → Step a b
    insert :
        (memory : CgroupMemory) (session_id : String) (session : Session) (others : ℕ)
        → a.holders ≡ suc others
        → b ≡ record {
          server = (insert_session F max_sessions memory session_id session a.server).1;
          holders = others;
        }
        → Step a b
    release :
        (others : ℕ)
        → a.holders ≡ suc others
        → b ≡ record { server = release_slot F max_sessions a.server; holders = others }
        → Step a b
    remove :
        (session_id : String)
        → b
          ≡ record { server = drop_session F max_sessions session_id a.server; holders = a.holders }
        → Step a b
    change :
        (session_id : String) (f : Session → Session)
        → b ≡ record {
          server = record a.server { sessions = on_session session_id f a.server.sessions };
          holders = a.holders;
        }
        → Step a b
    report :
        (memory : CgroupMemory) (count pending : ℕ)
        → b ≡ record {
          server = record a.server {
            capacity = (evaluate F a.server.capacity memory count max_sessions pending).1;
          };
          holders = a.holders;
        }
        → Step a b

  pub data Reach (a : System) : System → Type 0 where
    here : Reach a a
    next : {b c : System} → Reach a b → Step b c → Reach a c

  pub record IsSafe (a : System) : Type 0 where
    pub bounded : length a.server.sessions + a.server.browser_pending ≤ max_sessions
    pub counted : a.server.browser_pending ≡ a.holders
    pub valid : IsValid F a.server.capacity

  evaluate_capacity-IsValid :
      (memory : CgroupMemory) (pending : ℕ) (s : Server F max_sessions)
      → IsValid F s.capacity
      → IsValid F (evaluate_capacity F max_sessions memory pending s).1.capacity
  unfolding evaluate_capacity
  evaluate_capacity-IsValid memory pending s v =
      evaluate-IsValid F s.capacity memory (length s.sessions) max_sessions pending v

  allowed_bounded :
      (memory : CgroupMemory) (pending : ℕ) (s : Server F max_sessions)
      → IsValid F s.capacity
      → (evaluate_capacity F max_sessions memory pending s).0.allowed ≡ true
      → length s.sessions + pending < max_sessions
  unfolding evaluate_capacity
  allowed_bounded memory pending s v h =
      (admitted_fits F s.capacity memory (length s.sessions) max_sessions pending v h).0

  reserve_bounded :
      (memory : CgroupMemory) (s : Server F max_sessions)
      → IsValid F s.capacity
      → (reserve_slot F max_sessions memory s).0 ≡ true
      → let s' = (reserve_slot F max_sessions memory s).1 in
        (length s'.sessions + s'.browser_pending ≤ max_sessions)
        × (s'.browser_pending ≡ suc s.browser_pending)
  unfolding reserve_slot evaluate_capacity
  reserve_bounded memory s v h = ground (arith, allowed_bounded memory s.browser_pending s v)

  reserve-IsValid :
      (memory : CgroupMemory) (s : Server F max_sessions)
      → IsValid F s.capacity
      → IsValid F (reserve_slot F max_sessions memory s).1.capacity
  unfolding reserve_slot
  reserve-IsValid memory s v =
      ground (arith, evaluate_capacity-IsValid memory s.browser_pending s v)

  refused_bounded :
      (memory : CgroupMemory) (s : Server F max_sessions)
      → (reserve_slot F max_sessions memory s).0 ≡ false
      → let s' = (reserve_slot F max_sessions memory s).1 in
        (s'.sessions ≡ s.sessions) × (s'.browser_pending ≡ s.browser_pending)
  unfolding reserve_slot evaluate_capacity
  refused_bounded memory s h = ground arith

  insert_bounded :
      (memory : CgroupMemory) (session_id : String) (session : Session) (s : Server F max_sessions)
      (others : ℕ)
      → IsValid F s.capacity
      → s.browser_pending ≡ suc others
      → length s.sessions + s.browser_pending ≤ max_sessions
      → let s' = (insert_session F max_sessions memory session_id session s).1 in
        (length s'.sessions + s'.browser_pending ≤ max_sessions) × (s'.browser_pending ≡ others)
  unfolding insert_session evaluate_capacity
  insert_bounded memory session_id session s others v p b = ground (
    arith,
    allowed_bounded memory (s.browser_pending - 1) s v,
    length-store session_id session s.sessions,
  )

  insert-IsValid :
      (memory : CgroupMemory) (session_id : String) (session : Session) (s : Server F max_sessions)
      → IsValid F s.capacity
      → IsValid F (insert_session F max_sessions memory session_id session s).1.capacity
  unfolding insert_session
  insert-IsValid memory session_id session s v =
      ground (arith, evaluate_capacity-IsValid memory (s.browser_pending - 1) s v)

  length-on_session :
      (session_id : String) (f : Session → Session) (d : Dict Session)
      → length (on_session session_id f d) ≡ length d
  unfolding on_session
  length-on_session session_id f d = elim (Option-cases (find session_id d)) [
    | inl n ↦ ground arith
    | inr (s, e) ↦ ground (arith, length-store_present session_id (f s) s d e)
  ]

  same_bound :
      {d d' : Dict Session} {m m' : ℕ}
      → d' ≡ d
      → m' ≡ m
      → length d + m ≤ max_sessions
      → length d' + m' ≤ max_sessions
  same_bound {d} {d'} {m} {m'} p q h =
      subst⁻¹ (λ e. length e + m' ≤ max_sessions) p (subst⁻¹ (λ n. length d + n ≤ max_sessions) q h)

  pub Step-IsSafe : {a b : System} → IsSafe a → Step a b → IsSafe b
  unfolding release_slot drop_session evaluate_capacity
  Step-IsSafe {a} safe (reserve memory h e) =
      let (b, p) = reserve_bounded memory a.server safe.valid h in
      subst⁻¹ IsSafe e (record {
        bounded = b;
        counted = p ∙ ap suc safe.counted;
        valid = reserve-IsValid memory a.server safe.valid;
      })
  Step-IsSafe {a} safe (refuse memory h e) =
      let (b, p) = refused_bounded memory a.server h in
      subst⁻¹ IsSafe e (record {
        bounded = same_bound b p safe.bounded;
        counted = p ∙ safe.counted;
        valid = reserve-IsValid memory a.server safe.valid;
      })
  Step-IsSafe {a} safe (insert memory session_id session others h e) =
      let (b, p) =
        insert_bounded memory session_id session a.server others safe.valid (safe.counted ∙ h)
          safe.bounded in
      subst⁻¹ IsSafe e (record {
        bounded = b;
        counted = p;
        valid = insert-IsValid memory session_id session a.server safe.valid;
      })
  Step-IsSafe {a} safe (release others h e) = subst⁻¹ IsSafe e (record {
    bounded = ground (arith, safe.bounded);
    counted = ground (arith, safe.counted);
    valid = safe.valid;
  })
  Step-IsSafe {a} safe (remove session_id e) = subst⁻¹ IsSafe e (record {
    bounded = ground (arith, safe.bounded, length-pop session_id a.server.sessions);
    counted = safe.counted;
    valid = safe.valid;
  })
  Step-IsSafe {a} safe (change session_id f e) = subst⁻¹ IsSafe e (record {
    bounded =
        subst⁻¹ (λ n. n + a.server.browser_pending ≤ max_sessions)
          (length-on_session session_id f a.server.sessions) safe.bounded;
    counted = safe.counted;
    valid = safe.valid;
  })
  Step-IsSafe {a} safe (report memory count pending e) = subst⁻¹ IsSafe e (record {
    bounded = safe.bounded;
    counted = safe.counted;
    valid = evaluate-IsValid F a.server.capacity memory count max_sessions pending safe.valid;
  })

  -- Over every interleaving of the locked sections of requests and threads, from a safe server: the
  -- sessions and the pending launches together stay within the limit, `browser_pending` counts the
  -- requests that hold a slot, and the thresholds of the controller stay in order.
  pub Reach-IsSafe : {a b : System} → IsSafe a → Reach a b → IsSafe b
  Reach-IsSafe safe here = safe
  Reach-IsSafe safe (next r s) = Step-IsSafe (Reach-IsSafe safe r) s

  pub Reach-trans : {a b c : System} → Reach a b → Reach b c → Reach a c
  Reach-trans r here = r
  Reach-trans r (next q s) = next (Reach-trans r q) s
