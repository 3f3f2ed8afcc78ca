-- ===== src/Sessions/Polling/Stale.antt =====
-- What an iteration of `cleanup_stale_sessions` leaves of every session.
use coding_agents_databricks.Base.{
  ℕ, ◌≡◌, refl, String, Bool, false, ◌||◌, Option, none, some, List, [], ◌∷◌, ltb, ◌==◌,
  string_has_eq, if◌then◌else◌, arith, eq_iff,
}
use coding_agents_databricks.Base.Dict.{Dict, find, pop, find-pop}
use coding_agents_databricks.Sessions.{Session}
use coding_agents_databricks.Sessions.Polling.{
  session_timeout_seconds, idle, warned, sweep, terminate_all, cleanup_stale_sessions,
}

-- A dict has each key once.
abbrev pub IsDict : Dict Session → Type 0
IsDict [] = Unit
IsDict ((k, s) ∷ d) = (find k d ≡ none) × IsDict d

unfoldable pub among : String → List String → Bool
among k [] = false
among k (j ∷ js) = (k == j) || among k js

abbrev is_stale : ℕ → Option Session → Bool
is_stale now none = false
is_stale now (some s) = ltb session_timeout_seconds (idle now s)

abbrev swept : ℕ → Option Session → Option Session
swept now none = none
swept now (some s) = some (if ltb session_timeout_seconds (idle now s) then s else warned now s)

among-sweep :
    (now : ℕ) (k : String) (d : Dict Session)
    → IsDict d
    → among k (sweep now d).0 ≡ is_stale now (find k d)
unfolding sweep among find
among-sweep now k [] h = refl
among-sweep now k ((j, s) ∷ d) (n, h) = ground (arith, eq_iff k j, among-sweep now k d h, n)

find-sweep :
    (now : ℕ) (k : String) (d : Dict Session) → find k (sweep now d).1 ≡ swept now (find k d)
unfolding sweep find
find-sweep now k [] = refl
find-sweep now k ((j, s) ∷ d) = ground (arith, find-sweep now k d)

find-terminate_all :
    (ks : List String) (k : String) (d : Dict Session)
    → find k (terminate_all ks d) ≡ (if among k ks then none else find k d)
unfolding terminate_all among
find-terminate_all [] k d = refl
find-terminate_all (j ∷ ks) k d =
    ground (arith, eq_iff k j, eq_iff j k, find-terminate_all ks k (pop j d), find-pop j k d)

pub find-cleanup_stale_sessions :
    (now : ℕ) (k : String) (d : Dict Session)
    → IsDict d
    → find k (cleanup_stale_sessions now d) ≡ (elim (find k d) [
      | none ↦ none
      | some s ↦ if ltb session_timeout_seconds (idle now s) then none else some (warned now s)
    ])
unfolding cleanup_stale_sessions
find-cleanup_stale_sessions now k d h = ground (
  arith,
  find-terminate_all (sweep now d).0 k (sweep now d).1,
  among-sweep now k d h,
  find-sweep now k d,
)
