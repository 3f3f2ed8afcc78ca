-- ===== src/Sessions/Polling/Batch.antt =====
-- The batch of polls answers and changes what the polls of its sessions do one at a time.
use coding_agents_databricks.Base.{
  ℕ, ◌≡◌, refl, String, Bool, Option, none, some, List, [], ◌∷◌, string_has_eq, if◌then◌else◌,
  arith, eq_iff, Option-cases, inl, inr,
}
use coding_agents_databricks.Base.Dict.{Dict, find, store, find-store}
use coding_agents_databricks.Sessions.{Session}
use coding_agents_databricks.Sessions.Polling.{
  output_of, drained, get_output, resolve, swap_buffers, get_output_batch,
}
use coding_agents_databricks.Sessions.Polling.Stale.{IsDict, among}

find-resolve :
    (ks : List String) (k : String) (d r : Dict Session)
    → find k (resolve ks d r)
      ≡ (if among k ks then (elim (find k d) [ none ↦ find k r | some s ↦ some s ]) else find k r)
unfolding resolve among
find-resolve [] k d r = refl
find-resolve (j ∷ ks) k d r = elim (Option-cases (find j d)) [
  | inl n ↦ ground (arith, eq_iff k j, find-resolve ks k d r)
  | inr (s, e) ↦
      ground (arith, eq_iff k j, eq_iff j k, find-resolve ks k d (store j s r), find-store j k s r)
]

pub store-IsDict : (k : String) (s : Session) (d : Dict Session) → IsDict d → IsDict (store k s d)
unfolding store find
store-IsDict k s [] h = (refl, tt)
store-IsDict k s ((j, t) ∷ d) (n, h) =
    ground (arith, eq_iff k j, eq_iff j k, find-store k j s d, store-IsDict k s d h)

resolve-IsDict : (ks : List String) (d r : Dict Session) → IsDict r → IsDict (resolve ks d r)
unfolding resolve
resolve-IsDict [] d r h = h
resolve-IsDict (j ∷ ks) d r h = elim (Option-cases (find j d)) [
  | inl n ↦ ground (arith, resolve-IsDict ks d r h)
  | inr (s, e) ↦ ground (arith, resolve-IsDict ks d (store j s r) (store-IsDict j s r h))
]

swapped : ℕ → Option Session → Option Session → Option Session
swapped now none old = old
swapped now (some s) old = some (drained now s)

answered : Option Session → Option (String × Bool) → Option (String × Bool)
answered none old = old
answered (some s) old = some (output_of s)

find-swap_buffers :
    (now : ℕ) (k : String) (r : Dict Session) (o : Dict (String × Bool)) (d : Dict Session)
    → IsDict r
    → (find k (swap_buffers now r o d).0 ≡ answered (find k r) (find k o))
      × (find k (swap_buffers now r o d).1 ≡ swapped now (find k r) (find k d))
unfolding swap_buffers find swapped answered
find-swap_buffers now k [] o d h = (refl, refl)
find-swap_buffers now k ((j, s) ∷ r) o d (n, h) = ground (
  arith,
  eq_iff k j,
  eq_iff j k,
  find-store j k (output_of s) o,
  find-store j k (drained now s) d,
  find-swap_buffers now k r (store j (output_of s) o) (store j (drained now s) d) h,
  n,
)

-- What a batch of polls answers for a session, and what it leaves of it, are what a poll of that
-- session alone answers and leaves, if the request names it, once or more; a session that the
-- request does not name is neither answered for nor changed.
pub get_output_batch-get_output :
    (ks : List String) (k : String) (now : ℕ) (d : Dict Session)
    → let r = get_output_batch ks now d in
      (find k r.0 ≡ (if among k ks then (get_output k now d).0 else none))
      × (find k r.1 ≡ (if among k ks then find k (get_output k now d).1 else find k d))
unfolding get_output_batch get_output swapped answered find
get_output_batch-get_output ks k now d =
    let (o, t) = find-swap_buffers now k (resolve ks d []) [] d (resolve-IsDict ks d [] tt) in
    elim (Option-cases (find k d)) [
      | inl n ↦
          (ground (arith, o, find-resolve ks k d []), ground (arith, t, find-resolve ks k d []))
      | inr (s, e) ↦ (
        ground (arith, o, find-resolve ks k d []),
        ground (arith, t, find-resolve ks k d [], find-store k k (drained now s) d, eq_iff k k),
      )
    ]
