-- ===== src/Capacity/Cgroup/Reading.antt =====
-- What a memory reading promises, wherever it was found.
use coding_agents_databricks.Base.{
  ℕ, ◌<◌, ◌≡◌, refl, Bool, true, false, Option, none, some, List, [], ◌∷◌, ◌++◌, leb, arith,
  Option-cases, Bool-cases, inl, inr, if◌then◌else◌,
}
use mathlib.Core.Path.{subst}
use coding_agents_databricks.Base.Parse.{Text}
use coding_agents_databricks.Capacity.Cgroup.{
  Files, FilePath, CgroupMemory, unavailable, v1_unlimited_floor, parse_cgroup_memory_value,
  working_set, v2_pair, read_cgroup_v2, Round, absent, malformed, reading, v1_pair, v1_round,
  v1_search, read_cgroup_v1, first_reading, read_cgroup_memory,
}

-- A reading that is available has a usage; a limit is above 0; and a reading that is not available
-- has neither.
pub record IsReading (m : CgroupMemory) : Type 0 where
  pub usage : m.available ≡ true → (used : ℕ) × (m.used_bytes ≡ some used)
  pub limit : (n : ℕ) → m.limit_bytes ≡ some n → 0 < n
  pub nothing : m.available ≡ false → (m.used_bytes ≡ none) × (m.limit_bytes ≡ none)

unavailable-IsReading : IsReading unavailable
unavailable-IsReading = record {
  usage = λ h. absurd (ground arith);
  limit = λ n h. cc;
  nothing = λ h. (refl, refl);
}

available-IsReading :
    (used : ℕ) (limit : Option ℕ)
    → ((n : ℕ) → limit ≡ some n → 0 < n)
    → IsReading (record { used_bytes = some used; limit_bytes = limit; available = true })
available-IsReading used limit h = record {
  usage = λ _. (used, refl);
  limit = h;
  nothing = λ e. absurd (ground arith);
}

positive-IsReading :
    (used n : ℕ) (small : Bool)
    → leb n 0 ≡ small
    → IsReading (
        if small
        then unavailable
        else record { used_bytes = some used; limit_bytes = some n; available = true })
positive-IsReading used n true e = unavailable-IsReading
positive-IsReading used n false e = available-IsReading used (some n) (λ m h. ground arith)

v2_pair-IsReading :
    (files : Files) (root : FilePath) (used limit : Option ℕ)
    → IsReading (v2_pair files root used limit)
unfolding v2_pair
v2_pair-IsReading files root none limit = unavailable-IsReading
v2_pair-IsReading files root (some used) none = available-IsReading _ none (λ n h. cc)
v2_pair-IsReading files root (some used) (some n) = positive-IsReading _ n (leb n 0) refl

v2-IsReading :
    (files : Files) (root : FilePath) (m : CgroupMemory)
    → read_cgroup_v2 files root ≡ some m
    → IsReading m
unfolding read_cgroup_v2
v2-IsReading files root m h = elim (Option-cases (files (root ++ "memory.current" ∷ []))) [
  | inl e ↦ absurd (ground arith)
  | inr (u, e) ↦ elim (Option-cases (files (root ++ "memory.max" ∷ []))) [
    | inl e' ↦ absurd (ground arith)
    | inr (l, e') ↦ subst IsReading (ground arith) (
        v2_pair-IsReading files root (parse_cgroup_memory_value false u)
          (parse_cgroup_memory_value true l))
  ]
]

v1_pair-IsReading :
    (files : Files) (base : FilePath) (used limit : Option ℕ) (m : CgroupMemory)
    → v1_pair files base used limit ≡ reading m
    → IsReading m
unfolding v1_pair
v1_pair-IsReading files base (some used) (some n) m h = elim (Bool-cases (leb n 0)) [
  | inl e ↦ absurd (ground arith)
  | inr e ↦ elim (Bool-cases (leb v1_unlimited_floor n)) [
    | inl f ↦ subst IsReading (ground arith) (available-IsReading used none (λ k p. cc))
    | inr f ↦
        subst IsReading (ground arith)
          (available-IsReading (working_set files base used) (some n) (λ k p. ground arith))
  ]
]
v1_pair-IsReading files base none limit m h = absurd (ground arith)
v1_pair-IsReading files base _ _ m h = absurd (ground arith)

v1_round-IsReading :
    (files : Files) (base : FilePath) (m : CgroupMemory)
    → v1_round files base ≡ reading m
    → IsReading m
unfolding v1_round
v1_round-IsReading files base m h =
    elim (Option-cases (files (base ++ "memory.usage_in_bytes" ∷ []))) [
      | inl e ↦ absurd (ground arith)
      | inr (u, e) ↦ elim (Option-cases (files (base ++ "memory.limit_in_bytes" ∷ []))) [
        | inl e' ↦ absurd (ground arith)
        | inr (l, e') ↦
            v1_pair-IsReading files base (parse_cgroup_memory_value false u)
              (parse_cgroup_memory_value false l) m (ground arith)
      ]
    ]

v1_search-IsReading :
    (files : Files) (seen : Bool) (bases : List FilePath) (m : CgroupMemory)
    → v1_search files seen bases ≡ some m
    → IsReading m
unfolding v1_search
v1_search-IsReading files true [] m h = subst IsReading (ground arith) unavailable-IsReading
v1_search-IsReading files false [] m h = absurd (ground arith)
v1_search-IsReading files seen (base ∷ rest) m h =
    next (v1_round files base) refl (λ b. v1_search-IsReading files b rest m) h
  where
    next :
        (r : Round)
        → v1_round files base ≡ r
        → ((b : Bool) → v1_search files b rest ≡ some m → IsReading m)
        → elim r as (λ _. Option CgroupMemory) [
          | absent ↦ v1_search files seen rest
          | malformed ↦ v1_search files true rest
          | reading m' ↦ some m'
        ]
          ≡ some m
        → IsReading m
    next absent e ih k = ih seen k
    next malformed e ih k = ih true k
    next (reading m') e ih k = v1_round-IsReading files base m (ground arith)

found-IsReading :
    (v2 v1 : Option CgroupMemory)
    → ((m : CgroupMemory) → v2 ≡ some m → IsReading m)
    → ((m : CgroupMemory) → v1 ≡ some m → IsReading m)
    → IsReading (first_reading v2 v1)
unfolding first_reading
found-IsReading none none h k = unavailable-IsReading
found-IsReading none (some n) h k = k n refl
found-IsReading (some m) none h k = h m refl
found-IsReading (some m) (some n) h k = elim (Bool-cases m.available) [
  | inl e ↦ simp e (h m refl)
  | inr e ↦ simp e (k n refl)
]

-- Whatever the files hold, a reading that is available has a usage and no limit of 0, so that its
-- percentage can be taken; one that is not available has neither a usage nor a limit.
pub read_cgroup_memory-IsReading :
    (files : Files) (root : FilePath) → IsReading (read_cgroup_memory files root)
unfolding read_cgroup_memory read_cgroup_v1
read_cgroup_memory-IsReading files root =
    found-IsReading (read_cgroup_v2 files root) (read_cgroup_v1 files root)
      (v2-IsReading files root)
      (v1_search-IsReading files false ((root ++ "memory" ∷ []) ∷ root ∷ []))

-- A `memory.max` that is neither a number nor `max` still makes a reading that is available, with
-- no limit, and the version 1 files are not tried.
pub malformed_max_is_available :
    (files : Files) (root : FilePath) (used_raw limit_raw : Text) (used : ℕ)
    → files (root ++ "memory.current" ∷ []) ≡ some used_raw
    → files (root ++ "memory.max" ∷ []) ≡ some limit_raw
    → parse_cgroup_memory_value false used_raw ≡ some used
    → parse_cgroup_memory_value true limit_raw ≡ none
    → ((read_cgroup_memory files root).available ≡ true)
      × ((read_cgroup_memory files root).limit_bytes ≡ none)
unfolding read_cgroup_memory read_cgroup_v2 first_reading
malformed_max_is_available files root used_raw limit_raw used hu hl pu pl = ground arith
