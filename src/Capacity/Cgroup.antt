-- ===== src/Capacity/Cgroup.antt =====
-- resource_capacity.py: the cgroup memory reading. The file system is a function from paths to the
-- code points of a file's text, `none` where reading it raises; a path is the list of its parts.
pub mod Reading
use Prim.Native.Nat.{◌^◌}
use coding_agents_databricks.Base.{
  ℕ, ◌+◌, ◌-◌, ◌≤◌, String, ◌≡◌, Bool, true, false, ◌&&◌, ◌||◌, Option, none, some, List, [], ◌∷◌,
  ◌++◌, ltb, leb, ◌==◌, nat_has_eq, if◌then◌else◌,
}
use coding_agents_databricks.Base.Int.{ℤ, pos, negsuc, pos_part}
use coding_agents_databricks.Base.Text.{codes}
use coding_agents_databricks.Base.Parse.{Text, strip, split, splitlines, parse_int, same_text}

abbrev pub FilePath : Type 0
FilePath = List String

abbrev pub Files : Type 0
Files = FilePath → Option Text

-- `CgroupMemory`
pub record CgroupMemory : Type 0 where
  pub used_bytes : Option ℕ
  pub limit_bytes : Option ℕ
  pub available : Bool

abbrev pub unavailable : CgroupMemory
unavailable = record { used_bytes = none; limit_bytes = none; available = false }

-- `V1_UNLIMITED_FLOOR`
abbrev pub v1_unlimited_floor : ℕ
v1_unlimited_floor = 2 ^ 60

nonnegative : Option ℤ → Option ℕ
nonnegative (some (pos n)) = some n
nonnegative _ = none

-- `parse_cgroup_memory_value`
unfoldable pub parse_cgroup_memory_value : Bool → Text → Option ℕ
unfolding nonnegative strip parse_int
parse_cgroup_memory_value allow_max value =
    if allow_max && same_text (strip value) (codes "max")
    then none
    else nonnegative (parse_int (strip value))

-- `stats.setdefault(fields[0], fields[1])` keeps the first value: the list is searched in order.
unfoldable pub stat_fields : List Text → List (Text × Text)
unfolding split
stat_fields [] = []
stat_fields (line ∷ rest) =
    let later = stat_fields rest in elim (split line) [ k ∷ v ∷ [] ↦ (k, v) ∷ later | _ ↦ later ]

find : Text → List (Text × Text) → Option Text
find k [] = none
find k ((j, v) ∷ rest) = if same_text j k then some v else find k rest

-- `max(0, int(raw))`, and 0 for a counter that is missing or cannot be parsed
counter : Option Text → ℕ
unfolding parse_int
counter none = 0
counter (some raw) = elim (parse_int raw) [ none ↦ 0 | some n ↦ pos_part n ]

-- `stats.get(f"total_{key}", stats.get(key))`
reclaimable : Text → List (Text × Text) → ℕ
unfolding find counter
reclaimable key stats =
    counter
      (elim (find (codes "total_" ++ key) stats) [ some raw ↦ some raw | none ↦ find key stats ])

-- `_reclaimable_file_bytes`
unfoldable pub reclaimable_file_bytes : Files → FilePath → ℕ
unfolding stat_fields splitlines reclaimable same_text
reclaimable_file_bytes files stat_path = elim (files stat_path) [
  | none ↦ 0
  | some text ↦
      let stats = stat_fields (splitlines text) in
      reclaimable (codes "inactive_file") stats + reclaimable (codes "active_file") stats
]

-- `memory.current` less the reclaimable cache
working_set : Files → FilePath → ℕ → ℕ
working_set files base used = used - reclaimable_file_bytes files (base ++ "memory.stat" ∷ [])

v2_pair : Files → FilePath → Option ℕ → Option ℕ → CgroupMemory
unfolding working_set
v2_pair files root none limit = unavailable
v2_pair files root (some used) none = record {
  used_bytes = some (working_set files root used);
  limit_bytes = none;
  available = true;
}
v2_pair files root (some used) (some n) = if leb n 0 then unavailable else record {
  used_bytes = some (working_set files root used);
  limit_bytes = some n;
  available = true;
}

-- `_read_cgroup_v2`
unfoldable pub read_cgroup_v2 : Files → FilePath → Option CgroupMemory
unfolding v2_pair
read_cgroup_v2 files root = elim (files (root ++ "memory.current" ∷ [])) [
  | none ↦ none
  | some used_raw ↦ elim (files (root ++ "memory.max" ∷ [])) [
    | none ↦ none
    | some limit_raw ↦ some (
        v2_pair files root (parse_cgroup_memory_value false used_raw)
          (parse_cgroup_memory_value true limit_raw))
  ]
]

-- What one round of the loop of `_read_cgroup_v1` does: read on, note a malformed pair, or return.
pub data Round : Type 0 where
  absent malformed : Round
  reading : CgroupMemory → Round

v1_pair : Files → FilePath → Option ℕ → Option ℕ → Round
unfolding working_set
v1_pair files base (some used) (some limit) =
    if leb limit 0
    then malformed
    else if leb v1_unlimited_floor limit
    then reading (record { used_bytes = some used; limit_bytes = none; available = true })
    else reading (record {
      used_bytes = some (working_set files base used);
      limit_bytes = some limit;
      available = true;
    })
v1_pair files base _ _ = malformed

unfoldable pub v1_round : Files → FilePath → Round
unfolding v1_pair
v1_round files base = elim (files (base ++ "memory.usage_in_bytes" ∷ [])) [
  | none ↦ absent
  | some used_raw ↦ elim (files (base ++ "memory.limit_in_bytes" ∷ [])) [
    | none ↦ absent
    | some limit_raw ↦
        v1_pair files base (parse_cgroup_memory_value false used_raw)
          (parse_cgroup_memory_value false limit_raw)
  ]
]

v1_search : Files → Bool → List FilePath → Option CgroupMemory
v1_search files seen_malformed [] = if seen_malformed then some unavailable else none
v1_search files seen_malformed (base ∷ rest) = elim (v1_round files base) [
  | absent ↦ v1_search files seen_malformed rest
  | malformed ↦ v1_search files true rest
  | reading m ↦ some m
]

-- `_read_cgroup_v1`
unfoldable pub read_cgroup_v1 : Files → FilePath → Option CgroupMemory
unfolding v1_search
read_cgroup_v1 files root = v1_search files false ((root ++ "memory" ∷ []) ∷ root ∷ [])

-- Version 2 where it is available, then version 1, then what version 2 came to.
first_reading : Option CgroupMemory → Option CgroupMemory → CgroupMemory
first_reading none none = unavailable
first_reading none (some m) = m
first_reading (some m) none = m
first_reading (some m) (some n) = if m.available then m else n

-- `read_cgroup_memory`, of the root that its argument or the environment gives
unfoldable pub read_cgroup_memory : Files → FilePath → CgroupMemory
unfolding first_reading
read_cgroup_memory files root =
    first_reading (read_cgroup_v2 files root) (read_cgroup_v1 files root)
