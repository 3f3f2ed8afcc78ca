-- ===== src/Tests/Memory.antt =====
-- Memory readings and the admission of sessions: resource_capacity.py.
use coding_agents_databricks.Base.{
  ℕ, ◌+◌, ◌*◌, ◌/◌, ◌≤◌, ◌<◌, ◌≡◌, refl, Bool, true, false, none, some, [], ◌∷◌, leb, arith, ◌==◌,
  string_has_eq, if◌then◌else◌,
}
use coding_agents_databricks.Base.Text.{codes}
use coding_agents_databricks.Capacity.Cgroup.{Files, CgroupMemory, read_cgroup_memory}
use coding_agents_databricks.Capacity.Cgroup.Reading.{IsReading, read_cgroup_memory-IsReading}
use coding_agents_databricks.Capacity.Controller.{
  Floats, Controller, usable, reserve_fits, latch, evaluate,
}
use coding_agents_databricks.Capacity.Controller.Admission.{IsValid, admitted_fits}
use coding_agents_databricks.Capacity.Controller.Latch.{Call}

pub leb_trans : (a b c : ℕ) → leb a b ≡ true → leb b c ≡ true → leb a c ≡ true
leb_trans a b c h k = ground arith

pub leb_total : (a b : ℕ) → leb a b ≡ false → leb b a ≡ true
leb_total a b h = ground arith

pub leb_mono : (m n b : ℕ) → m ≤ n → leb n b ≡ true → leb m b ≡ true
leb_mono m n b h k = ground arith

-- Whole percents stand for the floats.
abbrev pub percents : Floats
percents = record {
  Float = ℕ;
  zero_f = 0;
  hundred = 100;
  leb_f = leb;
  percent_of = λ used limit. used * 100 / limit;
  budget = λ limit p. limit * p / 100;
  within = leb;
  leb_f_trans = leb_trans;
  leb_f_total = leb_total;
  within_mono = leb_mono;
}

abbrev pub controller : Bool → Controller percents
controller p = record {
  high_watermark_percent = 80;
  resume_threshold_percent = 70;
  reserve_bytes = 10;
  is_pressured = p;
}

abbrev pub reading : ℕ → CgroupMemory
reading used = record { used_bytes = some used; limit_bytes = some 1000; available = true }

abbrev call : ℕ → Call
call used = record { memory = reading used; current = 1; limit = 5; pending = 1 }

controller-IsValid : IsValid percents (controller false)
controller-IsValid = record { ordered = refl }

admitted_fits_example :
    (1 + 1 < 5)
    × ((used total : ℕ)
        → usable percents (reading 600) ≡ some (used, total)
        → (leb (used * 100 / total) 80 ≡ true)
          × (leb (used + (1 + 1) * 10) (total * 80 / 100) ≡ true))
unfolding evaluate usable reserve_fits latch
admitted_fits_example =
    admitted_fits percents (controller false) (reading 600) 1 5 1 controller-IsValid refl

-- both thresholds at 75, and nothing reserved
abbrev level_controller : Controller percents
level_controller = record {
  high_watermark_percent = 75;
  resume_threshold_percent = 75;
  reserve_bytes = 0;
  is_pressured = false;
}

-- a version 2 tree whose `memory.max` is damaged
abbrev files : Files
files (name ∷ []) =
    if name == "memory.current"
    then some (codes "100")
    else if name == "memory.max"
    then some (codes "lots")
    else none
files _ = none

read_cgroup_memory-IsReading_example : IsReading (read_cgroup_memory files [])
read_cgroup_memory-IsReading_example = read_cgroup_memory-IsReading files []
