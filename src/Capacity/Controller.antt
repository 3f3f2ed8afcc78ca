-- ===== src/Capacity/Controller.antt =====
-- resource_capacity.py: `BrowserCapacityController`, the admission of browser sessions with a latch
-- between a high watermark and a resume threshold. Percentages and byte budgets are floats: their
-- type and the operations on them are a parameter, with the order laws that the proofs use.
pub mod Latch
pub mod Admission
use coding_agents_databricks.Base.{
  ℕ, suc, ◌+◌, ◌*◌, ◌≤◌, ◌≡◌, Bool, true, false, ◌&&◌, ◌||◌, not, Option, none, some, ltb,
  if◌then◌else◌, Result, ok, err, value_error,
}
use coding_agents_databricks.Capacity.Cgroup.{CgroupMemory}

-- The floats of the source that are not NaN. `percent_of used limit` is
-- `round(used * 100 / limit, 2)`, `budget limit p` is `limit * p / 100`, and `within n b` compares
-- an integer with a float, `n <= b`.
pub record Floats : Type 1 where
  pub Float : Type 0
  pub zero_f : Float
  pub hundred : Float
  pub leb_f : Float → Float → Bool
  pub percent_of : ℕ → ℕ → Float
  pub budget : ℕ → Float → Float
  pub within : ℕ → Float → Bool
  pub leb_f_trans : (a b c : Float) → leb_f a b ≡ true → leb_f b c ≡ true → leb_f a c ≡ true
  pub leb_f_total : (a b : Float) → leb_f a b ≡ false → leb_f b a ≡ true
  pub within_mono : (m n : ℕ) (b : Float) → m ≤ n → within n b ≡ true → within m b ≡ true

-- `state` of a decision
pub data PressureState : Type 0 where
  telemetry_unavailable pressured normal : PressureState

-- `CapacityDecision`; its `reason` is text for the client
pub record CapacityDecision : Type 0 where
  pub allowed : Bool
  pub state : PressureState
  pub memory : CgroupMemory

module _ (F : Floats) where
  open F use {Float, zero_f, hundred, leb_f, percent_of, budget, within}

  -- `BrowserCapacityController`, without the reader: each evaluation is given its reading
  pub record Controller : Type 0 where
    pub high_watermark_percent : Float
    pub resume_threshold_percent : Float
    pub reserve_bytes : ℕ
    pub is_pressured : Bool

  -- `__init__`; `reserve_bytes` is at least 0 by its type
  unfoldable pub new_controller : Float → Float → ℕ → Result Controller
  new_controller high resume reserve =
      if not (leb_f resume zero_f) && leb_f resume high && leb_f high hundred
      then ok (record {
        high_watermark_percent = high;
        resume_threshold_percent = resume;
        reserve_bytes = reserve;
        is_pressured = false;
      })
      else err value_error

  -- `memory.percent`, where the reading is usable: the usage, the limit and the percentage
  unfoldable pub usable : CgroupMemory → Option (ℕ × ℕ)
  usable memory = elim memory.limit_bytes [
    | none ↦ none
    | some limit ↦ elim memory.used_bytes [
      | none ↦ none
      | some used ↦ if memory.available && ltb 0 limit then some (used, limit) else none
    ]
  ]

  -- `reserve_fits`
  unfoldable pub reserve_fits : Controller → ℕ → ℕ → ℕ → Bool
  reserve_fits c used limit pending =
      within (used + (pending + 1) * c.reserve_bytes) (budget limit c.high_watermark_percent)

  -- the latch after a usable reading
  unfoldable pub latch : Controller → ℕ → ℕ → ℕ → Bool
  latch c used limit pending =
      let percent = percent_of used limit in
      let fits = reserve_fits c used limit pending in
      if c.is_pressured
      then not (leb_f percent c.resume_threshold_percent && fits)
      else leb_f c.high_watermark_percent percent || not fits

  -- `evaluate`, on the reading that it takes
  unfoldable pub evaluate : Controller → CgroupMemory → ℕ → ℕ → ℕ → CapacityDecision × Controller
  evaluate c memory current_sessions session_limit pending_sessions =
      let has_slot = ltb (current_sessions + pending_sessions) session_limit in
      elim (usable memory) [
        | none ↦ (
          record { allowed = has_slot; state = telemetry_unavailable; memory = memory },
          record c { is_pressured = false },
        )
        | some (used, limit) ↦
            let now_pressured = latch c used limit pending_sessions in
            let c' = record c { is_pressured = now_pressured } in
            if now_pressured
            then (record { allowed = false; state = pressured; memory = memory }, c')
            else (record { allowed = has_slot; state = normal; memory = memory }, c')
      ]
