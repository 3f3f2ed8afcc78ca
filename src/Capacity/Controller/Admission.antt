-- ===== src/Capacity/Controller/Admission.antt =====
-- What holds when the controller admits a session.
use coding_agents_databricks.Base.{ℕ, ◌+◌, ◌*◌, ◌<◌, ◌≡◌, true, false, some, arith, ok}
use coding_agents_databricks.Capacity.Cgroup.{CgroupMemory}
use coding_agents_databricks.Capacity.Controller.{
  Floats, Controller, new_controller, usable, reserve_fits, latch, evaluate,
}

module _ (F : Floats) where
  open F use {Float, leb_f, percent_of, budget, within}

  -- The thresholds of a controller that `__init__` accepts.
  pub record IsValid (c : Controller F) : Type 0 where
    pub ordered : leb_f c.resume_threshold_percent c.high_watermark_percent ≡ true

  pub new_controller-IsValid :
      (high resume : Float) (reserve : ℕ) (c : Controller F)
      → new_controller F high resume reserve ≡ ok c
      → IsValid c × (c.is_pressured ≡ false)
  unfolding new_controller
  new_controller-IsValid high resume reserve c h = ground arith

  -- An evaluation changes the latch alone.
  pub evaluate-IsValid :
      (c : Controller F) (m : CgroupMemory) (current limit pending : ℕ)
      → IsValid c
      → IsValid (evaluate F c m current limit pending).1
  unfolding evaluate
  evaluate-IsValid c m current limit pending v = ground arith

  -- A free latch after a usable reading: the reading is not above the high watermark, and the
  -- reserve of the pending sessions and of one more fits under it.
  pub latch_free :
      (c : Controller F) (used limit pending : ℕ)
      → IsValid c
      → latch F c used limit pending ≡ false
      → (leb_f (percent_of used limit) c.high_watermark_percent ≡ true)
        × (within (used + (pending + 1) * c.reserve_bytes) (budget limit c.high_watermark_percent)
            ≡ true)
  unfolding latch reserve_fits
  latch_free c used limit pending v h = ground (
    arith,
    F.leb_f_total c.high_watermark_percent (percent_of used limit),
    F.leb_f_trans (percent_of used limit) c.resume_threshold_percent c.high_watermark_percent,
  )

  -- With thresholds in order, an admission leaves room: the sessions and the pending launches are below the limit, and of a
  -- usable reading the percentage is not above the high watermark and the reserve of every pending
  -- launch and of the new one fits in the budget.
  pub admitted_fits :
      (c : Controller F) (m : CgroupMemory) (current limit pending : ℕ)
      → IsValid c
      → (evaluate F c m current limit pending).0.allowed ≡ true
      → (current + pending < limit)
        × ((used total : ℕ)
            → usable F m ≡ some (used, total)
            → (leb_f (percent_of used total) c.high_watermark_percent ≡ true)
              × (within
                    (used + (pending + 1) * c.reserve_bytes)
                    (budget total c.high_watermark_percent)
                  ≡ true))
  unfolding evaluate
  admitted_fits c m current limit pending v h =
      (ground arith, λ used total u. latch_free c used total pending v (ground arith))
