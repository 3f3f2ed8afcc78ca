-- ===== src/Capacity/Controller/Latch.antt =====
-- The latch over several evaluations.
use coding_agents_databricks.Base.{
  ℕ, ◌≡◌, refl, Bool, true, false, not, some, List, [], ◌∷◌, All, arith, Option-cases, inl, inr,
  ◌⊎◌,
}
use coding_agents_databricks.Capacity.Cgroup.{CgroupMemory}
use coding_agents_databricks.Capacity.Controller.{
  Floats, Controller, usable, reserve_fits, latch, evaluate,
}

-- One call of `evaluate`: its reading, and the counts of sessions.
pub record Call : Type 0 where
  pub memory : CgroupMemory
  pub current : ℕ
  pub limit : ℕ
  pub pending : ℕ

module _ (F : Floats) where
  open F use {Float, leb_f, percent_of, budget, within}

  -- The controller after some calls, and whether each was allowed.
  pub run : Controller F → List Call → Controller F × List Bool
  run c [] = (c, [])
  run c (k ∷ rest) =
      let (d, c') = evaluate F c k.memory k.current k.limit k.pending in
      let (c'', ds) = run c' rest in (c'', d.allowed ∷ ds)

  -- A usable reading above the resume threshold, or one with no room for the reserve.
  abbrev pub IsTight : Controller F → Call → Type 0
  IsTight c k =
      (used : ℕ) × (total : ℕ) × (usable F k.memory ≡ some (used, total))
      × ((leb_f (percent_of used total) c.resume_threshold_percent ≡ false)
          ⊎ (reserve_fits F c used total k.pending ≡ false))

  stays_pressured :
      (c : Controller F) (k : Call)
      → c.is_pressured ≡ true
      → IsTight c k
      → let (d, c') = evaluate F c k.memory k.current k.limit k.pending in
        (d.allowed ≡ false) × (c' ≡ c)
  unfolding evaluate latch
  stays_pressured c k p (used, total, u, t) = ground arith

  -- A pressured controller refuses every session for as long as no reading is both at or below the
  -- resume threshold and with room for the reserve.
  pub run_refuses :
      (c : Controller F) (ks : List Call)
      → c.is_pressured ≡ true
      → All (IsTight c) ks
      → ((run c ks).0 ≡ c) × All (λ b. b ≡ false) (run c ks).1
  unfolding run
  run_refuses c [] p h = (refl, tt)
  run_refuses c (k ∷ ks) p h =
      let (refused, e) = stays_pressured c k p h.0 in
      let (kept, all) = run_refuses c ks p h.1 in rw e (kept, (refused, all))

  latch_again :
      (c : Controller F) (used total pending : ℕ)
      → leb_f c.high_watermark_percent c.resume_threshold_percent ≡ false
      → latch F (record c { is_pressured = latch F c used total pending }) used total pending
        ≡ latch F c used total pending
  unfolding latch reserve_fits
  latch_again c used total pending strict = ground (
    arith,
    F.leb_f_trans c.high_watermark_percent (percent_of used total) c.resume_threshold_percent,
  )

  -- With the resume threshold strictly below the high watermark, the same call made again comes to
  -- the same decision and leaves the controller as it is.
  pub evaluate_again :
      (c : Controller F) (k : Call)
      → leb_f c.high_watermark_percent c.resume_threshold_percent ≡ false
      → let (d, c') = evaluate F c k.memory k.current k.limit k.pending in
        evaluate F c' k.memory k.current k.limit k.pending ≡ (d, c')
  unfolding evaluate
  evaluate_again c k strict = elim (Option-cases (usable F k.memory)) [
    | inl e ↦ ground arith
    | inr ((used, total), e) ↦ ground (arith, latch_again c used total k.pending strict)
  ]

  -- With both thresholds equal to the percentage and room for the reserve, each call of the same
  -- reading flips the latch.
  pub latch_flips :
      (c : Controller F) (k : Call) (used total : ℕ)
      → usable F k.memory ≡ some (used, total)
      → leb_f c.high_watermark_percent (percent_of used total) ≡ true
      → leb_f (percent_of used total) c.resume_threshold_percent ≡ true
      → reserve_fits F c used total k.pending ≡ true
      → (evaluate F c k.memory k.current k.limit k.pending).1.is_pressured ≡ not c.is_pressured
  unfolding evaluate latch
  latch_flips c k used total u h r f = ground arith
