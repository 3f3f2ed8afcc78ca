-- ===== src/Tests/Rotation.antt =====
-- Rotations at concrete inputs: pat_rotator.py.
use coding_agents_databricks.Base.{
  ℕ, ◌+◌, ◌≡◌, ◌≢◌, refl, String, Bool, true, false, Option, none, some, List, [], ◌∷◌, ◌++◌, All,
  arith, eq_iff, ◌==◌, string_has_eq,
}
use coding_agents_databricks.Rotation.{
  Rotator, create_token, persist, delete_token, answered, TokenInfo, rotate_once, mint, adopt,
  truthy, revoke_old, is_candidate, candidates, starts_with, revoke_only, revoke_bootstrap_token,
  wakes_to_rotate, token_near_expiry, expiry_grace, is_token_expired,
}
use coding_agents_databricks.Rotation.Revocation.{
  Attempt, rotate_all, minted, ids_of, AreDistinct, Spares, rotate_all-Spares,
}
use coding_agents_databricks.Rotation.Bootstrap.{revoke_bootstrap_token_sole}
use coding_agents_databricks.Rotation.Lifetime.{skip_is_safe}

abbrev rotator : Rotator
rotator = record {
  current_token = some "t0";
  current_token_id = some "i0";
  last_rotation_time = some 1000;
}

abbrev attempt : String → String → Bool → Attempt
attempt token token_id ok = record {
  reply = answered 200 (some (token, token_id));
  now = 1600;
  config_ok = ok;
  refresh_ok = true;
}

abbrev attempts : List Attempt
attempts = attempt "t1" "i1" false ∷ attempt "t2" "i2" true ∷ []

-- The first rotation does not reach all targets, so that the first token is left to expire.
rotated_twice :
    (rotate_all attempts rotator).1
    ≡ create_token "t0"
      ∷ persist "t1"
      ∷ create_token "t1"
      ∷ persist "t2"
      ∷ delete_token "t2" "i1"
      ∷ []
unfolding rotate_all rotate_once mint adopt truthy revoke_old
rotated_twice = refl

unequal : (i j : String) → (i == j) ≡ false → i ≢ j
unequal i j h e = ground (arith, h, e, eq_iff i j)

attempts-AreDistinct : AreDistinct (ids_of (some "i0") ++ minted attempts)
attempts-AreDistinct = (
  (unequal "i0" "i1" refl, (unequal "i0" "i2" refl, tt)),
  ((unequal "i1" "i2" refl, tt), (tt, tt)),
)

rotate_all-Spares_example :
    All (Spares (rotate_all attempts rotator).0.current_token_id) (rotate_all attempts rotator).1
rotate_all-Spares_example = rotate_all-Spares attempts rotator attempts-AreDistinct

abbrev listed : List TokenInfo
listed =
    record { token_id = "i0"; comment = "coda-auto-rotated:me" }
    ∷ record { token_id = "b"; comment = "laptop" }
    ∷ record { token_id = "o"; comment = "coda-auto-rotated:other" }
    ∷ []

cleanup_of_listed : revoke_bootstrap_token (some listed) rotator ≡ delete_token "t0" "b" ∷ []
unfolding revoke_bootstrap_token truthy candidates is_candidate starts_with revoke_only
cleanup_of_listed = refl

revoke_bootstrap_token_sole_example :
    (token current_id : String) × (xs : List TokenInfo) × (info : TokenInfo) × (ys : List TokenInfo)
    × ((some "t0" ≡ some token)
        × ((some "i0" ≡ some current_id)
            × ((some listed ≡ some (xs ++ info ∷ ys))
                × ((candidates current_id xs ++ candidates current_id ys ≡ [])
                    × ((is_candidate current_id info ≡ true)
                        × (delete_token "t0" "b" ∷ [] ≡ delete_token token info.token_id ∷ []))))))
revoke_bootstrap_token_sole_example =
    revoke_bootstrap_token_sole (some listed) rotator (delete_token "t0" "b") [] cleanup_of_listed

-- a lifetime of an hour, of which a wake after ten minutes is skipped
skip_is_safe_example :
    (◌≡◌ {A = ℕ} 0 0)
    × ((◌≢◌ {A = Option ℕ} (some 1000) none) × (is_token_expired 3600 (1600 + 600) rotator ≡ false))
unfolding wakes_to_rotate token_near_expiry expiry_grace
skip_is_safe_example = skip_is_safe 600 3600 0 1600 rotator refl
