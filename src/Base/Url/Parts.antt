-- ===== src/Base/Url/Parts.antt =====
-- The parts of a URL that is put together from them.
use coding_agents_databricks.Base.Tests.{nat_eq}
use Prim.Native.Nat.{ℕ}
use mathlib.Core.Path.{◌≡◌, refl, ap}
use mathlib.Core.Bool.{Bool, true, false, ◌||◌}
use mathlib.Core.Option.{none, some}
use mathlib.Core.List.{[], ◌∷◌, ◌++◌}
use coding_agents_databricks.Base.Lists.{All, any}
use coding_agents_databricks.Base.Parse.{Text}
use coding_agents_databricks.Base.Url.{
  partition, rpartition, before_rest, drop_unsafe, split_netloc, ends_netloc,
}

pub partition-none :
    (sep : ℕ → Bool) (t : Text) → All (λ c. sep c ≡ false) t → partition sep t ≡ (t, none)
unfolding partition
partition-none sep [] a = refl
partition-none sep (c ∷ t) (a, later) = rw (a, partition) (rw (partition-none sep t later) refl)

pub partition_at :
    (sep : ℕ → Bool) (s t : Text) (c : ℕ)
    → All (λ d. sep d ≡ false) s
    → sep c ≡ true
    → partition sep (s ++ c ∷ t) ≡ (s, some t)
unfolding partition
partition_at sep [] t c a h = rw (h, partition) refl
partition_at sep (d ∷ s) t c (a, later) h =
    rw (a, partition) (rw (partition_at sep s t c later h) refl)

pub rpartition-none :
    (sep : ℕ → Bool) (t : Text) → All (λ c. sep c ≡ false) t → rpartition sep t ≡ (none, t)
unfolding rpartition before_rest
rpartition-none sep [] a = refl
rpartition-none sep (c ∷ t) (a, later) = rw (rpartition-none sep t later) (rw (a, before_rest) refl)

pub split_netloc_at :
    (s t : Text) (c : ℕ)
    → All (λ d. ends_netloc d ≡ false) s
    → ends_netloc c ≡ true
    → split_netloc (s ++ c ∷ t) ≡ (s, c ∷ t)
unfolding split_netloc
split_netloc_at [] t c a h = rw (h, split_netloc) refl
split_netloc_at (d ∷ s) t c (a, later) h =
    rw (a, split_netloc) (rw (split_netloc_at s t c later h) refl)

abbrev pub is_unsafe : ℕ → Bool
is_unsafe c = nat_eq c 9 || nat_eq c 10 || nat_eq c 13

pub drop_unsafe_none : (t : Text) → All (λ c. is_unsafe c ≡ false) t → drop_unsafe t ≡ t
unfolding drop_unsafe
drop_unsafe_none [] a = refl
drop_unsafe_none (c ∷ t) (a, later) =
    rw (a, drop_unsafe) (ap (λ u. c ∷ u) (drop_unsafe_none t later))

pub any_none : (p : ℕ → Bool) (t : Text) → All (λ c. p c ≡ false) t → any p t ≡ false
any_none p [] a = refl
any_none p (c ∷ t) (a, later) = rw a (any_none p t later)
