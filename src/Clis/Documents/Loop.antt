-- ===== src/Clis/Documents/Loop.antt =====
-- The loop over the keys of a document, `rewrite_each`.
use mathlib.Core.Path.{subst}
use coding_agents_databricks.Base.{
  String, ◌≡◌, refl, sym, Bool, false, ◌||◌, Option, none, some, List, [], ◌∷◌, All, Result, ok,
  ◌>>=◌, >>=-eq-ok, ok_inj, ◌==◌, string_has_eq, Option-cases, Bool-cases, ◌⊎◌, inl, inr, arith,
  eq_iff, ap, ◌∙◌, any,
}
use coding_agents_databricks.Json.{Value, Fields, get, has, put}
use coding_agents_databricks.Json.Lookup.{get-put, put-get}
use coding_agents_databricks.Clis.Documents.{rewrite_each}

or_false : (c : Bool) → (c || false) ≡ c
or_false c = ground arith

pub has-put :
    (k j : String) (v w : Value) (fs : Fields) → get k fs ≡ some v → has j (put k w fs) ≡ has j fs
unfolding has
has-put k j v w fs g = ground (arith, get-put k j w fs, eq_iff k j, g)

module _ (rewrite : String → Value → Result (Bool × Value)) where
  -- The rewrite does nothing to what stands at the key.
  abbrev pub IsSettledAt : Fields → String → Type 0
  IsSettledAt fs k =
      (get k fs ≡ none) ⊎ ((v : Value) × (get k fs ≡ some v) × (rewrite k v ≡ ok (false, v)))

  -- What the rewrite made, it leaves as it is.
  abbrev pub Settles : Type 0
  Settles =
      (k : String) (v w : Value) (b : Bool) → rewrite k v ≡ ok (b, w) → rewrite k w ≡ ok (false, w)

  IsSettledAt-get :
      (fs gs : Fields) (j : String) → get j gs ≡ get j fs → IsSettledAt fs j → IsSettledAt gs j
  IsSettledAt-get fs gs j e (inl n) = inl (e ∙ n)
  IsSettledAt-get fs gs j e (inr (v, g, r)) = inr (v, e ∙ g, r)

  IsSettledAt-put :
      Settles
      → (k : String) (v w : Value) (b : Bool) (fs : Fields) (j : String) → rewrite k v ≡ ok (b, w)
      → IsSettledAt fs j
      → IsSettledAt (put k w fs) j
  IsSettledAt-put settles k v w b fs j h s = elim (Bool-cases (k == j)) [
    | inl t ↦
        let e : k ≡ j = ground (arith, t, eq_iff k j) in
        subst (λ i. IsSettledAt (put k w fs) i) e
          (inr (w, ground (arith, get-put k k w fs, eq_iff k k), settles k v w b h))
    | inr f ↦ IsSettledAt-get fs (put k w fs) j (ground (arith, f, get-put k j w fs)) s
  ]

  -- What a step of the loop that returned has found.
  abbrev Step : String → List String → Bool → Fields → Bool × Fields → Type 0
  Step k ks c fs r =
      ((get k fs ≡ none) × (rewrite_each rewrite ks c fs ≡ ok r))
      ⊎ ((v : Value) × (w : Value) × (b : Bool) × (get k fs ≡ some v)
          × (rewrite k v ≡ ok (b, w))
          × (rewrite_each rewrite ks (c || b) (put k w fs) ≡ ok r))

  abbrev visit : String → List String → Bool → Fields → Option Value → Result (Bool × Fields)
  visit k ks c fs none = rewrite_each rewrite ks c fs
  visit k ks c fs (some v) = rewrite k v >>= λ s. rewrite_each rewrite ks (c || s.0) (put k s.1 fs)

  step_on :
      (k : String) (ks : List String) (c : Bool) (fs : Fields) (r : Bool × Fields)
      (o : Option Value)
      → get k fs ≡ o
      → visit k ks c fs o ≡ ok r
      → Step k ks c fs r
  step_on k ks c fs r none g h = inl (g, h)
  step_on k ks c fs r (some v) g h =
      let ((b, w), e, rest) = >>=-eq-ok (rewrite k v) _ h in inr (v, w, b, g, e, rest)

  rewrite_each-cons :
      (k : String) (ks : List String) (c : Bool) (fs : Fields)
      → rewrite_each rewrite (k ∷ ks) c fs ≡ visit k ks c fs (get k fs)
  unfolding rewrite_each
  rewrite_each-cons k ks c fs = elim (Option-cases (get k fs)) [
    | inl n ↦ rw (n, rewrite_each) refl
    | inr (v, g) ↦ rw (g, rewrite_each) refl
  ]

  rewrite_step :
      (k : String) (ks : List String) (c : Bool) (fs : Fields) (r : Bool × Fields)
      → rewrite_each rewrite (k ∷ ks) c fs ≡ ok r
      → Step k ks c fs r
  rewrite_step k ks c fs r h =
      step_on k ks c fs r (get k fs) refl (sym (rewrite_each-cons k ks c fs) ∙ h)

  -- Where nothing is to be done, the loop changes nothing.
  pub rewrite_each_settled :
      (ks : List String) (c : Bool) (fs : Fields)
      → All (IsSettledAt fs) ks
      → rewrite_each rewrite ks c fs ≡ ok (c, fs)
  unfolding rewrite_each
  rewrite_each_settled [] c fs s = refl
  rewrite_each_settled (k ∷ ks) c fs (inl n, later) =
      rw (n, rewrite_each) (rewrite_each_settled ks c fs later)
  rewrite_each_settled (k ∷ ks) c fs (inr (v, g, r), later) =
      rw (g, rewrite_each)
        (rw r (rw (put-get k v fs g) (rw (or_false c) (rewrite_each_settled ks c fs later))))

  keeps_settled :
      Settles
      → (ks : List String) (c : Bool) (fs : Fields) (r : Bool × Fields) (j : String)
      → rewrite_each rewrite ks c fs ≡ ok r
      → IsSettledAt fs j
      → IsSettledAt r.1 j
  unfolding rewrite_each
  keeps_settled settles [] c fs r j h s = subst (λ x. IsSettledAt x j) (ap (λ x. x.1) (ok_inj h)) s
  keeps_settled settles (k ∷ ks) c fs r j h s = elim (rewrite_step k ks c fs r h) [
    | inl (n, rest) ↦ keeps_settled settles ks c fs r j rest s
    | inr (v, w, b, g, e, rest) ↦
        keeps_settled settles ks (c || b) (put k w fs) r j rest
          (IsSettledAt-put settles k v w b fs j e s)
  ]

  -- After the loop there is nothing left to do.
  pub rewrite_each-IsSettledAt :
      Settles
      → (ks : List String) (c : Bool) (fs : Fields) (r : Bool × Fields)
      → rewrite_each rewrite ks c fs ≡ ok r
      → All (IsSettledAt r.1) ks
  rewrite_each-IsSettledAt settles [] c fs r h = tt
  rewrite_each-IsSettledAt settles (k ∷ ks) c fs r h = elim (rewrite_step k ks c fs r h) [
    | inl (n, rest) ↦ (
      keeps_settled settles ks c fs r k rest (inl n),
      rewrite_each-IsSettledAt settles ks c fs r rest,
    )
    | inr (v, w, b, g, e, rest) ↦ (
      keeps_settled settles ks (c || b) (put k w fs) r k rest
          (inr (w, ground (arith, get-put k k w fs, eq_iff k k), settles k v w b e)),
      rewrite_each-IsSettledAt settles ks (c || b) (put k w fs) r rest,
    )
  ]

  -- The loop leaves the other keys.
  pub get-rewrite_each :
      (ks : List String) (c : Bool) (fs : Fields) (r : Bool × Fields) (j : String)
      → any (λ k. k == j) ks ≡ false
      → rewrite_each rewrite ks c fs ≡ ok r
      → get j r.1 ≡ get j fs
  unfolding rewrite_each
  get-rewrite_each [] c fs r j a h = ap (λ x. get j x.1) (sym (ok_inj h))
  get-rewrite_each (k ∷ ks) c fs r j a h = elim (rewrite_step k ks c fs r h) [
    | inl (n, rest) ↦ get-rewrite_each ks c fs r j (ground (arith, a)) rest
    | inr (v, w, b, g, e, rest) ↦
        get-rewrite_each ks (c || b) (put k w fs) r j (ground (arith, a)) rest
        ∙ ground (arith, a, get-put k j w fs)
  ]

  -- What no new value at a key that is there changes, the loop does not change.
  pub keeps-rewrite_each :
      (P : Fields → Bool)
      → ((k : String) (v w : Value) (fs : Fields) → get k fs ≡ some v → P (put k w fs) ≡ P fs)
      → (ks : List String) (c : Bool) (fs : Fields) (r : Bool × Fields)
      → rewrite_each rewrite ks c fs ≡ ok r
      → P r.1 ≡ P fs
  unfolding rewrite_each
  keeps-rewrite_each P keep [] c fs r h = ap (λ x. P x.1) (sym (ok_inj h))
  keeps-rewrite_each P keep (k ∷ ks) c fs r h = elim (rewrite_step k ks c fs r h) [
    | inl (n, rest) ↦ keeps-rewrite_each P keep ks c fs r rest
    | inr (v, w, b, g, e, rest) ↦
        keeps-rewrite_each P keep ks (c || b) (put k w fs) r rest ∙ keep k v w fs g
  ]
