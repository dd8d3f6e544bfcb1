-- ===== src/Sampling/Laws.antt =====
-- Sampling: which tasks are drawn at which rate, and the order of the sampled identifiers.
use native.Mathlib.Nat.{
  div-mul-le_self, mul-le-mul_right, mul-le-mul_left, le-div_iff_mul-le, le_of_mul-le-mul_right,
}
use verification_tooling.Prelude.{
  ap, ℕ, ◌≤◌, ◌<◌, ◌*◌, ◌/◌, ◌^◌, List, [], ◌∷◌, true, ◌&&◌, Text, bytes_eq, ◌≡◌, refl, arith,
}
use verification_tooling.BTreeMap.Laws.{Above, IsSorted}
use verification_tooling.BTreeSet.{contains}
use verification_tooling.Types.Records.{Hash32}
use verification_tooling.Types.Audit.{TaskPolicy}
use verification_tooling.Primitives.{Primitives}
use verification_tooling.Sampling.{sample_threshold, is_sampled, sampled_task_ids}

scaled_div_mono : (c n d n' d' : ℕ) → 0 < d → 0 < d' → n * d' ≤ n' * d → c * n / d ≤ c * n' / d'
scaled_div_mono c n d n' d' hd hd' h =
    let below = div-mul-le_self (c * n) d in
    let scaled = mul-le-mul_right d' below in
    let rates = mul-le-mul_left c h in
    (le-div_iff_mul-le hd').1 (le_of_mul-le-mul_right {k = d} (omega arith) hd)

full_rate : (n d n' d' : ℕ) → 0 < d → n * d' ≤ n' * d → n ≡ d → n' ≤ d' → n' ≡ d'
full_rate n d n' d' hd h e le =
    let h' : d' * d ≤ n' * d = omega (arith, ap (λ (t : ℕ). t * d') e) in
    let back = le_of_mul-le-mul_right h' hd in omega arith

zero_rate : (n d n' d' : ℕ) → 0 < d' → n * d' ≤ n' * d → n' ≡ 0 → n ≡ 0
zero_rate n d n' d' hd h e =
    let h' : n * d' ≤ 0 * d' = omega (arith, ap (λ (t : ℕ). t * d) e) in
    let back = le_of_mul-le-mul_right h' hd in omega arith

module _ (x : Primitives) (seed : Hash32) (epoch_id : Text) where
  -- At the rate 1 every task is sampled.
  pub is_sampled_always :
      (t : Text) (policy : TaskPolicy)
      → 0 < policy.sample_denominator
      → policy.sample_numerator ≡ policy.sample_denominator
      → is_sampled x seed epoch_id t policy ≡ true
  unfolding is_sampled
  is_sampled_always t policy h e = ground arith

  -- A task that is sampled under one policy is sampled under each policy whose numerator does not
  -- exceed its positive denominator and whose rate is at least as high, for the same seed and
  -- epoch.
  pub is_sampled_mono :
      (t : Text) (p q : TaskPolicy)
      → 0 < q.sample_denominator
      → q.sample_numerator ≤ q.sample_denominator
      → p.sample_numerator * q.sample_denominator ≤ q.sample_numerator * p.sample_denominator
      → is_sampled x seed epoch_id t p ≡ true
      → is_sampled x seed epoch_id t q ≡ true
  unfolding is_sampled sample_threshold
  is_sampled_mono t p q pos valid rates h = ground (
    arith,
    scaled_div_mono (2 ^ 64) p.sample_numerator p.sample_denominator q.sample_numerator
        q.sample_denominator,
    full_rate p.sample_numerator p.sample_denominator q.sample_numerator q.sample_denominator,
    zero_rate p.sample_numerator p.sample_denominator q.sample_numerator q.sample_denominator,
  )

  pub contains-sampled_task_ids :
      (ts : List Text) (policy : TaskPolicy) (t : Text)
      → contains (sampled_task_ids x seed epoch_id ts policy) t
        ≡ (contains ts t && is_sampled x seed epoch_id t policy)
  unfolding sampled_task_ids contains
  contains-sampled_task_ids [] policy t = refl
  contains-sampled_task_ids (u ∷ ts) policy t =
      ground (arith, contains-sampled_task_ids ts policy t)

  sampled-Above :
      (k : Text) (ts : List Text) (policy : TaskPolicy)
      → Above k ts
      → Above k (sampled_task_ids x seed epoch_id ts policy)
  unfolding sampled_task_ids
  sampled-Above k [] policy a = tt
  sampled-Above k (t ∷ ts) policy a = ground (arith, sampled-Above k ts policy a.1)

  pub sampled-IsSorted :
      (ts : List Text) (policy : TaskPolicy)
      → IsSorted ts
      → IsSorted (sampled_task_ids x seed epoch_id ts policy)
  unfolding sampled_task_ids
  sampled-IsSorted [] policy s = tt
  sampled-IsSorted (t ∷ ts) policy s =
      ground (arith, sampled-Above t ts policy s.0, sampled-IsSorted ts policy s.1)
