-- ===== src/Sampling.antt =====
-- crates/pocomp-protocol/src/sampling.rs: which tasks of an epoch are sampled.
pub mod Laws
use verification_tooling.Prelude.{
  ℕ, zero, suc, ◌*◌, ◌/◌, ◌^◌, List, [], ◌∷◌, ◌++◌, Bool, true, false, ◌||◌, Bytes, Text, utf8, ltb,
  ◌==◌, nat_eq, length, take, if◌then◌else◌,
}
use verification_tooling.Types.Records.{Hash32}
use verification_tooling.Types.Audit.{TaskPolicy}
use verification_tooling.Primitives.{Primitives}
use verification_tooling.Commitment.Encoding.{be_bytes, from_be_bytes}

abbrev pub sample_domain : Bytes
unfolding utf8
sample_domain = utf8 "pocomp/task-sampling/v1"

-- `(u128::from(u64::MAX) + 1) * numerator / denominator`
unfoldable pub sample_threshold : TaskPolicy → ℕ
sample_threshold policy = 2 ^ 64 * policy.sample_numerator / policy.sample_denominator

unfoldable pub sample_message : Hash32 → Text → Text → Bytes
sample_message seed epoch_id task_id =
    sample_domain
    ++ (seed.bytes
        ++ (be_bytes 8 (length epoch_id) ++ (epoch_id ++ (be_bytes 8 (length task_id) ++ task_id))))

module _ (x : Primitives) where
  -- The first eight bytes of the digest, as a big-endian number.
  unfoldable pub sample_draw : Hash32 → Text → Text → ℕ
  sample_draw seed epoch_id task_id =
      from_be_bytes 0 (take 8 (x.sha256 (sample_message seed epoch_id task_id)))

  unfoldable pub is_sampled : Hash32 → Text → Text → TaskPolicy → Bool
  unfolding sample_threshold sample_draw
  is_sampled seed epoch_id task_id policy =
      if policy.sample_denominator == 0 || ltb policy.sample_denominator policy.sample_numerator
      then false
      else (if policy.sample_numerator == policy.sample_denominator
          then true
          else (if policy.sample_numerator == 0
              then false
              else ltb (sample_draw seed epoch_id task_id) (sample_threshold policy)))

  unfoldable pub sampled_task_ids : Hash32 → Text → List Text → TaskPolicy → List Text
  sampled_task_ids seed epoch_id [] policy = []
  sampled_task_ids seed epoch_id (task_id ∷ task_ids) policy =
      let rest = sampled_task_ids seed epoch_id task_ids policy in
      if is_sampled seed epoch_id task_id policy then task_id ∷ rest else rest
