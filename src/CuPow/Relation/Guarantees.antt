-- ===== src/CuPow/Relation/Guarantees.antt =====
-- About accepted cuPOW statements: their work, their saturation and their order in time.
use native.Mathlib.Nat.{div-mul-le_self, le-div_iff_mul-le}
use verification_tooling.Prelude.{false, ℕ, ◌-◌, ◌*◌, ◌/◌, ◌≤◌, ◌<◌, ◌≡◌, arith, ok, some, []}
use verification_tooling.Types.CuPow.{
  CuPowPublicStatement, CuPowOutcome, CuPowEpoch, CuPowCapacityCertificate,
}
use verification_tooling.Primitives.{Primitives}
use verification_tooling.Commitment.{
  cupow_workload_commitment, cupow_contract_digest, cupow_challenge_digest,
}
use verification_tooling.CuPow.Relation.{
  policy_invalid, certified_capacity, saturate_u32, erasure_invalid, epoch_invalid,
  challenge_invalid, completion_invalid, evaluate_cupow_relation,
}
use verification_tooling.CuPow.Relation.Laws.{
  macs, Distinct, ItemsValid, total_work_sound, evaluate_cupow_relation-CuPowAccepted,
}

-- The order of the records in time, each bound to the one before by its digest.
pub record Chained (x : Primitives) (s : CuPowPublicStatement) : Type 0 where
  pub manifest_fixed :
      s.contract.contract.epoch.workload_commitment
      ≡ cupow_workload_commitment x s.contract.contract.manifest
  pub contract_bound :
      s.challenge.challenge.contract_digest ≡ cupow_contract_digest x s.contract.contract
  pub challenge_bound :
      s.completion.completion.challenge_digest ≡ cupow_challenge_digest x s.challenge.challenge
  pub opened : s.contract.contract.epoch.opened_at_ns ≤ s.challenge.challenge.issued_at_ns
  pub issued : s.challenge.challenge.issued_at_ns ≤ s.completion.completion.completed_at_ns
  pub completed : s.completion.completion.completed_at_ns ≤ s.contract.contract.epoch.closed_at_ns
  pub closed : s.contract.contract.epoch.closed_at_ns ≤ s.erasure.certificate.boundary_at_ns
  pub destroyed : s.erasure.certificate.boundary_at_ns ≤ s.erasure.certificate.old_destroyed_at_ns
  pub replaced : s.erasure.certificate.old_destroyed_at_ns ≤ s.erasure.certificate.new_started_at_ns

certified_floor :
    (epoch : CuPowEpoch) (c : CuPowCapacityCertificate) (n : ℕ)
    → certified_capacity epoch c ≡ some n
    → n * 1_000_000_000 ≤ c.max_f251_macs_per_second * (epoch.closed_at_ns - epoch.opened_at_ns)
unfolding certified_capacity
certified_floor epoch c n h = ground (
  arith,
  div-mul-le_self (c.max_f251_macs_per_second * (epoch.closed_at_ns - epoch.opened_at_ns))
      1_000_000_000,
)

-- The reported parts per million are at least those asked for.
saturate_ppm :
    (n ppm work : ℕ)
    → 0 < n
    → ppm ≤ 1_000_000
    → n * ppm ≤ work * 1_000_000
    → ppm ≤ saturate_u32 (work * 1_000_000 / n)
unfolding saturate_u32
saturate_ppm n ppm work pos small h =
    let quotient : ppm ≤ work * 1_000_000 / n = (le-div_iff_mul-le pos).1 (omega arith) in
    ground arith

module _ (x : Primitives) (s : CuPowPublicStatement) where
  epoch_bound :
      epoch_invalid x s.contract.contract ≡ false
      → s.contract.contract.epoch.workload_commitment
        ≡ cupow_workload_commitment x s.contract.contract.manifest
  unfolding epoch_invalid
  epoch_bound h = ground arith

  challenge_bound :
      challenge_invalid x s.contract.contract s.challenge.challenge ≡ false
      → (s.challenge.challenge.contract_digest ≡ cupow_contract_digest x s.contract.contract)
        × (s.contract.contract.epoch.opened_at_ns ≤ s.challenge.challenge.issued_at_ns)
        × (s.challenge.challenge.deadline_ns ≡ s.contract.contract.epoch.closed_at_ns)
  unfolding challenge_invalid
  challenge_bound h = ground arith

  completion_bound :
      (work : ℕ)
      → completion_invalid x s.contract.contract s.challenge.challenge work s.completion.completion
        ≡ false
      → (s.completion.completion.challenge_digest ≡ cupow_challenge_digest x s.challenge.challenge)
        × (s.challenge.challenge.issued_at_ns ≤ s.completion.completion.completed_at_ns)
        × (s.completion.completion.completed_at_ns ≤ s.challenge.challenge.deadline_ns)
  unfolding completion_invalid
  completion_bound work h = ground arith

  erasure_bound :
      erasure_invalid s.contract.contract.epoch s.contract.contract.capacity.certificate
          s.erasure.certificate
        ≡ false
      → (s.contract.contract.epoch.closed_at_ns ≤ s.erasure.certificate.boundary_at_ns)
        × (s.erasure.certificate.boundary_at_ns ≤ s.erasure.certificate.old_destroyed_at_ns)
        × (s.erasure.certificate.old_destroyed_at_ns ≤ s.erasure.certificate.new_started_at_ns)
  unfolding erasure_invalid
  erasure_bound h = ground arith

module _ (x : Primitives) (s : CuPowPublicStatement) (o : CuPowOutcome) where
  -- For an accepted cuPOW statement the reported work is the sum of the cubes of the item sizes,
  -- each item is valid for the policy, and no operation is counted twice.
  pub evaluate_cupow_relation-macs :
      evaluate_cupow_relation x s ≡ ok o
      → (o.security_work_f251_macs ≡ macs s.contract.contract.manifest.items)
        × ItemsValid s.contract.contract.policy s.contract.contract.manifest.items
        × Distinct s.contract.contract.manifest.items
  evaluate_cupow_relation-macs h =
      let contract = s.contract.contract in
      let a = evaluate_cupow_relation-CuPowAccepted x s o h in
      let (sum, valid, distinct, _) =
        total_work_sound contract.policy 0 [] contract.manifest.items
          contract.manifest.security_work_f251_macs a.work in
      (omega (arith, sum, a.capacity.work_reported), valid, distinct)

  -- For an accepted cuPOW statement the reported capacity does not exceed what the certified
  -- throughput does in the epoch, the work reaches the policy's share of that capacity, and the
  -- reported saturation is at least that share.
  pub evaluate_cupow_relation-saturation :
      evaluate_cupow_relation x s ≡ ok o
      → let contract = s.contract.contract in
        (o.certified_capacity_f251_macs * 1_000_000_000
          ≤ contract.capacity.certificate.max_f251_macs_per_second
            * (contract.epoch.closed_at_ns - contract.epoch.opened_at_ns))
        × (o.certified_capacity_f251_macs * contract.policy.min_saturation_ppm
            ≤ o.security_work_f251_macs * 1_000_000)
        × (contract.policy.min_saturation_ppm ≤ o.saturation_ppm)
  unfolding policy_invalid
  evaluate_cupow_relation-saturation h =
      let contract = s.contract.contract in
      let a = evaluate_cupow_relation-CuPowAccepted x s o h in
      let c = a.capacity in
      let small : contract.policy.min_saturation_ppm ≤ 1_000_000 = ground (arith, a.policy) in
      (
        certified_floor contract.epoch contract.capacity.certificate o.certified_capacity_f251_macs
            c.certified,
        omega (arith, c.saturated, c.work_reported),
        omega (
          arith,
          c.ppm,
          saturate_ppm o.certified_capacity_f251_macs contract.policy.min_saturation_ppm
              contract.manifest.security_work_f251_macs c.positive small c.saturated,
        ),
      )

  -- In an accepted cuPOW statement the epoch binds the manifest, the challenge binds the contract
  -- and the completion binds the challenge, and opening, issue, completion, closing, destruction
  -- and replacement follow each other in time.
  pub evaluate_cupow_relation-Chained : evaluate_cupow_relation x s ≡ ok o → Chained x s
  evaluate_cupow_relation-Chained h =
      let a = evaluate_cupow_relation-CuPowAccepted x s o h in
      let c = challenge_bound x s a.challenge in
      let d =
        completion_bound x s s.contract.contract.manifest.security_work_f251_macs a.completion in
      let e = erasure_bound x s a.capacity.erased in
      record {
        manifest_fixed = epoch_bound x s a.epoch;
        contract_bound = c.0;
        challenge_bound = d.0;
        opened = c.1;
        issued = d.1;
        completed = omega (arith, c.2, d.2);
        closed = e.0;
        destroyed = e.1;
        replaced = e.2;
      }
