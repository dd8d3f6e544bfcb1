-- ===== src/Gateway/Progress.antt =====
-- What the handlers of crates/pocomp-gateway/src/main.rs can always reach: a sealed epoch of any tasks.
use verification_tooling.Prelude.{
  ◌*◌, ◌≤◌, List, [], ◌∷◌, ◌++◌, Bool, true, false, ◌||◌, ◌==◌, bytes_eq, Bytes, Text, length,
  length-append, some, ok, ◌≡◌, ◌≢◌, ◌⊎◌, inl, inr, refl, ◌∙◌, arith, Bool-cases,
}
use verification_tooling.BTreeSet
use verification_tooling.Types.{protocol_version}
use verification_tooling.Types.Records.{
  GatewayRoot, ContentCommitment, ingress, egress, GatewayLeaf,
}
use verification_tooling.Primitives.{Primitives}
use verification_tooling.Commitment.{gateway_root}
use verification_tooling.Crypto.{sign_gateway_root}
use verification_tooling.Gateway.{
  EpochConfig, Ledger, SealedEpoch, used, reserve_task, next_leaf, append_leaf, finish_task, seal,
}
use verification_tooling.Gateway.Steps.{
  Phase, idle, reserved, ingress_recorded, egress_recorded, World, start, at, begins,
  records_ingress, records_egress, finishes, Reaches, stop, next,
}
use verification_tooling.Gateway.Invariant.{NoMessages, Paired, unused}
use verification_tooling.Gateway.Seal.{seal-Paired}

abbrev pub listed : Text → List Text → Bool
listed u [] = false
listed u (t ∷ ts) = t == u || listed u ts

-- Named tasks, none of them twice.
abbrev pub DistinctTasks : List Text → Type 0
DistinctTasks [] = Unit
DistinctTasks (t ∷ ts) = (t ≢ []) × (listed t ts ≡ false) × DistinctTasks ts

used-append :
    (u : Text) (leaves : List GatewayLeaf) (leaf : GatewayLeaf)
    → used u (leaves ++ (leaf ∷ [])) ≡ (leaf.descriptor.task_id == u || used u leaves)
unfolding used
used-append u [] leaf = refl
used-append u (first ∷ leaves) leaf = ground (arith, used-append u leaves leaf)

-- A task that a leaf names has a message.
used-NoMessages :
    (u : Text) (leaves : List GatewayLeaf) → NoMessages leaves u → used u leaves ≡ false
unfolding used
used-NoMessages u [] n = refl
used-NoMessages u (leaf ∷ leaves) (p, q) = ground (arith, used-NoMessages u leaves)

at_same : (phase : Text → Phase) (t : Text) (p : Phase) → at phase t p t ≡ p
at_same phase t p = ground arith

module _ (x : Primitives) (config : EpochConfig) (admin_token : Text) (signing_key : Bytes)
    (content : ContentCommitment) where
  -- The ledger after the messages of a task whose handler ran to its end.
  abbrev both_recorded : Ledger → Text → Ledger
  both_recorded l t =
      let o = config.opened_at_ns in
      let a : Ledger = record l { active_tasks = BTreeSet.insert t l.active_tasks } in
      let b : Ledger = record a {
        leaves = a.leaves ++ (next_leaf config a t ingress o o 0 content ∷ []);
      } in
      record b { leaves = b.leaves ++ (next_leaf config b t egress o o 0 content ∷ []) }

  handled :
      (u : World) (l : Ledger) (phase : Text → Phase) (t : Text)
      → config.opened_at_ns ≤ config.closed_at_ns
      → t ≢ []
      → l.sealed ≡ false
      → l.aborted ≡ false
      → l.active_tasks ≡ []
      → used t l.leaves ≡ false
      → Reaches x config admin_token signing_key u (record { ledger = l; phase = phase })
      → (q : Text → Phase) × Reaches x config admin_token signing_key u
          (record { ledger = finish_task (both_recorded l t) t; phase = q })
  unfolding reserve_task append_leaf BTreeSet.contains
  handled u l phase t spans named unsealed unaborted quiet fresh reached =
      let o = config.opened_at_ns in
      let a : Ledger = record l { active_tasks = BTreeSet.insert t l.active_tasks } in
      let b : Ledger = record a {
        leaves = a.leaves ++ (next_leaf config a t ingress o o 0 content ∷ []);
      } in
      let c = both_recorded l t in
      let p = at phase t reserved in
      let q = at p t ingress_recorded in
      let r = at q t egress_recorded in
      let first = begins l a phase t (ground arith) in
      let second =
        records_ingress a b p t true o o 0 content (at_same phase t reserved) (ground arith) in
      let third =
        records_egress b c q t true o o 0 content (at_same p t ingress_recorded) (ground arith) in
      let fourth = finishes c r t (at_same q t egress_recorded) in
      (
        at r t idle,
        next _ _ _ (next _ _ _ (next _ _ _ (next _ _ _ reached first) second) third) fourth,
      )

  -- A point where every listed task is handled and nothing else is recorded.
  record Handled (ts : List Text) : Type 0 where
    ledger : Ledger
    phase : Text → Phase
    reached :
        Reaches x config admin_token signing_key start (record { ledger = ledger; phase = phase })
    unsealed : ledger.sealed ≡ false
    unaborted : ledger.aborted ≡ false
    quiet : ledger.active_tasks ≡ []
    counted : length ledger.leaves ≡ 2 * length ts
    recorded : (u : Text) → used u ledger.leaves ≡ listed u ts

  handle_all :
      (ts : List Text) → config.opened_at_ns ≤ config.closed_at_ns → DistinctTasks ts → Handled ts
  unfolding used finish_task BTreeSet.insert BTreeSet.remove next_leaf
  handle_all [] spans d = record {
    ledger = start.ledger;
    phase = start.phase;
    reached = stop start;
    unsealed = refl;
    unaborted = refl;
    quiet = refl;
    counted = omega arith;
    recorded = λ u. refl;
  }
  handle_all (t ∷ ts) spans (named, fresh, rest) =
      let w = handle_all ts spans rest in
      let free = w.recorded t ∙ fresh in
      let (phase, reached) =
        handled start w.ledger w.phase t spans named w.unsealed w.unaborted w.quiet free
          w.reached in
      let o = config.opened_at_ns in
      let a : Ledger = record w.ledger { active_tasks = BTreeSet.insert t w.ledger.active_tasks } in
      let i = next_leaf config a t ingress o o 0 content in
      let b : Ledger = record a { leaves = a.leaves ++ (i ∷ []) } in
      let e = next_leaf config b t egress o o 0 content in
      record {
        ledger = finish_task (both_recorded w.ledger t) t;
        phase = phase;
        reached = reached;
        unsealed = w.unsealed;
        unaborted = w.unaborted;
        quiet = ground (arith, w.quiet);
        counted = omega (
          arith,
          w.counted,
          length-append w.ledger.leaves (i ∷ []),
          length-append (w.ledger.leaves ++ (i ∷ [])) (e ∷ []),
        );
        recorded = λ u. ground (
          arith,
          used-append u w.ledger.leaves i,
          used-append u (w.ledger.leaves ++ (i ∷ [])) e,
          w.recorded u,
        );
      }

  each_task :
      (ts : List Text) (h : Handled ts) (w : World) (l : Ledger) (epoch : SealedEpoch)
      → seal x config admin_token signing_key (some admin_token) w.ledger ≡ ok (l, epoch)
      → epoch.leaves ≡ h.ledger.leaves
      → Reaches x config admin_token signing_key start w
      → (u : Text)
      → ((listed u ts ≡ true) × Paired epoch.leaves u)
        ⊎ ((listed u ts ≡ false) × NoMessages epoch.leaves u)
  each_task ts h w l epoch sealing same reached u =
      let recorded : used u epoch.leaves ≡ listed u ts = rw same (h.recorded u) in
      elim (Bool-cases (listed u ts)) [
        | inl handled_one ↦
            elim (seal-Paired x config admin_token signing_key w l (some admin_token) epoch reached
              sealing u) [
                | inl none_recorded ↦
                    absurd (ground (arith, used-NoMessages u epoch.leaves none_recorded))
                | inr paired ↦ inl (handled_one, paired)
              ]
        | inr other ↦ inr (other, unused u epoch.leaves (recorded ∙ other))
      ]

  -- When the epoch does not close before it opens, then for any list of distinct named tasks the
  -- handlers can reach, from the start, a point at which the seal with the right token succeeds,
  -- with twice as many leaves as listed tasks: exactly one ingress message and exactly one egress
  -- message with a greater sequence number for each listed task, and no message of any other
  -- task.
  pub seal_reachable :
      (ts : List Text)
      → config.opened_at_ns ≤ config.closed_at_ns
      → DistinctTasks ts
      → (w : World) × (l : Ledger) × (epoch : SealedEpoch) × Reaches x config admin_token
          signing_key start w
        × (seal x config admin_token signing_key (some admin_token) w.ledger ≡ ok (l, epoch))
        × (length epoch.leaves ≡ 2 * length ts)
        × ((u : Text)
            → ((listed u ts ≡ true) × Paired epoch.leaves u)
              ⊎ ((listed u ts ≡ false) × NoMessages epoch.leaves u))
  unfolding seal
  seal_reachable ts spans d =
      let h = handle_all ts spans d in
      let root : GatewayRoot = record {
        protocol_version = protocol_version;
        gateway_id = config.gateway_id;
        pod_id = config.pod_id;
        incarnation_id = config.incarnation_id;
        epoch_id = config.epoch_id;
        root = gateway_root x h.ledger.leaves;
        leaf_count = length h.ledger.leaves;
      } in
      let unaborted = h.unaborted in
      let quiet = h.quiet in
      let w : World = record { ledger = h.ledger; phase = h.phase } in
      let l : Ledger = record h.ledger { sealed = true } in
      let epoch : SealedEpoch = record {
        signed_root = sign_gateway_root x root signing_key;
        leaves = h.ledger.leaves;
      } in
      let sealing : seal x config admin_token signing_key (some admin_token) w.ledger
          ≡ ok (l, epoch) =
        ground (arith, unaborted, quiet) in
      (w, l, epoch, h.reached, sealing, h.counted, each_task ts h w l epoch sealing refl h.reached)
