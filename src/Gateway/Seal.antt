-- ===== src/Gateway/Seal.antt =====
-- About `seal` of crates/pocomp-gateway/src/main.rs, its leaves and its signed root.
use verification_tooling.Prelude.{
  ℕ, suc, ◌<◌, ◌^◌, List, [], ◌∷◌, true, false, Bytes, Text, bytes_eq, ◌≡◌, ◌≢◌, ◌⊎◌, inl, inr,
  refl, sym, ◌∙◌, arith, Option, ok, subst,
}
use verification_tooling.BTreeSet.Laws.{contains-empty}
use verification_tooling.Types.{protocol_version}
use verification_tooling.Types.Records.{ingress, egress, GatewayLeaf, GatewayRoot}
use verification_tooling.Types.Audit.{MonitoringPolicy, EpochStatement}
use verification_tooling.Primitives.{Primitives, IsSignatureScheme}
use verification_tooling.Crypto.{sign_gateway_root}
use verification_tooling.Crypto.Laws.{verify-sign_records}
use verification_tooling.Relation.Gateway.{validate_gateway}
use verification_tooling.Relation.Gateway.Laws.{
  PolicyValid, Numbered, total_bits, validate_gateway_iff,
}
use verification_tooling.Gateway.{
  EpochConfig, Ledger, SealedEpoch, reserve_task, append_leaf, abort_epoch, finish_task, seal,
}
use verification_tooling.Gateway.Steps.{
  idle, World, start, Step, begins, records_ingress, records_egress, finishes, fails, drops, seals,
  Reaches, stop, next,
}
use verification_tooling.Gateway.Invariant.{NoMessages, Paired, Fits, Recorded}
use verification_tooling.Gateway.Preservation.{Reaches-Invariant}

-- The statement of an epoch that a gateway's configuration describes.
pub record Describes (config : EpochConfig) (epoch : EpochStatement) : Type 0 where
  pub version : epoch.protocol_version ≡ protocol_version
  pub pod : config.pod_id ≡ epoch.pod_id
  pub incarnation : config.incarnation_id ≡ epoch.incarnation_id
  pub epoch_named : config.epoch_id ≡ epoch.epoch_id
  pub opening : config.opened_at_ns ≡ epoch.opened_at_ns
  pub closing : config.closed_at_ns ≡ epoch.closed_at_ns

Recorded-Numbered :
    (config : EpochConfig) (epoch : EpochStatement) (root : GatewayRoot) (index : ℕ)
    (leaves : List GatewayLeaf)
    → Describes config epoch
    → root.gateway_id ≡ config.gateway_id
    → config.program_id ≢ []
    → Recorded config index leaves
    → Numbered epoch root index leaves
Recorded-Numbered config epoch root index [] d g p r = tt
Recorded-Numbered config epoch root index (leaf ∷ leaves) d g p (w, s, r) = (
  record {
    version = w.version;
    same_gateway = w.same_gateway ∙ sym g;
    same_pod = w.same_pod ∙ d.pod;
    same_incarnation = w.same_incarnation ∙ d.incarnation;
    same_epoch = w.same_epoch ∙ d.epoch_named;
    after_opening = omega (arith, d.opening, w.after_opening);
    before_closing = omega (arith, d.closing, w.before_closing);
    in_order = w.in_order;
    task_named = w.task_named;
    program_named = λ e. p (sym w.same_program ∙ e);
  },
  s,
  Recorded-Numbered config epoch root (suc index) leaves d g p r,
)

module _ (x : Primitives) (config : EpochConfig) (admin_token : Text) (signing_key : Bytes) where
  -- When a seal succeeds after any interleaving of the handlers, with their failures and dropped
  -- connections, each task has no message in the sealed epoch, or has exactly one ingress message
  -- and exactly one egress message with a greater sequence number.
  pub seal-Paired :
      (w : World) (l : Ledger) (authorization : Option Text) (epoch : SealedEpoch)
      → Reaches x config admin_token signing_key start w
      → seal x config admin_token signing_key authorization w.ledger ≡ ok (l, epoch)
      → (t : Text) → NoMessages epoch.leaves t ⊎ Paired epoch.leaves t
  unfolding seal
  seal-Paired w l authorization epoch r h t =
      let i = Reaches-Invariant x config admin_token signing_key w r in
      let resting : w.phase t ≡ idle =
        i.active t (contains-empty w.ledger.active_tasks (ground arith) t) in
      let same : epoch.leaves ≡ w.ledger.leaves = ground arith in
      let whole : w.ledger.aborted ≡ false = ground arith in
      elim (subst (Fits w.ledger.aborted w.ledger.leaves t) resting (i.fits t)) [
        | inl aborted ↦ absurd (ground arith)
        | inr fits ↦ rw same fits
      ]

  -- For a signature scheme whose signatures verify, a valid policy, an epoch that the
  -- configuration describes, a named program, an opening before the closing and totals of 64
  -- bits: what a gateway seals after any interleaving of its handlers passes `validate_gateway`
  -- under the gateway's public key, which accounts for the exact bits of both directions.
  pub seal-validate_gateway :
      (w : World) (l : Ledger) (authorization : Option Text) (sealed : SealedEpoch)
      (policy : MonitoringPolicy) (epoch : EpochStatement)
      → IsSignatureScheme x.ed25519
      → PolicyValid policy
      → Describes config epoch
      → config.program_id ≢ []
      → config.opened_at_ns < config.closed_at_ns
      → Reaches x config admin_token signing_key start w
      → seal x config admin_token signing_key authorization w.ledger ≡ ok (l, sealed)
      → total_bits ingress sealed.leaves < 2 ^ 64
      → total_bits egress sealed.leaves < 2 ^ 64
      → validate_gateway x policy epoch sealed.signed_root
          (x.ed25519.verifying_key signing_key)
          sealed.leaves
        ≡ ok (total_bits ingress sealed.leaves, total_bits egress sealed.leaves)
  unfolding seal sign_gateway_root
  seal-validate_gateway w l authorization sealed policy epoch scheme p d named opens r h ti te =
      let i = Reaches-Invariant x config admin_token signing_key w r in
      let same : sealed.leaves ≡ w.ledger.leaves = ground arith in
      let signed : sealed.signed_root
          ≡ sign_gateway_root x sealed.signed_root.statement signing_key =
        ground arith in
      (validate_gateway_iff x policy epoch sealed.signed_root (x.ed25519.verifying_key signing_key)
          sealed.leaves _ _).1
        (
          record {
            policy_valid = p;
            version = d.version;
            opens_first = omega (arith, d.opening, d.closing, opens);
            signature_valid =
                rw signed
                  ((verify-sign_records x scheme signing_key).0 sealed.signed_root.statement);
            statement_version = ground arith;
            same_pod = ground (arith, d.pod);
            same_incarnation = ground (arith, d.incarnation);
            same_epoch = ground (arith, d.epoch_named);
            leaf_count = ground arith;
            root = ground arith;
            numbered = rw same (
                Recorded-Numbered config epoch sealed.signed_root.statement 0 w.ledger.leaves d
                  (ground arith) named i.recorded);
            ingress_fits = ti;
            egress_fits = te;
          },
          refl,
          refl,
        )

  sealed-Step :
      (v w : World)
      → Step x config admin_token signing_key v w
      → v.ledger.sealed ≡ true
      → (w.ledger.sealed ≡ true) × (w.ledger.leaves ≡ v.ledger.leaves)
  unfolding reserve_task append_leaf finish_task abort_epoch seal
  sealed-Step v w (begins l l' phase t h) s = ground arith
  sealed-Step v w (records_ingress l l' phase t journaled started ended len content p h) s =
      ground arith
  sealed-Step v w (records_egress l l' phase t journaled started ended len content p h) s =
      ground arith
  sealed-Step v w (finishes l phase t p) s = (s, refl)
  sealed-Step v w (fails l phase t p q) s = (s, refl)
  sealed-Step v w (drops l phase t p) s = (s, refl)
  sealed-Step v w (seals l l' phase authorization epoch h) s = ground arith

  sealed_final :
      (v w : World)
      → Reaches x config admin_token signing_key v w
      → v.ledger.sealed ≡ true
      → (w.ledger.sealed ≡ true) × (w.ledger.leaves ≡ v.ledger.leaves)
  sealed_final v w (stop u) s = (s, refl)
  sealed_final v w (next u z y r step) s =
      let (here, same) = sealed_final v z r s in
      let (there, kept) = sealed-Step z w step here in (there, kept ∙ same)

  -- After a seal that succeeds, and any further steps of the handlers, a seal that succeeds
  -- returns the same leaves and the same signed root.
  pub seal_final :
      (v w : World) (l l' : Ledger) (first second : Option Text) (a b : SealedEpoch)
      → seal x config admin_token signing_key first v.ledger ≡ ok (l, a)
      → Reaches x config admin_token signing_key (record { ledger = l; phase = v.phase }) w
      → seal x config admin_token signing_key second w.ledger ≡ ok (l', b)
      → b ≡ a
  unfolding seal
  seal_final v w l l' first second a b h r k =
      let closed : l.sealed ≡ true = ground arith in
      let same = (sealed_final (record { ledger = l; phase = v.phase }) w r closed).1 in
      ground arith
