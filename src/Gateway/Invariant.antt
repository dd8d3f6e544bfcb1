-- ===== src/Gateway/Invariant.antt =====
-- The invariant of the ledger of crates/pocomp-gateway/src/main.rs, and lemmas on appended leaves.
use verification_tooling.Prelude.{
  ℕ, suc, ◌+◌, ◌≤◌, ◌<◌, List, [], ◌∷◌, ◌++◌, Bool, true, false, Text, bytes_eq, length,
  length-append, ◌≡◌, ◌≢◌, ◌⊎◌, inl, inr, refl, ◌∙◌, arith, ok,
}
use mathlib.Core.List.{append-nil}
use verification_tooling.BTreeSet.{contains}
use verification_tooling.Types.{protocol_version}
use verification_tooling.Types.Records.{
  ContentCommitment, Direction, ingress, egress, GatewayLeaf, MessageDescriptor,
}
use verification_tooling.Relation.Task.Grouping.{of_task}
use verification_tooling.Gateway.{EpochConfig, Ledger, used, next_leaf, append_leaf}
use verification_tooling.Gateway.Steps.{
  Phase, idle, reserved, ingress_recorded, egress_recorded, dropped, World,
}

abbrev pub NoMessages : List GatewayLeaf → Text → Type 0
NoMessages leaves t = (of_task ingress t leaves ≡ []) × (of_task egress t leaves ≡ [])

-- One ingress message and one egress message after it.
abbrev pub Paired : List GatewayLeaf → Text → Type 0
Paired leaves t =
    (i : GatewayLeaf) × (e : GatewayLeaf) × (of_task ingress t leaves ≡ i ∷ [])
    × (of_task egress t leaves ≡ e ∷ [])
    × (i.descriptor.sequence < e.descriptor.sequence)

-- The messages of a task at each phase of its handler.
abbrev pub Fits : Bool → List GatewayLeaf → Text → Phase → Type 0
Fits aborted leaves t idle = (aborted ≡ true) ⊎ (NoMessages leaves t ⊎ Paired leaves t)
Fits aborted leaves t reserved = NoMessages leaves t
Fits aborted leaves t ingress_recorded =
    (i : GatewayLeaf) × (of_task ingress t leaves ≡ i ∷ [])
    × (of_task egress t leaves ≡ [])
    × (i.descriptor.sequence < length leaves)
Fits aborted leaves t egress_recorded = Paired leaves t
Fits aborted leaves t dropped = Unit

pub of_task-append :
    (way : Direction) (t : Text) (xs ys : List GatewayLeaf)
    → of_task way t (xs ++ ys) ≡ of_task way t xs ++ of_task way t ys
of_task-append way t [] ys = refl
of_task-append way t (leaf ∷ xs) ys = ground (arith, of_task-append way t xs ys)

pub unused : (t : Text) (leaves : List GatewayLeaf) → used t leaves ≡ false → NoMessages leaves t
unfolding used
unused t [] h = (refl, refl)
unused t (leaf ∷ leaves) h = ground (arith, unused t leaves)

of_task-other :
    (way : Direction) (leaves : List GatewayLeaf) (leaf : GatewayLeaf) (t : Text)
    → leaf.descriptor.task_id ≢ t
    → of_task way t (leaves ++ (leaf ∷ [])) ≡ of_task way t leaves
of_task-other way leaves leaf t ne =
    ground (arith, of_task-append way t leaves (leaf ∷ []), append-nil (of_task way t leaves))

NoMessages-append :
    (leaves : List GatewayLeaf) (leaf : GatewayLeaf) (t : Text)
    → leaf.descriptor.task_id ≢ t
    → NoMessages leaves t
    → NoMessages (leaves ++ (leaf ∷ [])) t
NoMessages-append leaves leaf t ne (p, q) =
    (of_task-other ingress leaves leaf t ne ∙ p, of_task-other egress leaves leaf t ne ∙ q)

Paired-append :
    (leaves : List GatewayLeaf) (leaf : GatewayLeaf) (t : Text)
    → leaf.descriptor.task_id ≢ t
    → Paired leaves t
    → Paired (leaves ++ (leaf ∷ [])) t
Paired-append leaves leaf t ne (i, e, p, q, r) =
    (i, e, of_task-other ingress leaves leaf t ne ∙ p, of_task-other egress leaves leaf t ne ∙ q, r)

-- A leaf of another task changes nothing for this one.
pub Fits-append :
    (aborted : Bool) (leaves : List GatewayLeaf) (leaf : GatewayLeaf) (t : Text) (p : Phase)
    → leaf.descriptor.task_id ≢ t
    → Fits aborted leaves t p
    → Fits aborted (leaves ++ (leaf ∷ [])) t p
Fits-append aborted leaves leaf t idle ne (inl f) = inl f
Fits-append aborted leaves leaf t idle ne (inr (inl f)) =
    inr (inl (NoMessages-append leaves leaf t ne f))
Fits-append aborted leaves leaf t idle ne (inr (inr f)) =
    inr (inr (Paired-append leaves leaf t ne f))
Fits-append aborted leaves leaf t reserved ne f = NoMessages-append leaves leaf t ne f
Fits-append aborted leaves leaf t ingress_recorded ne (i, p, q, r) = (
  i,
  of_task-other ingress leaves leaf t ne ∙ p,
  of_task-other egress leaves leaf t ne ∙ q,
  omega (arith, length-append leaves (leaf ∷ []), r),
)
Fits-append aborted leaves leaf t egress_recorded ne f = Paired-append leaves leaf t ne f
Fits-append aborted leaves leaf t dropped ne f = tt

-- Aborting only relaxes what holds.
pub Fits-abort :
    (aborted : Bool) (leaves : List GatewayLeaf) (t : Text) (p : Phase)
    → Fits aborted leaves t p
    → Fits true leaves t p
Fits-abort aborted leaves t idle f = inl refl
Fits-abort aborted leaves t reserved f = f
Fits-abort aborted leaves t ingress_recorded f = f
Fits-abort aborted leaves t egress_recorded f = f
Fits-abort aborted leaves t dropped f = f

-- A leaf that the gateway of the configuration wrote for a named task.
pub record WrittenFor (config : EpochConfig) (d : MessageDescriptor) : Type 0 where
  pub version : d.protocol_version ≡ protocol_version
  pub same_gateway : d.gateway_id ≡ config.gateway_id
  pub same_pod : d.pod_id ≡ config.pod_id
  pub same_incarnation : d.incarnation_id ≡ config.incarnation_id
  pub same_epoch : d.epoch_id ≡ config.epoch_id
  pub same_program : d.program_id ≡ config.program_id
  pub task_named : d.task_id ≢ []
  pub after_opening : config.opened_at_ns ≤ d.started_at_ns
  pub before_closing : d.ended_at_ns ≤ config.closed_at_ns
  pub in_order : d.started_at_ns ≤ d.ended_at_ns

-- Leaves of the configuration whose sequence numbers count up from `index`.
abbrev pub Recorded : EpochConfig → ℕ → List GatewayLeaf → Type 0
Recorded config index [] = Unit
Recorded config index (leaf ∷ leaves) =
    WrittenFor config leaf.descriptor
    × (leaf.descriptor.sequence ≡ index)
    × Recorded config (suc index) leaves

pub Recorded-append :
    (config : EpochConfig) (index : ℕ) (leaves : List GatewayLeaf) (leaf : GatewayLeaf)
    → Recorded config index leaves
    → WrittenFor config leaf.descriptor
    → leaf.descriptor.sequence ≡ index + length leaves
    → Recorded config index (leaves ++ (leaf ∷ []))
Recorded-append config index [] leaf r w e = (w, omega (arith, e), tt)
Recorded-append config index (first ∷ leaves) leaf r w e =
    (r.0, r.1, Recorded-append config (suc index) leaves leaf r.2 w (omega (arith, e)))

pub record Invariant (config : EpochConfig) (w : World) : Type 0 where
  pub recorded : Recorded config 0 w.ledger.leaves
  pub fits : (t : Text) → Fits w.ledger.aborted w.ledger.leaves t (w.phase t)
  pub active : (t : Text) → contains w.ledger.active_tasks t ≡ false → w.phase t ≡ idle
  pub named : w.phase [] ≡ idle

-- What a message that is appended is like.
pub append_leaf_sound :
    (config : EpochConfig) (journaled : Bool) (l l' : Ledger) (t : Text) (way : Direction)
    (started ended len : ℕ) (content : ContentCommitment)
    → append_leaf config journaled l t way started ended len content ≡ ok l'
    → t ≢ []
    → let leaf = next_leaf config l t way started ended len content in
      (l' ≡ record l { leaves = l.leaves ++ (leaf ∷ []) })
      × WrittenFor config leaf.descriptor
      × (l.sealed ≡ false)
unfolding append_leaf next_leaf
append_leaf_sound config journaled l l' t way started ended len content h ne = ground arith

pub Fits-ingress :
    (config : EpochConfig) (l : Ledger) (t : Text) (started ended len : ℕ)
    (content : ContentCommitment)
    → NoMessages l.leaves t
    → let leaf = next_leaf config l t ingress started ended len content in
      Fits l.aborted (l.leaves ++ (leaf ∷ [])) t ingress_recorded
unfolding next_leaf
Fits-ingress config l t started ended len content f =
    let leaf = next_leaf config l t ingress started ended len content in
    (
      leaf,
      ground (arith, of_task-append ingress t l.leaves (leaf ∷ [])),
      ground (arith, of_task-append egress t l.leaves (leaf ∷ [])),
      omega (arith, length-append l.leaves (leaf ∷ [])),
    )

pub Fits-egress :
    (config : EpochConfig) (l : Ledger) (t : Text) (started ended len : ℕ)
    (content : ContentCommitment)
    → Fits l.aborted l.leaves t ingress_recorded
    → let leaf = next_leaf config l t egress started ended len content in
      Paired (l.leaves ++ (leaf ∷ [])) t
unfolding next_leaf
Fits-egress config l t started ended len content (i, p, q, r) =
    let leaf = next_leaf config l t egress started ended len content in
    (
      i,
      leaf,
      ground (arith, of_task-append ingress t l.leaves (leaf ∷ [])),
      ground (arith, of_task-append egress t l.leaves (leaf ∷ [])),
      r,
    )
