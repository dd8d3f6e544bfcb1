-- ===== src/Gateway/Preservation.antt =====
-- About the invariant of the ledger of crates/pocomp-gateway/src/main.rs at each step.
use verification_tooling.Prelude.{
  ℕ, List, [], ◌∷◌, ◌++◌, Bool, true, Bytes, Text, bytes_eq, bytes_dec, ◌≡◌, ◌≢◌, inl, inr, refl,
  sym, arith, ok, subst,
}
use verification_tooling.BTreeSet
use verification_tooling.BTreeSet.{contains}
use verification_tooling.BTreeSet.Laws.{contains-insert, contains-remove}
use verification_tooling.Types.Records.{ContentCommitment, Direction, ingress, egress, GatewayLeaf}
use verification_tooling.Primitives.{Primitives}
use verification_tooling.Gateway.{
  EpochConfig, Ledger, reserve_task, next_leaf, append_leaf, abort_epoch, finish_task, seal,
}
use verification_tooling.Gateway.Steps.{
  Phase, idle, reserved, ingress_recorded, egress_recorded, dropped, World, at, start, Step, begins,
  records_ingress, records_egress, finishes, fails, drops, seals, Reaches, stop, next,
}
use verification_tooling.Gateway.Invariant.{
  Fits, unused, Fits-append, Fits-abort, Recorded-append, Invariant, append_leaf_sound,
  Fits-ingress, Fits-egress,
}

at_same : (phase : Text → Phase) (t : Text) (p : Phase) → at phase t p t ≡ p
at_same phase t p = ground arith

at_other :
    (phase : Text → Phase) (t : Text) (p : Phase) (u : Text) → t ≢ u → at phase t p u ≡ phase u
at_other phase t p u ne = ground arith

at_idle : (phase : Text → Phase) (t u : Text) → phase u ≡ idle → at phase t idle u ≡ idle
at_idle phase t u h = ground arith

at-Fits :
    (aborted : Bool) (leaves : List GatewayLeaf) (phase : Text → Phase) (t : Text) (p : Phase)
    → Fits aborted leaves t p
    → ((u : Text) → t ≢ u → Fits aborted leaves u (phase u))
    → (u : Text) → Fits aborted leaves u (at phase t p u)
at-Fits aborted leaves phase t p here there u = elim (bytes_dec t u) [
  | yes e ↦
      subst (λ w. Fits aborted leaves w (at phase t p w)) e
        (subst (Fits aborted leaves t) (sym (at_same phase t p)) here)
  | no ne ↦ subst (Fits aborted leaves u) (sym (at_other phase t p u ne)) (there u ne)
]

module _ (config : EpochConfig) where
  begins-Invariant :
      (l l' : Ledger) (phase : Text → Phase) (t : Text)
      → reserve_task l t ≡ ok l'
      → Invariant config (record { ledger = l; phase = phase })
      → Invariant config (record { ledger = l'; phase = at phase t reserved })
  unfolding reserve_task
  begins-Invariant l l' phase t h v =
      let changed : l' ≡ record l { active_tasks = BTreeSet.insert t l.active_tasks } =
        ground arith in
      rw changed (record {
        recorded = v.recorded;
        fits =
            at-Fits l.aborted l.leaves phase t reserved (unused t l.leaves (ground arith))
              (λ u ne. v.fits u);
        active = λ u c.
            ground
              (arith, contains-insert t u l.active_tasks, at_other phase t reserved u, v.active u);
        named = ground (arith, at_other phase t reserved [], v.named);
      })

  -- A message that a handler appends as it moves to the phase `p`.
  append-Invariant :
      (l l' : Ledger) (phase : Text → Phase) (t : Text) (way : Direction) (journaled : Bool)
      (started ended len : ℕ) (content : ContentCommitment) (p : Phase)
      → append_leaf config journaled l t way started ended len content ≡ ok l'
      → phase t ≢ idle
      → p ≢ idle
      → (let leaf = next_leaf config l t way started ended len content in
          Fits l.aborted (l.leaves ++ (leaf ∷ [])) t p)
      → Invariant config (record { ledger = l; phase = phase })
      → Invariant config (record { ledger = l'; phase = at phase t p })
  unfolding next_leaf
  append-Invariant l l' phase t way journaled started ended len content p h busy moved f v =
      let leaf = next_leaf config l t way started ended len content in
      let nonempty : t ≢ [] = λ e. busy (rw e v.named) in
      let (changed, written, unsealed) =
        append_leaf_sound config journaled l l' t way started ended len content h nonempty in
      rw changed (record {
        recorded = Recorded-append config 0 l.leaves leaf v.recorded written (ground arith);
        fits =
            at-Fits l.aborted (l.leaves ++ (leaf ∷ [])) phase t p f
              (λ u ne. Fits-append l.aborted l.leaves leaf u (phase u) (ground arith) (v.fits u));
        active = λ u c. ground (arith, at_other phase t p u, v.active u, v.active t);
        named = ground (arith, at_other phase t p [], v.named);
      })

  -- A handler that ends, with the task's messages as an idle task has them.
  ends-Invariant :
      (l l' : Ledger) (phase : Text → Phase) (t : Text)
      → l'.leaves ≡ l.leaves
      → l'.active_tasks ≡ (finish_task l t).active_tasks
      → ((u : Text) → t ≢ u → Fits l'.aborted l.leaves u (phase u))
      → Fits l'.aborted l.leaves t idle
      → Invariant config (record { ledger = l; phase = phase })
      → Invariant config (record { ledger = l'; phase = at phase t idle })
  unfolding finish_task
  ends-Invariant l l' phase t same removed others f v = record {
    recorded = rw same v.recorded;
    fits = rw same (at-Fits l'.aborted l.leaves phase t idle f (λ u ne. others u ne));
    active = λ u c. ground (
      arith,
      contains-remove t u l.active_tasks,
      at_same phase t idle,
      at_other phase t idle u,
      v.active u,
    );
    named = at_idle phase t [] v.named;
  }

module _ (x : Primitives) (config : EpochConfig) (admin_token : Text) (signing_key : Bytes) where
  pub Step-Invariant :
      (v w : World)
      → Step x config admin_token signing_key v w
      → Invariant config v
      → Invariant config w
  unfolding abort_epoch finish_task seal
  Step-Invariant v w (begins l l' phase t h) i = begins-Invariant config l l' phase t h i
  Step-Invariant v w (records_ingress l l' phase t journaled started ended len content p h) i =
      append-Invariant config l l' phase t ingress journaled started ended len content
        ingress_recorded h (λ q. cc) (λ q. cc)
        (Fits-ingress config l t started ended len content
          (subst (Fits l.aborted l.leaves t) p (i.fits t)))
        i
  Step-Invariant v w (records_egress l l' phase t journaled started ended len content p h) i =
      append-Invariant config l l' phase t egress journaled started ended len content
        egress_recorded h (λ q. cc) (λ q. cc)
        (Fits-egress config l t started ended len content
          (subst (Fits l.aborted l.leaves t) p (i.fits t)))
        i
  Step-Invariant v w (finishes l phase t p) i =
      ends-Invariant config l (finish_task l t) phase t refl refl (λ u ne. i.fits u)
        (inr (inr (subst (Fits l.aborted l.leaves t) p (i.fits t)))) i
  Step-Invariant v w (fails l phase t busy kept) i =
      ends-Invariant config l (abort_epoch l t) phase t refl refl
        (λ u ne. Fits-abort l.aborted l.leaves u (phase u) (i.fits u)) (inl refl) i
  Step-Invariant v w (drops l phase t busy) i = record {
    recorded = i.recorded;
    fits = at-Fits l.aborted l.leaves phase t dropped tt (λ u ne. i.fits u);
    active = λ u c. ground (arith, at_other phase t dropped u, i.active u, i.active t);
    named = ground (arith, at_other phase t dropped [], i.named);
  }
  Step-Invariant v w (seals l l' phase authorization epoch h) i =
      let changed : l' ≡ record l { sealed = true } = ground arith in
      rw changed
        (record { recorded = i.recorded; fits = i.fits; active = i.active; named = i.named })

  -- At any point that the steps of the handlers reach, the leaves carry the identifiers of the
  -- configuration and times within its epoch and are numbered in order from 0, each task has the
  -- messages of its handler's phase, and a task that is not active is idle.
  pub Reaches-Invariant :
      (w : World) → Reaches x config admin_token signing_key start w → Invariant config w
  unfolding contains
  Reaches-Invariant w (stop v) = record {
    recorded = tt;
    fits = λ t. inr (inl (refl, refl));
    active = λ t c. refl;
    named = refl;
  }
  Reaches-Invariant w (next u v z r s) = Step-Invariant v w s (Reaches-Invariant v r)
