-- ===== src/ServerSetup/Apply/Approved.antt =====
-- A mutation does what its digest approved, and what it reports is verified.
use ohinfra_plugins.Base.{
  ◌≡◌, refl, ap, sym, eq_text, Text, List, [], ◌∷◌, Option, none, some, Fallible, Checked, ok, err,
  Error, ◌⊎◌, inl, inr, ◌>>=◌, All, map, arith, true, >>=-eq-ok, >>-eq-ok, eq_text→eq,
}
use ohinfra_plugins.Protocol.Types.{Check, Change, Plan, Invocation, Manifest, elements}
use ohinfra_plugins.ServerSetup.Profile.{Config, Profile}
use ohinfra_plugins.ServerSetup.Plan.{status_of}
use ohinfra_plugins.ServerSetup.Transaction.{Adapters, Transaction, begin, commit}
use ohinfra_plugins.ServerSetup.Apply.{
  Host, compared, BuildInput, Stop, at_context, at_change, verify_planned_changes, load_setup_state,
  build_current_plan, plan_digest, compared, approved_plan, apply_changes, applied, is_pass,
  after_commit, after_verify, after_recheck, after_reload, after_loop, run_transaction, after_load,
  after_approval, execute_mutation,
}

verify_planned_changes_sound :
    (changes : List Change) (checks : List Check)
    → verify_planned_changes changes checks ≡ ok tt
    → All (λ (c : Change). is_pass (status_of checks c.object) ≡ true) changes
unfolding verify_planned_changes
verify_planned_changes_sound [] checks h = tt
verify_planned_changes_sound (c ∷ changes) checks h =
    (ground arith, verify_planned_changes_sound changes checks (ground arith))

err≢ok : {A : Type 0} {e : Error} {x : A} → err e ≡ ok x → ⊥
err≢ok h = ground arith

module _ {World : Type 0} (host : Host World) (a : Adapters World) where
  -- The plan that the digest of the invocation approves.
  abbrev pub IsApproved : Invocation → Manifest → World → Plan → Type 0
  IsApproved invocation manifest w p =
      (build_current_plan host invocation manifest w ≡ ok p)
      × (plan_digest host p ≡ ok invocation.plan_digest)

  compared_sound :
      (want : Text) (q p : Plan) (digest : Fallible Text)
      → compared host a want q digest ≡ ok p
      → (q ≡ p) × (digest ≡ ok want)
  compared_sound want q p (err e) h = absurd (err≢ok h)
  compared_sound want q p (ok d) h =
      let same : q ≡ p = ground arith in
      let equal : eq_text want d ≡ true = ground arith in
      (same, ap ok (sym (eq_text→eq want d equal)))

  approved_plan_sound :
      (invocation : Invocation) (manifest : Manifest) (w : World) (p : Plan)
      → approved_plan host a invocation manifest w ≡ ok p
      → IsApproved invocation manifest w p
  unfolding approved_plan
  approved_plan_sound invocation manifest w p h =
      let (q, built, h1) =
        >>=-eq-ok (build_current_plan host invocation manifest w)
          (λ q. compared host a invocation.plan_digest q (plan_digest host q)) (>>-eq-ok _ _ h).1 in
      let (same, digest) = compared_sound invocation.plan_digest q p (plan_digest host q) h1 in
      rw (← same) (built, digest)

  -- A report of changes: they are the plan's, marked as applied, and each passes its check.
  abbrev pub IsVerified : List Change → Fallible BuildInput × World → Type 0
  IsVerified changes (err e, now) = Unit
  IsVerified changes (ok r, now) =
      (r.changes ≡ map applied changes)
      × All (λ (c : Change). is_pass (status_of r.checks c.object) ≡ true) changes

  after_verify-IsVerified :
      (path : List Text) (profile : Profile) (checks : List Check) (changes : List Change)
      (tx : Transaction World) (w : World) (r : Checked)
      → verify_planned_changes changes checks ≡ r
      → IsVerified changes (after_verify host a path profile checks changes tx w r)
  after_verify-IsVerified path profile checks changes tx w (err e) h = tt
  after_verify-IsVerified path profile checks changes tx w (ok tt) h = committed (commit a tx w)
    where
      committed :
          (r : Option Error × Transaction World × World)
          → IsVerified changes (after_commit host a path profile checks changes r)
      committed (none, tx', v) = (refl, verify_planned_changes_sound changes checks h)
      committed (some failure, tx', v) = tt

  after_reload-IsVerified :
      (path : List Text) (changes : List Change) (tx : Transaction World) (w : World)
      (s : Fallible (Config × Profile))
      → IsVerified changes (after_reload host a path changes tx w s)
  after_reload-IsVerified path changes tx w (err e) = tt
  after_reload-IsVerified path changes tx w (ok (settings, profile)) =
      rechecked (host.run_checks profile settings w)
    where
      rechecked :
          (c : Fallible (List Check))
          → IsVerified changes (after_recheck host a path profile changes tx w c)
      rechecked (err e) = tt
      rechecked (ok checks) = after_verify-IsVerified path profile checks changes tx w _ refl

  after_loop-IsVerified :
      (path : List Text) (changes : List Change) (r : Option Stop × Transaction World × World)
      → IsVerified changes (after_loop host a path changes r)
  after_loop-IsVerified path changes (some (at_context e), tx, w) = tt
  after_loop-IsVerified path changes (some (at_change e), tx, w) = tt
  after_loop-IsVerified path changes (none, tx, w) =
      after_reload-IsVerified path changes tx w (load_setup_state host w)

  after_approval-IsVerified :
      (path : List Text) (w : World) (changes : List Change)
      → IsVerified changes (after_approval host a path w (ok changes))
  unfolding run_transaction
  after_approval-IsVerified path w [] = (refl, tt)
  after_approval-IsVerified path w (change ∷ rest) = loaded (load_setup_state host w)
    where
      loaded :
          (s : Fallible (Config × Profile))
          → IsVerified (change ∷ rest) (after_load host a path (change ∷ rest) w s)
      loaded (err e) = tt
      loaded (ok (settings, profile)) =
          after_loop-IsVerified path (change ∷ rest)
            (apply_changes host a (change ∷ rest) (begin profile) w)

  -- The result of a mutation of the world `w`.
  abbrev pub IsRightful : Invocation → Manifest → World → Fallible BuildInput × World → Type 0
  IsRightful invocation manifest w r =
      ((e : Error) × (r ≡ (err e, w)))
      ⊎ ((p : Plan) × IsApproved invocation manifest w p × IsVerified (elements p.changes) r)

  approval-IsRightful :
      (invocation : Invocation) (manifest : Manifest) (w : World) (p : Fallible Plan)
      → approved_plan host a invocation manifest w ≡ p
      → IsRightful invocation manifest w
          (after_approval host a invocation.command_path w (p >>= λ q. ok (elements q.changes)))
  approval-IsRightful invocation manifest w (err e) h = inl (e, refl)
  approval-IsRightful invocation manifest w (ok p) h = inr (
    p,
    approved_plan_sound invocation manifest w p h,
    after_approval-IsVerified invocation.command_path w (elements p.changes),
  )

  -- A mutation either returns an error and leaves the world as it is, or the digest of its
  -- invocation is that of the plan for the world. If it then succeeds, it reports the changes of this
  -- plan, marked as applied, and each of them passes its check in the checks that it reports.
  pub execute_mutation-IsRightful :
      (invocation : Invocation) (manifest : Manifest) (w : World)
      → IsRightful invocation manifest w (execute_mutation host a invocation manifest w)
  unfolding execute_mutation
  execute_mutation-IsRightful invocation manifest w =
      approval-IsRightful invocation manifest w _ refl
