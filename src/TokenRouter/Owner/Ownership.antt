-- ===== src/TokenRouter/Owner/Ownership.antt =====
-- How the token router changes hands.
use example_liquidity_layer.Prelude.{
  List, [], inl, inr, none, refl, some, ◌∷◌, ◌≡◌, ◌≢◌, ◌⊎◌, ◌∙◌, ap, subst, sym,
}
use mathlib.Core.List.{Mem, mem-cons_of_mem, mem-cons_self}
use example_liquidity_layer.Auction.{PublicKey}
use example_liquidity_layer.MatchingEngine.Composites.{OwnerOnlyMut}
use example_liquidity_layer.TokenRouter.{Custodian, TokenRouter}
use example_liquidity_layer.TokenRouter.Owner.{
  RouterIx, confirm_ownership_transfer_ix, confirm_ownership_transfer_request,
  submit_ownership_transfer_ix, submit_ownership_transfer_request,
}
use example_liquidity_layer.TokenRouter.Owner.Onchain.{
  Runs, Step, accept_ownership_unchecked, transfer_ownership, assisted, cancelled, confirmed,
  default_key, finished, paused, submitted, then,
}

-- The key confirmed that it takes the router over.
abbrev pub Confirmed : PublicKey → List RouterIx → Type 0
Confirmed key ixs =
    (custodian : PublicKey) × Mem (confirm_ownership_transfer_request key custodian) ixs

module _ (r : TokenRouter) where
  -- Among the instructions, which succeed from a custodian on, the key is submitted as the next owner by the one who
  -- is the owner at that time.
  pub data Submitted (key : PublicKey) : Custodian → List RouterIx → Type 0 where
    by_owner :
        (s : Custodian) (a : OwnerOnlyMut) (ixs : List RouterIx)
        → a.owner ≡ s.owner
        → Submitted key s (submit_ownership_transfer_request a key ∷ ixs)
    later :
        (ix : RouterIx) (ixs : List RouterIx) (s s' : Custodian)
        → Step r ix s s'
        → Submitted key s' ixs
        → Submitted key s (ix ∷ ixs)

  -- How a key comes to be the owner, who was not at the start.
  abbrev pub Takeover : Custodian → List RouterIx → PublicKey → Type 0
  Takeover s ixs key = Confirmed key ixs × ((s.pending_owner ≡ some key) ⊎ Submitted key s ixs)

  Takeover-first :
      (ix : RouterIx) (ixs : List RouterIx) (s s' : Custodian) (key : PublicKey)
      → Step r ix s s'
      → s'.owner ≡ key
      → (s.owner ≡ key) ⊎ Takeover s (ix ∷ ixs) key
  Takeover-first _ ixs _ _ key (paused s a to accepted) e = inl e
  Takeover-first _ ixs _ _ key (submitted s a new_owner accepted some_key other) e = inl e
  Takeover-first _ ixs _ _ key (confirmed s pending custodian seeds was) e = inr (
    (
      custodian,
      subst
          (λ k.
            Mem (confirm_ownership_transfer_request k custodian)
              (confirm_ownership_transfer_request pending custodian ∷ ixs))
          e mem-cons_self,
    ),
    inl (was ∙ ap some e),
  )
  Takeover-first _ ixs _ _ key (cancelled s a accepted) e = inl e
  Takeover-first _ ixs _ _ key (assisted s a new_assistant accepted some_key) e = inl e

  Confirmed-later :
      (ix : RouterIx) {ixs : List RouterIx} {key : PublicKey}
      → Confirmed key ixs
      → Confirmed key (ix ∷ ixs)
  Confirmed-later ix (custodian, m) = (custodian, mem-cons_of_mem ix m)

  -- What was pending after an instruction was pending before it, or the instruction submitted it.
  pending-first :
      (ix : RouterIx) (ixs : List RouterIx) (s s' : Custodian) (key : PublicKey)
      → Step r ix s s'
      → s'.pending_owner ≡ some key
      → (s.pending_owner ≡ some key) ⊎ Submitted key s (ix ∷ ixs)
  pending-first _ ixs _ _ key (paused s a to accepted) e = inl e
  pending-first _ ixs _ _ key (submitted s a new_owner accepted some_key other) e =
      let same : new_owner ≡ key = cc in
      inr (
        subst (λ k. Submitted key s (submit_ownership_transfer_request a k ∷ ixs)) (sym same)
          (by_owner s a ixs accepted.is_owner))
  pending-first _ ixs _ _ key (confirmed s pending custodian seeds was) e = cc
  pending-first _ ixs _ _ key (cancelled s a accepted) e = cc
  pending-first _ ixs _ _ key (assisted s a new_assistant accepted some_key) e = inl e

  Takeover-later :
      (ix : RouterIx) (ixs : List RouterIx) (s s' : Custodian) (key : PublicKey)
      → Step r ix s s'
      → Takeover s' ixs key
      → Takeover s (ix ∷ ixs) key
  Takeover-later ix ixs s s' key step (confirmation, inl e) =
      (Confirmed-later ix confirmation, pending-first ix ixs s s' key step e)
  Takeover-later ix ixs s s' key step (confirmation, inr submission) =
      (Confirmed-later ix confirmation, inr (later ix ixs s s' step submission))

  pub run_owner :
      (ixs : List RouterIx) (s t : Custodian)
      → Runs r ixs s t
      → (s.owner ≡ t.owner) ⊎ Takeover s ixs t.owner
  run_owner _ _ _ (finished s) = inl refl
  run_owner _ _ _ (then ix rest s s' t step runs) = elim (run_owner rest s' t runs) [
    | inl e ↦ Takeover-first ix rest s s' t.owner step e
    | inr taken ↦ inr (Takeover-later ix rest s s' t.owner step taken)
  ]

  -- An owner who submits another key than its own and the zero key, with the client's instruction, hands the
  -- router over to that key when it confirms with the client's instruction: only the owner changes, and nothing
  -- is pending. Whatever instructions succeed after that, the owner then is that key, or one that confirmed
  -- itself and that was submitted among them by the one who was the owner at the time.
  pub transfer_ownership_lem :
      (s : Custodian) (owner new_owner : PublicKey)
      → owner ≡ s.owner
      → new_owner ≢ default_key
      → new_owner ≢ owner
      → Runs r
          (submit_ownership_transfer_ix r owner new_owner none
            ∷ confirm_ownership_transfer_ix r new_owner none
            ∷ [])
          s
          (accept_ownership_unchecked s new_owner)
        × ((ixs : List RouterIx) (t : Custodian)
            → Runs r ixs (accept_ownership_unchecked s new_owner) t
            → (new_owner ≡ t.owner)
              ⊎ (Confirmed t.owner ixs
                  × Submitted t.owner (accept_ownership_unchecked s new_owner) ixs))
  unfolding submit_ownership_transfer_ix confirm_ownership_transfer_ix
  transfer_ownership_lem s owner new_owner is_owner some_key other = (
    then _ _ s (transfer_ownership s new_owner) (accept_ownership_unchecked s new_owner)
        (submitted s _ new_owner (record { seeds = refl; is_owner = is_owner }) some_key other)
        (then _ _ _ (accept_ownership_unchecked s new_owner)
          (accept_ownership_unchecked s new_owner)
          (confirmed (transfer_ownership s new_owner) new_owner _ refl refl)
          (finished (accept_ownership_unchecked s new_owner))),
    λ ixs t runs. elim (run_owner ixs (accept_ownership_unchecked s new_owner) t runs) [
      | inl e ↦ inl e
      | inr (confirmation, inl e) ↦ cc
      | inr (confirmation, inr submission) ↦ inr (confirmation, submission)
    ],
  )
