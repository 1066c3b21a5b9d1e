-- ===== src/TokenRouter/Owner/Tests.antt =====
-- The router is handed over from one key to another.
use example_liquidity_layer.Prelude.{List, [], none, refl, ◌∷◌, ◌≡◌, ◌⊎◌}
use example_liquidity_layer.TokenRouter.Fixture.{deployed, router}
use example_liquidity_layer.TokenRouter.{Custodian}
use example_liquidity_layer.TokenRouter.Owner.{
  RouterIx, confirm_ownership_transfer_ix, submit_ownership_transfer_ix,
}
use example_liquidity_layer.TokenRouter.Owner.Onchain.{Runs, accept_ownership_unchecked}
use example_liquidity_layer.TokenRouter.Owner.Ownership.{
  Confirmed, Submitted, transfer_ownership_lem,
}

transfer_ownership_lem_example :
    Runs router
      (submit_ownership_transfer_ix router (20 ∷ []) (24 ∷ []) none
        ∷ confirm_ownership_transfer_ix router (24 ∷ []) none
        ∷ [])
      deployed
      (accept_ownership_unchecked deployed (24 ∷ []))
    × ((ixs : List RouterIx) (t : Custodian)
        → Runs router ixs (accept_ownership_unchecked deployed (24 ∷ [])) t
        → (24 ∷ [] ≡ t.owner)
          ⊎ (Confirmed t.owner ixs
              × Submitted router t.owner (accept_ownership_unchecked deployed (24 ∷ [])) ixs))
transfer_ownership_lem_example =
    transfer_ownership_lem router deployed (20 ∷ []) (24 ∷ []) refl (λ e. cc) (λ e. cc)
