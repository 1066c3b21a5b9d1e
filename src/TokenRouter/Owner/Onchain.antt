-- ===== src/TokenRouter/Owner/Onchain.antt =====
-- What the Rust program makes of the instructions (solana/programs/token-router/src/processor/admin). Every
-- instruction is signed by the key that it names as the owner, the owner or assistant, or the pending owner.
use example_liquidity_layer.Prelude.{Bool, List, [], none, replicate, some, ◌∷◌, ◌≡◌, ◌≢◌, ◌⊎◌}
use example_liquidity_layer.Auction.{PublicKey}
use example_liquidity_layer.Solana.{buffer_from}
use example_liquidity_layer.MatchingEngine.Addresses.{address}
use example_liquidity_layer.MatchingEngine.Composites.{AdminMut, OwnerOnlyMut}
use example_liquidity_layer.TokenRouter.{Custodian, TokenRouter}
use example_liquidity_layer.TokenRouter.Owner.{
  RouterIx, cancel_ownership_transfer_request, confirm_ownership_transfer_request, set_pause,
  submit_ownership_transfer_request, update_owner_assistant,
}

-- `Pubkey::default()`
abbrev pub default_key : PublicKey
default_key = replicate 32 0

abbrev pub transfer_ownership : Custodian → (new_owner : PublicKey) → Custodian
transfer_ownership s new_owner = record s { pending_owner = some new_owner }

-- `pending` is the owner that is pending.
abbrev pub accept_ownership_unchecked : Custodian → (pending : PublicKey) → Custodian
accept_ownership_unchecked s pending = record s { owner = pending; pending_owner = none }

abbrev pub cancel_transfer_ownership : Custodian → Custodian
cancel_transfer_ownership s = record s { pending_owner = none }

abbrev pub transfer_owner_assistant : Custodian → (new_assistant : PublicKey) → Custodian
transfer_owner_assistant s new_assistant = record s { owner_assistant = new_assistant }

abbrev pub paused_by : Custodian → (owner_or_assistant : PublicKey) → Bool → Custodian
paused_by s owner_or_assistant to = record s { paused = to; paused_set_by = owner_or_assistant }

module _ (r : TokenRouter) where
  abbrev pub custodian_pda : PublicKey
  custodian_pda = address r.program (buffer_from "emitter" ∷ [])

  -- The owner, on the custodian at its seeds.
  pub record OwnerAccepted (s : Custodian) (a : OwnerOnlyMut) : Type 0 where
    pub seeds : a.custodian ≡ custodian_pda
    pub is_owner : a.owner ≡ s.owner

  pub record AdminAccepted (s : Custodian) (a : AdminMut) : Type 0 where
    pub seeds : a.custodian ≡ custodian_pda
    pub authorized : (a.owner_or_assistant ≡ s.owner) ⊎ (a.owner_or_assistant ≡ s.owner_assistant)

  -- One instruction that succeeds. The program is initialized once, before these.
  pub data Step : RouterIx → Custodian → Custodian → Type 0 where
    paused :
        (s : Custodian) (a : AdminMut) (to : Bool)
        → AdminAccepted s a
        → Step (set_pause to a) s (paused_by s a.owner_or_assistant to)
    submitted :
        (s : Custodian) (a : OwnerOnlyMut) (new_owner : PublicKey)
        → OwnerAccepted s a
        → new_owner ≢ default_key
        → new_owner ≢ a.owner
        → Step (submit_ownership_transfer_request a new_owner) s (transfer_ownership s new_owner)
    confirmed :
        (s : Custodian) (pending custodian : PublicKey)
        → custodian ≡ custodian_pda
        → s.pending_owner ≡ some pending
        → Step
            (confirm_ownership_transfer_request pending custodian)
            s
            (accept_ownership_unchecked s pending)
    cancelled :
        (s : Custodian) (a : OwnerOnlyMut)
        → OwnerAccepted s a
        → Step (cancel_ownership_transfer_request a) s (cancel_transfer_ownership s)
    assisted :
        (s : Custodian) (a : OwnerOnlyMut) (new_assistant : PublicKey)
        → OwnerAccepted s a
        → new_assistant ≢ default_key
        → Step (update_owner_assistant a new_assistant) s (transfer_owner_assistant s new_assistant)

  -- Instructions that all succeed, one after the other.
  pub data Runs : List RouterIx → Custodian → Custodian → Type 0 where
    finished : (s : Custodian) → Runs [] s s
    then :
        (ix : RouterIx) (ixs : List RouterIx) (s s' t : Custodian)
        → Step ix s s'
        → Runs ixs s' t
        → Runs (ix ∷ ixs) s t
