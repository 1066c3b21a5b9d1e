-- ===== src/Solver/Settle/Won.antt =====
-- Auctions that one of our accounts won.
use example_liquidity_layer.Solver.Io.{caught, continue-eq-ok, return}
use example_liquidity_layer.Prelude.{
  Bool-cases, Option, Option-cases, Result, String, ap, inl, inr, none, ok, some, sym, throw, true,
  ◌∙◌, ◌≡◌,
}
use example_liquidity_layer.Auction.{AuctionInfo, PublicKey}
use example_liquidity_layer.Solver.Config.{ComputeUnitsConfig}
use example_liquidity_layer.Solver.Settle.{AuctionAccount, Settling, fetch_our_auction, recognize}

module _ {W : Type 0} (net : Settling W) (units : ComputeUnitsConfig) (commitment : String)
    (payer : PublicKey) where
  -- An auction that is fetched and not refused was won by one of our accounts.
  pub record Won (place : PublicKey) (auction : AuctionAccount) (best : PublicKey) : Type 0 where
    pub info : AuctionInfo
    pub earlier : W
    pub later : W
    pub fetched : net.fetch_auction place earlier ≡ (ok auction, later)
    pub info_is : auction.info ≡ some info
    pub best_is : best ≡ info.best_offer_token
    pub recognized : net.is_recognized_token_account info.best_offer_token ≡ true

  caught-some :
      (r : Result (Option (AuctionAccount × PublicKey)) × W) (x : AuctionAccount × PublicKey)
      (w : W)
      → caught r (λ e. return none) ≡ (ok (some x), w)
      → r ≡ (ok (some x), w)
  caught-some (ok a, w1) x w h = h
  caught-some (throw e, w1) x w h = cc

  recognize-Won :
      (auction fetched : AuctionAccount) (found : PublicKey) (w w' : W)
      → recognize net units commitment payer fetched w ≡ (ok (some (auction, found)), w')
      → (info : AuctionInfo) × (fetched.info ≡ some info)
        × (net.is_recognized_token_account info.best_offer_token ≡ true)
        × (fetched ≡ auction)
        × (found ≡ info.best_offer_token)
  unfolding recognize
  recognize-Won auction fetched found w w' h = elim (Option-cases fetched.info) [
    | inl n ↦ absurd (cc (rw n at h))
    | inr (info, is) ↦ elim (Bool-cases (net.is_recognized_token_account info.best_offer_token)) [
      | inl e ↦ (info, is, e, cc (rw (is, e) at h), cc (rw (is, e) at h))
      | inr n ↦ absurd (cc (rw (is, n) at h))
    ]
  ]

  pub fetch_our_auction-Won :
      (place : PublicKey) (auction : AuctionAccount) (found : PublicKey) (w w' : W)
      → fetch_our_auction net units commitment payer place w ≡ (ok (some (auction, found)), w')
      → Won place auction found
  unfolding fetch_our_auction
  fetch_our_auction-Won place auction found w w' h =
      let (fetched, w1, e, h1) =
        continue-eq-ok (net.fetch_auction place w) _ (caught-some _ (auction, found) w' h) in
      let (info, is, recognized, same, best_is) = recognize-Won auction fetched found w1 w' h1 in
      record {
        info = info;
        earlier = w;
        later = w1;
        fetched = e ∙ ap (λ a. (ok a, w1)) same;
        info_is = ap (λ (a : AuctionAccount). a.info) (sym same) ∙ is;
        best_is = best_is;
        recognized = recognized;
      }
