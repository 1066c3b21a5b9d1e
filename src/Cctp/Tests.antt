-- ===== src/Cctp/Tests.antt =====
-- Messages on which the theorems of CCTP are applied.
use example_liquidity_layer.Prelude.{
  All, List, [], arith, ok, refl, replicate, replicate-All, suc, zero, ℕ, ◌%◌, ◌*◌, ◌<◌, ◌∷◌, ◌≡◌,
}
use example_liquidity_layer.Prelude.Int.{pos}
use example_liquidity_layer.Buffer.{Bytes, IsByte}
use example_liquidity_layer.Cctp.{
  Cctp, CctpMessage, CctpTokenBurnMessage, decode_burn, decode_message, encode_burn, encode_message,
}
use example_liquidity_layer.Cctp.Layout.{Fits, IsAddress}
use example_liquidity_layer.Cctp.RoundTrip.{decode-encode}
use example_liquidity_layer.Cctp.Burn.{BurnFits, decode_burn-encode_burn}

abbrev address_of : ℕ → List ℕ
address_of b = replicate 32 b

address_of-IsAddress : (b : ℕ) → b < 256 → IsAddress (address_of b)
address_of-IsAddress b h = (refl, replicate-All IsByte 32 b h)

abbrev header : Cctp
header = record {
  version = 1;
  source_domain = 5;
  destination_domain = 3;
  nonce = pos 305419896;
  sender = address_of 17;
  recipient = address_of 34;
  target_caller = address_of 51;
}

header-Fits : Fits header
header-Fits = record {
  nonce_value = 305419896;
  version_fits = omega arith;
  source_fits = omega arith;
  destination_fits = omega arith;
  nonce_is = refl;
  nonce_fits = omega arith;
  sender_is = address_of-IsAddress 17 (omega arith);
  recipient_is = address_of-IsAddress 34 (omega arith);
  caller_is = address_of-IsAddress 51 (omega arith);
}

abbrev small_message : CctpMessage
small_message = record { cctp = header; message = 1 ∷ 2 ∷ 255 ∷ [] }

decode-encode_example :
    (buf : Bytes) × (encode_message small_message ≡ ok buf)
    × (decode_message buf ≡ ok small_message)
decode-encode_example = decode-encode small_message header-Fits

abbrev burn : CctpTokenBurnMessage
burn = record {
  cctp = header;
  version = 0;
  burn_token_address = address_of 68;
  mint_recipient = address_of 85;
  amount = pos 10000000000000000000000;
  sender = address_of 102;
}

burn-BurnFits : BurnFits burn
burn-BurnFits = record {
  header_fits = header-Fits;
  amount_value = 10000000000000000000000;
  version_fits = omega arith;
  token_is = address_of-IsAddress 68 (omega arith);
  mint_recipient_is = address_of-IsAddress 85 (omega arith);
  amount_is = refl;
  amount_fits = omega arith;
  sender_is = address_of-IsAddress 102 (omega arith);
}

decode_burn-encode_burn_example :
    (buf : Bytes) × (encode_burn burn ≡ ok buf) × (decode_burn buf ≡ ok burn)
decode_burn-encode_burn_example = decode_burn-encode_burn burn burn-BurnFits

-- The bytes 1, 2, 3, and so on.
abbrev count_bytes : ℕ → List ℕ
count_bytes zero = []
count_bytes (suc n) = ((n * 7) % 256) ∷ count_bytes n

count_bytes-IsByte : (n : ℕ) → All IsByte (count_bytes n)
count_bytes-IsByte zero = tt
count_bytes-IsByte (suc n) = (omega arith, count_bytes-IsByte n)
