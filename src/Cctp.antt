-- ===== src/Cctp.antt =====
-- solana/ts/src/cctp/messages.ts: Circle's message format, and the token burn message inside it.
pub mod Layout
pub mod RoundTrip
pub mod Burn
pub mod Programs
mod Tests
use example_liquidity_layer.Prelude.{
  List, Result, drop, error, if◌then◌else◌, length, ltb, ok, throw, ℕ, ◌++◌, ◌-◌, ◌^◌, ◌>>=◌, ◌>>◌,
}
use example_liquidity_layer.Prelude.Int.{pos, ℤ}
use example_liquidity_layer.Buffer.{
  Bytes, alloc, be_bytes, be_value, read_uint_be, set_at, subarray, write_uint_be,
}
use example_liquidity_layer.Uint64.{array, low_bytes, magnitude, write_bigint64_be}

pub record Cctp : Type 0 where
  pub version : ℕ
  pub source_domain : ℕ
  pub destination_domain : ℕ
  pub nonce : ℤ
  pub sender : List ℕ
  pub recipient : List ℕ
  pub target_caller : List ℕ

pub record CctpMessage : Type 0 where
  pub cctp : Cctp
  pub message : Bytes

-- `static decode(buf)`; the `slice` and `subarray` of a short buffer are short, and the reads throw.
unfoldable pub decode_message : Bytes → Result CctpMessage
decode_message buf = do
  version ← read_uint_be 4 buf 0
  source_domain ← read_uint_be 4 buf 4
  destination_domain ← read_uint_be 4 buf 8
  nonce ← read_uint_be 8 buf 12
  ok (record {
    cctp = record {
      version = version;
      source_domain = source_domain;
      destination_domain = destination_domain;
      nonce = pos nonce;
      sender = subarray buf 20 52;
      recipient = subarray buf 52 84;
      target_caller = subarray buf 84 116;
    };
    message = drop 116 buf;
  })

-- `buf.set(array, offset)` for an array of numbers: each is stored as a byte.
unfoldable pub encode_cctp : Cctp → Result Bytes
encode_cctp c = do
  buf ← write_uint_be 4 (alloc 116) c.version 0
  buf ← write_uint_be 4 buf c.source_domain 4
  buf ← write_uint_be 4 buf c.destination_domain 8
  buf ← write_bigint64_be buf c.nonce 12
  buf ← set_at buf (low_bytes c.sender) 20
  buf ← set_at buf (low_bytes c.recipient) 52
  set_at buf (low_bytes c.target_caller) 84

unfoldable pub encode_message : CctpMessage → Result Bytes
encode_message m = do head ← encode_cctp m.cctp; ok (head ++ m.message)

-- `CctpMessage.from` and `CctpTokenBurnMessage.from` take a message or its bytes.
pub data Source (A : Type 0) : Type 0 where
  decoded : A → Source A
  encoded : Bytes → Source A

unfoldable pub message_from : Source CctpMessage → Result CctpMessage
message_from (decoded m) = ok m
message_from (encoded buf) = decode_message buf

pub record CctpTokenBurnMessage : Type 0 where
  pub cctp : Cctp
  pub version : ℕ
  pub burn_token_address : List ℕ
  pub mint_recipient : List ℕ
  pub amount : ℤ
  pub sender : List ℕ

-- The amount is what the 32 bytes write, highest first.
unfoldable pub decode_burn : Bytes → Result CctpTokenBurnMessage
decode_burn buf = do
  outer ← decode_message buf
  let message = outer.message
  version ← read_uint_be 4 message 0
  ok (record {
    cctp = outer.cctp;
    version = version;
    burn_token_address = subarray message 4 36;
    mint_recipient = subarray message 36 68;
    amount = pos (be_value (subarray message 68 100));
    sender = subarray message 100 132;
  })

-- `new BN(...).toBuffer("be", 32)`: the magnitude in 32 bytes; one that needs more throws.
unfoldable pub amount_bytes : ℤ → Result Bytes
amount_bytes amount =
    if ltb (magnitude amount) (256 ^ 32)
    then ok (be_bytes 32 (magnitude amount))
    else throw (error "byte array longer than desired length")

unfoldable pub encode_burn : CctpTokenBurnMessage → Result Bytes
encode_burn m = do
  buf ← write_uint_be 4 (alloc 132) m.version 0
  buf ← set_at buf (low_bytes m.burn_token_address) 4
  buf ← set_at buf (low_bytes m.mint_recipient) 36
  amount ← amount_bytes m.amount
  buf ← set_at buf amount (100 - length amount)
  buf ← set_at buf (low_bytes m.sender) 100
  head ← encode_cctp m.cctp
  ok (head ++ buf)

unfoldable pub burn_from : Source CctpTokenBurnMessage → Result CctpTokenBurnMessage
burn_from (decoded m) = ok m
burn_from (encoded buf) = decode_burn buf
