-- ===== src/Cctp/RoundTrip.antt =====
-- CctpMessage: decoding and encoding undo one another.

use example_liquidity_layer.Prelude.Int.{pos}
use example_liquidity_layer.Prelude.{
  All, List, [], ap, append-nil, arith, length, ok, refl, sym, ℕ, ◌++◌, ◌∙◌, ◌∷◌, ◌≡◌, ◌≤◌,
}
use example_liquidity_layer.Buffer.{Bytes, IsByte, be_value}
use example_liquidity_layer.Buffer.Laws.{be_bytes-be_value, be_value-lt, cut_as}
use example_liquidity_layer.Buffer.Chunks.{
  concat, concat-append, drop_chunks, read_uint_be_chunk, subarray_chunk,
}
use example_liquidity_layer.Cctp.{Cctp, CctpMessage, decode_message, encode_message}
use example_liquidity_layer.Cctp.Layout.{Fits, cctp_chunks, chunk_sizes, encode_cctp_lem}

-- The header's fields and the message behind them.
abbrev pub message_chunks : Cctp → ℕ → Bytes → List Bytes
message_chunks c n message = cctp_chunks c n ++ message ∷ []

pub append_message :
    (c : Cctp) (n : ℕ) (message : Bytes)
    → concat (message_chunks c n message) ≡ concat (cctp_chunks c n) ++ message
append_message c n message =
    concat-append (cctp_chunks c n) (message ∷ [])
    ∙ ap (◌++◌ (concat (cctp_chunks c n))) (append-nil message)

pub encode_message_lem :
    (m : CctpMessage) (fits : Fits m.cctp)
    → encode_message m ≡ ok (concat (message_chunks m.cctp fits.nonce_value m.message))
unfolding encode_message
encode_message_lem m fits =
    rw (encode_cctp_lem m.cctp fits)
      (ap ok (sym (append_message m.cctp fits.nonce_value m.message)))

pub decode_chunks :
    (c : Cctp) (fits : Fits c) (message : Bytes)
    → decode_message (concat (message_chunks c fits.nonce_value message))
      ≡ ok (record { cctp = c; message = message })
unfolding decode_message
decode_chunks c fits message =
    let n : ℕ = fits.nonce_value in
    let cs = message_chunks c n message in
    let sizes = chunk_sizes c fits in
    rw
      (
        read_uint_be_chunk cs 0 4 c.version 0 refl refl (omega (arith, fits.version_fits)),
        read_uint_be_chunk cs 1 4 c.source_domain 4 refl (omega arith)
            (omega (arith, fits.source_fits)),
        read_uint_be_chunk cs 2 4 c.destination_domain 8 refl (omega arith)
            (omega (arith, fits.destination_fits)),
        read_uint_be_chunk cs 3 8 n 12 refl (omega arith) (omega (arith, fits.nonce_fits)),
        subarray_chunk cs 4 c.sender 20 52 refl (omega arith) (omega arith),
        subarray_chunk cs 5 c.recipient 52 84 refl (omega arith) (omega arith),
        subarray_chunk cs 6 c.target_caller 84 116 refl (omega arith) (omega arith),
        drop_chunks cs 7 message 116 refl (omega arith) (omega arith),
      )
      (λ i. ok (record {
        cctp = record {
          version = c.version;
          source_domain = c.source_domain;
          destination_domain = c.destination_domain;
          nonce = sym fits.nonce_is i;
          sender = c.sender;
          recipient = c.recipient;
          target_caller = c.target_caller;
        };
        message = message;
      }))

-- A message whose fields are in the range of their widths is encoded, and decodes to itself.
pub decode-encode :
    (m : CctpMessage)
    → Fits m.cctp
    → (buf : Bytes) × (encode_message m ≡ ok buf) × (decode_message buf ≡ ok m)
decode-encode m fits = (
  concat (message_chunks m.cctp fits.nonce_value m.message),
  encode_message_lem m fits,
  decode_chunks m.cctp fits m.message,
)

-- Bytes that are long enough for the header are some message's fields in a row.
pub as_message :
    (buf : Bytes)
    → All IsByte buf
    → 116 ≤ length buf
    → (m : CctpMessage) × (fits : Fits m.cctp) × (buf
        ≡ concat (message_chunks m.cctp fits.nonce_value m.message))
      × All IsByte m.message
as_message buf bytes long =
    let (a, r1, e1, l1, ba, t1) =
      cut_as (4 ∷ 4 ∷ 4 ∷ 8 ∷ 32 ∷ 32 ∷ 32 ∷ []) buf (omega arith) bytes in
    let (b, r2, e2, l2, bb, t2) = t1 in
    let (c, r3, e3, l3, bc, t3) = t2 in
    let (d, r4, e4, l4, bd, t4) = t3 in
    let (sender, r5, e5, l5, bs, t5) = t4 in
    let (recipient, r6, e6, l6, br, t6) = t5 in
    let (caller, rest, e7, l7, bt, brest) = t6 in
    let message : CctpMessage = record {
      cctp = record {
        version = be_value a;
        source_domain = be_value b;
        destination_domain = be_value c;
        nonce = pos (be_value d);
        sender = sender;
        recipient = recipient;
        target_caller = caller;
      };
      message = rest;
    } in
    (
      message,
      record {
        nonce_value = be_value d;
        version_fits = be_value-lt a 4 l1 ba;
        source_fits = be_value-lt b 4 l2 bb;
        destination_fits = be_value-lt c 4 l3 bc;
        nonce_is = refl;
        nonce_fits = be_value-lt d 8 l4 bd;
        sender_is = (l5, bs);
        recipient_is = (l6, br);
        caller_is = (l7, bt);
      },
      rw
          (
            be_bytes-be_value a 4 l1 ba,
            be_bytes-be_value b 4 l2 bb,
            be_bytes-be_value c 4 l3 bc,
            be_bytes-be_value d 8 l4 bd,
          )
          (cc (e1, e2, e3, e4, e5, e6, e7, append-nil rest)),
      brest,
    )

-- Bytes that are long enough for the header decode, and the message is encoded as the same bytes.
pub encode-decode :
    (buf : Bytes)
    → All IsByte buf
    → 116 ≤ length buf
    → (m : CctpMessage) × (decode_message buf ≡ ok m) × (encode_message m ≡ ok buf)
encode-decode buf bytes long =
    let (m, fits, e, _) = as_message buf bytes long in
    (
      m,
      ap decode_message e ∙ decode_chunks m.cctp fits m.message,
      encode_message_lem m fits ∙ ap ok (sym e),
    )
