-- ===== src/Cctp/Burn.antt =====
-- CctpTokenBurnMessage: decoding and encoding undo one another.
use example_liquidity_layer.Uint64.{magnitude}
use example_liquidity_layer.Prelude.{
  All, List, [], ap, append-nil, append_assoc, arith, error, if◌then◌else◌, length, length-append,
  ltb, lt→ltb, ok, refl, sym, take, take_front, throw, ℕ, ◌++◌, ◌-◌, ◌<◌, ◌^◌, ◌∙◌, ◌∷◌, ◌≡◌, ◌≤◌,
}
use example_liquidity_layer.Prelude.Int.{pos}
use example_liquidity_layer.Buffer.{Bytes, IsByte, be_bytes, be_value}
use example_liquidity_layer.Buffer.Laws.{
  be_bytes-be_value, be_value-be_bytes, be_value-lt, cut_as, length-be_bytes,
}
use example_liquidity_layer.Buffer.Chunks.{
  alloc_zero, concat, concat-append, length-concat, read_uint_be_chunk, set_chunk, subarray_chunk,
  write_chunk,
}
use example_liquidity_layer.Cctp.{CctpTokenBurnMessage, amount_bytes, decode_burn, encode_burn}
use example_liquidity_layer.Cctp.Layout.{
  Fits, IsAddress, cctp_chunks, chunk_sizes, encode_cctp_lem, low_bytes-eq,
}
use example_liquidity_layer.Cctp.RoundTrip.{
  append_message, as_message, decode_chunks, message_chunks,
}

-- The fields are in the range of their widths.
pub record BurnFits (m : CctpTokenBurnMessage) : Type 0 where
  pub header_fits : Fits m.cctp
  pub amount_value : ℕ
  pub version_fits : m.version < 2 ^ 32
  pub token_is : IsAddress m.burn_token_address
  pub mint_recipient_is : IsAddress m.mint_recipient
  pub amount_is : m.amount ≡ pos amount_value
  pub amount_fits : amount_value < 256 ^ 32
  pub sender_is : IsAddress m.sender

abbrev burn_chunks : CctpTokenBurnMessage → ℕ → List Bytes
burn_chunks m amount =
    be_bytes 4 m.version
    ∷ m.burn_token_address
    ∷ m.mint_recipient
    ∷ be_bytes 32 amount
    ∷ m.sender
    ∷ []

module _ (m : CctpTokenBurnMessage) (fits : BurnFits m) where
  burn_sizes :
      (length (be_bytes 4 m.version) ≡ 4)
      × (length m.burn_token_address ≡ 32)
      × (length m.mint_recipient ≡ 32)
      × (length (be_bytes 32 fits.amount_value) ≡ 32)
      × (length m.sender ≡ 32)
  burn_sizes = (
    length-be_bytes 4 m.version,
    fits.token_is.0,
    fits.mint_recipient_is.0,
    length-be_bytes 32 fits.amount_value,
    fits.sender_is.0,
  )

  amount_bytes_lem : amount_bytes m.amount ≡ ok (be_bytes 32 fits.amount_value)
  unfolding amount_bytes
  amount_bytes_lem =
      let v : ℕ = fits.amount_value in
      let same : magnitude m.amount ≡ v = rw fits.amount_is (omega arith) in
      ap
        (λ k.
          if ltb k (256 ^ 32)
          then ok (be_bytes 32 k)
          else throw (error "byte array longer than desired length"))
        same
      ∙ rw (lt→ltb v (256 ^ 32) fits.amount_fits) refl

  encode_burn_lem :
      encode_burn m
      ≡ ok (
          concat (
            message_chunks m.cctp fits.header_fits.nonce_value
              (concat (burn_chunks m fits.amount_value))))
  unfolding encode_burn
  encode_burn_lem =
      let v : ℕ = fits.amount_value in
      let n : ℕ = fits.header_fits.nonce_value in
      let a = be_bytes 4 m.version in
      let t = m.burn_token_address in
      let r = m.mint_recipient in
      let b = be_bytes 32 v in
      let sizes = burn_sizes in
      rw
        (
          low_bytes-eq t fits.token_is.1,
          low_bytes-eq r fits.mint_recipient_is.1,
          low_bytes-eq m.sender fits.sender_is.1,
          write_chunk [] 4 m.version 132 128 0 refl (omega arith)
              (omega (arith, fits.version_fits)),
          set_chunk (a ∷ []) t 128 96 4 (omega arith) (omega arith),
          set_chunk (a ∷ t ∷ []) r 96 64 36 (omega arith) (omega arith),
          amount_bytes_lem,
          set_chunk (a ∷ t ∷ r ∷ []) b 64 32 (100 - length b) (omega arith) (omega arith),
          set_chunk (a ∷ t ∷ r ∷ b ∷ []) m.sender 32 0 100 (omega arith) (omega arith),
          encode_cctp_lem m.cctp fits.header_fits,
          alloc_zero (concat (burn_chunks m v)),
        )
        (ap ok (sym (append_message m.cctp n (concat (burn_chunks m v)))))

  -- What stands behind the burn message is not read.
  decode_burn_chunks :
      (rest : Bytes)
      → decode_burn (
          concat (
            message_chunks m.cctp fits.header_fits.nonce_value
              (concat (burn_chunks m fits.amount_value ++ rest ∷ []))))
        ≡ ok m
  unfolding decode_burn
  decode_burn_chunks rest =
      let v : ℕ = fits.amount_value in
      let cs = burn_chunks m v ++ rest ∷ [] in
      let sizes = burn_sizes in
      rw
        (
          decode_chunks m.cctp fits.header_fits (concat cs),
          read_uint_be_chunk cs 0 4 m.version 0 refl refl (omega (arith, fits.version_fits)),
          subarray_chunk cs 1 m.burn_token_address 4 36 refl (omega arith) (omega arith),
          subarray_chunk cs 2 m.mint_recipient 36 68 refl (omega arith) (omega arith),
          subarray_chunk cs 3 (be_bytes 32 v) 68 100 refl (omega arith) (omega arith),
          subarray_chunk cs 4 m.sender 100 132 refl (omega arith) (omega arith),
          be_value-be_bytes 32 v fits.amount_fits,
        )
        (λ i. ok (record {
          cctp = m.cctp;
          version = m.version;
          burn_token_address = m.burn_token_address;
          mint_recipient = m.mint_recipient;
          amount = sym fits.amount_is i;
          sender = m.sender;
        }))

-- A burn message whose fields are in the range of their widths is encoded, and decodes to itself.
pub decode_burn-encode_burn :
    (m : CctpTokenBurnMessage)
    → BurnFits m
    → (buf : Bytes) × (encode_burn m ≡ ok buf) × (decode_burn buf ≡ ok m)
decode_burn-encode_burn m fits =
    let n : ℕ = fits.header_fits.nonce_value in
    let body = burn_chunks m fits.amount_value in
    (
      concat (message_chunks m.cctp n (concat body)),
      encode_burn_lem m fits,
      ap (λ x. decode_burn (concat (message_chunks m.cctp n x)))
            (sym (append-nil (concat body)) ∙ sym (concat-append body ([] ∷ [])))
          ∙ decode_burn_chunks m fits [],
    )

-- Bytes that are long enough are some burn message's fields in a row, and a rest.
as_burn :
    (buf : Bytes)
    → All IsByte buf
    → 248 ≤ length buf
    → (m : CctpTokenBurnMessage) × (fits : BurnFits m) × (rest : Bytes) × (buf
        ≡ concat (
            message_chunks m.cctp fits.header_fits.nonce_value
              (concat (burn_chunks m fits.amount_value ++ rest ∷ []))))
as_burn buf bytes long =
    let (outer, fits, e, body_bytes) = as_message buf bytes (omega arith) in
    let n : ℕ = fits.nonce_value in
    let header : length (concat (cctp_chunks outer.cctp n)) ≡ 116 =
      omega (arith, length-concat (cctp_chunks outer.cctp n), chunk_sizes outer.cctp fits) in
    let whole : buf ≡ concat (cctp_chunks outer.cctp n) ++ outer.message =
      e ∙ append_message outer.cctp n outer.message in
    let body_long : 132 ≤ length outer.message = omega (
      arith,
      ap length whole,
      length-append (concat (cctp_chunks outer.cctp n)) outer.message,
      header,
    ) in
    let (a, r1, e1, l1, ba, t1) =
      cut_as (4 ∷ 32 ∷ 32 ∷ 32 ∷ 32 ∷ []) outer.message body_long body_bytes in
    let (token, r2, e2, l2, bb, t2) = t1 in
    let (recipient, r3, e3, l3, bc, t3) = t2 in
    let (d, r4, e4, l4, bd, t4) = t3 in
    let (sender, rest, e5, l5, bs, brest) = t4 in
    let body : outer.message ≡ concat (a ∷ token ∷ recipient ∷ d ∷ sender ∷ rest ∷ []) =
      cc (e1, e2, e3, e4, e5, append-nil rest) in
    (
      record {
        cctp = outer.cctp;
        version = be_value a;
        burn_token_address = token;
        mint_recipient = recipient;
        amount = pos (be_value d);
        sender = sender;
      },
      record {
        header_fits = fits;
        amount_value = be_value d;
        version_fits = be_value-lt a 4 l1 ba;
        token_is = (l2, bb);
        mint_recipient_is = (l3, bc);
        amount_is = refl;
        amount_fits = be_value-lt d 32 l4 bd;
        sender_is = (l5, bs);
      },
      rest,
      rw (be_bytes-be_value a 4 l1 ba, be_bytes-be_value d 32 l4 bd)
          (e ∙ ap (λ x. concat (message_chunks outer.cctp n x)) body),
    )

-- The fields of a burn message are 248 bytes.
take_burn :
    (m : CctpTokenBurnMessage) (fits : BurnFits m) (rest : Bytes)
    → take 248 (
        concat (
          message_chunks m.cctp fits.header_fits.nonce_value
            (concat (burn_chunks m fits.amount_value ++ rest ∷ []))))
      ≡ concat (
          message_chunks m.cctp fits.header_fits.nonce_value
            (concat (burn_chunks m fits.amount_value)))
take_burn m fits rest =
    let n : ℕ = fits.header_fits.nonce_value in
    let front = concat (cctp_chunks m.cctp n) in
    let fields = burn_chunks m fits.amount_value in
    rw
      (
        append_message m.cctp n (concat (fields ++ rest ∷ [])),
        append_message m.cctp n (concat fields),
        concat-append fields (rest ∷ []),
        sym (append_assoc front (concat fields) (concat (rest ∷ []))),
      )
      (take_front (front ++ concat fields) (concat (rest ∷ [])) 248 (
        omega (
          arith,
          length-append front (concat fields),
          length-concat (cctp_chunks m.cctp n),
          chunk_sizes m.cctp fits.header_fits,
          length-concat fields,
          burn_sizes m fits,
        )))

-- 248 bytes or more decode to a burn message, and encoding that one gives back the first 248 of
-- them: what a message carries behind them is lost.
pub encode_burn-decode_burn :
    (buf : Bytes)
    → All IsByte buf
    → 248 ≤ length buf
    → (m : CctpTokenBurnMessage) × (decode_burn buf ≡ ok m) × (encode_burn m ≡ ok (take 248 buf))
encode_burn-decode_burn buf bytes long =
    let (m, fits, rest, e) = as_burn buf bytes long in
    (
      m,
      ap decode_burn e ∙ decode_burn_chunks m fits rest,
      encode_burn_lem m fits ∙ ap ok (sym (ap (take 248) e ∙ take_burn m fits rest)),
    )
