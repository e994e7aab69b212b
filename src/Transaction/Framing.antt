-- ===== src/Transaction/Framing.antt =====
-- Every list that the encoders write is framed right: its header announces exactly the bytes that
-- follow. The specification is RLP's list rule over the fields' encodings.
use fast_wallet.Base.{
  ℕ, ◌+◌, ◌≡◌, refl, sym, ap, ◌∙◌, List, [], ◌∷◌, map, length, length-append, Option, none, some,
  arith,
}
use mathlib.Core.List.{append-nil}
use mathlib.Core.Path.{fun_ext}
use fast_wallet.Transaction.{
  Bytes, AccessListItem, TypedTransaction, legacy, eip2930, eip1559, RecoverableSignature,
}
use fast_wallet.Transaction.Rlp.{Rlp, IsExact}
use fast_wallet.Transaction.Encode.{
  written, sum, encode_item, length_item, encode_to, to_length, encode_access_list,
  access_list_length, encode_signature_scalar, signature_scalar_length,
  canonical_signature_scalar_bytes,
}
use fast_wallet.Transaction.Scalar.{canonical_scalar}
use fast_wallet.Transaction.Standards.{
  rlp_list, access_spec, recipient_spec, Standard, signing_items, signed_items, envelope,
}
use fast_wallet.Transaction.Forms.{
  legacy_len_for_signing, legacy_signed_len, eip1559_len, eip1559_signed_len, eip2930_len,
  eip2930_signed_len, encode_for_signing, encode_signed,
}

length-written : (items : List Bytes) → length (written items) ≡ sum (map length items)
length-written [] = refl
length-written (b ∷ bs) = omega (arith, length-append {0} b (written bs), length-written bs)

module _ (R : Rlp) (exact : IsExact R) where
  open exact use {uint_exact, string_exact, fixed_exact, header_exact, zero_exact}

  length-fixed_all :
      (keys : List Bytes) → sum (map R.fixed_length keys) ≡ length (written (map R.fixed keys))
  length-fixed_all [] = refl
  length-fixed_all (k ∷ ks) = omega (
    arith,
    length-append {0} (R.fixed k) (written (map R.fixed ks)),
    fixed_exact k,
    length-fixed_all ks,
  )

  length-encode_to : (to : Option Bytes) → to_length R to ≡ length (encode_to R to)
  unfolding to_length encode_to
  length-encode_to none = refl
  length-encode_to (some a) = fixed_exact a

  length-scalar :
      (value : Bytes) → signature_scalar_length R value ≡ length (encode_signature_scalar R value)
  unfolding signature_scalar_length encode_signature_scalar
  length-scalar value = string_exact _

  length-rlp_list :
      (items : List Bytes)
      → length (rlp_list R items)
        ≡ R.length_of_length (length (written items)) + length (written items)
  length-rlp_list items = omega (
    arith,
    header_exact (length (written items)),
    length-append {0} (R.list_header (length (written items))) (written items),
  )

  length_item_pair : (a b : Bytes) → length (written (a ∷ b ∷ [])) ≡ length a + length b
  length_item_pair a b = omega (arith, length-written (a ∷ b ∷ []))

  -- An item of an access list is the list of its address and of the list of its keys, and its length is
  -- told right.
  pub encode_item-framed :
      (item : AccessListItem)
      → (encode_item R item
          ≡ rlp_list R (R.fixed item.address ∷ rlp_list R (map R.fixed item.storage_keys) ∷ []))
        × (length_item R item ≡ length (encode_item R item))
  unfolding encode_item length_item
  encode_item-framed item =
      let keys = map R.fixed item.storage_keys in
      let parts = R.fixed item.address ∷ rlp_list R keys ∷ [] in
      let keys_len = length-fixed_all item.storage_keys in
      let payload_len : R.fixed_length item.address
            + R.length_of_length (sum (map R.fixed_length item.storage_keys))
            + sum (map R.fixed_length item.storage_keys)
          ≡ length (written parts) =
        rw keys_len (
          omega (
            arith,
            length_item_pair (R.fixed item.address) (rlp_list R keys),
            length-rlp_list keys,
            fixed_exact item.address,
          )) in
      let framed : encode_item R item ≡ rlp_list R parts =
        rw payload_len (rw keys_len (simp append-nil)) in
      (framed, rw (framed, payload_len) (sym (length-rlp_list parts)))

  length-encode_items :
      (items : List AccessListItem)
      → sum (map (length_item R) items) ≡ length (written (map (encode_item R) items))
  length-encode_items [] = refl
  length-encode_items (x ∷ xs) = omega (
    arith,
    length-append {0} (encode_item R x) (written (map (encode_item R) xs)),
    (encode_item-framed x).1,
    length-encode_items xs,
  )

  -- An access list is the list of its items, and its length is told right.
  pub encode_access_list-framed :
      (items : List AccessListItem)
      → (encode_access_list R items ≡ access_spec R items)
        × (access_list_length R items ≡ length (encode_access_list R items))
  unfolding encode_access_list access_list_length
  encode_access_list-framed items =
      let e = length-encode_items items in
      (
        rw e (ap (λ f. rlp_list R (map f items)) (fun_ext (λ i. (encode_item-framed i).0))),
        rw e (sym (length-rlp_list (map (encode_item R) items))),
      )

  -- The list that a header for `n` bytes begins, if the items are `n` bytes.
  list-framed :
      (n : ℕ) (items : List Bytes)
      → n ≡ length (written items)
      → written (R.list_header n ∷ items) ≡ rlp_list R items
  list-framed n items e = rw e refl

  access-framed : encode_access_list R ≡ access_spec R
  access-framed = fun_ext (λ items. (encode_access_list-framed items).0)

  encode_to-recipient_spec : (to : Option Bytes) → encode_to R to ≡ recipient_spec R to
  unfolding encode_to
  encode_to-recipient_spec none = refl
  encode_to-recipient_spec (some address) = refl

  recipient-framed : encode_to R ≡ recipient_spec R
  recipient-framed = fun_ext encode_to-recipient_spec

  signing-framed :
      (tx : TypedTransaction)
      → encode_for_signing R tx
        ≡ envelope tx (rlp_list R (signing_items R (encode_access_list R) (encode_to R) tx))
  unfolding encode_for_signing
  signing-framed (legacy tx) =
      let items = signing_items R (encode_access_list R) (encode_to R) (legacy tx) in
      list-framed (legacy_len_for_signing R tx) items (
        omega (arith, length-written items, uint_exact, string_exact, zero_exact, length-encode_to))
  signing-framed (eip2930 tx) =
      let items = signing_items R (encode_access_list R) (encode_to R) (eip2930 tx) in
      let access = (encode_access_list-framed tx.access_list).1 in
      ap (◌∷◌ 0x01) (
        list-framed (eip2930_len R tx) items
          (omega (arith, length-written items, uint_exact, string_exact, access, length-encode_to)))
  signing-framed (eip1559 tx) =
      let items = signing_items R (encode_access_list R) (encode_to R) (eip1559 tx) in
      let access = (encode_access_list-framed tx.access_list).1 in
      ap (◌∷◌ 0x02) (
        list-framed (eip1559_len R tx) items
          (omega (arith, length-written items, uint_exact, string_exact, access, length-encode_to)))

  signature-framed :
      (tx : TypedTransaction) (sig : RecoverableSignature)
      → encode_signed R tx sig
        ≡ envelope tx (
            rlp_list R (
              signed_items R
                (encode_access_list R)
                (encode_to R)
                tx
                sig.v
                (canonical_signature_scalar_bytes sig.r)
                (canonical_signature_scalar_bytes sig.s)))
  unfolding encode_signed encode_signature_scalar
  signature-framed (legacy tx) sig =
      let items =
        signed_items R (encode_access_list R) (encode_to R) (legacy tx) sig.v
          (canonical_signature_scalar_bytes sig.r) (canonical_signature_scalar_bytes sig.s) in
      list-framed (legacy_signed_len R tx sig) items (
        omega
          (arith, length-written items, uint_exact, string_exact, length-scalar, length-encode_to))
  signature-framed (eip2930 tx) sig =
      let items =
        signed_items R (encode_access_list R) (encode_to R) (eip2930 tx) sig.v
          (canonical_signature_scalar_bytes sig.r) (canonical_signature_scalar_bytes sig.s) in
      let access = (encode_access_list-framed tx.access_list).1 in
      ap (◌∷◌ 0x01) (
        list-framed (eip2930_signed_len R tx sig) items (
          omega (
            arith,
            length-written items,
            uint_exact,
            string_exact,
            access,
            length-encode_to,
            length-scalar,
          )))
  signature-framed (eip1559 tx) sig =
      let items =
        signed_items R (encode_access_list R) (encode_to R) (eip1559 tx) sig.v
          (canonical_signature_scalar_bytes sig.r) (canonical_signature_scalar_bytes sig.s) in
      let access = (encode_access_list-framed tx.access_list).1 in
      ap (◌∷◌ 0x02) (
        list-framed (eip1559_signed_len R tx sig) items (
          omega (
            arith,
            length-written items,
            uint_exact,
            string_exact,
            access,
            length-encode_to,
            length-scalar,
          )))

  -- The bytes to sign are, for every form, the envelope of the list of the standards' items.
  pub encode_for_signing-framed :
      (tx : TypedTransaction)
      → encode_for_signing R tx
        ≡ envelope tx (rlp_list R (signing_items R (access_spec R) (recipient_spec R) tx))
  encode_for_signing-framed tx =
      signing-framed tx
      ∙ ap (λ a. envelope tx (rlp_list R (signing_items R a (encode_to R) tx))) access-framed
      ∙ ap (λ to. envelope tx (rlp_list R (signing_items R (access_spec R) to tx))) recipient-framed

  -- The signed bytes are, for every form, the envelope of the list of the items of the standards: the fields with the
  -- recipient or the empty string, then the signature, each of whose two numbers is written without leading
  -- zeros.
  pub encode_signed-framed :
      (tx : TypedTransaction) (sig : RecoverableSignature)
      → Standard R tx sig (encode_signed R tx sig)
  encode_signed-framed tx sig =
      let r = canonical_signature_scalar_bytes sig.r in
      let s = canonical_signature_scalar_bytes sig.s in
      let (r_value, r_zero, _) = canonical_scalar sig.r in
      let (s_value, s_zero, _) = canonical_scalar sig.s in
      (
        r,
        s,
        (r_value, r_zero),
        (s_value, s_zero),
        signature-framed tx sig
            ∙ ap (λ a. envelope tx (rlp_list R (signed_items R a (encode_to R) tx sig.v r s)))
                access-framed
            ∙ ap (λ to. envelope tx (rlp_list R (signed_items R (access_spec R) to tx sig.v r s)))
                recipient-framed,
      )
