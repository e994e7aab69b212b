-- ===== src/Transaction/Scalar.antt =====
-- The scalars of a signature, `canonical_signature_scalar_bytes`: fixed 32-byte words lose their leading
-- zeros, as RLP's integers want.
use fast_wallet.Base.{zero, suc, ◌≤◌, ◌≡◌, refl, false, [], ◌∷◌, length, ◌==◌, arith}
use fast_wallet.Transaction.{Bytes}
use fast_wallet.Transaction.Standards.{be_value, leading_zero}
use fast_wallet.Transaction.Encode.{canonical_signature_scalar_bytes}

-- The canonical bytes of a scalar write the same number, have no leading zero, and are not longer.
pub canonical_scalar :
    (bs : Bytes)
    → (be_value 0 (canonical_signature_scalar_bytes bs) ≡ be_value 0 bs)
      × (leading_zero (canonical_signature_scalar_bytes bs) ≡ false)
      × (length (canonical_signature_scalar_bytes bs) ≤ length bs)
unfolding canonical_signature_scalar_bytes be_value leading_zero
canonical_scalar [] = (refl, refl, omega arith)
canonical_scalar (zero ∷ bs) = let ih = canonical_scalar bs in (ih.0, ih.1, omega (arith, ih.2))
canonical_scalar (suc b ∷ bs) =
    let kept : (suc b == 0) ≡ false = ground arith in rw kept (refl, kept, omega arith)
