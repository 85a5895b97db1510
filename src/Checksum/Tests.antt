-- ===== src/Checksum/Tests.antt =====
-- Three bytes.
use reliable_udp.Base.{[], arith, ◌%◌, ◌+◌, ◌∷◌, ◌≡◌}
use reliable_udp.Checksum.{checksum}
use reliable_udp.Checksum.Verify.{checksum_verifies, total}

checksum_verifies_example : (total (255 ∷ 1 ∷ 7 ∷ []) + checksum (255 ∷ 1 ∷ 7 ∷ [])) % 65535 ≡ 0
checksum_verifies_example =
    checksum_verifies (255 ∷ 1 ∷ 7 ∷ []) (omega arith, (omega arith, (omega arith, tt)))
      (omega arith)
