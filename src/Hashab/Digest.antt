-- ===== src/Hashab/Digest.antt =====
-- What the digest of a database does not depend on.
use libopod.Base.{ℕ, ◌≤◌, ◌≡◌, none, List, ◌++◌, arith}
use libopod.Base.Lists.{length, splice, replicate}
use libopod.Base.Slices.{slice-splice_before, take-splice, drop-splice}
use libopod.Hashab.{digested, signature_bytes}

-- The signature is not digested.
pub digested-signature :
    (bytes signature : List ℕ)
    → length signature ≡ 57
    → 0xe4 ≤ length bytes
    → digested (splice bytes 0xab signature) none ≡ digested bytes none
unfolding digested
digested-signature bytes signature size long =
    let before = λ (a b : ℕ) (h : a ≤ b) (k : b ≤ 0xab).
      slice-splice_before bytes 0xab signature a b (omega (arith, long)) h k in
    λ i.
      take-splice bytes 0xab signature 0x18 (omega (arith, long)) (omega arith) i
      ++ (replicate 8 0
          ++ (before 0x20 0x30 (omega arith) (omega arith) i
              ++ (before 0x30 0x32 (omega arith) (omega arith) i
                  ++ (replicate 20 0
                      ++ (before 0x46 0x58 (omega arith) (omega arith) i
                          ++ (replicate 20 0
                              ++ (before 0x6c 0x72 (omega arith) (omega arith) i
                                  ++ (replicate 46 0
                                      ++ (before 0xa0 0xab (omega arith) (omega arith) i
                                          ++ (replicate signature_bytes 0
                                              ++ drop-splice bytes 0xab signature 0xe4
                                                  (omega (arith, size, long)) (omega (arith, size))
                                                  i))))))))))
