-- ===== src/Hashab/Chain.antt =====
-- The second stage of a signature, as the continuation of a chain of blocks.
use libopod.Base.{ℕ, ◌≡◌, refl, ap, ap₂, true, List, [], ◌∷◌, map}
use libopod.Base.Tests.{◌==◌, ==_iff, passes_below, passes_below_at}
use libopod.Bytes.{IsBytes}
use libopod.Hashab.Word.{at}
use libopod.Hashab.Tables.Stage2.{stage2_output_map}
use libopod.Hashab.Cipher.{inverse_map_byte, cipher_cbc, stage2, stage2_profile}

output_map_table :
    passes_below (λ b. inverse_map_byte stage2_output_map (at stage2_output_map b) == b) 256 ≡ true
unfolding passes_below stage2_output_map inverse_map_byte
output_map_table = refl

inverse_map_byte-output_map :
    (block : List ℕ)
    → IsBytes block
    → map (inverse_map_byte stage2_output_map) (map (λ b. at stage2_output_map b) block) ≡ block
inverse_map_byte-output_map [] h = refl
inverse_map_byte-output_map (b ∷ bs) h =
    ap₂ ◌∷◌
      ((==_iff _ b).0 (
        passes_below_at (λ b. inverse_map_byte stage2_output_map (at stage2_output_map b) == b) 256
          b output_map_table h.0))
      (inverse_map_byte-output_map bs h.1)

-- Where the initialization vector of the second stage is the output map of each byte of a block, that
-- stage enciphers its input as the two blocks that the cipher chains to this block itself.
pub stage2-cipher_cbc :
    (input block : List ℕ)
    → IsBytes block
    → stage2 input (map (λ b. at stage2_output_map b) block)
      ≡ cipher_cbc 2 stage2_profile input block
unfolding stage2 stage2_profile
stage2-cipher_cbc input block h =
    ap (λ c. cipher_cbc 2 stage2_profile input c) (inverse_map_byte-output_map block h)
