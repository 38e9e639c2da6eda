-- ===== src/Hash/Tests.antt =====
-- The hash of "abc", and the theorems on hashes at small texts.
use psprism.Base.{ℕ, ◌≡◌, refl, List, [], ◌∷◌, some, true}
use psprism.Base.Text.{codes}
use psprism.Hash.Sha256.{sha256_hex, sha256_file, ok}
use psprism.Hash.Streaming.{sha256_file-sha256_hex}
use psprism.Hash.Standard.{sha256}
use psprism.Hash.Chain.{sha256_hex-sha256}

abbrev abc : List ℕ
abc = 0x61 ∷ 0x62 ∷ 0x63 ∷ []

abc_hashed :
    sha256_hex abc ≡ codes "ba7816bf8f01cfea414140de5dae2223b00361a396177a9cb410ff61f20015ad"
unfolding sha256_hex
abc_hashed = refl

abc_standard : sha256 abc ≡ codes "ba7816bf8f01cfea414140de5dae2223b00361a396177a9cb410ff61f20015ad"
unfolding sha256
abc_standard = refl

sha256_hex-sha256_example : sha256_hex abc ≡ sha256 abc
sha256_hex-sha256_example = sha256_hex-sha256 abc

sha256_file-sha256_hex_example :
    sha256_file
      (some (record { chunks = (0x61 ∷ []) ∷ [] ∷ (0x62 ∷ 0x63 ∷ []) ∷ []; at_end = true }))
    ≡ ok (sha256_hex abc)
sha256_file-sha256_hex_example = sha256_file-sha256_hex ((0x61 ∷ []) ∷ [] ∷ (0x62 ∷ 0x63 ∷ []) ∷ [])
