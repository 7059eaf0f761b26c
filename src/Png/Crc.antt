-- ===== src/Png/Crc.antt =====
-- The IEEE CRC-32 of Go's hash/crc32, which internal/crypto/polyglot.go calls, by its table.
use discord_free_cloud.Base.{
  ℕ, zero, suc, ◌-◌, ◌/◌, ◌%◌, ◌^◌, List, [], ◌∷◌, ◌==◌, if◌then◌else◌, bit_xor, ◌≡◌, refl,
}

-- an entry of the table: `rounds` shifts of the reversed polynomial
table_entry : ℕ → ℕ → ℕ
table_entry zero c = c
table_entry (suc rounds) c =
    table_entry rounds (if c % 2 == 1 then bit_xor 0xEDB88320 (c / 2) else c / 2)

abbrev complement : ℕ → ℕ
complement c = 2 ^ 32 - 1 - c

update_from : ℕ → List ℕ → ℕ
unfolding table_entry
update_from crc [] = crc
update_from crc (v ∷ p) =
    update_from (bit_xor (table_entry 8 (bit_xor (crc % 256) v)) (crc / 256)) p

-- `crc32.Update(crc, crc32.IEEETable, p)`
pub crc_update : ℕ → List ℕ → ℕ
unfolding update_from
crc_update crc p = complement (update_from (complement crc) p)

-- `crc32.ChecksumIEEE(p)`
pub checksum_ieee : List ℕ → ℕ
unfolding crc_update
checksum_ieee p = crc_update 0 p

-- the checksum that ends every PNG file
checksum_iend : checksum_ieee (b'I' ∷ b'E' ∷ b'N' ∷ b'D' ∷ []) ≡ 0xAE426082
unfolding checksum_ieee
checksum_iend = refl
