-- ===== src/Wim/Encode.antt =====
-- metadata.go: the blob table and the security table as bytes.
pub mod BlobTable
pub mod Filed
pub mod Security
use go_wim.Base.{ℕ, zero, suc, ◌+◌, ◌-◌, ◌*◌, List, [], ◌∷◌, length, replicate, overwrite, to_le}
use go_wim.Wim.ResHdr.{
  ResHdr, write_res_hdr, align8, blob_entry_size, blob_hash_offset, res_hdr_size,
}

-- `blobEntry`. A hash is its 20 bytes.
pub record BlobEntry : Type 0 where
  pub res : ResHdr
  pub hash : List ℕ
  pub refs : ℕ

-- The body of the loop of `encodeBlobTable`, for the entry at byte o.
pub put_blob_entry : List ℕ → ℕ → BlobEntry → List ℕ
put_blob_entry buf o e =
    overwrite
      (overwrite (overwrite (write_res_hdr buf o e.res) (o + res_hdr_size) (to_le 2 1))
        (o + (res_hdr_size + 2)) (to_le 4 e.refs))
      (o + blob_hash_offset) e.hash

-- The loop from entry i on.
pub put_blob_entries : List BlobEntry → ℕ → List ℕ → List ℕ
unfolding put_blob_entry
put_blob_entries [] i buf = buf
put_blob_entries (e ∷ entries) i buf =
    put_blob_entries entries (i + 1) (put_blob_entry buf (i * blob_entry_size) e)

-- `encodeBlobTable`
unfoldable pub encode_blob_table : List BlobEntry → List ℕ
unfolding put_blob_entries
encode_blob_table entries =
    put_blob_entries entries 0 (replicate (length entries * blob_entry_size) 0)

-- The total that `encodeSecurityTable` records: the descriptors behind the two words and the lengths.
unfoldable pub descriptors_size : List (List ℕ) → ℕ
descriptors_size [] = 0
descriptors_size (sd ∷ sds) = length sd + descriptors_size sds

unfoldable pub security_total : List (List ℕ) → ℕ
unfolding descriptors_size
security_total sds = 8 + 8 * length sds + descriptors_size sds

-- The loop over the lengths, from byte `off` on.
pub put_lengths : List (List ℕ) → ℕ → List ℕ → List ℕ
put_lengths [] off buf = buf
put_lengths (sd ∷ sds) off buf = put_lengths sds (off + 8) (overwrite buf off (to_le 8 (length sd)))

-- The loop over the descriptors. `copy` stops at the end of the buffer, which holds them all.
pub put_descriptors : List (List ℕ) → ℕ → List ℕ → List ℕ
put_descriptors [] off buf = buf
put_descriptors (sd ∷ sds) off buf = put_descriptors sds (off + length sd) (overwrite buf off sd)

-- `encodeSecurityTable`
unfoldable pub encode_security_table : List (List ℕ) → List ℕ
unfolding security_total put_lengths put_descriptors
encode_security_table sds =
    let buf = replicate (align8 (security_total sds)) 0 in
    let sized =
      overwrite (overwrite buf 0 (to_le 4 (security_total sds))) 4 (to_le 4 (length sds)) in
    put_descriptors sds (8 + 8 * length sds) (put_lengths sds 8 sized)
