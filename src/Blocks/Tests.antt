-- ===== src/Blocks/Tests.antt =====
-- The theorems about the allocation at concrete partitions.
use udftools.Base.{ℕ, ◌≡◌, refl, arith, [], ◌∷◌, none, some, ok, replicate, Returns, true}
use udftools.Bitmap.Alloc.{SpaceBitmapDesc, first_bitmap}
use udftools.Table.{ShortAd}
use udftools.Bitmap.Digits.{bits, bits_of}
use udftools.Bitmap.Free.{Holds}
use udftools.Space.{divide, flag_vat}
use udftools.Blocks.{Partition, has, udf_alloc_blocks, flag_unalloc_bitmap}
use udftools.Blocks.Account.{Accounts, TakesAccounted, ones, udf_alloc_blocks-Accounts}
use udftools.Blocks.Setup.{PartitionHeaderDesc, setup_header, by_bitmap, setup_header-ones}
use udftools.Blocks.Vat.{tail_end, TailOk, later, RunFrom, udf_alloc_blocks-Behind}

abbrev sbd : SpaceBitmapDesc
sbd = record { num_of_bits = 8; bitmap = 0xF0 ∷ 0 ∷ 0 ∷ 0 ∷ [] }

abbrev partition : ℕ → Partition
partition flags = record {
  flags = flags;
  udf_rev = 0x0201;
  alignment = 1;
  blocksize = 512;
  blocks = 8;
  free_blocks = 4;
  freed_bitmap = none;
  freed_table = none;
  unalloc_bitmap = some sbd;
  unalloc_table = none;
  tail = some (2, 600);
  vat = 0 ∷ 1 ∷ [];
}

partition-Accounts : Accounts (partition flag_unalloc_bitmap) sbd
unfolding Accounts Holds ones bits_of bits
partition-Accounts = (refl, (omega arith, omega arith), refl, omega arith)

udf_alloc_blocks-Accounts_example :
    TakesAccounted sbd 1 0 (udf_alloc_blocks 9 (partition flag_unalloc_bitmap) 0 1)
udf_alloc_blocks-Accounts_example =
    udf_alloc_blocks-Accounts (partition flag_unalloc_bitmap) sbd partition-Accounts 0 9
      (unfold has in refl) (unfold has in refl) (unfold has in refl) (omega arith) (omega arith)
      (omega arith) (omega arith)

udf_alloc_blocks-Behind_example :
    RunFrom
      (partition flag_vat)
      (later 3 (tail_end 512 (some (2, 600))))
      2
      (udf_alloc_blocks 0 (partition flag_vat) 3 2)
udf_alloc_blocks-Behind_example =
    udf_alloc_blocks-Behind (partition flag_vat) 3 2 0 (unfold has in refl) (unfold has in refl)
      (unfold has in refl) (unfold has in refl) (unfold has in refl) (omega arith)
      (unfold TailOk in omega arith) (unfold tail_end in omega arith)

abbrev blank_ad : ShortAd
blank_ad = record { ext_length = 0; ext_position = 0 }

abbrev blank_header : PartitionHeaderDesc
blank_header = record {
  unalloc_space_table = blank_ad;
  unalloc_space_bitmap = blank_ad;
  partition_integrity_table = blank_ad;
  freed_space_table = blank_ad;
  freed_space_bitmap = blank_ad;
  reserved = replicate 88 0;
}

setup_header_runs :
    (setup_header 4 512 5000 0 blank_header 5000
      ≡ ok (
        record blank_header {
          unalloc_space_bitmap = record { ext_length = 1024; ext_position = 0 };
        },
        4998,
      ))
    × (setup_header 0x108 512 5000 0 blank_header 5000
        ≡ ok (
          record blank_header {
            unalloc_space_table = record { ext_length = 1024; ext_position = 0 };
          },
          4998,
        ))
unfolding setup_header divide
setup_header_runs = (refl, refl)

by_unalloc_bitmap : by_bitmap 4 ≡ true
unfolding by_bitmap
by_unalloc_bitmap = refl

setup_header-ones_example :
    Returns
      (setup_header 4 512 5000 0 blank_header 5000)
      (λ r. Returns (first_bitmap 5000 512 0) (λ sbd. r.1 ≡ ones (bits_of sbd.bitmap)))
setup_header-ones_example =
    setup_header-ones 4 512 5000 0 (omega arith) (omega arith) (omega arith) (omega arith)
      by_unalloc_bitmap blank_header
