-- ===== src/Label/Accepts.antt =====
-- When udflabel accepts a descriptor, and that it accepts what it has updated.
use udftools.Base.{
  ℕ, ◌+◌, ◌-◌, ◌%◌, ◌^◌, ◌≤◌, ◌<◌, ◌≡◌, ◌↔◌, refl, sym, ap, ◌∙◌, List, ◌++◌, arith, ok, length,
  take, drop, Returns, ltb, u32, ◌==◌, ==_iff, Bool-cases, if◌then◌else◌, inl, inr, true, false,
  take-append-drop, length-take, Bool, not, ◌&&◌,
}
use udftools.Crc.{udf_crc}
use udftools.Crc.Whole.{crc_of, crc_of-lt, udf_crc-front}
use udftools.Tag.{Tag, tag_bytes, sum_from, with_checksum}
use udftools.Tag.Fits.{Fits, tag_of-tag_bytes}
use udftools.Tag.Sealed.{Sealed, with_checksum-Sealed}
use udftools.Label.{compute_crc, compute_checksum, check_desc, update_desc}

compute_crc-front :
    (t : Tag) (body : List ℕ) (n : ℕ)
    → n ≤ length body
    → n < 65536
    → compute_crc (tag_bytes t ++ body) (16 + n) ≡ ok (crc_of (take n body) 0)
unfolding compute_crc tag_bytes
compute_crc-front t body n inside small =
    let part : length (take n body) ≡ n = length-take n body inside in
    let size : u32 (16 + n + 2 ^ 64 - 16) ≡ length (take n body) = omega arith in
    rw size (
      ap (λ (l : List ℕ). udf_crc l (length (take n body)) 0) (sym (take-append-drop n body))
      ∙ udf_crc-front (take n body) (drop n body) 0)

-- The three tests of `check_desc`, where the bytes that the tag says are there.
pub check_desc-tests :
    (t : Tag) (body : List ℕ) (length' : ℕ)
    → Fits t
    → t.desc_crc_length ≤ length body
    → 16 ≤ length'
    → length' < 2 ^ 64
    → check_desc (tag_bytes t ++ body) length'
      ≡ ok (
          not (ltb (length' - 16) t.desc_crc_length)
          && ((sum_from 0 (tag_bytes t) 0 == t.tag_checksum)
              && (crc_of (take t.desc_crc_length body) 0 == t.desc_crc)))
unfolding check_desc compute_checksum Fits
check_desc-tests t body length' fits inside large small =
    let size : (length' + 2 ^ 64 - 16) % 2 ^ 64 ≡ length' - 16 = omega arith in
    rw (tag_of-tag_bytes t body fits) (
      rw size (elim (Bool-cases (ltb (length' - 16) t.desc_crc_length)) [
        | inl long ↦ rw long refl
        | inr fit ↦ rw fit (elim (Bool-cases (sum_from 0 (tag_bytes t) 0 == t.tag_checksum)) [
          | inl same ↦ rw same (rw (compute_crc-front t body t.desc_crc_length inside fits.6) refl)
          | inr other ↦ rw other refl
        ])
      ]))

and_true : (a b c : Bool) → ((not a && (b && c)) ≡ true) ↔ ((a ≡ false) × (b ≡ true) × (c ≡ true))
and_true a b c = ground arith

-- `check_desc` reads at least 16 bytes of a descriptor, and those that its tag says it covers. Where
-- these are in memory and the length is at least that of a tag, it accepts exactly the descriptors
-- whose tag covers no more than the length, and agrees with the bytes that it covers.
pub check_desc-Sealed :
    (t : Tag) (body : List ℕ) (length' : ℕ)
    → Fits t
    → t.desc_crc_length ≤ length body
    → 16 ≤ length'
    → length' < 2 ^ 64
    → (check_desc (tag_bytes t ++ body) length' ≡ ok true)
      ↔ ((t.desc_crc_length + 16 ≤ length') × Sealed t body)
unfolding Sealed
check_desc-Sealed t body length' fits inside large small =
    let long = ltb (length' - 16) t.desc_crc_length in
    let sum = sum_from 0 (tag_bytes t) 0 == t.tag_checksum in
    let same = crc_of (take t.desc_crc_length body) 0 == t.desc_crc in
    rw (check_desc-tests t body length' fits inside large small) (
      λ (e : ok (not long && (sum && same)) ≡ ok true).
          let tests = (and_true long sum same).0 (cc) in
          (
            ground (arith, tests.0),
            (
              fits,
              sym ((==_iff (sum_from 0 (tag_bytes t) 0) t.tag_checksum).0 tests.1),
              inside,
              sym ((==_iff (crc_of (take t.desc_crc_length body) 0) t.desc_crc).0 tests.2),
            ),
          ),
      λ (s : (t.desc_crc_length + 16 ≤ length') × Sealed t body). ap ok (
          (and_true long sum same).1 (
            ground (arith, s.0),
            (==_iff (sum_from 0 (tag_bytes t) 0) t.tag_checksum).1 (sym s.1.1),
            (==_iff (crc_of (take t.desc_crc_length body) 0) t.desc_crc).1 (sym s.1.3),
          )),
    )

-- The tag that `update_desc` leaves.
updated : Tag → List ℕ → Tag
updated t body = with_checksum (record t { desc_crc = crc_of (take t.desc_crc_length body) 0 })

update_desc-updated :
    (t : Tag) (body : List ℕ) (length' : ℕ)
    → Fits t
    → t.desc_crc_length ≤ length body
    → t.desc_crc_length + 16 ≤ length'
    → update_desc (tag_bytes t ++ body) length' ≡ ok (tag_bytes (updated t body) ++ body)
unfolding update_desc compute_checksum updated with_checksum Fits
update_desc-updated t body length' fits inside large =
    let size : (if ltb (t.desc_crc_length + 16) length' then t.desc_crc_length + 16 else length')
        ≡ 16 + t.desc_crc_length =
      ground arith in
    rw (tag_of-tag_bytes t body fits) (
      rw size
        (rw (compute_crc-front t body t.desc_crc_length inside fits.6) (unfold tag_bytes in refl)))

updated-Sealed :
    (t : Tag) (body : List ℕ)
    → Fits t
    → t.desc_crc_length ≤ length body
    → Sealed (updated t body) body
unfolding updated
updated-Sealed t body fits inside =
    let crc = crc_of (take t.desc_crc_length body) 0 in
    let fresh : Fits (record t { desc_crc = crc }) =
      unfold Fits in
      (
        fits.0,
        fits.1,
        fits.2,
        fits.3,
        fits.4,
        crc_of-lt (take t.desc_crc_length body) 0 (omega arith),
        fits.6,
        fits.7,
      ) in
    with_checksum-Sealed (record t { desc_crc = crc }) body fresh inside refl

-- After any change behind a tag, `update_desc` returns the descriptor with the same bytes behind the
-- tag, and `check_desc` accepts it, where the bytes that the tag covers are in memory and in the
-- length that is passed.
pub update_desc-check_desc :
    (t : Tag) (body : List ℕ) (length' : ℕ)
    → Fits t
    → t.desc_crc_length ≤ length body
    → t.desc_crc_length + 16 ≤ length'
    → length' < 2 ^ 64
    → Returns
        (update_desc (tag_bytes t ++ body) length')
        (λ d. (drop 16 d ≡ body) × (check_desc d length' ≡ ok true))
update_desc-check_desc t body length' fits inside large small =
    let sealed = updated-Sealed t body fits inside in
    rw (update_desc-updated t body length' fits inside large) (
      unfold tag_bytes in refl,
      (check_desc-Sealed (updated t body) body length' (unfold Sealed in sealed.0)
            (unfold updated with_checksum in inside) (omega arith) small).1
          ((unfold updated with_checksum in large), sealed),
    )
