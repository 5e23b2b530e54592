-- ===== src/Extent/SpaceType.antt =====
-- enum udf_space_type of include/libudffs.h: one bit for each kind of space.
use udftools.Base.{ℕ}

abbrev pub reserved : ℕ
reserved = 0x0001

abbrev pub vrs : ℕ
vrs = 0x0002

abbrev pub anchor : ℕ
anchor = 0x0004

abbrev pub mvds : ℕ
mvds = 0x0008

abbrev pub rvds : ℕ
rvds = 0x0010

abbrev pub lvid : ℕ
lvid = 0x0020

abbrev pub stable : ℕ
stable = 0x0040

abbrev pub sspace : ℕ
sspace = 0x0080

abbrev pub pspace : ℕ
pspace = 0x0100

abbrev pub uspace : ℕ
uspace = 0x0200

abbrev pub bad : ℕ
bad = 0x0400

abbrev pub mbr : ℕ
mbr = 0x0800
