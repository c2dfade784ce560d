-- ===== src/Fs/Sample.antt =====
-- A disk of 100 blocks whose first ten are in use, and a file of one block, for the tests.
use os_lab_course_project.Prelude.{
  ℕ, ◌≤◌, ◌<◌, ◌≡◌, ◌≢◌, ◌⊎◌, inl, inr, refl, ◌==◌, if◌then◌else◌, Option, none, [], arith,
}
use os_lab_course_project.Fs.Blocks.{Fs}
use os_lab_course_project.Fs.Bits.{is_clear}
use os_lab_course_project.Fs.Bitmap.{Super, bblock}
use os_lab_course_project.Fs.Bitmap.Scan.{IsSane}
use os_lab_course_project.Fs.Bitmap.Alloc.{}
use os_lab_course_project.Fs.Inode.{Inode}
use os_lab_course_project.Fs.Inode.Owned.{owned, IsUsed, IsFile}
use os_lab_course_project.Fs.Inode.Map.{}
use os_lab_course_project.Fs.Content.{Buffer, Device}
use os_lab_course_project.Fs.Content.Update.{}
use os_lab_course_project.Fs.Content.Write.{}
use os_lab_course_project.Fs.Content.Stored.{IsStored}
use os_lab_course_project.Fs.Content.Writei.{}
use os_lab_course_project.Fs.Content.Read.{}

abbrev pub super : Super
super = record {
  size = 100;
  nblocks = 90;
  ninodes = 16;
  nlog = 0;
  logstart = 2;
  inodestart = 3;
  bmapstart = 5;
}

-- Block 5 is the free map, with the bits of the blocks below 10; block 8 holds sevens.
abbrev pub disk : Fs
disk = record {
  blocks = λ b x.
      if b == 5 then (if x == 0 then 255 else if x == 1 then 3 else 0) else if b == 8 then 7 else 0;
  logged = [];
}

-- An inode of that type and size, with block 8.
abbrev pub sample : ℕ → ℕ → Inode
sample type size = record {
  inum = 1;
  type = type;
  major = 0;
  minor = 0;
  nlink = 1;
  size = size;
  addrs = λ i. if i == 0 then 8 else 0;
}

abbrev pub file : Inode
file = sample 2 100

map_block : (b : ℕ) → b < 100 → bblock super b ≡ 5
map_block b h = omega arith

pub disk-IsSane : IsSane super disk
unfolding is_clear
disk-IsSane = record {
  bytes = λ b x. ground arith;
  boot = refl;
  within = λ b h. omega arith;
  map_used = λ b h. rw (map_block b h);
}

eight-IsUsed : IsUsed super disk 8
unfolding is_clear
eight-IsUsed = record {
  nonzero = omega arith;
  within = omega arith;
  used = refl;
  off_map = λ b h. omega arith;
}

pub three-IsUsed : IsUsed super disk 3
unfolding is_clear
three-IsUsed = record {
  nonzero = omega arith;
  within = omega arith;
  used = refl;
  off_map = λ b h. omega arith;
}

module _ (type size : ℕ) where
  owned-sample : (i : ℕ) → owned disk (sample type size) i ≡ (if i == 0 then 8 else 0)
  owned-sample i = ground arith

  pub sample-IsFile : IsFile super disk (sample type size)
  sample-IsFile = record {
    inside = λ i h ne. elim (owned_cases i) [ inl e ↦ rw e eight-IsUsed | inr z ↦ absurd (ne z.1) ];
    distinct = λ i j h l ne e. ground (arith, owned-sample i, owned-sample j);
  }
    where
      owned_cases :
          (i : ℕ)
          → (owned disk (sample type size) i ≡ 8)
            ⊎ ((i ≢ 0) × (owned disk (sample type size) i ≡ 0))
      owned_cases i = ground arith

  pub sample-IsStored : size ≤ 512 → IsStored super disk (sample type size)
  sample-IsStored h = record {
    small = omega arith;
    sane = disk-IsSane;
    file = sample-IsFile;
    placed = record { used = three-IsUsed; apart = λ i h. ground arith };
    fits = omega arith;
    whole = λ i l. ground arith;
  }

pub file-IsFile : IsFile super disk file
file-IsFile = sample-IsFile 2 100

pub file-IsStored : IsStored super disk file
file-IsStored = sample-IsStored 2 100 (omega arith)

abbrev pub no_devices : ℕ → Option Device
no_devices d = none

abbrev pub fives : Buffer
fives x = 5
