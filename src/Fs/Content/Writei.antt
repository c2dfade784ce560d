-- ===== src/Fs/Content/Writei.antt =====
-- `writei`: the bytes of the file, its size, and the rest of the disk.
use Prim.Native.Nat.{}
use os_lab_course_project.Prelude.{
  ℕ, ◌+◌, ◌-◌, ◌*◌, ◌^◌, ◌≤◌, ◌<◌, ◌≡◌, ◌≢◌, ◌⊎◌, ◌∙◌, ◌==◌, ==_ne, ◌||◌, false, ltb, if◌then◌else◌,
  arith, inl, inr, Option, none, some, ok, panic, ◌>>=◌, add32, length,
}
use mathlib.Core.Path.{}
use native.Mathlib.Decide.{}
use os_lab_course_project.Fs.Blocks.{Fs, bsize}
use os_lab_course_project.Fs.Bitmap.{Super}
use os_lab_course_project.Fs.Bitmap.Scan.{}
use os_lab_course_project.Fs.Inode.{Inode, maxfile}
use os_lab_course_project.Fs.Inode.Owned.{}
use os_lab_course_project.Fs.Dinode.{iblock, place, put_dinode}
use os_lab_course_project.Fs.Dinode.Layout.{}
use os_lab_course_project.Fs.Content.{Buffer, Device, t_dev, write_from, grow_size, writei}
use os_lab_course_project.Fs.Content.Update.{}
use os_lab_course_project.Fs.Content.Data.{}
use os_lab_course_project.Fs.Content.Stored.{IsStored, Wrote}
use os_lab_course_project.Fs.Content.Round.{}
use os_lab_course_project.Fs.Content.Calls.{calls_for, write_from-Calls, grow_size-Calls}
use os_lab_course_project.Log.Commit.{Log}
use os_lab_course_project.Log.Transaction.{logsize}
use os_lab_course_project.Log.Transaction.Series.{log_writes, log_writes_room}
use os_lab_course_project.Fs.Content.Grown.{grow_size-Wrote, grow_size-inode}
use os_lab_course_project.Fs.Content.Write.{Lacks, write_from-PutResult}

-- A transaction with room for `k` more blocks takes the calls recorded in `s`.
pub record Takes (k : ℕ) (s : Fs) : Type 0 where
  pub calls : length s.logged ≤ k
  pub taken :
      (l : Log)
      → 0 < l.outstanding
      → l.outstanding < 2 ^ 31
      → l.n + k ≤ logsize
      → l.n + k < l.size
      → (l' : Log) × (log_writes l s.logged ≡ ok l')

Calls-Takes : (k : ℕ) (s : Fs) → length s.logged ≤ k → Takes k s
Calls-Takes k s few = record {
  calls = few;
  taken = λ l inside word low room.
      let (l', run, _, _, _) = log_writes_room l s.logged inside word (omega arith) (omega arith) in
      (l', run);
}

module _ (devsw : ℕ → Option Device) (sb : Super) (ip : Inode) (src : Buffer) (off n : ℕ) (s : Fs)
    (regular : ip.type ≢ t_dev) where
  writei-run :
      off ≤ ip.size
      → off + n ≤ maxfile * bsize
      → writei devsw sb ip src off n s ≡ (
          write_from sb n 0 off n src ip s >>= λ (off', ip', s').
          let (ip'', s'') = grow_size sb off' n ip' s' in ok (some n, ip'', s''))
  unfolding writei
  writei-run low high =
      let a : (ip.type == t_dev) ≡ false = ==_ne ip.type t_dev regular in
      let b : (ltb ip.size off || ltb (add32 off n) off) ≡ false = ground arith in
      let c : ltb (maxfile * bsize) (add32 off n) ≡ false = ground arith in rw (a, b, c)

  -- Of a file that is no device, `writei` refuses a write that starts past the end, wraps, or ends
  -- past the largest size, and changes nothing.
  pub writei-refused :
      (ip.size < off) ⊎ (maxfile * bsize < off + n)
      → off < 2 ^ 32
      → n < 2 ^ 32
      → writei devsw sb ip src off n s ≡ ok (none, ip, s)
  unfolding writei
  writei-refused h k l = ground arith

  pub writei_lem :
      IsStored sb s ip
      → ((x : ℕ) → src x < 256)
      → off ≤ ip.size
      → off + n ≤ maxfile * bsize
      → ((ip' : Inode) × (s' : Fs) × (writei devsw sb ip src off n s ≡ ok (some n, ip', s'))
          × Wrote sb s ip off n src s' ip'
          × (s'.blocks (iblock sb ip.inum) ≡ (
              if ltb ip.size (off + n)
              then put_dinode ip' (place ip.inum) (s.blocks (iblock sb ip.inum))
              else s.blocks (iblock sb ip.inum)))
          × Takes (calls_for off n + 1 + length s.logged) s')
        ⊎ ((writei devsw sb ip src off n s ≡ panic "balloc: out of blocks") × Lacks s ip off n)
  writei_lem t bytes low high =
      let none_left : n - 0 ≡ n = omega arith in
      elim (rw none_left at (
        write_from-PutResult sb t.small n src bytes n 0 off ip s t.sane t.file (omega arith)
          (omega arith) (omega arith))) [
            | inr (e, lacks) ↦ inr (writei-run low high ∙ rw e, lacks)
            | inl (ip1, s1, e, q) ↦
                let (ip2, s2) = grow_size sb (off + n) n ip1 s1 in
                let few = write_from-Calls sb n 0 off n src ip s (omega arith) e in
                let once = grow_size-Calls sb (off + n) n ip1 s1 in
                inl (
                  ip2,
                  s2,
                  writei-run low high ∙ rw e,
                  grow_size-Wrote t q low high,
                  grow_size-inode t q low high,
                  Calls-Takes (calls_for off n + 1 + length s.logged) s2
                      (omega (arith, rw none_left at few, once)),
                )
          ]

  -- The same for a caller that asks for the file alone.
  pub writei-Wrote :
      IsStored sb s ip
      → ((x : ℕ) → src x < 256)
      → off ≤ ip.size
      → off + n ≤ maxfile * bsize
      → ((ip' : Inode) × (s' : Fs) × (writei devsw sb ip src off n s ≡ ok (some n, ip', s'))
          × Wrote sb s ip off n src s' ip')
        ⊎ ((writei devsw sb ip src off n s ≡ panic "balloc: out of blocks") × Lacks s ip off n)
  writei-Wrote t bytes low high = elim (writei_lem t bytes low high) [
    | inl (ip', s', e, w, _, _) ↦ inl (ip', s', e, w)
    | inr p ↦ inr p
  ]
