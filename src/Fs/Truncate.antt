-- ===== src/Fs/Truncate.antt =====
-- `itrunc` of xv6/fs.c.
pub mod Freed
pub mod Loops
pub mod Whole
use os_lab_course_project.Prelude.{
  ℕ, zero, suc, ◌+◌, ◌*◌, ◌==◌, if◌then◌else◌, Result, ok, panic, ◌>>=◌, update,
}
use os_lab_course_project.Fs.Blocks.{Block, Fs, get32}
use os_lab_course_project.Fs.Bitmap.{Super, bfree}
use os_lab_course_project.Fs.Inode.{Inode, ndirect, nindirect}
use os_lab_course_project.Fs.Dinode.{iupdate}

-- The first loop from `i`, with `r` rounds left.
unfoldable pub free_direct : Super → ℕ → ℕ → Inode → Fs → Result (Inode × Fs)
free_direct sb zero i ip s = ok (ip, s)
free_direct sb (suc r) i ip s =
    if ip.addrs i == 0
    then free_direct sb r (i + 1) ip s
    else (bfree sb (ip.addrs i) s >>= λ s'.
        free_direct sb r (i + 1) (record ip { addrs = update ip.addrs i 0 }) s')

-- The second loop, over the entries of the indirect block, which is in `a`.
unfoldable pub free_entries : Super → Block → ℕ → ℕ → Fs → Result Fs
free_entries sb a zero j s = ok s
free_entries sb a (suc r) j s =
    if get32 a (4 * j) == 0
    then free_entries sb a r (j + 1) s
    else (bfree sb (get32 a (4 * j)) s >>= λ s'. free_entries sb a r (j + 1) s')

unfoldable pub free_indirect : Super → Inode → Fs → Result (Inode × Fs)
free_indirect sb ip s =
    if ip.addrs ndirect == 0
    then ok (ip, s)
    else (free_entries sb (s.blocks (ip.addrs ndirect)) nindirect 0 s >>= λ s'.
        bfree sb (ip.addrs ndirect) s' >>= λ s''.
        ok (record ip { addrs = update ip.addrs ndirect 0 }, s''))

unfoldable pub itrunc : Super → Inode → Fs → Result (Inode × Fs)
itrunc sb ip s = free_direct sb ndirect 0 ip s >>= λ (ip1, s1).
    free_indirect sb ip1 s1 >>= λ (ip2, s2).
    let ip3 = record ip2 { size = 0 } in ok (ip3, iupdate sb ip3 s2)
