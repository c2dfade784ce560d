-- ===== src/File/Inode/Chunks.antt =====
-- `filewrite` writes in chunks of 1536 bytes at most; together they are one write.
use os_lab_course_project.Prelude.{
  ℕ, zero, suc, ◌+◌, ◌-◌, ◌*◌, ◌^◌, ◌≤◌, ◌<◌, ◌≡◌, ◌≢◌, ◌⊎◌, ◌∙◌, inl, inr, refl, sym, ap, true,
  false, ◌==◌, ltb, if◌then◌else◌, Option, some, ok, panic, add32, sub32, slt32, arith,
}
use Prim.Native.String.{String}
use mathlib.Core.Path.{subst, fun_ext}
use native.Mathlib.Decide.{dec_lt, ℕ_discrete}
use os_lab_course_project.Fs.Blocks.{Fs, bsize}
use os_lab_course_project.Fs.Bitmap.{Super}
use os_lab_course_project.Fs.Inode.{Inode, maxfile}
use os_lab_course_project.Fs.Inode.Owned.{owned}
use os_lab_course_project.Fs.Content.{Buffer, Device, t_dev, writei}
use os_lab_course_project.Fs.Content.Write.{Lacks}
use os_lab_course_project.Fs.Content.Stored.{IsStored, Wrote, Wrote-none, Wrote-trans}
use os_lab_course_project.Fs.Content.Writei.{writei-Wrote}
use os_lab_course_project.File.Inode.{Open, max_chunk, write_chunks, filewrite}

-- The size of the chunk when `left` bytes are left.
abbrev chunk : ℕ → ℕ
chunk left = if ltb max_chunk left then max_chunk else left

module _ (devsw : ℕ → Option Device) (sb : Super) (addr : Buffer) (n : ℕ) (word : n < 2 ^ 31) where
  write_chunks-all : (fuel : ℕ) (f : Open) → write_chunks devsw sb addr n (suc fuel) n f ≡ ok (n, f)
  unfolding write_chunks
  write_chunks-all fuel f = let e : slt32 n n ≡ false = ground arith in rw (e, write_chunks) refl

  module _ (fuel i left : ℕ) (f : Open) (e : n ≡ i + left) (more : i < n) where
    sizes :
        (slt32 i n ≡ true)
        × ((if slt32 max_chunk (sub32 n i) then max_chunk else sub32 n i) ≡ chunk left)
    sizes = (ground arith, ground arith)

    write_chunks-panic :
        (m : String)
        → writei devsw sb f.ip (λ x. addr (i + x)) f.off (chunk left) f.fs ≡ panic m
        → write_chunks devsw sb addr n (suc fuel) i f ≡ panic m
    unfolding write_chunks
    write_chunks-panic m r = let (a, b) = sizes in rw (a, write_chunks, b, r)

    write_chunks-more :
        (ip : Inode) (fs : Fs)
        → f.off < 2 ^ 31
        → writei devsw sb f.ip (λ x. addr (i + x)) f.off (chunk left) f.fs
          ≡ ok (some (chunk left), ip, fs)
        → write_chunks devsw sb addr n (suc fuel) i f
          ≡ write_chunks devsw sb addr n fuel
              (i + chunk left)
              (record { off = f.off + chunk left; ip = ip; fs = fs })
    unfolding write_chunks
    write_chunks-more ip fs low r =
        let (a, b) = sizes in
        let c = chunk left in
        let e1 : slt32 c 0 ≡ false = ground arith in
        let e2 : (c == c) ≡ true = ground arith in
        let e3 : add32 i c ≡ i + c = ground arith in
        let e4 : slt32 0 c ≡ true = ground arith in
        let e5 : add32 f.off c ≡ f.off + c = ground arith in
        rw (a, write_chunks, b, r, e1, b, e2, e3, e4, e5)

  -- From byte `i` on, `left` bytes to write.
  Rest : ℕ → ℕ → ℕ → Open → Type 0
  Rest fuel i left f =
      ((f' : Open) × (write_chunks devsw sb addr n fuel i f ≡ ok (n, f'))
        × (f'.off ≡ f.off + left)
        × Wrote sb f.fs f.ip f.off left (λ x. addr (i + x)) f'.fs f'.ip)
      ⊎ ((write_chunks devsw sb addr n fuel i f ≡ panic "balloc: out of blocks")
          × Lacks f.fs f.ip f.off left)

  -- A second part of the write that lacks a block lacks it at the start.
  Lacks-later :
      {s s1 : Fs} {ip ip1 : Inode} (off m k : ℕ) {src : Buffer}
      → off + (m + k) ≤ maxfile * bsize
      → Wrote sb s ip off m src s1 ip1
      → Lacks s1 ip1 (off + m) k
      → Lacks s ip off (m + k)
  Lacks-later {s} {s1} {ip} {ip1} off m k fits w (i, o, z) = (
    i,
    omega (arith, o),
    elim (ℕ_discrete (owned s ip i) 0) [
      | yes e ↦ e
      | no ne ↦ absurd (ne (sym (w.old i (omega (arith, o)) ne) ∙ z))
    ],
  )

  -- The rest after a chunk of `c` bytes, and the chunk.
  Rest-more :
      (fuel i c k : ℕ) (f : Open) (ip : Inode) (fs : Fs)
      → f.off + (c + k) ≤ maxfile * bsize
      → write_chunks devsw sb addr n (suc fuel) i f
        ≡ write_chunks devsw sb addr n fuel (i + c) (record { off = f.off + c; ip = ip; fs = fs })
      → Wrote sb f.fs f.ip f.off c (λ x. addr (i + x)) fs ip
      → Rest fuel (i + c) k (record { off = f.off + c; ip = ip; fs = fs })
      → Rest (suc fuel) i (c + k) f
  unfolding Rest
  Rest-more fuel i c k f ip fs fits run w (inr (full, lacks)) =
      inr (run ∙ full, Lacks-later f.off c k fits w lacks)
  Rest-more fuel i c k f ip fs fits run w (inl (f', done, off, w')) =
      let src : ◌≡◌ {A = Buffer} (λ x. addr (i + c + x)) (λ x. addr (i + (c + x))) =
        fun_ext (λ x. ap addr (omega arith)) in
      inl (
        f',
        run ∙ done,
        omega (arith, off),
        Wrote-trans w (subst (λ (b : Buffer). Wrote sb fs ip (f.off + c) k b f'.fs f'.ip) src w'),
      )

  Lacks-chunk :
      (s : Fs) (ip : Inode) (off c left : ℕ) → c ≤ left → Lacks s ip off c → Lacks s ip off left
  Lacks-chunk s ip off c left h (i, o, z) = (i, omega (arith, o), z)

  chunks_lem :
      ((x : ℕ) → addr x < 256)
      → (fuel i left : ℕ) (f : Open) → n ≡ i + left
      → left < fuel
      → IsStored sb f.fs f.ip
      → f.ip.type ≢ t_dev
      → f.off ≤ f.ip.size
      → f.off + left ≤ maxfile * bsize
      → Rest fuel i left f
  unfolding Rest
  chunks_lem bytes zero i left f e l t regular low high = absurd (omega arith)
  chunks_lem bytes (suc fuel) i left f e l t regular low high = elim (dec_lt i n) [
    | no done ↦
        let none_left : left ≡ 0 = omega arith in
        let same : write_chunks devsw sb addr n (suc fuel) i f ≡ ok (n, f) =
          subst (λ (j : ℕ). write_chunks devsw sb addr n (suc fuel) j f ≡ ok (n, f)) (omega arith)
            (write_chunks-all fuel f) in
        inl (f, same, omega arith, rw none_left (Wrote-none f.off (λ x. addr (i + x)) t low))
    | yes more ↦
        let c = chunk left in
        elim (writei-Wrote devsw sb f.ip (λ x. addr (i + x)) f.off c f.fs regular t
          (λ x. bytes (i + x)) low (ground arith)) [
            | inr (p, lacks) ↦ inr (
              write_chunks-panic fuel i left f e more _ p,
              Lacks-chunk f.fs f.ip f.off c left (ground arith) lacks,
            )
            | inl (ip, fs, r, w) ↦
                let parts : c + (left - c) ≡ left = ground arith in
                let run = write_chunks-more fuel i left f e more ip fs (omega arith) r in
                subst (λ (l : ℕ). Rest (suc fuel) i l f) parts
                  (Rest-more fuel i c (left - c) f ip fs (omega (arith, parts)) run w (
                    chunks_lem bytes fuel (i + c) (left - c)
                      (record { off = f.off + c; ip = ip; fs = fs }) (omega (arith, parts))
                      (ground arith) w.stored (λ z. regular (sym w.type ∙ z))
                      (ground (arith, w.size)) (omega (arith, parts))))
          ]
  ]

-- `filewrite` of `n` bytes through a file at an offset up to the size of its inode, which is stored, is no
-- device, and has room for them below the largest size: it returns `n`, the offset is after the write, and
-- the chunks together have made one write of `n` bytes of the inode. If it panics instead, with the
-- message of `balloc` and not with "short filewrite", the inode lacked a block in the range.
pub filewrite_lem :
    (devsw : ℕ → Option Device) (sb : Super) (addr : Buffer) (n : ℕ) (f : Open)
    → IsStored sb f.fs f.ip
    → f.ip.type ≢ t_dev
    → ((x : ℕ) → addr x < 256)
    → f.off ≤ f.ip.size
    → f.off + n ≤ maxfile * bsize
    → ((f' : Open) × (filewrite devsw sb addr n f ≡ ok (some n, f'))
        × (f'.off ≡ f.off + n)
        × Wrote sb f.fs f.ip f.off n addr f'.fs f'.ip)
      ⊎ ((filewrite devsw sb addr n f ≡ panic "balloc: out of blocks") × Lacks f.fs f.ip f.off n)
unfolding filewrite Rest
filewrite_lem devsw sb addr n f t regular bytes low high =
    elim (chunks_lem devsw sb addr n (omega arith) bytes (n + 1) 0 n f (omega arith) (omega arith) t
      regular low high) [
        | inr (full, lacks) ↦ inr (rw full, lacks)
        | inl (f', done, off, w) ↦
            let all : (n == n) ≡ true = ground arith in
            let src : ◌≡◌ {A = Buffer} (λ x. addr (0 + x)) addr =
              fun_ext (λ x. ap addr (omega arith)) in
            inl (
              f',
              rw (done, all),
              off,
              subst (λ (b : Buffer). Wrote sb f.fs f.ip f.off n b f'.fs f'.ip) src w,
            )
      ]
