-- ===== src/Fs/Content/Write.antt =====
-- The loop of `writei`.
use Prim.Native.Nat.{}
use os_lab_course_project.Prelude.{
  ℕ, zero, suc, ◌+◌, ◌-◌, ◌*◌, ◌/◌, ◌%◌, ◌^◌, ◌≤◌, ◌<◌, ◌≡◌, ◌≢◌, ◌⊎◌, ◌∙◌, refl, sym, ap, ◌&&◌,
  true, false, ltb, leb, if◌then◌else◌, arith, Bool-cases, inl, inr, Result, ok, panic, add32,
}
use native.Mathlib.Decide.{ℕ_discrete}
use os_lab_course_project.Fs.Blocks.{Fs, bsize, log_data}
use os_lab_course_project.Fs.Bitmap.{Super}
use os_lab_course_project.Fs.Bitmap.Scan.{IsSane}
use os_lab_course_project.Fs.Inode.{Inode, maxfile, bmap}
use os_lab_course_project.Fs.Inode.Owned.{owned, IsFile}
use os_lab_course_project.Fs.Inode.Slot.{Mapped}
use os_lab_course_project.Fs.Inode.Map.{bmap_lem}
use os_lab_course_project.Fs.Content.{Buffer, blit, piece, write_from}
use os_lab_course_project.Fs.Content.Update.{content, Kept, Kept-refl, Kept-trans}
use os_lab_course_project.Fs.Content.Round.{overlay, after, round-Kept, round_mapped, content-round}

-- Index `i` of the file overlaps the `len` bytes from `off` on.
abbrev pub Overlaps : ℕ → ℕ → ℕ → Type 0
Overlaps off len i = (i * bsize < off + len) × (off < (i + 1) * bsize) × (0 < len)

-- `len` bytes of the buffer, from `tot` on, are in the file from `off` on, and nothing else changed.
pub record Put (sb : Super) (s : Fs) (ip : Inode) (off len tot : ℕ) (src : Buffer) (s' : Fs)
    (ip' : Inode) : Type 0 where
  pub kept : Kept sb s ip s' ip'
  pub bytes :
      (p : ℕ) → p < maxfile * bsize → content s' ip' p ≡ overlay (content s ip) off src tot len p
  pub mapped : (i : ℕ) → Overlaps off len i → owned s' ip' i ≢ 0

-- A loop that panics needed a block that the file did not have.
abbrev pub Lacks : Fs → Inode → ℕ → ℕ → Type 0
Lacks s ip off len = (i : ℕ) × Overlaps off len i × (owned s ip i ≡ 0)

abbrev pub PutResult : Super → Fs → Inode → ℕ → ℕ → ℕ → Buffer → Result (ℕ × Inode × Fs) → Type 0
PutResult sb s ip off len tot src r =
    ((ip' : Inode) × (s' : Fs) × (r ≡ ok (off + len, ip', s')) × Put sb s ip off len tot src s' ip')
    ⊎ ((r ≡ panic "balloc: out of blocks") × Lacks s ip off len)

Put-none :
    (sb : Super) (s : Fs) (ip : Inode) (off len tot : ℕ) (src : Buffer)
    → IsFile sb s ip
    → IsSane sb s
    → len ≡ 0
    → Put sb s ip off len tot src s ip
Put-none sb s ip off len tot src f v e = record {
  kept = Kept-refl f v;
  bytes = λ p h. ground arith;
  mapped = λ i o. absurd (omega (arith, o));
}

overlay_step :
    (old : ℕ → ℕ) (off len tot : ℕ) (src : Buffer) (k p : ℕ)
    → k ≤ len
    → overlay (overlay old off src tot k) (off + k) src (tot + k) (len - k) p
      ≡ overlay old off src tot len p
overlay_step old off len tot src k p h =
    ground (arith, ap src {x = tot + k + (p - (off + k))} {y = tot + (p - off)})

-- A round and the rounds after it.
module _ {sb : Super} {s s1 : Fs} {ip ip1 : Inode} {a : ℕ} (off len tot : ℕ) (src : Buffer)
    (v : IsSane sb s) (f : IsFile sb s ip) (m : Mapped sb s ip (off / bsize) a s1 ip1)
    (inside : off + len ≤ maxfile * bsize) (pos : 0 < len) (small : (x : ℕ) → src x < 256) where
  abbrev begun : Fs
  begun = after off len tot src v f m (omega arith) small

  Kept-here :
      {s' : Fs} {ip' : Inode} (i : ℕ)
      → Kept sb begun ip1 s' ip'
      → i ≡ off / bsize
      → owned s' ip' i ≢ 0
  Kept-here {s'} {ip'} i q e z =
      let k = off / bsize in
      let ne : owned begun ip1 k ≢ 0 = round_mapped off len tot src v f m (omega arith) small in
      ne (sym (q.old k (omega arith) ne) ∙ sym (ap (owned s' ip') e) ∙ z)

  Put-more :
      {s' : Fs} {ip' : Inode}
      → Put sb begun ip1
          (off + piece len off)
          (len - piece len off)
          (tot + piece len off)
          src
          s'
          ip'
      → Put sb s ip off len tot src s' ip'
  Put-more q = record {
    kept = Kept-trans (round-Kept off len tot src v f m (omega arith) small) q.kept;
    bytes = λ p h.
        let k = piece len off in
        q.bytes p h
        ∙ ap
            (λ (c : ℕ).
              if leb (off + k) p && ltb p (off + k + (len - k))
              then src (tot + k + (p - (off + k)))
              else c)
            (content-round off len tot src v f m (omega arith) small p h)
        ∙ overlay_step (content s ip) off len tot src k p (omega arith);
    mapped = λ i o. elim (ℕ_discrete i (off / bsize)) [
      | yes e ↦ Kept-here i q.kept e
      | no ne ↦ q.mapped i (omega (arith, o))
    ];
  }

  -- What the rounds after it lack, the file lacked before.
  Lacks-more : Lacks begun ip1 (off + piece len off) (len - piece len off) → Lacks s ip off len
  Lacks-more (i, o, z) =
      let k = round-Kept off len tot src v f m (omega arith) small in
      (
        i,
        omega (arith, o),
        elim (ℕ_discrete (owned s ip i) 0) [
          | yes e ↦ e
          | no ne ↦ absurd (ne (sym (k.old i (omega (arith, o)) ne) ∙ z))
        ],
      )

-- The steps of the loop.
module _ (sb : Super) (fuel tot off n : ℕ) (src : Buffer) (ip : Inode) (s : Fs) where
  write_from-stop :
      ltb tot n ≡ false → write_from sb (suc fuel) tot off n src ip s ≡ ok (off, ip, s)
  unfolding write_from
  write_from-stop e = rw (e, write_from)

  write_from-go :
      {a : ℕ} {ip1 : Inode} {s1 : Fs}
      → ltb tot n ≡ true
      → bmap sb ip (off / bsize) s ≡ ok (a, ip1, s1)
      → write_from sb (suc fuel) tot off n src ip s
        ≡ write_from sb fuel
            (tot + piece (n - tot) off)
            (add32 off (piece (n - tot) off))
            n
            src
            ip1
            (log_data a (blit (s1.blocks a) (off % bsize) src tot (piece (n - tot) off)) s1)
  unfolding write_from
  write_from-go e f = rw (e, write_from, f)

  write_from-full :
      ltb tot n ≡ true
      → bmap sb ip (off / bsize) s ≡ panic "balloc: out of blocks"
      → write_from sb (suc fuel) tot off n src ip s ≡ panic "balloc: out of blocks"
  unfolding write_from
  write_from-full e f = rw (e, write_from, f)

write_from-spent :
    (sb : Super) (tot off n : ℕ) (src : Buffer) (ip : Inode) (s : Fs)
    → write_from sb 0 tot off n src ip s ≡ ok (off, ip, s)
unfolding write_from
write_from-spent sb tot off n src ip s = refl

module _ (sb : Super) (blocks : sb.size < 2 ^ 32) (n : ℕ) (src : Buffer)
    (small : (x : ℕ) → src x < 256) where
  pub write_from-PutResult :
      (fuel tot off : ℕ) (ip : Inode) (s : Fs)
      → IsSane sb s
      → IsFile sb s ip
      → tot ≤ n
      → n - tot ≤ fuel
      → off + (n - tot) ≤ maxfile * bsize
      → PutResult sb s ip off (n - tot) tot src (write_from sb fuel tot off n src ip s)
  write_from-PutResult zero tot off ip s v f le enough inside = inl (
    ip,
    s,
    write_from-spent sb tot off n src ip s ∙ ap (λ (o : ℕ). ok (o, ip, s)) (omega arith),
    Put-none sb s ip off (n - tot) tot src f v (omega arith),
  )
  write_from-PutResult (suc fuel) tot off ip s v f le enough inside =
      elim (Bool-cases (ltb tot n)) [
        | inr e ↦ inl (
          ip,
          s,
          write_from-stop sb fuel tot off n src ip s e
              ∙ ap (λ (o : ℕ). ok (o, ip, s)) (ground arith),
          Put-none sb s ip off (n - tot) tot src f v (ground arith),
        )
        | inl e ↦
            let pos : 0 < n - tot = ground arith in
            elim (bmap_lem sb s ip (off / bsize) blocks v f) [
              | inr (past, _) ↦ absurd (omega arith)
              | inl (_, inr (full, z, _)) ↦
                  inr (
                    write_from-full sb fuel tot off n src ip s e full,
                    (off / bsize, omega arith, z),
                  )
              | inl (_, inl (a, ip1, s1, got, m)) ↦
                  let k = piece (n - tot) off in
                  let next = begun off (n - tot) tot src v f m inside pos small in
                  let kept = round-Kept off (n - tot) tot src v f m (omega arith) small in
                  let same : add32 off k ≡ off + k = omega arith in
                  let left : n - (tot + k) ≡ n - tot - k = omega arith in
                  let ih =
                    write_from-PutResult fuel (tot + k) (off + k) ip1 next kept.sane kept.file
                      (omega arith) (omega arith) (omega arith) in
                  let go =
                    write_from-go sb fuel tot off n src ip s e got
                    ∙ ap (λ (o : ℕ). write_from sb fuel (tot + k) o n src ip1 next) same in
                  elim ih [
                    | inr (full, lacks) ↦ inr (
                      go ∙ full,
                      Lacks-more off (n - tot) tot src v f m inside pos small (rw left at lacks),
                    )
                    | inl (ip', s', r, q) ↦ inl (
                      ip',
                      s',
                      go ∙ r ∙ ap (λ (o : ℕ). ok (o, ip', s')) (omega arith),
                      Put-more off (n - tot) tot src v f m inside pos small (rw left at q),
                    )
                  ]
            ]
      ]
