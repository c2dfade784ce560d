-- ===== src/Fs/Truncate/Loops.antt =====
-- The loops of `itrunc`.
use os_lab_course_project.Prelude.{
  ℕ, zero, suc, ◌+◌, ◌-◌, ◌*◌, ◌≤◌, ◌<◌, ◌≡◌, ◌≢◌, ◌∙◌, refl, inl, sym, ap, true, false, ◌==◌,
  ==_ne, ok, update, arith,
}
use mathlib.Core.Path.{subst}
use native.Mathlib.Decide.{ℕ_discrete}
use os_lab_course_project.Fs.Blocks.{Block, Fs, get32}
use os_lab_course_project.Fs.Bitmap.{Super, bfree}
use os_lab_course_project.Fs.Bitmap.Scan.{IsSane}
use os_lab_course_project.Fs.Inode.{Inode, ndirect, nindirect, maxfile}
use os_lab_course_project.Fs.Inode.Owned.{owned, IsFile}
use os_lab_course_project.Fs.Dinode.{}
use os_lab_course_project.Fs.Truncate.{free_direct, free_entries, free_indirect}
use os_lab_course_project.Fs.Truncate.Freed.{Freed, Freed-skip, Freed-next}

pub Freed-none : (sb : Super) (s : Fs) (ip : Inode) → IsSane sb s → Freed sb s ip 0 s
Freed-none sb s ip v = record {
  bits = λ b h. refl;
  data_kept = λ x h. refl;
  sane = v;
  calls = λ x m. inl m;
}

free_indirect-run :
    (sb : Super) (iq : Inode) (t t1 t2 : Fs) (a : ℕ) (b : Block)
    → iq.addrs ndirect ≡ a
    → a ≢ 0
    → t.blocks a ≡ b
    → free_entries sb b nindirect 0 t ≡ ok t1
    → bfree sb a t1 ≡ ok t2
    → free_indirect sb iq t ≡ ok (record iq { addrs = update iq.addrs ndirect 0 }, t2)
unfolding free_indirect
free_indirect-run sb iq t t1 t2 a b top ne kept run1 run2 =
    let test : (a == 0) ≡ false = ==_ne a 0 ne in rw (top, test, kept, run1, run2)

module _ {sb : Super} {s : Fs} {ip : Inode} (f : IsFile sb s ip) where
  -- The inode in memory when the blocks below `i` are freed.
  pub record Cleared (i : ℕ) (iq : Inode) : Type 0 where
    pub zeros : (j : ℕ) → j < i → iq.addrs j ≡ 0
    pub others : (j : ℕ) → i ≤ j → iq.addrs j ≡ ip.addrs j
    pub inum : iq.inum ≡ ip.inum

  Freed-at : {k m : ℕ} (t : Fs) → k ≡ m → Freed sb s ip k t → Freed sb s ip m t
  Freed-at t e d = subst (λ k. Freed sb s ip k t) e d

  owned-direct : (i : ℕ) → i < ndirect → owned s ip i ≡ ip.addrs i
  owned-direct i h = ground arith

  pub free_direct_lem :
      (r i : ℕ) (iq : Inode) (t : Fs)
      → i + r ≡ ndirect
      → Cleared i iq
      → Freed sb s ip i t
      → (ir : Inode) × (u : Fs) × (free_direct sb r i iq t ≡ ok (ir, u))
        × Cleared ndirect ir
        × Freed sb s ip ndirect u
  unfolding free_direct
  free_direct_lem zero i iq t e c d =
      let here : i ≡ ndirect = omega arith in
      (iq, t, refl, subst (λ k. Cleared k iq) here c, subst (λ k. Freed sb s ip k t) here d)
  free_direct_lem (suc r) i iq t e c d =
      let own : owned s ip i ≡ iq.addrs i =
        owned-direct i (omega arith) ∙ sym (c.others i (omega arith)) in
      elim (ℕ_discrete (iq.addrs i) 0) [
        | yes z ↦
            let (ir, u, run, c', d') =
              free_direct_lem r (i + 1) iq t (omega arith)
                (record {
                  zeros = λ j h. ground (arith, c.zeros j, z, ap iq.addrs {x = i} {y = j});
                  others = λ j h. c.others j (omega arith);
                  inum = c.inum;
                })
                (Freed-at t (omega arith) (Freed-skip f d (omega arith) (own ∙ z))) in
            let test : (iq.addrs i == 0) ≡ true = ground (arith, z) in
            (ir, u, rw (test, free_direct) run, c', d')
        | no ne ↦
            let (t', r1, d1) = Freed-next f d (omega arith) (λ z. ne (sym own ∙ z)) in
            let iq' : Inode = record iq { addrs = update iq.addrs i 0 } in
            let (ir, u, run, c', d') =
              free_direct_lem r (i + 1) iq' t' (omega arith)
                (record {
                  zeros = λ j h. ground (arith, c.zeros j);
                  others = λ j h. ground (arith, c.others j);
                  inum = c.inum;
                })
                (Freed-at t' (omega arith) d1) in
            let test : (iq.addrs i == 0) ≡ false = ==_ne (iq.addrs i) 0 ne in
            let frees : bfree sb (iq.addrs i) t ≡ ok t' =
              subst (λ a. bfree sb a t ≡ ok t') own r1 in
            (ir, u, rw (test, free_direct, frees) run, c', d')
      ]

  module _ (ne : ip.addrs ndirect ≢ 0) where
    owned-entry :
        (j : ℕ)
        → j < nindirect
        → owned s ip (ndirect + j) ≡ get32 (s.blocks (ip.addrs ndirect)) (4 * j)
    owned-entry j h =
        let test : (ip.addrs ndirect == 0) ≡ false = ==_ne (ip.addrs ndirect) 0 ne in
        ground (
          arith,
          test,
          ap (λ k. get32 (s.blocks (ip.addrs ndirect)) (4 * k)) {x = ndirect + j - ndirect} {y = j},
        )

    free_entries_lem :
        (r j : ℕ) (t : Fs)
        → j + r ≡ nindirect
        → Freed sb s ip (ndirect + j) t
        → (u : Fs) × (free_entries sb (s.blocks (ip.addrs ndirect)) r j t ≡ ok u)
          × Freed sb s ip maxfile u
    unfolding free_entries
    free_entries_lem zero j t e d =
        let here : ndirect + j ≡ maxfile = omega arith in
        (t, refl, subst (λ k. Freed sb s ip k t) here d)
    free_entries_lem (suc r) j t e d =
        let a = get32 (s.blocks (ip.addrs ndirect)) (4 * j) in
        let own : owned s ip (ndirect + j) ≡ a = owned-entry j (omega arith) in
        elim (ℕ_discrete a 0) [
          | yes z ↦
              let (u, run, d') =
                free_entries_lem r (j + 1) t (omega arith)
                  (Freed-at t (omega arith) (Freed-skip f d (omega arith) (own ∙ z))) in
              let test : (a == 0) ≡ true = ground (arith, z) in (u, rw (test, free_entries) run, d')
          | no nz ↦
              let (t', r1, d1) = Freed-next f d (omega arith) (λ z. nz (sym own ∙ z)) in
              let (u, run, d') =
                free_entries_lem r (j + 1) t' (omega arith) (Freed-at t' (omega arith) d1) in
              let test : (a == 0) ≡ false = ==_ne a 0 nz in
              let frees : bfree sb a t ≡ ok t' = subst (λ b. bfree sb b t ≡ ok t') own r1 in
              (u, rw (test, free_entries, frees) run, d')
        ]

  -- The indices from `ndirect` on own no block if there is no indirect block.
  Freed-rest :
      ip.addrs ndirect ≡ 0
      → (r k : ℕ) (t : Fs) → k + r ≡ suc maxfile
      → ndirect ≤ k
      → Freed sb s ip k t
      → Freed sb s ip (suc maxfile) t
  Freed-rest z zero k t e l d = Freed-at t (omega arith) d
  Freed-rest z (suc r) k t e l d =
      let none_there : owned s ip k ≡ 0 = ground (arith, z) in
      Freed-rest z r (suc k) t (omega arith) (omega arith) (Freed-skip f d (omega arith) none_there)

  pub free_indirect_lem :
      (iq : Inode) (t : Fs)
      → Cleared ndirect iq
      → Freed sb s ip ndirect t
      → (ir : Inode) × (u : Fs) × (free_indirect sb iq t ≡ ok (ir, u))
        × Cleared (suc ndirect) ir
        × Freed sb s ip (suc maxfile) u
  unfolding free_indirect
  free_indirect_lem iq t c d =
      let top : iq.addrs ndirect ≡ ip.addrs ndirect = c.others ndirect (omega arith) in
      elim (ℕ_discrete (ip.addrs ndirect) 0) [
        | yes z ↦
            let test : (iq.addrs ndirect == 0) ≡ true = ground (arith, z, top) in
            (
              iq,
              t,
              rw test refl,
              record {
                zeros = λ j h. ground (arith, c.zeros j, z, top, ap iq.addrs {x = j} {y = ndirect});
                others = λ j h. c.others j (omega arith);
                inum = c.inum;
              },
              Freed-rest z 129 ndirect t (omega arith) (omega arith) d,
            )
        | no nz ↦
            let ind_used = f.inside maxfile (omega arith) nz in
            let kept : t.blocks (ip.addrs ndirect) ≡ s.blocks (ip.addrs ndirect) =
              d.data_kept (ip.addrs ndirect) ind_used.off_map in
            let (t1, run1, d1) =
              free_entries_lem nz nindirect 0 t (omega arith) (Freed-at t (omega arith) d) in
            let (t2, run2, d2) = Freed-next f d1 (omega arith) nz in
            let iq' : Inode = record iq { addrs = update iq.addrs ndirect 0 } in
            (
              iq',
              t2,
              free_indirect-run sb iq t t1 t2 (ip.addrs ndirect) (s.blocks (ip.addrs ndirect)) top
                  nz kept run1 run2,
              record {
                zeros = λ j h. ground (arith, c.zeros j);
                others = λ j h. ground (arith, c.others j);
                inum = c.inum;
              },
              d2,
            )
      ]
