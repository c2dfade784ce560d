-- ===== src/Log/Commit/Clean.antt =====
-- `initlog` on a disk whose log holds no transaction.
use os_lab_course_project.Prelude.{ℕ, ◌<◌, ◌≡◌, refl, ap, ◌∙◌, arith, false}
use os_lab_course_project.Log.Disk.{Store, bread, bwrite}
use os_lab_course_project.Log.Commit.{
  Log, read_head, install_from, install_trans, write_blocks, write_head, recover_from_log, initlog,
  blank,
}
use os_lab_course_project.Log.Commit.Atomic.{IsReady}

install-none : (l : Log) (s : Store) → l.n ≡ 0 → install_trans l s ≡ s
unfolding install_trans install_from
install-none l s e = rw e

write-none :
    (l : Log) (s : Store)
    → 0 < l.size
    → l.n ≡ 0
    → s.disk l.start 0 ≡ 0
    → ((x : ℕ) → s.view x ≡ s.disk x)
    → IsReady l (write_head l s)
unfolding write_head bwrite write_blocks bread
write-none l s h e z v = record {
  transaction = record {
    fits = record { room = omega arith; home = λ i p. absurd (omega arith) };
    distinct = λ i j p. absurd (omega arith);
  };
  clear = rw e (ground arith);
  coherent = λ x hx _. ground (arith, v x);
}

recover-clean :
    (m : Log) (st : Store)
    → 0 < m.size
    → st.disk m.start 0 ≡ 0
    → ((x : ℕ) → st.view x ≡ st.disk x)
    → IsReady (recover_from_log m st).0 (recover_from_log m st).1
unfolding recover_from_log read_head bread
recover-clean m st h z v =
    let l = read_head m st in
    rw (install-none l st (ap (λ (f : ℕ → ℕ). f 0) (v m.start) ∙ z))
      (write-none (record l { n = 0 }) st h refl z v)

-- The log that `initlog` leaves is empty and ready, and its counters are zero.
pub initlog-clean :
    (start size : ℕ) (st : Store)
    → 0 < size
    → st.disk start 0 ≡ 0
    → ((x : ℕ) → st.view x ≡ st.disk x)
    → let (l, s) = initlog start size st in
      ((l.outstanding ≡ 0) × (l.committing ≡ false) × (l.n ≡ 0) × (l.size ≡ size)) × IsReady l s
unfolding initlog recover_from_log read_head bread
initlog-clean start size st h z v =
    ((refl, refl, refl, refl), recover-clean (blank start size) st h z v)
