-- ===== src/Descriptor/System.antt =====
-- All processes: the count of each file is the number of descriptors for it.
use Prim.Native.String.{String}
use os_lab_course_project.Prelude.{ℕ, ◌-◌, ◌<◌, ◌≡◌, false, none, Result, ok}
use os_lab_course_project.Ptable.{nproc}
use os_lab_course_project.Descriptor.{nofile}
use os_lab_course_project.Descriptor.Steps.{Files}
use os_lab_course_project.Descriptor.Count.{count, pointers}
use os_lab_course_project.Descriptor.Held.{Held}

record IsRight (s : Files) : Type 0 where
  held : Held s.table (λ f. pointers f s.rows)
  idle : (c : ℕ) → s.live c ≡ false → (x : ℕ) → x < nofile → s.rows c x ≡ none

module _ (s : Files) (v : IsRight s) (p : ℕ) (slot : p < nproc) where
  -- The pointers of the other processes.
  abbrev others : ℕ → ℕ
  others f = pointers f s.rows - count f (s.rows p) nofile

abbrev pub Returns {ℓ} : {A : Type ℓ} → Result A → Type ℓ
Returns {A} r = (a : A) × (r ≡ ok a)
