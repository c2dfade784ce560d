-- ===== src/Log/Transaction.antt =====
-- xv6/log.c: `begin_op`, `end_op` and `log_write`, which collect the blocks of a transaction.
pub mod Write
pub mod Series
pub mod Steps
pub mod Reserve
pub mod Ready
use os_lab_course_project.Prelude.{
  ℕ, zero, suc, ◌+◌, ◌-◌, ◌*◌, ◌^◌, ◌%◌, Bool, true, false, ◌||◌, ltb, leb, ◌==◌, if◌then◌else◌,
  update, Option, none, some, Result, ok, panic, add32, sub32, mul32, slt32,
}
use os_lab_course_project.Log.Commit.{Log}

-- xv6/param.h
abbrev pub maxopblocks : ℕ
maxopblocks = 10

abbrev pub logsize : ℕ
logsize = 30

-- One round of the loop of `begin_op`, with `log.lock` held: `none` is the `sleep` on the log, after
-- which the round is made again.
unfoldable pub begin_op : Log → Option Log
begin_op l =
    if l.committing
    then none
    else if slt32 logsize (add32 l.n (mul32 (add32 l.outstanding 1) maxopblocks))
    then none
    else some (record l { outstanding = add32 l.outstanding 1 })

-- `end_op` up to the `release`; the Boolean is `do_commit`.
pub end_op : Log → Result (Log × Bool)
end_op l =
    let l' = record l { outstanding = sub32 l.outstanding 1 } in
    if l.committing
    then panic "log.committing"
    else if l'.outstanding == 0
    then ok (record l' { committing = true }, true)
    else ok (l', false)

-- The end of `end_op`, after `commit`.
unfoldable pub end_commit : Log → Log
end_commit l = record l { committing = false }

-- The loop of `log_write`: the first `i` with `block[i] == b`, or `i + r`.
pub absorb : (ℕ → ℕ) → ℕ → ℕ → ℕ → ℕ
absorb block b zero i = i
absorb block b (suc r) i = let rest = absorb block b r (i + 1) in if block i == b then i else rest

-- `b` is the number of the buffer's block. `log.size - 1` is -1 at size 0, and the test holds there
-- as here.
unfoldable pub log_write : Log → ℕ → Result Log
unfolding absorb
log_write l b =
    if leb logsize l.n || leb (l.size - 1) l.n
    then panic "too big a transaction"
    else if slt32 l.outstanding 1
    then panic "log_write outside of trans"
    else (let i = absorb l.block b l.n 0 in
        ok (record l { block = update l.block i b; n = if i == l.n then l.n + 1 else l.n }))
