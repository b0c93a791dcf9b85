-- ===== src/Worker/Exec.antt =====
-- What a statement of a program does: each call with the operation that it names.
use altered_ccbench_fork.Common.{ℕ, ◌+◌, List, [], ◌∷◌}
use altered_ccbench_fork.Machine.{
  Config, M, ◌>>=◌, ◌>>◌, store, pfdi, pfdo, fence, Fence, mfence, clflush, u64, ok,
}
use altered_ccbench_fork.Access
use altered_ccbench_fork.Chase
use altered_ccbench_fork.Worker.Program.{
  Call, store_0, store_0_no_pf, store_0_eventually, store_0_eventually_pfd1, load_0_eventually,
  load_0_eventually_no_pf, load_0, load_next, invalidate, cas, cas_no_pf, cas_0_eventually, fai,
  tas, swap, write_word, full_fence, flush_line, next_lines, profile,
}

-- `sum += v`
unfoldable pub add_sum : ℕ → M (Unit {0})
add_sum v l w = ok tt (record l { sum = u64 (l.sum + v) }) w

unfoldable pub fence_all : List Fence → M (Unit {0})
fence_all [] l w = ok tt l w
fence_all (f ∷ fs) l w = (fence f >>= λ u. fence_all fs) l w

-- The call, with `cache_line` and `reps` for its arguments. `load_next` starts from `cl`, the first
-- line.
unfoldable pub exec_at : Config → ℕ → Call → ℕ → M (Unit {0})
exec_at c reps store_0 cl = Access.store_0 c cl reps
exec_at c reps store_0_no_pf cl = Access.store_0_no_pf c cl reps
exec_at c reps store_0_eventually cl = Access.store_0_eventually c cl reps
exec_at c reps store_0_eventually_pfd1 cl = Access.store_0_eventually_pfd1 c cl reps
exec_at c reps load_0_eventually cl = Access.load_0_eventually c cl reps >>= add_sum
exec_at c reps load_0_eventually_no_pf cl = Access.load_0_eventually_no_pf c cl >>= add_sum
exec_at c reps load_0 cl = Access.load_0 c cl reps >>= add_sum
exec_at c reps load_next cl = Chase.load_next c 0 reps >>= add_sum
exec_at c reps invalidate cl = Access.invalidate c cl 0 reps
exec_at c reps cas cl = Access.cas c cl reps >>= add_sum
exec_at c reps cas_no_pf cl = Access.cas_no_pf c cl reps >>= add_sum
exec_at c reps cas_0_eventually cl = Access.cas_0_eventually c cl reps >>= add_sum
exec_at c reps fai cl = Access.fai c cl reps >>= add_sum
exec_at c reps tas cl = Access.tas c cl reps >>= add_sum
exec_at c reps swap cl = Access.swap c cl reps >>= add_sum
exec_at c reps (write_word v) cl = store c cl v
exec_at c reps full_fence cl = fence mfence
exec_at c reps flush_line cl = fence (clflush cl)
exec_at c reps next_lines cl = λ l w. ok tt (record l { cache_line = cl + c.test_stride }) w
exec_at c reps (profile fs) cl = pfdi c 0 >> (fence_all fs >> pfdo c 0 reps)

unfoldable pub exec : Config → ℕ → Call → M (Unit {0})
exec c reps a l w = exec_at c reps a l.cache_line l w
