-- ===== src/Cpu/Usage.antt =====
-- The usage of the CPU from the time that passed between two samples.
use server_watch.Base.{ℕ, ◌+◌, ◌<◌, ◌≤◌, ◌≡◌, ap₂, arith}
use server_watch.Model.{Floats}
use server_watch.Cpu.{
  two_64, add_64, sub_64, CpuStats, cpu_work_time, total_time, calculate_cpu_usage,
}

-- The counters of `s` after the times `d`: each wraps at 2^64.
abbrev pub advance : CpuStats → CpuStats → CpuStats
advance s d = record {
  user = add_64 s.user d.user;
  nice = add_64 s.nice d.nice;
  sys = add_64 s.sys d.sys;
  idle = add_64 s.idle d.idle;
  iowait = add_64 s.iowait d.iowait;
  irq = add_64 s.irq d.irq;
  softirq = add_64 s.softirq d.softirq;
  steal = add_64 s.steal d.steal;
}

abbrev pub working : CpuStats → ℕ
working d = d.user + d.nice + d.sys + d.irq + d.softirq + d.steal

abbrev pub elapsed : CpuStats → ℕ
elapsed d = working d + d.idle + d.iowait

-- Each counter is a `uint64`.
pub record IsUint64 (s : CpuStats) : Type 0 where
  pub user : s.user < two_64
  pub nice : s.nice < two_64
  pub sys : s.sys < two_64
  pub idle : s.idle < two_64
  pub iowait : s.iowait < two_64
  pub irq : s.irq < two_64
  pub softirq : s.softirq < two_64
  pub steal : s.steal < two_64

sub_64-add_64 : (a d : ℕ) → a < two_64 → d < two_64 → sub_64 (add_64 a d) a ≡ d
sub_64-add_64 a d ha hd = omega arith

add_64_small : (a b : ℕ) → a + b < two_64 → add_64 a b ≡ a + b
add_64_small a b h = omega arith

cpu_work_time-advance :
    (s d : CpuStats) → IsUint64 s → elapsed d < two_64 → cpu_work_time s (advance s d) ≡ working d
cpu_work_time-advance s d u h =
    rw
      (
        sub_64-add_64 s.user d.user u.user (omega arith),
        sub_64-add_64 s.nice d.nice u.nice (omega arith),
        sub_64-add_64 s.sys d.sys u.sys (omega arith),
        sub_64-add_64 s.irq d.irq u.irq (omega arith),
        sub_64-add_64 s.softirq d.softirq u.softirq (omega arith),
        sub_64-add_64 s.steal d.steal u.steal (omega arith),
      )
      (omega arith)

total_time-advance :
    (s d : CpuStats) → IsUint64 s → elapsed d < two_64 → total_time s (advance s d) ≡ elapsed d
total_time-advance s d u h =
    rw
      (
        cpu_work_time-advance s d u h,
        sub_64-add_64 s.idle d.idle u.idle (omega arith),
        sub_64-add_64 s.iowait d.iowait u.iowait (omega arith),
      )
      (omega arith)

-- For counters below 2^64 and times whose sum is below 2^64, the usage between a sample and the
-- one after those times, in which each counter has wrapped if it had to, is the working time over
-- the whole time in percent, with both times exact; the working time is at most the whole time.
pub calculate_cpu_usage-advance :
    {F : Type 0} (fl : Floats F) (s d : CpuStats)
    → IsUint64 s
    → elapsed d < two_64
    → (calculate_cpu_usage fl s (advance s d)
        ≡ fl.mul (fl.div (fl.of_ℕ (working d)) (fl.of_ℕ (elapsed d))) (fl.of_ℕ 100))
      × (working d ≤ elapsed d)
unfolding calculate_cpu_usage
calculate_cpu_usage-advance fl s d u h = (
  ap₂ (λ work total. fl.mul (fl.div (fl.of_ℕ work) (fl.of_ℕ total)) (fl.of_ℕ 100))
      (cpu_work_time-advance s d u h) (total_time-advance s d u h),
  omega arith,
)
