-- ===== src/Tests/Processors.antt =====
-- The usage of the CPU between two concrete samples.
use server_watch.Base.{◌≡◌, ◌≤◌, some, arith}
use server_watch.Cpu.{CpuStats, calculate_cpu_usage}
use server_watch.Cpu.Usage.{advance, calculate_cpu_usage-advance}
use server_watch.Tests.Stores.{numbers}

-- The user time is about to wrap.
abbrev start : CpuStats
start = record {
  user = 18446744073709551610;
  nice = 1;
  sys = 2;
  idle = 3;
  iowait = 4;
  irq = 5;
  softirq = 6;
  steal = 7;
}

abbrev passed : CpuStats
passed = record {
  user = 20;
  nice = 0;
  sys = 10;
  idle = 5;
  iowait = 5;
  irq = 0;
  softirq = 0;
  steal = 0;
}

calculate_cpu_usage-advance_example :
    (calculate_cpu_usage numbers start (advance start passed) ≡ some 0) × (30 ≤ 40)
calculate_cpu_usage-advance_example =
    calculate_cpu_usage-advance numbers start passed
      (record {
        user = omega arith;
        nice = omega arith;
        sys = omega arith;
        idle = omega arith;
        iowait = omega arith;
        irq = omega arith;
        softirq = omega arith;
        steal = omega arith;
      })
      (omega arith)
