-- ===== src/Cpu.antt =====
-- internal/system/data/cpu.go. A `uint64` is a number below 2^64, and its sums and differences wrap.
-- The reading of /proc/stat, the fields of a text's first line and `strconv.ParseUint` are the
-- parameter `env`; the second of sleep between the two samples is left out.
pub mod Usage
use server_watch.Base.{
  ℕ, ◌+◌, ◌-◌, ◌%◌, String, List, [], ◌∷◌, message, wrap, Result, ok, err, Action, pure, raise,
  wrapping, ◌>>=◌,
}
use server_watch.Model.{Floats}

abbrev pub two_64 : ℕ
two_64 = 18446744073709551616

-- `a + b` and `a - b` on `uint64`.
abbrev pub add_64 : ℕ → ℕ → ℕ
add_64 a b = (a + b) % two_64

abbrev pub sub_64 : ℕ → ℕ → ℕ
sub_64 a b = (a + (two_64 - b)) % two_64

-- The array of eight counters.
pub record CpuStats : Type 0 where
  pub user : ℕ
  pub nice : ℕ
  pub sys : ℕ
  pub idle : ℕ
  pub iowait : ℕ
  pub irq : ℕ
  pub softirq : ℕ
  pub steal : ℕ

abbrev pub cpu_work_time : CpuStats → CpuStats → ℕ
cpu_work_time first second =
    add_64
      (add_64
        (add_64
          (add_64 (add_64 (sub_64 second.user first.user) (sub_64 second.nice first.nice))
            (sub_64 second.sys first.sys))
          (sub_64 second.irq first.irq))
        (sub_64 second.softirq first.softirq))
      (sub_64 second.steal first.steal)

abbrev pub total_time : CpuStats → CpuStats → ℕ
total_time first second =
    add_64 (add_64 (cpu_work_time first second) (sub_64 second.idle first.idle))
      (sub_64 second.iowait first.iowait)

unfoldable pub calculate_cpu_usage : {F : Type 0} → Floats F → CpuStats → CpuStats → F
calculate_cpu_usage fl first second =
    fl.mul (fl.div (fl.of_ℕ (cpu_work_time first second)) (fl.of_ℕ (total_time first second)))
      (fl.of_ℕ 100)

-- `first_fields` is `strings.Fields(strings.Split(text, "\n")[0])`.
pub record CpuEnv : Type 1 where
  pub St : Type 0
  pub read_stat : Action St String
  pub first_fields : String → List String
  pub parse_uint : String → Result ℕ

module _ (env : CpuEnv) where
  abbrev pub counter : String → String → Action env.St ℕ
  counter text field = wrapping text (λ s. (env.parse_uint field, s))

  -- The eight fields after the first; what follows them is not read.
  abbrev pub parse_fields : List String → Action env.St CpuStats
  parse_fields (_ ∷ f1 ∷ f2 ∷ f3 ∷ f4 ∷ f5 ∷ f6 ∷ f7 ∷ f8 ∷ _) = do
    user ← counter "ошибка перевода user в int" f1
    nice ← counter "ошибка перевода nice в int" f2
    sys ← counter "ошибка перевода system в int" f3
    idle ← counter "ошибка перевода idle в int" f4
    iowait ← counter "ошибка перевода iowait в int" f5
    irq ← counter "ошибка перевода irq в int" f6
    softirq ← counter "ошибка перевода softirq в int" f7
    steal ← counter "ошибка перевода steal в int" f8
    pure (record {
      user = user;
      nice = nice;
      sys = sys;
      idle = idle;
      iowait = iowait;
      irq = irq;
      softirq = softirq;
      steal = steal;
    })
  parse_fields _ = raise (message "недостаточное количество данных о процессоре")

  unfoldable pub read_cpu_stats : Action env.St CpuStats
  read_cpu_stats = do
    info ← wrapping "ошибка чтения /proc/stat" env.read_stat
    parse_fields (env.first_fields info)

  unfoldable pub get_cpu_usage : {F : Type 0} → Floats F → Action env.St F
  get_cpu_usage fl = do
    first ← wrapping "ошибка получения данных о процессоре" read_cpu_stats
    second ← wrapping "ошибка получения данных о процессоре" read_cpu_stats
    pure (calculate_cpu_usage fl first second)
