-- ===== src/Data/Exact.antt =====
-- The readings of memory and disk where nothing wraps around.
use native.Mathlib.Nat.{mul-le-mul_left, mul-sub}
use server_watch.Base.{
  ℕ, ◌*◌, ◌-◌, ◌%◌, ◌^◌, ◌≡◌, ◌≤◌, ◌<◌, sym, ap₂, ◌∙◌, String, List, ◌∷◌, some, ok, arith,
}
use server_watch.Model.{Floats}
use server_watch.Cpu.{two_64, sub_64}
use server_watch.Data.{
  DataEnv, DiskStats, returned, index_1, mul_64, shares, second_number, read_memory_stats,
  get_disk_stats,
}

sub_64-exact : (a b : ℕ) → b ≤ a → a < two_64 → sub_64 a b ≡ a - b
sub_64-exact a b h l = omega arith

mul_64-exact : (a b : ℕ) → a * b < two_64 → mul_64 a b ≡ a * b
mul_64-exact a b l = small (a * b) l
  where
    small : (n : ℕ) → n < two_64 → n % two_64 ≡ n
    small n h = omega arith

module _ {F : Type 0} (fl : Floats F) where
  -- The text of the kernel: the total on the first line, what is available on the third.
  pub record IsMeminfo (env : DataEnv) (text : String) (total available : ℕ) : Type 0 where
    pub l0 : String
    pub l1 : String
    pub l2 : String
    pub rest : List String
    pub total_field : String
    pub available_field : String
    pub lines : env.lines text ≡ l0 ∷ l1 ∷ l2 ∷ rest
    pub total_at : index_1 (env.fields l0) ≡ some total_field
    pub available_at : index_1 (env.fields l2) ≡ some available_field
    pub total_is : env.parse_uint total_field ≡ ok total
    pub available_is : env.parse_uint available_field ≡ ok available
    pub room : available ≤ total
    pub bound : total < two_64

  second_number_read :
      (env : DataEnv) (text line : String) {field : String} {n : ℕ}
      → index_1 (env.fields line) ≡ some field
      → env.parse_uint field ≡ ok n
      → second_number fl env text line ≡ returned (ok n)
  second_number_read env text line at is = ground (arith, at, is)

  -- If the file has at least three lines, with the total in the second field of the first and what
  -- is available, at most the total and below 2^64, in that of the third, `ReadMemoryStats`
  -- neither panics nor wraps around: it returns, in this order, the total divided by 1024, the
  -- total less what is available divided by 1024, and the latter difference divided by the total,
  -- times 100.
  pub read_memory_stats-exact :
      (env : DataEnv) (text : String) (total available : ℕ)
      → IsMeminfo env text total available
      → read_memory_stats fl env (ok text)
        ≡ returned (
            ok (
              fl.div (fl.of_ℕ total) (fl.of_ℕ 1024),
              fl.div (fl.of_ℕ (total - available)) (fl.of_ℕ 1024),
              fl.mul (fl.div (fl.of_ℕ (total - available)) (fl.of_ℕ total)) (fl.of_ℕ 100),
            ))
  unfolding read_memory_stats
  read_memory_stats-exact env text total available m = rw (
    m.lines,
    second_number_read env "ошибка перевода MemTotal в int" m.l0 m.total_at m.total_is,
    second_number_read env "ошибка перевода MemAvailable в int" m.l2 m.available_at m.available_is,
    sub_64-exact total available m.room m.bound,
  )

  -- If the total size in bytes is below 2^64, and no more blocks are free than there are,
  -- `GetDiskStats` returns the total, the size of the other blocks, and their share.
  pub get_disk_stats-exact :
      (stats : DiskStats)
      → stats.bavail ≤ stats.blocks
      → stats.bsize * stats.blocks < two_64
      → get_disk_stats fl (ok stats)
        ≡ ok (
            shares fl
              (2 ^ 30)
              (stats.bsize * stats.blocks)
              (stats.bsize * (stats.blocks - stats.bavail)))
  unfolding get_disk_stats
  get_disk_stats-exact stats room bound =
      let free_le = mul-le-mul_left stats.bsize room in
      let total = mul_64-exact stats.bsize stats.blocks bound in
      let free = mul_64-exact stats.bsize stats.bavail (omega arith) in
      ap₂ (λ t u. ok (shares fl (2 ^ 30) t u)) total
        (ap₂ sub_64 total free
          ∙ sub_64-exact (stats.bsize * stats.blocks) (stats.bsize * stats.bavail) free_le bound
          ∙ sym (mul-sub stats.bsize stats.blocks stats.bavail))
