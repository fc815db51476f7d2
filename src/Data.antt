-- ===== src/Data.antt =====
-- internal/system/data/memory.go and disk.go. The reading of /proc/meminfo, its division into lines and
-- fields, `strconv.ParseUint` and `unix.Statfs` are the parameter `env`. The CPU is in Cpu.antt.
pub mod Exact
use server_watch.Base.{
  ℕ, ◌*◌, ◌%◌, ◌^◌, Option, none, some, String, List, [], ◌∷◌, Error, wrap, Result, ok, err,
}
use server_watch.Model.{Floats}
use server_watch.Cpu.{two_64, sub_64}

-- A call that may also end the program, where it indexes a slice out of range.
pub data Outcome (A : Type 0) : Type 0 where
  panicked : Outcome A
  returned : Result A → Outcome A

-- The numbers of `unix.Statfs_t`, as unsigned 64-bit integers.
pub record DiskStats : Type 0 where
  pub bsize : ℕ
  pub blocks : ℕ
  pub bavail : ℕ

pub record DataEnv : Type 0 where
  pub lines : String → List String
  pub fields : String → List String
  pub parse_uint : String → Result ℕ

-- `a * b` on `uint64`.
abbrev pub mul_64 : ℕ → ℕ → ℕ
mul_64 a b = (a * b) % two_64

-- The index 1 of a slice.
abbrev pub index_1 : List String → Option String
index_1 (_ ∷ field ∷ _) = some field
index_1 _ = none

module _ {F : Type 0} (fl : Floats F) where
  -- Total and used in a unit, and the share of use in percent.
  abbrev pub shares : ℕ → ℕ → ℕ → F × F × F
  shares unit total used = (
    fl.div (fl.of_ℕ total) (fl.of_ℕ unit),
    fl.div (fl.of_ℕ used) (fl.of_ℕ unit),
    fl.mul (fl.div (fl.of_ℕ used) (fl.of_ℕ total)) (fl.of_ℕ 100),
  )

  module _ (env : DataEnv) where
    -- `strconv.ParseUint(strings.Fields(line)[1], 10, 64)`
    abbrev pub second_number : String → String → Outcome ℕ
    second_number text line = elim (index_1 (env.fields line)) [
      | none ↦ panicked
      | some field ↦ elim (env.parse_uint field) [
        | ok n ↦ returned (ok n)
        | err e ↦ returned (err (wrap text e))
      ]
    ]

    abbrev pub after_number : Outcome ℕ → (ℕ → Outcome (F × F × F)) → Outcome (F × F × F)
    after_number panicked next = panicked
    after_number (returned (err e)) next = returned (err e)
    after_number (returned (ok n)) next = next n

    -- The first and the third of the lines are read, whatever their labels.
    abbrev pub read_lines : List String → Outcome (F × F × F)
    read_lines (l0 ∷ l1 ∷ l2 ∷ _) =
        after_number (second_number "ошибка перевода MemTotal в int" l0) (λ total.
          after_number (second_number "ошибка перевода MemAvailable в int" l2)
            (λ available. returned (ok (shares (2 ^ 10) total (sub_64 total available)))))
    read_lines _ = panicked

    -- `file` is the result of `os.ReadFile`.
    unfoldable pub read_memory_stats : Result String → Outcome (F × F × F)
    read_memory_stats (err e) = returned (err (wrap "ошибка чтения /proc/meminfo" e))
    read_memory_stats (ok text) = read_lines (env.lines text)

  -- `statfs` is the result of `unix.Statfs`.
  unfoldable pub get_disk_stats : Result DiskStats → Result (F × F × F)
  get_disk_stats (err e) = err (wrap "ошибка Statfs" e)
  get_disk_stats (ok stats) =
      let available = mul_64 stats.bsize stats.bavail in
      let total = mul_64 stats.bsize stats.blocks in
      ok (shares (2 ^ 30) total (sub_64 total available))
