-- ===== src/Device.antt =====
-- The interface `Device` of src/device.hpp, as src/region.cpp and src/journal.cpp use it: pages of
-- bytes that are read and written one at a time. What the operating system answers is the
-- environment's: the return code of each read and write, and what a failed write leaves behind.
use kvtier.Prelude.{ℕ, List, ◌==◌, if◌then◌else◌, ℤ, eq_ℤ}
use kvtier.Common.{kv_eok}

pub record Device : Type 0 where
  pub dev_id : ℕ
  pub pages : ℕ → List ℕ
  pub read_rc : ℕ → ℤ
  pub write_rc : ℕ → ℤ
  pub torn : ℕ → List ℕ → List ℕ

-- `read_pages(p, buf, 1)`: the return code, and the page
unfoldable pub read_page : Device → ℕ → ℤ × List ℕ
read_page d p = (d.read_rc p, d.pages p)

abbrev pub put_page : Device → ℕ → List ℕ → Device
put_page d p bytes = record d { pages = λ q. if q == p then bytes else d.pages q }

-- `write_pages(p, buf, 1)`
unfoldable pub write_page : Device → ℕ → List ℕ → Device × ℤ
write_page d p bytes = (
  if eq_ℤ (d.write_rc p) kv_eok then put_page d p bytes else put_page d p (d.torn p bytes),
  d.write_rc p,
)
