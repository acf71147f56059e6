-- ===== src/GitTemp.antt =====
-- git_temp.rs: the scratch files that git leaves behind, their owners, and their removal.
pub mod Scan
pub mod Owner
pub mod Clean
pub mod Store
pub mod Found
pub mod Path
pub mod Safe
use dracon_system_disk_proce.Common.{ℕ, Option, List}
use dracon_system_disk_proce.Common.Text.{Text}
use dracon_system_disk_proce.Safety.{Canon}

pub record GitTempFile : Type 0 where
  pub path : Canon
  pub bytes : ℕ
  pub age_hours : Option ℕ

-- What `read_dir` shows of a directory, entry by entry: the name, unless it is no UTF-8, and the kind.
-- One that cannot be read shows nothing. A folder has what it shows, a link what `read_dir` shows
-- through it, and a file its size and time of change, in nanoseconds, unless they cannot be read.
pub data Listing : Type 0 where
  nothing : Listing
  folder link : Option Text → Listing → Listing → Listing
  file : Option Text → Option (ℕ × Option ℕ) → Listing → Listing
  other : Option Text → Listing → Listing
