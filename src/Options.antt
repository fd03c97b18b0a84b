-- ===== src/Options.antt =====
-- options.go: how a session is configured.
use wslcsession.Base.{ℕ, ℤ, Bool, List, Bytes}

pub record VolumeOptions : Type 0 where
  pub name : Bytes
  pub size_mb : ℕ
  pub fixed : Bool

pub record Options : Type 0 where
  pub display_name : Bytes
  pub cpu_count : ℕ
  pub memory_mb : ℕ
  -- `time.Duration`, in nanoseconds
  pub boot_timeout : ℤ
  pub storage_path : Bytes
  pub max_storage_size_mb : ℕ
  pub volumes : List VolumeOptions
