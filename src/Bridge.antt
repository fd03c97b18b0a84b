-- ===== src/Bridge.antt =====
-- bridge.go: the helper's sources are written to a directory that the guest mounts.
pub mod Extract
use wslcsession.Base.{
  ℕ, Bytes, ◌∷◌, ◌++◌, Option, none, some, Error, Io, return, raise, if◌then◌else◌, equal, codes,
}
use wslcsession.Base.Effects.{◌>>=◌, ◌>>◌}
use wslcsession.Com.Trace.{Env, Trace, Reply, mkdir_all, read_file, write_file, perform}

abbrev pub guest_bridge_mount_path : Bytes
guest_bridge_mount_path = codes "/mnt/wslcsession-bridge"

-- `filepath.Join` of a clean Windows path and a plain name
abbrev pub join : Bytes → Bytes → Bytes
join dir name = dir ++ b'\\' ∷ name

succeeded : Reply → Io Trace (Unit {0})
succeeded r t = elim r.failure [ none ↦ return tt t | some e ↦ raise e t ]

-- The file that was read holds these bytes.
holds : Reply → Bytes → Io Trace (Unit {0}) → Io Trace (Unit {0})
holds r content otherwise t = elim r.failure [
  | none ↦ (if equal r.bytes content then return tt else otherwise) t
  | some _ ↦ otherwise t
]

module _ (env : Env) where
  unfoldable pub write_if_changed : Bytes → Bytes → ℕ → Io Trace (Unit {0})
  unfolding perform succeeded holds
  write_if_changed path content mode = do
    existing ← perform env (read_file path)
    holds existing content (perform env (write_file path content mode) >>= succeeded)

  abbrev pub bridge_dir : Bytes
  bridge_dir = join env.temp_dir (codes "wslcsession-bridge")

  unfoldable pub extract_bridge_binary : Io Trace Bytes
  unfolding perform succeeded
  extract_bridge_binary = do
    made ← perform env (mkdir_all bridge_dir 0o755)
    succeeded made
    write_if_changed (join bridge_dir (codes "bridge.c")) env.bridge_source 0o644
    write_if_changed (join bridge_dir (codes "entrypoint.sh")) env.bridge_entrypoint 0o755
    return bridge_dir
