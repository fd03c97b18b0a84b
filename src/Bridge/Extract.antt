-- ===== src/Bridge/Extract.antt =====
-- When the sources of the helper are written, and what is left in the files.
use wslcsession.Base.{
  ℕ, ◌≡◌, ◌≢◌, ◌⊎◌, refl, false, Bytes, [], ◌∷◌, Option, none, some, arith, Ends, equal, equal→eq,
  equal_self, codes, Error, if◌then◌else◌,
}
use wslcsession.Base.Effects.{◌>>=◌}
use wslcsession.Base.Effects.Triple.{Triple, Triple-bind, Triple-return}
use wslcsession.Com.Trace.{Env, Trace, Reply, Call, read_file, write_file, perform}
use wslcsession.Bridge.{succeeded, holds, write_if_changed, extract_bridge_binary, bridge_dir, join}

-- What a call tells of the content of a file, if it succeeds.
abbrev tells : Bytes → Call → Reply → Option Bytes
tells path (read_file p) r = if equal p path then some r.bytes else none
tells path (write_file p content _) r = if equal p path then some content else none
tells path _ r = none

abbrev latest : Option Bytes → Option Error → Option Bytes → Option Bytes
latest (some b) none old = some b
latest _ _ old = old

-- What the history says that a file holds.
abbrev pub content_of : Bytes → Trace → Option Bytes
content_of path [] = none
content_of path (e ∷ t) = latest (tells path e.call e.reply) e.reply.failure (content_of path t)

join-bridge_entrypoint :
    (dir : Bytes) → equal (join dir (codes "entrypoint.sh")) (join dir (codes "bridge.c")) ≡ false
join-bridge_entrypoint [] = ground arith
join-bridge_entrypoint (c ∷ dir) = ground (arith, join-bridge_entrypoint dir)

equal-false : (s t : Bytes) → equal s t ≡ false → s ≢ t
equal-false s t h e = ground (arith, equal_self t)

succeeded-Triple :
    (r : Reply) → Triple (λ _. Unit {0}) (succeeded r) (λ _ _. Unit {0}) (λ _ _. Unit {0})
unfolding succeeded ◌>>=◌
succeeded-Triple r = record { at = λ t _. ground arith }

module _ (env : Env) where
  -- Neither function panics.
  pub extract_bridge_binary_total :
      (t : Trace) → Ends (extract_bridge_binary env t) (λ dir _. dir ≡ bridge_dir env) (λ _ _. Unit)
  unfolding extract_bridge_binary write_if_changed ◌>>=◌
  extract_bridge_binary_total t = ground arith

  -- A file that can be read and holds the content already is not written. Any other is written with the
  -- content and the mode, once, and the error of that is the error.
  pub write_if_changed_lem :
      (path content : Bytes) (mode : ℕ) (t : Trace)
      → let r = env.reply t (read_file path) in
        let seen = record { call = read_file path; reply = r } ∷ t in
        let s = env.reply seen (write_file path content mode) in
        let written = record { call = write_file path content mode; reply = s } ∷ seen in
        Ends
          (write_if_changed env path content mode t)
          (λ _ t'.
            ((r.failure ≡ none) × (r.bytes ≡ content) × (t' ≡ seen))
            ⊎ (((r.failure ≢ none) ⊎ (r.bytes ≢ content)) × (s.failure ≡ none) × (t' ≡ written)))
          (λ e t'.
            ((r.failure ≢ none) ⊎ (r.bytes ≢ content)) × (s.failure ≡ some e) × (t' ≡ written))
  unfolding write_if_changed holds ◌>>=◌
  write_if_changed_lem path content mode t = ground (
    arith,
    equal→eq (env.reply t (read_file path)).bytes content,
    equal-false (env.reply t (read_file path)).bytes content,
  )

  write_if_changed-content_of :
      (path content q : Bytes) (mode : ℕ) (t : Trace)
      → Ends
          (write_if_changed env path content mode t)
          (λ _ t'.
            (content_of path t' ≡ some content)
            × (equal path q ≡ false → content_of q t' ≡ content_of q t))
          (λ _ _. Unit)
  unfolding write_if_changed holds ◌>>=◌
  write_if_changed-content_of path content q mode t =
      ground (arith, equal→eq (env.reply t (read_file path)).bytes content, equal_self path)

  write_if_changed-Triple :
      (path content : Bytes) (mode : ℕ)
      → Triple
          (λ _. Unit {0})
          (write_if_changed env path content mode)
          (λ _ t. content_of path t ≡ some content)
          (λ _ _. Unit)
  write_if_changed-Triple path content mode = record {
    at = λ t _. ground (arith, write_if_changed-content_of path content path mode t);
  }

  write_other-Triple :
      (path content q : Bytes) (mode : ℕ) (c : Option Bytes)
      → equal path q ≡ false
      → Triple
          (λ t. content_of q t ≡ c)
          (write_if_changed env path content mode)
          (λ _ t. (content_of q t ≡ c) × (content_of path t ≡ some content))
          (λ _ _. Unit)
  write_other-Triple path content q mode c h = record {
    at = λ t k. ground (arith, write_if_changed-content_of path content q mode t);
  }

  -- When the helper's sources were extracted without an error, the last that was read from or written
  -- to each of the two files is its embedded source, and the directory is the one for them.
  pub extract_bridge_binary-content_of :
      (t : Trace)
      → Ends
          (extract_bridge_binary env t)
          (λ dir t'.
            (dir ≡ bridge_dir env)
            × (content_of (join dir (codes "bridge.c")) t' ≡ some env.bridge_source)
            × (content_of (join dir (codes "entrypoint.sh")) t' ≡ some env.bridge_entrypoint))
          (λ _ _. Unit)
  unfolding extract_bridge_binary perform
  extract_bridge_binary-content_of t =
      (Triple-bind {P = λ _. Unit {0}} _ _ (record { at = λ _ _. tt })
          (λ r. Triple-bind _ _ (succeeded-Triple r) (λ _.
            Triple-bind _ _ (write_if_changed-Triple _ _ _) (λ _.
              Triple-bind _ _
                (write_other-Triple _ _ _ _ _ (join-bridge_entrypoint (bridge_dir env)))
                (λ _. Triple-return (bridge_dir env) (λ _ k. (refl, k.0, k.1))))))).at
        t tt
