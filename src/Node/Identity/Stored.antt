-- ===== src/Node/Identity/Stored.antt =====
-- internal/node/identity.go: the identity file in the state directory.
use sit.Prelude.{Text, text, Option, none, some, []}
use sit.Exec.{Result, ok, err, Exec, not_found, pure, fail, lift, gets, attempt, ◌>>=◌, ◌>>◌}
use sit.Setup.Paths.{dir, join}
use sit.Setup.Host.{
  Host, call, looked_at, unchanged, make_dirs, write_file, owner_only, owner_writes,
}
use sit.Node.Identity.{Identity, encode_identity, parse_identity}

abbrev pub identity_path : Text → Text
identity_path state_dir = join state_dir (text "identity.json")

abbrev parsed : Option Text → Result Identity
parsed none = err not_found
parsed (some b) = ok (parse_identity b)

unfoldable pub read_identity : Text → Exec Host Identity
read_identity path = do
  call (looked_at path) unchanged
  b ← gets (λ h. h.files path)
  lift (parsed b)

-- readable and writable by its owner alone
unfoldable pub write_identity : Text → Identity → Exec Host (Unit {0})
write_identity path id = do
  make_dirs (dir path) owner_only
  write_file path (encode_identity id) owner_writes

created : Text → Text → Exec Host Identity
created path fresh = do
  write_identity path (record { node_id = fresh; secret = [] })
  pure (record { node_id = fresh; secret = [] })

-- Only a missing file is created.
abbrev loaded_or : Text → Text → Result Identity → Exec Host Identity
loaded_or path fresh (ok id) = pure id
loaded_or path fresh (err not_found) = created path fresh
loaded_or path fresh (err e) = fail e

-- `fresh` is what NewID gives.
unfoldable pub load_or_create_identity : Text → Text → Exec Host Identity
unfolding created
load_or_create_identity state_dir fresh = do
  found ← attempt (read_identity (identity_path state_dir))
  loaded_or (identity_path state_dir) fresh found

unfoldable pub save_identity : Text → Identity → Exec Host (Unit {0})
save_identity state_dir id = write_identity (identity_path state_dir) id
