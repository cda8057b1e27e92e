-- ===== src/Avalanche/Avalanchego/Config/RoundTrip.antt =====
-- Saving a configuration, then loading it.
use avalanche_ops.Prelude.{refl, Option, List, String, some, ℕ, ◌≡◌, none}
use avalanche_ops.Avalanche.Avalanchego.Config.{Config, load, sync, ok, invalid_input_error}
use avalanche_ops.Io.{
  Disk, Files, Holds, save_file, load_file-save_file, encoded_as, invalid_input_error,
}
use avalanche_ops.Outcome.{Attempt, ok, done, err}

-- The path that saving writes to: the argument, or else the configuration's own path.
pub data Target (c : Config) : Option String → String → Type 0 where
  given : (p : String) → Target c (some p) p
  own : (p : String) → c.config_file ≡ some p → Target c none p

sync-save_file :
    (disk : Disk) (to_vec : Config → Attempt (List ℕ)) (c : Config) (file_path : Option String)
    (p : String)
    → Target c file_path p
    → sync disk to_vec c file_path ≡ save_file disk p (encoded_as "Config" "JSON" (to_vec c))
unfolding sync
sync-save_file disk to_vec c file_path p (given q) = refl
sync-save_file disk to_vec c file_path p (own q e) = rw e refl

-- If a written file is what is read, the configuration encodes, and the decoder undoes the encoder on
-- it, then loading from the path that saving wrote to gives the configuration back.
pub config_load-sync :
    (disk : Disk) (files : Files) (c : Config) (file_path : Option String) (p : String) (d : List ℕ)
    (to_vec : Config → Attempt (List ℕ)) (from_reader : List ℕ → Attempt Config)
    → Target c file_path p
    → ((d : List ℕ) (after : Files) → disk.write p d ≡ ok after → Holds after p d)
    → to_vec c ≡ done d
    → from_reader d ≡ done c
    → sync disk to_vec c file_path ≡ ok files
    → load files from_reader p ≡ ok c
unfolding load encoded_as
config_load-sync disk files c file_path p d to_vec from_reader target kept enc dec saved =
    let saved1 : save_file disk p (ok d) ≡ ok files =
      (let g = rw (sync-save_file disk to_vec c file_path p target, enc) at saved in g) in
    load_file-save_file disk files "JSON" p d c from_reader kept saved1 dec

-- Without a path of either kind, saving is refused.
pub sync-none :
    (disk : Disk) (to_vec : Config → Attempt (List ℕ)) (c : Config)
    → c.config_file ≡ none
    → sync disk to_vec c none ≡ err (invalid_input_error "empty config-file path")
unfolding sync
sync-none disk to_vec c e = rw e refl
