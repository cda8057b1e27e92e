-- ===== src/Avalanche/Avalanchego/Genesis/RoundTrip.antt =====
-- Saving a genesis, then loading it.
use avalanche_ops.Prelude.{refl, String, List, ℕ, ◌≡◌}
use avalanche_ops.Io.{save_file, Disk, Files, Holds, load_file-save_file, encoded_as, Error}
use avalanche_ops.Avalanche.Avalanchego.Genesis.{
  Genesis, GenesisFile, load, sync, encoded, encoded_as, ok, with_c_chain,
}
use avalanche_ops.Outcome.{Outcome, Attempt, ok, done}

-- If a written file is what is read, the genesis encodes, and both decoders undo their encoders on it,
-- then loading the file that saving wrote gives the genesis back.
pub load-sync :
    {C : Type 0} (disk : Disk) (files : Files) (path s : String) (d : List ℕ) (g : Genesis C)
    (encode_json : C → Outcome Error String) (from_str : String → Attempt C)
    (to_vec : GenesisFile → Attempt (List ℕ)) (from_reader : List ℕ → Attempt GenesisFile)
    → ((d : List ℕ) (after : Files) → disk.write path d ≡ ok after → Holds after path d)
    → encode_json g.c_chain_genesis ≡ ok s
    → from_str s ≡ done g.c_chain_genesis
    → to_vec (with_c_chain s g) ≡ done d
    → from_reader d ≡ done (with_c_chain s g)
    → sync disk encode_json to_vec g path ≡ ok files
    → load files from_reader from_str path ≡ ok g
unfolding load sync encoded encoded_as
load-sync disk files path s d g encode_json from_str to_vec from_reader kept c1 c2 f1 f2 saved =
    let saved1 : save_file disk path (ok d) ≡ ok files = rw (c1, f1) at saved in
    rw
      (
        load_file-save_file disk files "JSON" path d (with_c_chain s g) from_reader kept saved1 f2,
        c2,
      )
      refl
