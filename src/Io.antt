-- ===== src/Io.antt =====
-- `std::io::Error`, and what the loaders do with a file before they decode it.
use avalanche_ops.Outcome.{
  Outcome, refuse_if, Attempt, attempt_or, ◌>>=◌, ◌>>◌, unwrap, ok, done, >>=-eq-ok,
}
use avalanche_ops.Prelude.{String, Bool, List, ℕ, not, ◌∷◌, [], Option, ◌≡◌, true, refl}
use avalanche_ops.Text.{format}

pub data ErrorKind : Type 0 where
  not_found invalid_input invalid_data other : ErrorKind

pub record Error : Type 0 where
  pub kind : ErrorKind
  pub message : String

-- `Error::new(ErrorKind::InvalidInput, …)` and the like
abbrev pub invalid_input_error : String → Error
invalid_input_error m = record { kind = invalid_input; message = m }

abbrev pub other_error : String → Error
other_error m = record { kind = other; message = m }

-- The files of the machine: which paths exist, and the bytes that opening and reading one gives.
pub record Files : Type 0 where
  pub exists : String → Bool
  pub read : String → Attempt (List ℕ)

-- `Path::exists`, `File::open` and serde's reader, with the three errors of the loaders.
unfoldable pub load_file {ℓ} :
    {A : Type ℓ} → Files → (language : String) → (List ℕ → Attempt A) → String → Outcome Error A
load_file files language from_reader file_path = do
  refuse_if (not (files.exists file_path)) (record {
    kind = not_found;
    message = format ("file " ∷ file_path ∷ " does not exists" ∷ []);
  })
  f ←
      attempt_or (λ e. other_error (format ("failed to open " ∷ file_path ∷ " (" ∷ e ∷ ")" ∷ [])))
        (files.read file_path)
  attempt_or (λ e. invalid_input_error (format ("invalid " ∷ language ∷ ": " ∷ e ∷ [])))
      (from_reader f)

-- What the savers do: `Path::parent`, `fs::create_dir_all`, and `File::create` with `write_all`, which
-- returns the files after it.
pub record Disk : Type 0 where
  pub parent : String → Option String
  pub create_dir_all : String → Outcome Error (Unit {0})
  pub write : String → List ℕ → Outcome Error Files

-- The savers: the parent directory, the bytes, and the file.
unfoldable pub save_file : Disk → String → Outcome Error (List ℕ) → Outcome Error Files
save_file disk file_path encoded = do
  parent_dir ← unwrap (disk.parent file_path)
  disk.create_dir_all parent_dir
  d ← encoded
  disk.write file_path d

-- An encoder's error under the message of the savers.
unfoldable pub encoded_as : (what language : String) → Attempt (List ℕ) → Outcome Error (List ℕ)
encoded_as what language a =
    attempt_or
      (λ e. other_error (format ("failed to serialize " ∷ what ∷ " to " ∷ language ∷ " " ∷ e ∷ [])))
      a

-- A written file is what the next reader finds.
pub record Holds (files : Files) (path : String) (d : List ℕ) : Type 0 where
  pub there : files.exists path ≡ true
  pub content : files.read path ≡ done d

-- Saving what an encoder gives, then loading it with a decoder that undoes it, gives the value back.
pub load_file-save_file {ℓ} :
    {A : Type ℓ} (disk : Disk) (files : Files) (language path : String) (d : List ℕ) (a : A)
    (from_reader : List ℕ → Attempt A)
    → ((d : List ℕ) (after : Files) → disk.write path d ≡ ok after → Holds after path d)
    → save_file disk path (ok d) ≡ ok files
    → from_reader d ≡ done a
    → load_file files language from_reader path ≡ ok a
unfolding save_file load_file
load_file-save_file disk files language path d a from_reader kept saved decoded =
    let (dir, _, made) =
      >>=-eq-ok (unwrap (disk.parent path)) (λ x. disk.create_dir_all x >> disk.write path d)
        saved in
    let (_, _, written) = >>=-eq-ok (disk.create_dir_all dir) (λ _. disk.write path d) made in
    let holds = kept d files written in rw (holds.there, holds.content, decoded) refl
