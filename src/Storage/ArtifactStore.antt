-- ===== src/Storage/ArtifactStore.antt =====
-- The artifact store (backend/app/storage/artifact_store.py, hashing.py). The directory tree is a
-- list of files by path, each path another file: no link and no `..` makes two paths one file.
-- `created_at` is what `_utcnow()` returns in the call.
pub mod ReadBack
use agent_analysis.Prelude.{
  String, ◌==◌, ◌+s◌, List, [], ◌∷◌, Option, none, some, if◌then◌else◌, universal_newlines,
}
use mathlib.Core.Option
use agent_analysis.Platform.{Platform}
use agent_analysis.Schemas.Ledger.{ArtifactType, Artifact}

pub record ArtifactStore : Type 0 where
  pub root : String
  pub attempt_id : Option String
  pub files : List (String × String)

-- path.write_bytes(payload)
unfoldable pub write_file : String → String → List (String × String) → List (String × String)
write_file path payload [] = (path, payload) ∷ []
write_file path payload ((p, old) ∷ fs) =
    if p == path then (path, payload) ∷ fs else (p, old) ∷ write_file path payload fs

unfoldable pub read_file : String → List (String × String) → Option String
read_file path [] = none
read_file path ((p, content) ∷ fs) = if p == path then some content else read_file path fs

-- The keyword arguments of `write`.
pub record WriteRequest : Type 0 where
  pub run_id : String
  pub task_id : String
  pub name : String
  pub payload : String
  pub artifact_type : ArtifactType
  pub recorded_by : String
  pub created_at : String

module _ (os : Platform) where
  unfoldable pub hash_bytes : String → String
  hash_bytes payload = os.sha256 payload

  -- `base / attempt_id if attempt_id else base`
  scoped : String → Option String → String
  scoped base none = base
  scoped base (some attempt) = if attempt == "" then base else os.join_path base attempt

  unfoldable pub run_dir : ArtifactStore → String → String
  unfolding scoped
  run_dir s run_id = scoped (os.join_path s.root run_id) s.attempt_id

  unfoldable pub write : ArtifactStore → WriteRequest → ArtifactStore × Artifact
  unfolding hash_bytes
  write s r =
      let path = os.join_path (run_dir s r.run_id) r.name in
      (
        record s { files = write_file path r.payload s.files },
        record {
          artifact_id = r.run_id +s ":" +s r.name;
          run_id = r.run_id;
          task_id = r.task_id;
          artifact_type = r.artifact_type;
          path = path;
          hash = hash_bytes r.payload;
          attempt_id = s.attempt_id;
          created_at = r.created_at;
          recorded_by = r.recorded_by;
        },
      )

  -- The file is opened in text mode; `none` is a FileNotFoundError.
  unfoldable pub read_text : ArtifactStore → String → String → Option String
  read_text s run_id name =
      Option.map universal_newlines (read_file (os.join_path (run_dir s run_id) name) s.files)
