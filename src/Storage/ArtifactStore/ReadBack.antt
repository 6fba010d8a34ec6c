-- ===== src/Storage/ArtifactStore/ReadBack.antt =====
-- What the store gives back of what was written.
use agent_analysis.Prelude.{
  String, ◌==◌, ◌≡◌, refl, eq_iff, List, [], ◌∷◌, some, if◌then◌else◌, arith, ap, ◌∙◌, subst,
  Bool-cases, inl, inr, universal_newlines, universal_newlines-id, HasNoReturn,
}
use mathlib.Core.Option
use agent_analysis.Platform.{Platform}
use agent_analysis.Storage.ArtifactStore.{
  ArtifactStore, write_file, read_file, hash_bytes, WriteRequest, run_dir, write, read_text,
}

read_file-write_file :
    (p q payload : String) (files : List (String × String))
    → read_file q (write_file p payload files)
      ≡ (if p == q then some payload else read_file q files)
unfolding read_file write_file
read_file-write_file p q payload [] = ground arith
read_file-write_file p q payload ((r, old) ∷ files) =
    let one = eq_iff r p in
    let two = eq_iff p q in
    let three = eq_iff r q in ground (arith, read_file-write_file p q payload files)

module _ (os : Platform) where
  read_text-write_file :
      (s : ArtifactStore) (r : WriteRequest) (run_id name : String)
      → read_text os (write os s r).0 run_id name ≡ (
          if os.join_path (run_dir os s r.run_id) r.name == os.join_path (run_dir os s run_id) name
          then some (universal_newlines r.payload)
          else read_text os s run_id name)
  unfolding read_text write run_dir
  read_text-write_file s r run_id name =
      let p = os.join_path (run_dir os s r.run_id) r.name in
      let q = os.join_path (run_dir os s run_id) name in
      ap (Option.map universal_newlines) (read_file-write_file p q r.payload s.files)
      ∙ elim (Bool-cases (p == q)) [
        | inl t ↦ rw (t, if◌then◌else◌) refl
        | inr f ↦ rw (f, if◌then◌else◌) refl
      ]

  -- After the write of a payload with no carriage return, which a read in text mode would turn into a
  -- line feed, reading a name of a run in the same attempt gives the payload where its path is the
  -- written one, and what it gave before where its path is another, of another file; the artifact has
  -- the digest of the payload and the attempt of the store.
  pub read_text-write :
      (s : ArtifactStore) (r : WriteRequest) (run_id name : String)
      → HasNoReturn r.payload
      → (read_text os (write os s r).0 run_id name ≡ (
          if os.join_path (run_dir os s r.run_id) r.name == os.join_path (run_dir os s run_id) name
          then some r.payload
          else read_text os s run_id name))
        × ((write os s r).1.hash ≡ os.sha256 r.payload)
        × ((write os s r).1.attempt_id ≡ s.attempt_id)
  unfolding write hash_bytes
  read_text-write s r run_id name plain = (
    subst
        (λ payload. read_text os (write os s r).0 run_id name ≡ (
          if os.join_path (run_dir os s r.run_id) r.name == os.join_path (run_dir os s run_id) name
          then some payload
          else read_text os s run_id name))
        (universal_newlines-id r.payload plain) (read_text-write_file s r run_id name),
    refl,
    refl,
  )
